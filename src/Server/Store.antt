-- ===== src/Server/Store.antt =====
-- internal/store/store.go: the messages in memory and their file.
use wifi_chat.Base.{
  ℕ, suc, ◌-◌, ltb, leb, Bool, not, ◌&&◌, ◌||◌, List, [], ◌∷◌, ◌++◌, if◌then◌else◌, length, drop,
  filter,
}
use wifi_chat.Js.Text.{Text, str_eq, truthy}
use wifi_chat.Server.Message.{StoredMessage}

-- `MessageStore`; the file is the list of its lines.
pub record MessageStore : Type 0 where
  pub messages : List StoredMessage
  pub next_id : ℕ
  pub disk : List StoredMessage

abbrev pub max_in_memory : ℕ
max_in_memory = 50000

-- `evictOldLocked`, for a given limit
abbrev pub evict_old : ℕ → List StoredMessage → List StoredMessage
evict_old limit ms = if ltb limit (length ms) then drop (length ms - limit) ms else ms

-- `SaveMessage` and `SaveDM`, which differ in the flag. The file is written to without an error.
unfoldable pub save : Bool → ℕ → StoredMessage → MessageStore → MessageStore
save is_dm now m s =
    let m' = record m { id = s.next_id; timestamp = now; is_dm = is_dm } in
    record {
      messages = evict_old max_in_memory (s.messages ++ m' ∷ []);
      next_id = suc s.next_id;
      disk = s.disk ++ m' ∷ [];
    }

-- The end of a list, of at most `n` elements.
abbrev pub last_of {ℓ} : {A : Type ℓ} → ℕ → List A → List A
last_of n xs = if ltb n (length xs) then drop (length xs - n) xs else xs

-- `GetRoomMessages`
abbrev pub is_of_room : Text → StoredMessage → Bool
is_of_room room m = not m.is_dm && str_eq m.room room

unfoldable pub get_room_messages : Text → ℕ → MessageStore → List StoredMessage
unfolding filter
get_room_messages room limit s = last_of limit (filter (is_of_room room) s.messages)

-- `GetDMs`
abbrev pub is_between : Text → Text → StoredMessage → Bool
is_between a b m = m.is_dm && (str_eq m.from a && str_eq m.to b || str_eq m.from b && str_eq m.to a)

unfoldable pub get_dms : Text → Text → ℕ → MessageStore → List StoredMessage
unfolding filter
get_dms a b limit s = last_of limit (filter (is_between a b) s.messages)

-- The loop of `UpdateDMStatus`, from the end: the messages after it, whether one has the identifier,
-- and whether its status changed.
pub data Update : Type 0 where
  absent unchanged : Update
  changed : List StoredMessage → Update

abbrev pub has_msg_id : Text → StoredMessage → Bool
has_msg_id id m = m.is_dm && str_eq m.msg_id id

unfoldable pub mark_last : Text → Text → List StoredMessage → Update
mark_last id status [] = absent
mark_last id status (m ∷ ms) = elim (mark_last id status ms) [
  | changed ns ↦ changed (m ∷ ns)
  | unchanged ↦ unchanged
  | absent ↦
      if has_msg_id id m
      then (if str_eq m.status status
          then unchanged
          else changed (record m { status = status } ∷ ms))
      else absent
]

-- `UpdateDMStatus`; a change writes the whole file anew from memory.
unfoldable pub update_dm_status : Text → Text → MessageStore → MessageStore
unfolding mark_last
update_dm_status id status s =
    if not (truthy id) then s else elim (mark_last id status s.messages) [
      | absent ↦ s
      | unchanged ↦ s
      | changed ms ↦ record s { messages = ms; disk = ms }
    ]

-- The loop of `loadFromDisk`.
unfoldable pub load_lines : List StoredMessage → MessageStore → MessageStore
load_lines [] s = s
load_lines (m ∷ ms) s = load_lines ms (record s {
  messages = s.messages ++ m ∷ [];
  next_id = if leb s.next_id m.id then suc m.id else s.next_id;
})

-- `NewMessageStore`, on a file whose lines can be read.
unfoldable pub new_message_store : List StoredMessage → MessageStore
unfolding load_lines
new_message_store disk = load_lines disk (record { messages = []; next_id = 1; disk = disk })
