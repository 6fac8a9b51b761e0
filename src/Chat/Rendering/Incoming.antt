-- ===== src/Chat/Rendering/Incoming.antt =====
-- Messages of the server and the rendering (`handleMessage` of frontend/app.js).
use wifi_chat.Base.{
  ℕ, ◌≡◌, refl, Bool, true, false, ◌&&◌, Option, none, some, List, [], ◌∷◌, ◌++◌, if◌then◌else◌,
  arith, inl, inr, Bool-cases, map,
}
use wifi_chat.Js.Text.{Text, js, str_eq, str_eq_iff, truthy, or_else, starts_with}
use wifi_chat.Js.Dict.{get-put}
use wifi_chat.Call.State.{Signal}
use wifi_chat.Chat.State.{
  init_call, View, room, dm, Message, Status, delivered, read, Chat, dm_key, messages_at,
}
use wifi_chat.Chat.Store.{add_system_message}
use wifi_chat.Chat.Messages.{
  Decrypt, Incoming, error, system, user_list, message, direct, dm_history, history, user_joined,
  user_left, typing, call_signal, delivery_ack, receipt, unknown_error, acknowledge, on_error,
  restore_view, on_system, on_dm, merge_history, finish_dm_history, on_history, on_call_signal,
  update_if_named, or_status, as_room_message, open_history, handle_message, import_key, is_other,
}
use wifi_chat.Chat.Rendering.{
  is_plain, IsRendered, add_system_message-IsRendered, store_and_render-IsRendered,
  update_message_status-IsRendered, show_typing-IsRendered, switch_to_room-IsRendered,
  switch_to_dm-IsRendered,
}

-- A plain name is no key of a conversation.
plain-ne : (peer name : Text) → is_plain name ≡ true → str_eq (dm_key peer) name ≡ false
unfolding str_eq starts_with
plain-ne peer [] p = refl
plain-ne peer (a ∷ []) p = ground arith
plain-ne peer (a ∷ b ∷ []) p = ground arith
plain-ne peer (a ∷ b ∷ d ∷ s) p = ground arith

plain-ne_sym : (peer name : Text) → is_plain name ≡ true → str_eq name (dm_key peer) ≡ false
unfolding str_eq starts_with
plain-ne_sym peer [] p = refl
plain-ne_sym peer (a ∷ []) p = ground arith
plain-ne_sym peer (a ∷ b ∷ []) p = ground arith
plain-ne_sym peer (a ∷ b ∷ d ∷ s) p = ground arith

module _ {c : Chat} (h : IsRendered c) where
  on_error-IsRendered : (err text : Text) (now : ℕ) → IsRendered (on_error err text now c)
  unfolding on_error
  on_error-IsRendered err text now = ground (
    arith,
    add_system_message-IsRendered h (js "Error: " ++ or_else (or_else err text) unknown_error) []
        now,
  )

  -- A history that is for the view is rendered, and any other one goes elsewhere.
  history_by_view :
      (peer : Text) (ms : List Message) (v : View)
      → c.view ≡ v
      → IsRendered (finish_dm_history peer ms c)
  unfolding finish_dm_history
  history_by_view peer ms (dm name) e =
      let merged = merge_history ms (messages_at (dm_key peer) c) in
      ground (
        arith,
        get-put (dm_key peer) (dm_key name) merged c.store,
        str_eq_iff name peer,
        str_eq_iff (dm_key peer) (dm_key name),
      )
  history_by_view peer ms (room name) e =
      let merged = merge_history ms (messages_at (dm_key peer) c) in
      ground (arith, get-put (dm_key peer) name merged c.store, plain-ne peer name)

  room_history_by_view :
      (name : Text) (ms : List Message) (v : View)
      → is_plain name ≡ true
      → c.view ≡ v
      → IsRendered (on_history name ms c)
  unfolding on_history
  room_history_by_view name ms (room here) plain e = ground (
    arith,
    get-put name here (map as_room_message ms) c.store,
    str_eq_iff here name,
    str_eq_iff name here,
  )
  room_history_by_view name ms (dm peer) plain e =
      ground
        (arith, get-put name (dm_key peer) (map as_room_message ms) c.store, plain-ne_sym peer name)

  on_call_signal-IsRendered : (m : Signal) → IsRendered (on_call_signal m c)
  unfolding on_call_signal
  on_call_signal-IsRendered m = ground arith

  acknowledge-IsRendered : (peer id : Text) → IsRendered (acknowledge peer id c)
  acknowledge-IsRendered peer id = ground arith

pub on_dm-IsRendered :
    {c : Chat} → IsRendered c → (decrypt : Decrypt) (m : Message) → IsRendered (on_dm decrypt m c)
unfolding on_dm
on_dm-IsRendered {c} h decrypt m = elim (Bool-cases (str_eq m.from c.my_username)) [
  | inl own ↦ simp own h
  | inr theirs ↦
      simp theirs (
        acknowledge-IsRendered (store_and_render-IsRendered (dm_key m.from) _ h) m.from
          m.message_id)
]

restore_by_saved :
    (s : Option View) {c : Chat} → c.saved_view ≡ s → IsRendered c → IsRendered (restore_view c)
unfolding restore_view
restore_by_saved none e h = ground arith
restore_by_saved (some (dm name)) {c} e h =
    ground (arith, switch_to_dm-IsRendered name (record c { view_restored = true }))
restore_by_saved (some (room name)) {c} e h =
    ground (arith, switch_to_room-IsRendered name (record c { view_restored = true }))

pub on_system-IsRendered :
    (content where_ : Text) (now : ℕ) {c : Chat}
    → IsRendered c
    → IsRendered (on_system content where_ now c)
unfolding on_system
on_system-IsRendered content where_ now {c} h =
    let c' = record c { login_shown = false; calls = c.calls ++ init_call ∷ [] } in
    restore_by_saved (add_system_message content where_ now c').saved_view refl
      (add_system_message-IsRendered {c = c'} (ground arith) content where_ now)

-- A room's history comes under a plain name.
abbrev pub plain_incoming : Incoming → Bool
plain_incoming (history name _) = is_plain name
plain_incoming _ = true

pub update_if_named-IsRendered :
    {c : Chat} → IsRendered c → (id : Text) (s : Status) → IsRendered (update_if_named id s c)
update_if_named-IsRendered h id s = ground (arith, update_message_status-IsRendered h id s)

pub handle_message-IsRendered :
    (decrypt : Decrypt) (now : ℕ) (m : Incoming) {c : Chat}
    → plain_incoming m ≡ true
    → IsRendered c
    → IsRendered (handle_message decrypt now m c)
unfolding handle_message
handle_message-IsRendered decrypt now (error err text) p h = on_error-IsRendered h err text now
handle_message-IsRendered decrypt now (system content where_) p h =
    on_system-IsRendered content where_ now h
handle_message-IsRendered decrypt now (message name m) p h = store_and_render-IsRendered name _ h
handle_message-IsRendered decrypt now (direct m) p h = on_dm-IsRendered h decrypt m
handle_message-IsRendered decrypt now (dm_history peer ms) {c} p h =
    history_by_view h peer (map (open_history decrypt c.my_username) ms) c.view refl
handle_message-IsRendered decrypt now (history name ms) {c} p h =
    room_history_by_view h name ms c.view p refl
handle_message-IsRendered decrypt now (user_joined user where_ key) {c} p h =
    add_system_message-IsRendered
      {c = if truthy key && is_other c.my_username user then import_key user key c else c}
      (ground arith) (user ++ js " joined") where_ now
handle_message-IsRendered decrypt now (user_left user where_) p h =
    add_system_message-IsRendered h (user ++ js " left") where_ now
handle_message-IsRendered decrypt now (typing user where_) p h =
    show_typing-IsRendered h user where_
handle_message-IsRendered decrypt now (call_signal m) p h = on_call_signal-IsRendered h m
handle_message-IsRendered decrypt now (delivery_ack id s) p h =
    update_if_named-IsRendered h id (or_status s delivered)
handle_message-IsRendered decrypt now (receipt id s) p h =
    update_if_named-IsRendered h id (or_status s read)
handle_message-IsRendered decrypt now (user_list names keys) p h = ground arith
handle_message-IsRendered decrypt now m p h = ground arith
