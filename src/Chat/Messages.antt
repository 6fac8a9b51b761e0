-- ===== src/Chat/Messages.antt =====
-- `handleMessage` of frontend/app.js: what the page does with each message of the server.
use wifi_chat.Base.{
  ℕ, Bool, true, false, not, ◌&&◌, ◌||◌, Option, none, some, List, [], ◌∷◌, ◌++◌, if◌then◌else◌,
  filter, map,
}
use wifi_chat.Js.Text.{Text, js, str_eq, truthy, or_else}
use wifi_chat.Js.Dict.{put}
use wifi_chat.Call.State.{Signal, call_request}
use wifi_chat.Chat.State.{
  room, dm, Message, room_message, direct_message, Status, absent, delivered, read, read_receipt,
  Chat, init_call, handle, general, dm_key, messages_at, send, is_sent, or_delivered,
}
use wifi_chat.Chat.Store.{
  save_store, render_messages, store_and_render, add_system_message, update_message_status,
  show_notification,
}
use wifi_chat.Chat.Views.{switch_to_room, switch_to_dm, show_typing}

-- A message of the server, by its `type`. A field that is absent is empty.
pub data Incoming : Type 0 where
  -- `error`, `message`
  error : Text → Text → Incoming
  -- `content`, `room`
  system : Text → Text → Incoming
  room_list : List Text → Incoming
  user_list : List Text → List (Text × Text) → Incoming
  room_users : Text → List Text → Incoming
  -- the room, and the other fields
  message : Text → Message → Incoming
  direct : Message → Incoming
  dm_history : Text → List Message → Incoming
  history : Text → List Message → Incoming
  -- `username`, `room`, `public_key`
  user_joined : Text → Text → Text → Incoming
  key_exchange : Text → Text → Incoming
  user_left : Text → Text → Incoming
  -- `username`, `room`
  typing : Text → Text → Incoming
  call_signal : Signal → Incoming
  -- `ref_id`, `status`
  delivery_ack : Text → Status → Incoming
  receipt : Text → Status → Incoming
  unknown : Incoming

abbrev pub unknown_error : Text
unknown_error = js "Unknown error"

-- The text of an error, on the login screen or in the conversation.
unfoldable pub on_error : Text → Text → ℕ → Chat → Chat
on_error err text now c =
    let shown = or_else (or_else err text) unknown_error in
    if c.login_shown
    then record c { login_error = shown }
    else add_system_message (js "Error: " ++ shown) [] now c

-- The view of the last page load is taken up once, after the first system message.
unfoldable pub restore_view : Chat → Chat
restore_view c =
    if c.view_restored
    then c
    else let c' = record c { view_restored = true } in
      elim c.saved_view [
        | none ↦ c'
        | some (dm name) ↦ if truthy name then switch_to_dm name c' else c'
        | some (room name) ↦
            if truthy name && not (str_eq name general) then switch_to_room name c' else c'
      ]

unfoldable pub on_system : Text → Text → ℕ → Chat → Chat
unfolding restore_view
on_system content where_ now c = restore_view (
    add_system_message content where_ now
      (record c { login_shown = false; calls = c.calls ++ init_call ∷ [] }))

abbrev pub import_key : Text → Text → Chat → Chat
import_key user key c = record c { imported = c.imported ++ (user, key) ∷ [] }

abbrev pub is_other : Text → Text → Bool
is_other me user = not (str_eq user me)

unfoldable pub on_user_list : List Text → List (Text × Text) → Chat → Chat
unfolding filter
on_user_list names keys c = record c {
  users = filter (is_other c.my_username) names;
  imported = c.imported ++ filter (λ e. is_other c.my_username e.0) keys;
}

-- `decrypt` stands for `cryptoManager.decrypt` of the named peer, which gives `null` on failure.
abbrev pub Decrypt : Type 0
Decrypt = Text → Text → Option Text

abbrev pub or_text : Option Text → Text → Text
or_text none d = d
or_text (some s) d = if truthy s then s else d

unfoldable pub opened : Decrypt → Text → Text → Message → Text
opened decrypt peer failure m =
    if m.encrypted then or_text (decrypt peer m.content) failure else m.content

abbrev pub dm_failure : Text
dm_failure = js "🔒 [Encrypted message - key unavailable]"

abbrev pub history_failure : Text
history_failure = js "🔒 [Encrypted - key unavailable]"

abbrev pub is_viewing : Text → Chat → Bool
is_viewing peer c = elim c.view [ room _ ↦ false | dm name ↦ str_eq name peer ]

abbrev pub is_in_room : Text → Chat → Bool
is_in_room name c = elim c.view [ room here ↦ str_eq here name | dm _ ↦ false ]

-- The receipt for a message that arrives in the open conversation.
abbrev pub acknowledge : Text → Text → Chat → Chat
acknowledge peer id c = if is_viewing peer c && truthy id then send (read_receipt peer id) c else c

-- The server's echo of the user's own message is skipped.
unfoldable pub on_dm : Decrypt → Message → Chat → Chat
unfolding opened store_and_render
on_dm decrypt m c =
    if str_eq m.from c.my_username
    then c
    else acknowledge m.from m.message_id (
        store_and_render (dm_key m.from)
          (record m {
            kind = direct_message;
            content = opened decrypt m.from dm_failure m;
            status = delivered;
          })
          c)

unfoldable pub open_history : Decrypt → Text → Message → Message
unfolding opened
open_history decrypt me m = record m {
  kind = direct_message;
  content = opened decrypt (if str_eq m.from me then m.to else m.from) history_failure m;
  status = or_delivered m.status;
}

-- `serverIds.has(id)`, for an identifier that is not empty.
unfoldable pub has_id : Text → List Message → Bool
has_id id [] = false
has_id id (m ∷ ms) = str_eq m.message_id id || has_id id ms

-- A message of the store that the server does not have yet.
abbrev pub is_pending : List Message → Message → Bool
is_pending server m = truthy m.message_id && is_sent m.status && not (has_id m.message_id server)

unfoldable pub merge_history : List Message → List Message → List Message
unfolding filter
merge_history server existing = server ++ filter (is_pending server) existing

-- What the loop of decryptions ends with; the store is read when it has ended.
unfoldable pub finish_dm_history : Text → List Message → Chat → Chat
finish_dm_history peer server c =
    let merged = merge_history server (messages_at (dm_key peer) c) in
    let c' = save_store (record c { store = put (dm_key peer) merged c.store }) in
    if is_viewing peer c then render_messages c' else c'

unfoldable pub as_room_message : Message → Message
as_room_message m = record m {
  kind = room_message;
  to = [];
  encrypted = false;
  status = or_delivered m.status;
}

unfoldable pub on_history : Text → List Message → Chat → Chat
unfolding as_room_message
on_history name ms c =
    let c' = save_store (record c { store = put name (map as_room_message ms) c.store }) in
    if is_in_room name c then render_messages c' else c'

unfoldable pub on_call_signal : Signal → Chat → Chat
on_call_signal m c =
    let label = if str_eq m.call_type (js "video") then js "Video" else js "Voice" in
    let c' = record c { calls = c.calls ++ handle m ∷ [] } in
    elim m.kind [
      | call_request ↦
          show_notification (js "Incoming " ++ label ++ js " Call") (m.from ++ js " is calling you")
            (js "incoming-call") c'
      | _ ↦ c'
    ]

abbrev pub or_status : Status → Status → Status
or_status absent d = d
or_status s d = s

abbrev pub update_if_named : Text → Status → Chat → Chat
update_if_named id s c = if truthy id then update_message_status id s c else c

-- `handleMessage`, at the time `now`
unfoldable pub handle_message : Decrypt → ℕ → Incoming → Chat → Chat
unfolding on_error on_system on_user_list on_dm finish_dm_history on_history on_call_signal
handle_message decrypt now (error err text) c = on_error err text now c
handle_message decrypt now (system content where_) c = on_system content where_ now c
handle_message decrypt now (room_list names) c = record c { rooms = names }
handle_message decrypt now (user_list names keys) c = on_user_list names keys c
handle_message decrypt now (room_users name names) c = record c {
  room_users = put name names c.room_users;
}
handle_message decrypt now (message name m) c =
    store_and_render name
      (record m { kind = room_message; to = []; encrypted = false; status = absent }) c
handle_message decrypt now (direct m) c = on_dm decrypt m c
handle_message decrypt now (dm_history peer ms) c =
    finish_dm_history peer (map (open_history decrypt c.my_username) ms) c
handle_message decrypt now (history name ms) c = on_history name ms c
handle_message decrypt now (user_joined user where_ key) c =
    add_system_message (user ++ js " joined") where_ now
      (if truthy key && is_other c.my_username user then import_key user key c else c)
handle_message decrypt now (key_exchange from key) c =
    if truthy key && truthy from then import_key from key c else c
handle_message decrypt now (user_left user where_) c =
    add_system_message (user ++ js " left") where_ now c
handle_message decrypt now (typing user where_) c = show_typing user where_ c
handle_message decrypt now (call_signal m) c = on_call_signal m c
handle_message decrypt now (delivery_ack id s) c = update_if_named id (or_status s delivered) c
handle_message decrypt now (receipt id s) c = update_if_named id (or_status s read) c
handle_message decrypt now unknown c = c
