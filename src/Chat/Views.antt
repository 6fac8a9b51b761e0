-- ===== src/Chat/Views.antt =====
-- Navigation in frontend/app.js: `switchToRoom`, `switchToDM`, `sendReadReceipts`, the click on the
-- leave button and the typing indicator.
use wifi_chat.Base.{
  Bool, true, false, not, ◌&&◌, none, some, List, [], ◌∷◌, ◌++◌, if◌then◌else◌, is_some,
}
use wifi_chat.Js.Text.{Text, js, str_eq, truthy}
use wifi_chat.Js.Dict.{get, put, remove}
use wifi_chat.Chat.State.{
  View, room, dm, Message, read, Packet, join_room, leave_room, get_dm_history, read_receipt,
  typing_in, typing_to, Chat, general, dm_key, messages_at, send, is_read,
}
use wifi_chat.Chat.Store.{save_store, render_messages}

-- `currentView = view`, saved for the next page load.
abbrev pub set_view : View → Chat → Chat
set_view v c = record c { view = v; saved_view = some v }

unfoldable pub switch_to_room : Text → Chat → Chat
switch_to_room name c =
    let viewed = set_view (room name) c in
    let counted = record viewed { unread = put name 0 viewed.unread } in
    render_messages (if is_some (get name c.store) then counted else send (join_room name) counted)

-- A message of the peer for which a receipt is due.
abbrev pub is_due : Text → Message → Bool
is_due peer m = str_eq m.from peer && truthy m.message_id && not (is_read m.status)

-- The loop of `sendReadReceipts`: the receipts, and the messages after it.
unfoldable pub receipts : Text → List Message → List Packet
receipts peer [] = []
receipts peer (m ∷ ms) =
    let rest = receipts peer ms in
    if is_due peer m then read_receipt peer m.message_id ∷ rest else rest

unfoldable pub mark_read : Text → List Message → List Message
mark_read peer [] = []
mark_read peer (m ∷ ms) =
    (if is_due peer m then record m { status = read } else m) ∷ mark_read peer ms

-- A conversation that is not in the store stays out of it.
unfoldable pub send_read_receipts : Text → Chat → Chat
send_read_receipts peer c = elim (get (dm_key peer) c.store) [
  | none ↦ save_store c
  | some ms ↦ save_store (record c {
    out = if c.online then c.out ++ receipts peer ms else c.out;
    store = put (dm_key peer) (mark_read peer ms) c.store;
  })
]

abbrev pub is_empty : List Message → Bool
is_empty [] = true
is_empty (m ∷ ms) = false

unfoldable pub switch_to_dm : Text → Chat → Chat
unfolding send_read_receipts
switch_to_dm user c =
    let viewed = set_view (dm user) c in
    let counted = record viewed { unread = put (dm_key user) 0 viewed.unread } in
    let asked =
      if is_empty (messages_at (dm_key user) c)
      then send (get_dm_history user) counted
      else counted in
    render_messages (send_read_receipts user asked)

-- The room is left, and its messages are forgotten.
abbrev pub leave : Text → Chat → Chat
leave name c = let left = send (leave_room name) c in record left { store = remove name left.store }

-- The click on the leave button.
unfoldable pub leave_room_click : Chat → Chat
unfolding switch_to_room
leave_room_click c = elim c.view [
  | room name ↦ if str_eq name general then c else switch_to_room general (leave name c)
  | dm name ↦ c
]

unfoldable pub send_typing : Chat → Chat
send_typing c = elim c.view [
  | room name ↦ send (typing_in name) c
  | dm name ↦ send (typing_to name) c
]

-- The timer that hides the text again is not in the model.
unfoldable pub show_typing : Text → Text → Chat → Chat
show_typing username where_ c =
    let relevant : Bool = elim c.view [
      | room name ↦ str_eq where_ name
      | dm name ↦ str_eq username name
    ] in
    if relevant
    then record c { typing_text = username ++ js " is typing..."; typing_shown = true }
    else c
