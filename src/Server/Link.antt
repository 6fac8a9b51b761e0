-- ===== src/Server/Link.antt =====
-- The two ends of the socket: what the server reads in the packets of frontend/app.js (the literals
-- that are given to `send`), and what `handleMessage` there reads in the server's messages (the JSON
-- tags of internal/models/message.go).
use wifi_chat.Base.{ℕ, zero, suc, false, Option, none, some, [], if◌then◌else◌, map}
use wifi_chat.Js.Text.{Text, js, str_eq, truthy}
use wifi_chat.Call.State.{
  Signal, Kind, call_request, call_accept, call_reject, call_offer, call_answer, call_ice, call_end,
}
use wifi_chat.Chat.State.{
  Packet, join, join_room, create_room, leave_room, get_dm_history, read_receipt, typing_in,
  typing_to, message, dm_packet, image_in, image_to, Status, absent, sent, delivered, read, other,
  room_message, direct_message, system_message,
}
use wifi_chat.Chat.State
use wifi_chat.Chat.Messages.{Incoming}
use wifi_chat.Server.Message.{
  Message, MessageType, StoredMessage, Reply, deliver, error, welcome, room_list, user_list,
  room_users, user_joined, user_left, history, dm_history, empty_message,
}

-- A text that is absent is empty.
abbrev pub or_empty : Option Text → Text
or_empty none = []
or_empty (some s) = s

-- The packet, as the server reads it.
unfoldable pub message_of : Packet → Message
message_of (join user key) = record (empty_message MessageType.join) {
  username = user;
  public_key = key;
}
message_of (join_room name) = record (empty_message MessageType.join_room) { room = name }
message_of (create_room name) = record (empty_message MessageType.create_room) { room = name }
message_of (leave_room name) = record (empty_message MessageType.leave_room) { room = name }
message_of (get_dm_history user) = record (empty_message MessageType.get_dm_history) { to = user }
message_of (read_receipt user id) = record (empty_message MessageType.read_receipt) {
  to = user;
  ref_id = id;
  status = js "read";
}
message_of (typing_in name) = record (empty_message MessageType.typing) { room = name }
message_of (typing_to user) = record (empty_message MessageType.typing) { to = user }
message_of (message name content id) = record (empty_message MessageType.message) {
  room = name;
  content = content;
  message_id = id;
}
message_of (dm_packet user content encrypted id) = record (empty_message MessageType.dm) {
  to = user;
  content = content;
  encrypted = encrypted;
  message_id = id;
}
message_of (image_in name url caption id) = record (empty_message MessageType.image) {
  room = name;
  image_url = url;
  content = caption;
  message_id = id;
}
message_of (image_to user url caption id) = record (empty_message MessageType.image) {
  to = user;
  image_url = url;
  content = caption;
  message_id = id;
}

-- The type of a signal; `other` stands for a type that the server does not know either.
abbrev pub type_of : Kind → MessageType
type_of call_request = MessageType.call call_request
type_of call_accept = MessageType.call call_accept
type_of call_reject = MessageType.call call_reject
type_of call_offer = MessageType.call call_offer
type_of call_answer = MessageType.call call_answer
type_of call_ice = MessageType.call call_ice
type_of call_end = MessageType.call call_end
type_of _ = MessageType.unknown []

-- A signal of a call, as the server reads it.
unfoldable pub message_of_signal : Signal → Message
message_of_signal s = record (empty_message (type_of s.kind)) {
  to = s.to;
  call_type = s.call_type;
  sdp = or_empty s.sdp;
  candidate = s.candidate;
  encrypted = s.encrypted;
}

-- A time of 0 is left out.
abbrev pub time_of : ℕ → Option ℕ
time_of zero = none
time_of (suc n) = some (suc n)

unfoldable pub status_of : Text → Status
status_of s =
    if str_eq s []
    then absent
    else if str_eq s (js "sent")
    then sent
    else if str_eq s (js "delivered")
    then delivered
    else if str_eq s (js "read")
    then read
    else other s

-- A message as the page keeps it, before the case sets its type.
unfoldable pub page_message : Message → State.Message
unfolding status_of
page_message m = record {
  kind = direct_message;
  from = m.from;
  to = m.to;
  content = m.content;
  image_url = m.image_url;
  ts = time_of m.ts;
  encrypted = m.encrypted;
  message_id = m.message_id;
  status = status_of m.status;
}

unfoldable pub stored_message : StoredMessage → State.Message
unfolding status_of
stored_message m = record {
  kind = direct_message;
  from = m.from;
  to = m.to;
  content = m.content;
  image_url = m.image_url;
  ts = time_of m.timestamp;
  encrypted = m.encrypted;
  message_id = m.msg_id;
  status = status_of m.status;
}

-- The server's histories of rooms leave these fields out.
abbrev pub stored_room_message : StoredMessage → State.Message
stored_room_message m = record (stored_message m) { to = []; encrypted = false; status = absent }

-- A message by its type; those that the page has no case for do nothing.
unfoldable pub incoming_message : Message → MessageType → Incoming
unfolding page_message
incoming_message m MessageType.message = Incoming.message m.room (page_message m)
incoming_message m MessageType.dm = Incoming.direct (page_message m)
incoming_message m MessageType.typing = Incoming.typing m.username m.room
incoming_message m MessageType.delivery_ack = Incoming.delivery_ack m.ref_id (status_of m.status)
incoming_message m MessageType.read_receipt = Incoming.receipt m.ref_id (status_of m.status)
incoming_message m MessageType.key_exchange = Incoming.key_exchange m.from m.public_key
incoming_message m MessageType.system = Incoming.system m.content m.room
incoming_message m (MessageType.call k) = Incoming.call_signal (record {
  kind = k;
  from = m.from;
  to = m.to;
  call_type = m.call_type;
  sdp = if truthy m.sdp then some m.sdp else none;
  candidate = m.candidate;
  encrypted = m.encrypted;
})
incoming_message m type = Incoming.unknown

unfoldable pub incoming_of : Reply → Incoming
unfolding incoming_message stored_message
incoming_of (deliver m) = incoming_message m m.type
incoming_of (error text) = Incoming.error [] text
incoming_of (welcome content name) = Incoming.system content name
incoming_of (room_list names) = Incoming.room_list names
incoming_of (user_list names keys) = Incoming.user_list names keys
incoming_of (room_users name names) = Incoming.room_users name names
incoming_of (user_joined user name key) = Incoming.user_joined user name key
incoming_of (user_left user name) = Incoming.user_left user name
incoming_of (history name ms) = Incoming.history name (map stored_room_message ms)
incoming_of (dm_history peer ms) = Incoming.dm_history peer (map stored_message ms)
