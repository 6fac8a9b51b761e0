-- ===== src/Server/Direct.antt =====
-- What internal/hub/hub.go hands from one user to another: `handleDM`, `handleImage`,
-- `handleGetDMHistory`, `handleTyping`, `handleCallSignal`, `handleKeyExchange` and
-- `handleDeliveryReceipt`.
use wifi_chat.Base.{ℕ, Bool, true, false, not, ◌||◌, none, some, [], ◌∷◌, ◌++◌, if◌then◌else◌}
use wifi_chat.Js.Text.{Text, js, str_eq, truthy, or_else}
use wifi_chat.Js.Dict.{get}
use wifi_chat.Chat.State.{general}
use wifi_chat.Chat.Lists.{includes}
use wifi_chat.Server.Message.{
  Message, MessageType, deliver, dm_history, message, dm, typing, delivery_ack, read_receipt,
  empty_message, truncate_content,
}
use wifi_chat.Server.Store.{save, get_dms, update_dm_status}
use wifi_chat.Server.Hub.{
  ClientId, Hub, Moment, all_remote, send_json, refuse, broadcast_to_room, propagate,
}
use wifi_chat.Server.Rooms.{not_joined, as_stored, handle_message}

-- `isRemoteUser`
unfoldable pub is_remote_user : Moment → Text → Hub → Bool
unfolding all_remote includes
is_remote_user t user h = includes user (all_remote h.remote_users) || t.mesh_user user

-- The message as it goes to the receiver and back to the sender.
unfoldable pub direct_message : Moment → Text → Message → ℕ → Message
unfolding truncate_content
direct_message t user m limit = record (empty_message dm) {
  from = user;
  to = m.to;
  content = truncate_content limit m.content;
  image_url = m.image_url;
  ts = t.now;
  encrypted = m.encrypted;
  message_id = or_else m.message_id t.fresh_id;
}

abbrev pub save_dm : Moment → Message → Hub → Hub
save_dm t out h = record h {
  store =
      save true t.now
        (as_stored [] out.from out.to out.content out.image_url out.message_id out.encrypted)
        h.store;
}

abbrev pub mark_stored : Text → Text → Hub → Hub
mark_stored id status h = record h { store = update_dm_status id status h.store }

-- The acknowledgement that the sender gets at once.
abbrev pub ack_of : Moment → Message → Message
ack_of t out = record (empty_message delivery_ack) {
  from = out.to;
  to = out.from;
  ref_id = out.message_id;
  status = js "delivered";
  ts = t.now;
}

-- To a user of this server.
unfoldable pub deliver_local : Moment → ClientId → ClientId → Message → Hub → Hub
unfolding update_dm_status save
deliver_local t c target out h =
    let sent = send_json c (deliver out) (send_json target (deliver out) (save_dm t out h)) in
    let acked =
      if truthy out.message_id
      then send_json c (deliver (ack_of t out)) (mark_stored out.message_id (js "delivered") sent)
      else sent in
    propagate out acked

-- To a user of another server.
unfoldable pub deliver_remote : Moment → ClientId → Message → Hub → Hub
unfolding save
deliver_remote t c out h = propagate out (send_json c (deliver out) (save_dm t out h))

unfoldable pub handle_dm : Moment → ClientId → Message → Hub → Hub
unfolding is_remote_user direct_message deliver_local deliver_remote
handle_dm t c m h =
    let user = (h.client c).username in
    if not (truthy user)
    then refuse c not_joined h
    else if not (truthy m.to)
    then refuse c (js "Recipient is required") h
    else if str_eq m.to user
    then refuse c (js "Cannot DM yourself") h
    else (let out = direct_message t user m h.max_content_len in
        elim (get m.to h.user_clients) [
          | some target ↦ deliver_local t c target out h
          | none ↦
              if is_remote_user t m.to h
              then deliver_remote t c out h
              else refuse c (js "User not found: " ++ m.to) h
        ])

unfoldable pub handle_image : Moment → ClientId → Message → Hub → Hub
unfolding handle_dm handle_message
handle_image t c m h =
    if not (truthy (h.client c).username)
    then refuse c not_joined h
    else if not (truthy m.image_url)
    then refuse c (js "Image URL is required") h
    else if truthy m.to
    then handle_dm t c (record m { type = dm }) h
    else handle_message t c (record m { type = message }) h

unfoldable pub handle_get_dm_history : ClientId → Message → Hub → Hub
unfolding get_dms
handle_get_dm_history c m h =
    if not (truthy (h.client c).username)
    then refuse c not_joined h
    else if not (truthy m.to)
    then h
    else elim (get_dms (h.client c).username m.to 50 h.store) [
      | [] ↦ h
      | s ∷ ss ↦ send_json c (dm_history m.to (s ∷ ss)) h
    ]

-- A message to the client with the name, if there is one.
unfoldable pub forward : Text → Message → Hub → Hub
forward user m h = elim (get user h.user_clients) [
  | none ↦ h
  | some target ↦ send_json target (deliver m) h
]

unfoldable pub handle_typing : Moment → ClientId → Message → Hub → Hub
unfolding forward
handle_typing t c m h =
    let user = (h.client c).username in
    let typed = record (empty_message typing) { username = user } in
    let room = or_else m.room general in
    if not (truthy user)
    then h
    else if truthy m.to
    then propagate (record typed { to = m.to })
        (forward m.to (record typed { to = m.to; ts = t.now }) h)
    else broadcast_to_room room (deliver (record typed { room = room; ts = t.now })) (some c) h

unfoldable pub handle_call_signal : ClientId → Message → Hub → Hub
handle_call_signal c m h =
    let user = (h.client c).username in
    let m' = record m { from = user } in
    if not (truthy user)
    then refuse c not_joined h
    else if not (truthy m.to)
    then refuse c (js "Call target is required") h
    else elim (get m.to h.user_clients) [
      | none ↦ propagate m' h
      | some target ↦ propagate m' (send_json target (deliver m') h)
    ]

unfoldable pub handle_key_exchange : ClientId → Message → Hub → Hub
unfolding forward
handle_key_exchange c m h =
    let m' = record m { from = (h.client c).username } in
    if not (truthy m.to) || not (truthy (h.client c).username)
    then h
    else propagate m' (forward m.to m' h)

abbrev pub is_read_receipt : MessageType → Bool
is_read_receipt read_receipt = true
is_read_receipt _ = false

-- The status that a receipt stands for.
abbrev pub status_of_receipt : Message → Text
status_of_receipt m =
    or_else m.status (if is_read_receipt m.type then js "read" else js "delivered")

-- A receipt that names no message changes nothing in the store.
abbrev pub note_receipt : Message → Hub → Hub
note_receipt m h = if truthy m.ref_id then mark_stored m.ref_id (status_of_receipt m) h else h

unfoldable pub handle_delivery_receipt : ClientId → Message → Hub → Hub
unfolding forward update_dm_status
handle_delivery_receipt c m h =
    let m' = record m { from = (h.client c).username } in
    if not (truthy m.to) || not (truthy (h.client c).username)
    then h
    else propagate m' (forward m.to m' (note_receipt m' h))
