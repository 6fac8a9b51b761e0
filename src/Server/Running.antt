-- ===== src/Server/Running.antt =====
-- The hub as a machine: `ProcessMessage`, `InjectFromMesh`, `onRemoteUsers` and `Run` of
-- internal/hub/hub.go, and `WritePump` of internal/hub/client.go.
use wifi_chat.Base.{
  ℕ, ◌-◌, ltb, Bool, false, Option, none, some, List, [], ◌∷◌, ◌++◌, if◌then◌else◌, is_some,
}
use wifi_chat.Js.Text.{Text, js, truthy}
use wifi_chat.Js.Dict.{get, put}
use wifi_chat.Server.Message.{
  Message, MessageType, Reply, deliver, join, message, dm, image, create_room, join_room,
  leave_room, typing, list_rooms, list_users, call, key_exchange, get_dm_history, delivery_ack,
  read_receipt, system, mesh_level, unknown,
}
use wifi_chat.Server.Store.{save}
use wifi_chat.Server.Hub.{
  ClientId, Hub, Moment, at, refuse, broadcast_to_room, broadcast_user_list, propagate,
}
use wifi_chat.Server.Joining.{handle_join, register, unregister}
use wifi_chat.Server.Rooms.{
  as_stored, handle_message, handle_create_room, handle_join_room, handle_leave_room,
  handle_list_rooms, handle_list_users,
}
use wifi_chat.Server.Direct.{
  save_dm, ack_of, handle_dm, handle_image, handle_get_dm_history, forward, handle_typing,
  handle_call_signal, handle_key_exchange, note_receipt, handle_delivery_receipt,
}

-- The text of a type that no case names, for the error.
abbrev pub type_text : MessageType → Text
type_text (unknown t) = t
type_text system = js "system"
type_text _ = []

-- The `switch` of `ProcessMessage`.
unfoldable pub dispatch : Moment → ClientId → Message → MessageType → Hub → Hub
unfolding handle_join handle_message handle_dm handle_image handle_create_room handle_join_room
    handle_leave_room handle_typing handle_list_rooms handle_list_users handle_get_dm_history
    handle_key_exchange handle_call_signal handle_delivery_receipt
dispatch t c m join h = handle_join t c m h
dispatch t c m message h = handle_message t c m h
dispatch t c m image h = handle_image t c m h
dispatch t c m dm h = handle_dm t c m h
dispatch t c m create_room h = handle_create_room c m h
dispatch t c m join_room h = handle_join_room c m h
dispatch t c m leave_room h = handle_leave_room c m h
dispatch t c m typing h = handle_typing t c m h
dispatch t c m list_rooms h = handle_list_rooms c h
dispatch t c m list_users h = handle_list_users c h
dispatch t c m get_dm_history h = handle_get_dm_history c m h
dispatch t c m key_exchange h = handle_key_exchange c m h
dispatch t c m (call k) h = handle_call_signal c m h
dispatch t c m delivery_ack h = handle_delivery_receipt c m h
dispatch t c m read_receipt h = handle_delivery_receipt c m h
dispatch t c m mesh_level h = propagate m h
dispatch t c m type h = refuse c (js "Unknown message type: " ++ type_text type) h

-- Whether the name was heard less than 33 milliseconds ago.
abbrev pub is_recent : ℕ → Option ℕ → Bool
is_recent now none = false
is_recent now (some last) = ltb (now - last) 33

unfoldable pub is_throttled : ℕ → ClientId → Hub → Bool
is_throttled now c h = is_recent now (get (h.client c).username h.rate_limiter)

-- The time of a message is noted under the name of the client.
unfoldable pub note_time : ℕ → ClientId → Hub → Hub
note_time now c h = record h { rate_limiter = put (h.client c).username now h.rate_limiter }

-- What cannot be read as a message is `none`.
unfoldable pub handle_raw : Moment → ClientId → Option Message → Hub → Hub
unfolding dispatch
handle_raw t c none h = refuse c (js "Invalid message format") h
handle_raw t c (some m) h = dispatch t c m m.type h

unfoldable pub process_message : Moment → ClientId → Option Message → Hub → Hub
unfolding is_throttled note_time handle_raw
process_message t c raw h =
    if truthy (h.client c).username
    then (if is_throttled t.now c h then h else handle_raw t c raw (note_time t.now c h))
    else handle_raw t c raw h

-- A direct message from another server: the receiver, the acknowledgement, and the sender's echo.
unfoldable pub inject_dm : Moment → Message → Hub → Hub
unfolding forward save
inject_dm t m h =
    let heard = is_some (get m.to h.user_clients) in
    let given = forward m.to m h in
    let acked =
      if heard
      then (if truthy m.message_id then propagate (ack_of t m) given else given)
      else given in
    save_dm t m (forward m.from m acked)

abbrev pub inject_typing : Message → Hub → Hub
inject_typing m h =
    if truthy m.to
    then forward m.to m h
    else if truthy m.room
    then broadcast_to_room m.room (deliver m) none h
    else h

-- `InjectFromMesh`
unfoldable pub inject_from_mesh : Moment → Message → MessageType → Hub → Hub
unfolding inject_dm forward save
inject_from_mesh t m message h = broadcast_to_room m.room (deliver m) none (record h {
  store =
      save false t.now (as_stored m.room m.from [] m.content m.image_url m.message_id false)
        h.store;
})
inject_from_mesh t m dm h = inject_dm t m h
inject_from_mesh t m delivery_ack h = forward m.to m (note_receipt m h)
inject_from_mesh t m read_receipt h = forward m.to m (note_receipt m h)
inject_from_mesh t m (call k) h = forward m.to m h
inject_from_mesh t m key_exchange h = forward m.to m h
inject_from_mesh t m typing h = inject_typing m h
inject_from_mesh t m system h =
    if truthy m.room then broadcast_to_room m.room (deliver m) none h else h
inject_from_mesh t m type h = h

-- `onRemoteUsers`
unfoldable pub on_remote_users : Text → List Text → Hub → Hub
unfolding broadcast_user_list
on_remote_users peer users h =
    broadcast_user_list (record h { remote_users = put peer users h.remote_users })

abbrev pub rest_of : List Reply → List Reply
rest_of [] = []
rest_of (r ∷ rs) = rs

-- `WritePump` takes the next message from the channel.
unfoldable pub write_next : ClientId → Hub → Hub
write_next c h = record h { queue = at c (rest_of (h.queue c)) h.queue }

pub data Event : Type 0 where
  registered : Event
  unregistered written : ClientId → Event
  received : Moment → ClientId → Option Message → Event
  injected : Moment → Message → Event
  synced : Text → List Text → Event

-- Nothing comes from a client that was not made.
abbrev pub if_made : ClientId → Hub → Hub → Hub
if_made c h after = if ltb c h.next_client then after else h

unfoldable pub step_hub : Event → Hub → Hub
unfolding register unregister process_message inject_from_mesh on_remote_users write_next
step_hub registered h = register h
step_hub (unregistered c) h = if_made c h (unregister c h)
step_hub (written c) h = if_made c h (write_next c h)
step_hub (received t c raw) h = if_made c h (process_message t c raw h)
step_hub (injected t m) h = inject_from_mesh t m m.type h
step_hub (synced peer users) h = on_remote_users peer users h

unfoldable pub run_hub : List Event → Hub → Hub
run_hub [] h = h
run_hub (e ∷ es) h = run_hub es (step_hub e h)
