-- ===== src/Server/Rooms.antt =====
-- Rooms in internal/hub/hub.go: `handleMessage`, `handleCreateRoom`, `handleJoinRoom`,
-- `handleLeaveRoom` and the lists.
use wifi_chat.Base.{ℕ, Bool, false, not, none, some, [], ◌++◌, if◌then◌else◌, is_some}
use wifi_chat.Js.Text.{Text, js, str_eq, truthy, or_else}
use wifi_chat.Js.Dict.{get, put}
use wifi_chat.Chat.State.{general}
use wifi_chat.Server.Message.{
  Message, StoredMessage, deliver, room_list, user_list, user_joined, user_left, welcome, message,
  empty_message, truncate_content,
}
use wifi_chat.Server.Store.{save}
use wifi_chat.Server.Joining.{send_history}
use wifi_chat.Server.Hub.{
  ClientId, Hub, Moment, set_client, member, add, without, members_of, is_in_room, join_room,
  leave_room, send_json, send_all, refuse, broadcast_to_room, get_room_list, get_user_list,
  get_public_keys, send_room_users, propagate,
}

abbrev pub not_joined : Text
not_joined = js "You must join first"

abbrev pub as_stored : Text → Text → Text → Text → Text → Text → Bool → StoredMessage
as_stored room from to content image_url msg_id encrypted = record {
  id = 0;
  room = room;
  from = from;
  to = to;
  content = content;
  image_url = image_url;
  timestamp = 0;
  is_dm = false;
  encrypted = encrypted;
  msg_id = msg_id;
  status = [];
}

-- The message that the members of the room get.
unfoldable pub room_message : Moment → Text → Text → Message → ℕ → Message
unfolding truncate_content
room_message t user room m limit = record (empty_message message) {
  from = user;
  room = room;
  content = truncate_content limit m.content;
  image_url = m.image_url;
  ts = t.now;
  message_id = or_else m.message_id t.fresh_id;
}

-- A message that has passed the checks is stored, sent to the members and handed to the mesh.
unfoldable pub post : Moment → ClientId → Text → Message → Hub → Hub
unfolding room_message save
post t c room m h =
    let out = room_message t (h.client c).username room m h.max_content_len in
    let stored = as_stored room out.from [] out.content out.image_url out.message_id false in
    propagate out (
      broadcast_to_room room (deliver out) none
        (record h { store = save false t.now stored h.store }))

unfoldable pub handle_message : Moment → ClientId → Message → Hub → Hub
unfolding post
handle_message t c m h =
    let room = or_else m.room general in
    if not (truthy (h.client c).username)
    then refuse c not_joined h
    else if not (is_some (get room h.rooms))
    then refuse c (js "Room does not exist: " ++ room) h
    else if not (is_in_room room (h.client c))
    then refuse c (js "You are not in room: " ++ room) h
    else post t c room m h

-- A client becomes a member of a room, in the hub's record and in its own.
unfoldable pub enter_room : ClientId → Text → Hub → Hub
unfolding add
enter_room c room h =
    set_client c (join_room room (h.client c))
      (record h { rooms = put room (add c (members_of room h.rooms)) h.rooms })

unfoldable pub handle_create_room : ClientId → Message → Hub → Hub
unfolding enter_room send_room_users
handle_create_room c m h =
    if not (truthy (h.client c).username)
    then refuse c not_joined h
    else if not (truthy m.room)
    then refuse c (js "Room name is required") h
    else if is_some (get m.room h.rooms)
    then refuse c (js "Room already exists: " ++ m.room) h
    else (let made = enter_room c m.room h in
        send_room_users m.room (
          send_json c (welcome (js "Room #" ++ m.room ++ js " created. You've been added.") m.room)
            (send_all (room_list (get_room_list made)) none made.clients made)))

unfoldable pub handle_join_room : ClientId → Message → Hub → Hub
unfolding enter_room send_history send_room_users member
handle_join_room c m h =
    if not (truthy (h.client c).username)
    then refuse c not_joined h
    else if not (is_some (get m.room h.rooms))
    then refuse c (js "Room does not exist: " ++ m.room) h
    else if member c (members_of m.room h.rooms)
    then refuse c (js "Already in room: " ++ m.room) h
    else (let told = send_history c m.room (enter_room c m.room h) in
        let joined = user_joined (h.client c).username m.room [] in
        send_room_users m.room (
          send_json c (welcome (js "You joined #" ++ m.room) m.room)
            (broadcast_to_room m.room joined (some c) told)))

-- A client is a member no more.
unfoldable pub exit_room : ClientId → Text → Hub → Hub
unfolding without
exit_room c room h =
    set_client c (leave_room room (h.client c))
      (record h { rooms = put room (without c (members_of room h.rooms)) h.rooms })

unfoldable pub handle_leave_room : ClientId → Message → Hub → Hub
unfolding exit_room send_room_users
handle_leave_room c m h =
    if not (truthy (h.client c).username)
    then refuse c not_joined h
    else if str_eq m.room general
    then refuse c (js "Cannot leave #general") h
    else if not (is_some (get m.room h.rooms))
    then h
    else send_room_users m.room (
        broadcast_to_room m.room (user_left (h.client c).username m.room) none
          (exit_room c m.room h))

unfoldable pub handle_list_rooms : ClientId → Hub → Hub
handle_list_rooms c h = send_json c (room_list (get_room_list h)) h

unfoldable pub handle_list_users : ClientId → Hub → Hub
unfolding get_user_list
handle_list_users c h = send_json c (user_list (get_user_list h) (get_public_keys h)) h
