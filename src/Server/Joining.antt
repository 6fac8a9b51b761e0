-- ===== src/Server/Joining.antt =====
-- `handleJoin` of internal/hub/hub.go, and the two ends of a connection in `Run`.
use wifi_chat.Base.{
  ℕ, suc, ◌-◌, ◌==◌, ltb, leb, Bool, true, false, not, ◌&&◌, Option, none, some, List, [], ◌∷◌,
  ◌++◌, if◌then◌else◌, filter,
}
use wifi_chat.Js.Text.{Text, js, truthy}
use wifi_chat.Js.Dict.{Dict, get, put, remove}
use wifi_chat.Chat.State.{general}
use wifi_chat.Server.Message.{
  Message, room_list, user_list, history, user_joined, user_left, welcome, validate_username,
}
use wifi_chat.Server.Store.{get_room_messages}
use wifi_chat.Server.Hub.{
  ClientId, new_client, Hub, Moment, set_client, at, member, add, without, members_of, join_room,
  close_send, send_json, refuse, broadcast_to_room, get_room_list, get_user_list, get_public_keys,
  broadcast_user_list, send_room_users, sync_users,
}

-- Whether the name joined less than five seconds ago, and the cooldowns after it.
unfoldable pub cool_down : Text → ℕ → Dict ℕ → Bool × Dict ℕ
unfolding filter
cool_down username now d = elim (get username d) [
  | none ↦ (false, put username now d)
  | some last ↦
      if ltb (now - last) 5000
      then (true, filter (λ entry. leb (now - entry.1) 30000) d)
      else (false, put username now d)
]

-- The client leaves every room.
unfoldable pub leave_all : ClientId → Dict (List ClientId) → Dict (List ClientId)
unfolding without
leave_all c [] = []
leave_all c ((room, members) ∷ rooms) = (room, without c members) ∷ leave_all c rooms

-- The old connection of a name is put out.
unfoldable pub kick : Text → ClientId → Hub → Hub
unfolding leave_all
kick username old h = close_send old (record h {
  rooms = leave_all old h.rooms;
  clients = without old h.clients;
  user_clients = remove username h.user_clients;
})

-- The client becomes the owner of the name, and a member of the default room.
unfoldable pub take_name : ClientId → Text → Text → Hub → Hub
unfolding add
take_name c username key h =
    let named = record h {
      user_clients = put username c h.user_clients;
      rooms = put general (add c (members_of general h.rooms)) h.rooms;
    } in
    set_client c (join_room general (record (h.client c) { username = username; public_key = key }))
      named

-- A history that is not empty is sent.
unfoldable pub send_history : ClientId → Text → Hub → Hub
send_history c room h = elim (get_room_messages room 50 h.store) [
  | [] ↦ h
  | m ∷ ms ↦ send_json c (history room (m ∷ ms)) h
]

-- What a client is told when it has joined.
unfoldable pub greet : ClientId → Text → Text → Bool → Hub → Hub
unfolding send_history broadcast_user_list send_room_users
greet c username key is_reconnect h =
    let listed = send_json c (room_list (get_room_list h)) h in
    let told =
      send_history c general
        (send_json c (user_list (get_user_list listed) (get_public_keys listed)) listed) in
    let announced =
      if is_reconnect
      then told
      else broadcast_to_room general (user_joined username general key) (some c) told in
    sync_users (
      send_room_users general (
        broadcast_user_list (
          send_json c
            (welcome (js "Welcome to WiFi Chat, " ++ username ++ js "! You've joined #general.") [])
            announced)))

-- Whether an old connection was put out, and the hub after it.
unfoldable pub kick_old : Text → Hub → Bool × Hub
unfolding kick
kick_old username h = elim (get username h.user_clients) [
  | none ↦ (false, h)
  | some old ↦ (true, kick username old h)
]

-- A name that joined just now is not put out, and its old connection stays.
unfoldable pub enter_as : ClientId → Text → Text → Bool → Hub → Hub
unfolding kick_old take_name greet
enter_as c username key true h = greet c username key true (take_name c username key h)
enter_as c username key false h =
    let free = kick_old username h in greet c username key free.0 (take_name c username key free.1)

-- The part of `handleJoin` under the lock.
unfoldable pub enter : ClientId → Text → Text → ℕ → Hub → Hub
unfolding cool_down enter_as
enter c username key now h =
    let cooled = cool_down username now h.join_cooldown in
    enter_as c username key cooled.0 (record h { join_cooldown = cooled.1 })

unfoldable pub handle_join : Moment → ClientId → Message → Hub → Hub
unfolding enter
handle_join t c m h =
    if not (truthy m.username)
    then refuse c (js "Username is required") h
    else if not (validate_username m.username)
    then refuse c (js "Invalid username (1-32 alphanumeric characters, _ - . allowed)") h
    else enter c m.username m.public_key t.now h

-- `NewClient` and `Register`
unfoldable pub register : Hub → Hub
unfolding add
register h = record h {
  client = at h.next_client new_client h.client;
  clients = add h.next_client h.clients;
  next_client = suc h.next_client;
}

-- The loop over the rooms in `Unregister`. The rooms are gone through one by one, and the others are
-- told if the client owned its name.
unfoldable pub leave_rooms : ClientId → Text → Bool → List Text → Hub → Hub
unfolding without send_room_users
leave_rooms c username told [] h = h
leave_rooms c username told (room ∷ rooms) h =
    let members = members_of room h.rooms in
    let left = record h { rooms = put room (without c members) h.rooms } in
    let noted =
      if told
      then send_room_users room (broadcast_to_room room (user_left username room) none left)
      else left in
    leave_rooms c username told rooms (if member c members then noted else h)

-- Whether the client owns its name.
abbrev pub owns : ClientId → Option ClientId → Bool
owns c none = false
owns c (some d) = d == c

unfoldable pub is_current_owner : ClientId → Hub → Bool
is_current_owner c h =
    truthy (h.client c).username && owns c (get (h.client c).username h.user_clients)

unfoldable pub unregister : ClientId → Hub → Hub
unfolding leave_rooms is_current_owner broadcast_user_list
unregister c h =
    if not (member c h.clients)
    then h
    else (let username = (h.client c).username in
        let owner = is_current_owner c h in
        let gone = record h {
          clients = without c h.clients;
          user_clients = if owner then remove username h.user_clients else h.user_clients;
        } in
        let left = close_send c (leave_rooms c username owner (get_room_list h) gone) in
        if owner then sync_users (broadcast_user_list left) else left)
