-- ===== src/Server/Membership/Handlers.antt =====
-- The records of the hub agree with those of the clients after everything that happens to it
-- (internal/hub/hub.go).
use wifi_chat.Base.{
  ◌<◌, ◌≡◌, refl, Bool, true, false, not, ◌&&◌, none, List, [], ◌∷◌, arith, if◌then◌else◌, inl, inr,
  Bool-cases, Option-cases, is_some,
}
use wifi_chat.Js.Text.{Text, str_eq, truthy}
use wifi_chat.Js.Dict.{get, put, remove}
use wifi_chat.Chat.State.{general}
use wifi_chat.Server.Message.{Message, validate_username, user_left}
use wifi_chat.Server.Hub.{
  ClientId, Hub, Moment, member, without, members_of, close_send, send_room_users,
  broadcast_to_room, get_room_list,
}
use wifi_chat.Server.Joining.{
  enter_as, cool_down, kick, kick_old, take_name, greet, enter, handle_join, leave_rooms,
  is_current_owner, unregister,
}
use wifi_chat.Server.Rooms.{
  enter_room, exit_room, handle_create_room, handle_join_room, handle_leave_room,
}
use wifi_chat.Server.Sets.{member-without}
use wifi_chat.Server.Membership.{
  IsConsistent, Same, Same-IsConsistent, enter_room-IsConsistent, exit_room-IsConsistent,
  put_out-IsConsistent, strike-IsConsistent, close_send-IsConsistent, kick-IsConsistent,
  take_name-IsConsistent,
}
use wifi_chat.Server.Membership.Passive

kick_old-IsConsistent : (user : Text) {h : Hub} → IsConsistent h → IsConsistent (kick_old user h).1
unfolding kick_old
kick_old-IsConsistent user {h} i = elim (Option-cases (get user h.user_clients)) [
  | inl e ↦ rw (e, kick_old) i
  | inr (old, e) ↦ rw (e, kick_old) (kick-IsConsistent i user old (i.owned user old e).0)
]

next-kick_old : (user : Text) (h : Hub) → (kick_old user h).1.next_client ≡ h.next_client
unfolding kick_old kick
next-kick_old user h = ground arith

module _ {h : Hub} (i : IsConsistent h) (c : ClientId) (made : c < h.next_client) where
  joined_as :
      (user key : Text) (b : Bool)
      → truthy user ≡ true
      → IsConsistent (greet c user key b (take_name c user key h))
  joined_as user key b named =
      Same-IsConsistent (Passive.greet-Same (take_name c user key h) c user key b)
        (take_name-IsConsistent i c user key made named)

enter_as-IsConsistent :
    {h : Hub}
    → IsConsistent h
    → (c : ClientId) → c < h.next_client
    → (user key : Text) (recent : Bool) → truthy user ≡ true
    → IsConsistent (enter_as c user key recent h)
unfolding enter_as
enter_as-IsConsistent i c made user key true named = joined_as i c made user key true named
enter_as-IsConsistent {h} i c made user key false named =
    joined_as (kick_old-IsConsistent user i) c (rw (next-kick_old user h) made) user key
      (kick_old user h).0 named

pub handle_join-IsConsistent :
    {h : Hub}
    → IsConsistent h
    → (t : Moment) (c : ClientId) (m : Message) → c < h.next_client
    → IsConsistent (handle_join t c m h)
unfolding handle_join enter
handle_join-IsConsistent {h} i t c m made = elim (Bool-cases (truthy m.username)) [
  | inr none_given ↦ rw (none_given, handle_join) (Same-IsConsistent (ground arith) i)
  | inl named ↦ elim (Bool-cases (validate_username m.username)) [
    | inr invalid ↦ rw (named, invalid, handle_join) (Same-IsConsistent (ground arith) i)
    | inl valid ↦
        let cooled = cool_down m.username t.now h.join_cooldown in
        rw (named, valid, handle_join)
          (enter_as-IsConsistent {h = record h { join_cooldown = cooled.1 }}
            (Same-IsConsistent (ground arith) i) c made m.username m.public_key cooled.0 named)
  ]
]

-- Sending to the members of a room leaves the records alone.
told-Same : (h : Hub) (room : Text) → Same h (send_room_users room h)
unfolding send_room_users
told-Same h room = ground arith

pub handle_create_room-IsConsistent :
    {h : Hub}
    → IsConsistent h
    → (c : ClientId) (m : Message) → c < h.next_client
    → IsConsistent (handle_create_room c m h)
unfolding handle_create_room
handle_create_room-IsConsistent {h} i c m made = elim (Bool-cases (truthy (h.client c).username)) [
  | inr unnamed ↦ rw (unnamed, handle_create_room) (Same-IsConsistent (ground arith) i)
  | inl named ↦
      let entered = enter_room-IsConsistent i c m.room made named in
      elim (Bool-cases (truthy m.room && not (is_some (get m.room h.rooms)))) [
        | inl new ↦ Same-IsConsistent {h = enter_room c m.room h} (ground arith) entered
        | inr old ↦ Same-IsConsistent {h = h} (ground arith) i
      ]
]

pub handle_join_room-IsConsistent :
    {h : Hub}
    → IsConsistent h
    → (c : ClientId) (m : Message) → c < h.next_client
    → IsConsistent (handle_join_room c m h)
unfolding handle_join_room
handle_join_room-IsConsistent {h} i c m made = elim (Bool-cases (truthy (h.client c).username)) [
  | inr unnamed ↦ rw (unnamed, handle_join_room) (Same-IsConsistent (ground arith) i)
  | inl named ↦
      let entered = enter_room-IsConsistent i c m.room made named in
      elim (Bool-cases
        (is_some (get m.room h.rooms) && not (member c (members_of m.room h.rooms)))) [
          | inl new ↦ Same-IsConsistent {h = enter_room c m.room h} (ground arith) entered
          | inr old ↦ Same-IsConsistent {h = h} (ground arith) i
        ]
]

pub handle_leave_room-IsConsistent :
    {h : Hub}
    → IsConsistent h
    → (c : ClientId) (m : Message) → IsConsistent (handle_leave_room c m h)
unfolding handle_leave_room
handle_leave_room-IsConsistent {h} i c m =
    elim (Bool-cases (
      truthy (h.client c).username
      && not (str_eq m.room general)
      && is_some (get m.room h.rooms))) [
        | inl away ↦
            Same-IsConsistent {h = exit_room c m.room h} (ground arith)
              (exit_room-IsConsistent i c m.room)
        | inr here ↦ Same-IsConsistent {h = h} (ground arith) i
      ]

leave_rooms_keeps :
    (c : ClientId) (user : Text) (told : Bool) (rooms : List Text) (h : Hub)
    → ((leave_rooms c user told rooms h).clients ≡ h.clients)
      × ((leave_rooms c user told rooms h).next_client ≡ h.next_client)
unfolding leave_rooms send_room_users
leave_rooms_keeps c user told [] h = (refl, refl)
leave_rooms_keeps c user told (room ∷ rooms) h =
    let members = members_of room h.rooms in
    let left = record h { rooms = put room (without c members) h.rooms } in
    let noted =
      if told
      then send_room_users room (broadcast_to_room room (user_left user room) none left)
      else left in
    ground (arith, leave_rooms_keeps c user told rooms (if member c members then noted else h))

leave_rooms-IsConsistent :
    (c : ClientId) (user : Text) (told : Bool) (rooms : List Text) {h : Hub}
    → IsConsistent h
    → member c h.clients ≡ false
    → IsConsistent (leave_rooms c user told rooms h)
unfolding leave_rooms
leave_rooms-IsConsistent c user told [] i gone = i
leave_rooms-IsConsistent c user told (room ∷ rooms) {h} i gone =
    leave_rooms-IsConsistent c user told rooms
      (elim (Bool-cases (member c (members_of room h.rooms))) [
        | inl within ↦
            Same-IsConsistent
              {h = record h { rooms = put room (without c (members_of room h.rooms)) h.rooms }}
              (ground arith) (put_out-IsConsistent i c room gone)
        | inr outside ↦ Same-IsConsistent {h = h} (ground arith) i
      ])
      (ground arith)

pub unregister-IsConsistent :
    {h : Hub} → IsConsistent h → (c : ClientId) → c < h.next_client → IsConsistent (unregister c h)
unfolding unregister
unregister-IsConsistent {h} i c made = elim (Bool-cases (member c h.clients)) [
  | inr gone ↦ rw (gone, unregister) i
  | inl here ↦
      let user = (h.client c).username in
      let owner = is_current_owner c h in
      let rooms = get_room_list h in
      let struck = record h {
        clients = without c h.clients;
        user_clients = if owner then remove user h.user_clients else h.user_clients;
      } in
      let left = leave_rooms c user owner rooms struck in
      let kept = leave_rooms_keeps c user owner rooms struck in
      let closed =
        close_send-IsConsistent
          (leave_rooms-IsConsistent c user owner rooms (strike-IsConsistent i c user owner)
            (ground (arith, member-without c c h.clients)))
          c (rw kept.0 (ground (arith, member-without c c h.clients))) (rw kept.1 made) in
      Same-IsConsistent {h = close_send c left} (ground arith) closed
]
