-- ===== src/Server/Membership/Runs.antt =====
-- The hub as a machine (internal/hub/hub.go), and its records.
use wifi_chat.Base.{
  true, ◌≡◌, ℕ, ◌<◌, refl, Option, none, some, List, [], ◌∷◌, arith, ltb, inl, inr, Bool-cases,
}
use wifi_chat.Js.Text.{truthy, str_eq_refl}
use wifi_chat.Js.Dict.{get}
use wifi_chat.Chat.State.{general}
use wifi_chat.Server.Message.{
  Message, MessageType, join, message, dm, image, create_room, join_room, leave_room, typing,
  list_rooms, list_users, call, key_exchange, get_dm_history, delivery_ack, read_receipt,
  mesh_level,
}
use wifi_chat.Server.Message.{validate_username}
use wifi_chat.Server.Store.{MessageStore}
use wifi_chat.Server.Hub.{ClientId, Hub, Moment, member, new_hub}
use wifi_chat.Server.Joining.{handle_join}
use wifi_chat.Server.Running.{
  Event, registered, unregistered, written, received, injected, synced, dispatch, is_throttled,
  handle_raw, process_message, write_next, step_hub, run_hub,
}
use wifi_chat.Server.Membership.{IsConsistent, Same-IsConsistent, register-IsConsistent}
use wifi_chat.Server.Membership.Passive
use wifi_chat.Server.Sets.{distinct}
use wifi_chat.Server.Membership.Joins.{HasJoined, handle_join-HasJoined}
use wifi_chat.Server.Membership.Handlers.{
  handle_join-IsConsistent, handle_create_room-IsConsistent, handle_join_room-IsConsistent,
  handle_leave_room-IsConsistent, unregister-IsConsistent,
}

module _ {h : Hub} (i : IsConsistent h) (t : Moment) (c : ClientId) (made : c < h.next_client) where
  dispatch-IsConsistent : (m : Message) (type : MessageType) → IsConsistent (dispatch t c m type h)
  unfolding dispatch
  dispatch-IsConsistent m join = handle_join-IsConsistent i t c m made
  dispatch-IsConsistent m message = Same-IsConsistent (Passive.handle_message-Same h t c m) i
  dispatch-IsConsistent m image = Same-IsConsistent (Passive.handle_image-Same h t c m) i
  dispatch-IsConsistent m dm = Same-IsConsistent (Passive.handle_dm-Same h t c m) i
  dispatch-IsConsistent m create_room = handle_create_room-IsConsistent i c m made
  dispatch-IsConsistent m join_room = handle_join_room-IsConsistent i c m made
  dispatch-IsConsistent m leave_room = handle_leave_room-IsConsistent i c m
  dispatch-IsConsistent m typing = Same-IsConsistent (Passive.handle_typing-Same h t c m) i
  dispatch-IsConsistent m get_dm_history =
      Same-IsConsistent (Passive.handle_get_dm_history-Same h c m) i
  dispatch-IsConsistent m key_exchange =
      Same-IsConsistent (Passive.handle_key_exchange-Same h c m) i
  dispatch-IsConsistent m (call k) = Same-IsConsistent (Passive.handle_call_signal-Same h c m) i
  dispatch-IsConsistent m delivery_ack =
      Same-IsConsistent (Passive.handle_delivery_receipt-Same h c m) i
  dispatch-IsConsistent m read_receipt =
      Same-IsConsistent (Passive.handle_delivery_receipt-Same h c m) i
  dispatch-IsConsistent m list_rooms = Same-IsConsistent {h = h} (ground arith) i
  dispatch-IsConsistent m list_users = Same-IsConsistent {h = h} (ground arith) i
  dispatch-IsConsistent m mesh_level = Same-IsConsistent {h = h} (ground arith) i
  dispatch-IsConsistent m type = Same-IsConsistent {h = h} (ground arith) i

  handle_raw-IsConsistent : (raw : Option Message) → IsConsistent (handle_raw t c raw h)
  unfolding handle_raw
  handle_raw-IsConsistent none = Same-IsConsistent {h = h} (ground arith) i
  handle_raw-IsConsistent (some m) = dispatch-IsConsistent m m.type

process_message-IsConsistent :
    {h : Hub}
    → IsConsistent h
    → (t : Moment) (c : ClientId) → c < h.next_client
    → (raw : Option Message) → IsConsistent (process_message t c raw h)
unfolding process_message
process_message-IsConsistent {h} i t c made raw = elim (Bool-cases (truthy (h.client c).username)) [
  | inr unnamed ↦ rw (unnamed, process_message) (handle_raw-IsConsistent i t c made raw)
  | inl named ↦ elim (Bool-cases (is_throttled t.now c h)) [
    | inl early ↦ rw (named, early, process_message) i
    | inr late ↦
        let s = Passive.note_time-Same h t.now c in
        simp (named, late, process_message)
          (handle_raw-IsConsistent (Same-IsConsistent s i) t c (rw s.next_client made) raw)
  ]
]

step_hub-IsConsistent : (e : Event) {h : Hub} → IsConsistent h → IsConsistent (step_hub e h)
unfolding step_hub write_next
step_hub-IsConsistent registered i = register-IsConsistent i
step_hub-IsConsistent (unregistered c) {h} i = elim (Bool-cases (ltb c h.next_client)) [
  | inl made ↦ rw (made, step_hub) (unregister-IsConsistent i c (ground arith))
  | inr unmade ↦ rw (unmade, step_hub) i
]
step_hub-IsConsistent (received t c raw) {h} i = elim (Bool-cases (ltb c h.next_client)) [
  | inl made ↦ rw (made, step_hub) (process_message-IsConsistent i t c (ground arith) raw)
  | inr unmade ↦ rw (unmade, step_hub) i
]
step_hub-IsConsistent (written c) {h} i = Same-IsConsistent {h = h} (ground arith) i
step_hub-IsConsistent (injected t m) {h} i =
    Same-IsConsistent (Passive.inject_from_mesh-Same h t m m.type) i
step_hub-IsConsistent (synced peer users) {h} i =
    Same-IsConsistent (Passive.on_remote_users-Same h peer users) i

run_hub-from-IsConsistent :
    (es : List Event) {h : Hub} → IsConsistent h → IsConsistent (run_hub es h)
unfolding run_hub
run_hub-from-IsConsistent [] i = i
run_hub-from-IsConsistent (e ∷ es) i = run_hub-from-IsConsistent es (step_hub-IsConsistent e i)

new_hub-IsConsistent : (s : MessageStore) (max : ℕ) → IsConsistent (new_hub s max)
unfolding new_hub get member distinct
new_hub-IsConsistent s max = record {
  joined = λ room c m. ground arith;
  back = λ room c m within. ground arith;
  once = λ room. ground arith;
  default = ground (arith, str_eq_refl general);
  live = λ c m. ground arith;
  fresh = λ c m. (refl, refl);
  owned = λ user c e. ground arith;
}

pub after-IsConsistent :
    (es : List Event) (s : MessageStore) (max : ℕ) → IsConsistent (run_hub es (new_hub s max))
after-IsConsistent es s max = run_hub-from-IsConsistent es (new_hub-IsConsistent s max)

-- After everything that happens to a new hub, in any order: whoever is in a room by the hub's record
-- has a name and is in the room by its own record; who is registered and in a room by its own record
-- is there by the hub's; nobody is in a room twice; the default room is there; who is registered is not
-- closed; only clients that were made are in rooms, are registered and own names, and who owns a name
-- has one. And if a client then joins under a valid name, then it owns that name, has it, and is in the
-- default room by both records.
pub run_hub-IsConsistent :
    (es : List Event) (s : MessageStore) (max : ℕ) (t : Moment) (c : ClientId) (m : Message)
    → truthy m.username ≡ true
    → validate_username m.username ≡ true
    → IsConsistent (run_hub es (new_hub s max))
      × HasJoined c m.username (handle_join t c m (run_hub es (new_hub s max)))
run_hub-IsConsistent es s max t c m named valid = (
  after-IsConsistent es s max,
  handle_join-HasJoined t c m (run_hub es (new_hub s max)) named valid,
)
