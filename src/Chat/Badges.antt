-- ===== src/Chat/Badges.antt =====
-- The badges of the lists of frontend/app.js, through a session.
use wifi_chat.Base.{
  ℕ, ◌==◌, ◌≡◌, refl, Bool, true, false, Option, none, some, List, [], ◌∷◌, arith, map,
  if◌then◌else◌,
}
use wifi_chat.Js.Text.{Text, str_eq, str_eq_iff}
use wifi_chat.Chat.State.{Chat, View, room, dm, key_of}
use wifi_chat.Chat.Store.{count_at}
use wifi_chat.Chat.Lists.{Surroundings, Item, room_item, room_list, dm_users, dm_item, dm_list}
use wifi_chat.Chat.Session.{Event, run}
use wifi_chat.Chat.Rendering.{IsRendered}
use wifi_chat.Chat.Rendering.Sessions.{AllPlain, run-IsRendered}

-- Whether two views are the same.
abbrev pub same_view : View → View → Bool
same_view (room a) (room b) = str_eq a b
same_view (dm a) (dm b) = str_eq a b
same_view (room a) (dm b) = false
same_view (dm a) (room b) = false

-- How an element should be marked: the one of the conversation in view is active and has no badge, and
-- any other has the number of its unread messages, if there are some.
abbrev pub marks : View → Chat → Bool × Option ℕ
marks v c =
    let n = count_at (key_of v) c.unread in
    if same_view c.view v then (true, none) else (false, if n == 0 then none else some n)

abbrev pub marks_of : Item → Bool × Option ℕ
marks_of item = (item.active, item.badge)

module _ (c : Chat) (u : count_at (key_of c.view) c.unread ≡ 0) where
  room-marks :
      (name : Text) (v : View) → c.view ≡ v → marks_of (room_item c name) ≡ marks (room name) c
  room-marks name (room here) e = ground (arith, str_eq_iff here name)
  room-marks name (dm peer) e = ground arith

  dm-marks :
      (S : Surroundings) (name : Text) (v : View)
      → c.view ≡ v
      → marks_of (dm_item S c name) ≡ marks (dm name) c
  dm-marks S name (room here) e = ground arith
  dm-marks S name (dm peer) e = ground (arith, str_eq_iff peer name)

  rooms-marks :
      (names : List Text)
      → map marks_of (map (room_item c) names) ≡ map (λ name. marks (room name) c) names
  rooms-marks [] = refl
  rooms-marks (n ∷ names) = rw (room-marks n c.view refl, rooms-marks names) refl

  dms-marks :
      (S : Surroundings) (names : List Text)
      → map marks_of (map (dm_item S c) names) ≡ map (λ name. marks (dm name) c) names
  dms-marks S [] = refl
  dms-marks S (n ∷ names) = rw (dm-marks S n c.view refl, dms-marks S names) refl

-- Take a session in which no room that is opened or whose history comes has a name that begins with
-- `dm:`, from a state in which the page shows exactly the stored messages of the conversation in
-- view and counts none of them as unread. At its end, in the list of rooms and in the list of direct
-- conversations, the element of the conversation in view is the active one and has no badge, and
-- every other one has the number of its unread messages as its badge, if there are some.
pub run-marks :
    (S : Surroundings) (es : List Event) {c : Chat}
    → AllPlain es
    → IsRendered c
    → (map marks_of (room_list (run es c))
        ≡ map (λ name. marks (room name) (run es c)) (run es c).rooms)
      × (map marks_of (dm_list S (run es c))
          ≡ map (λ name. marks (dm name) (run es c)) (dm_users (run es c)))
unfolding room_list dm_list
run-marks S es {c} p h =
    let end = run es c in
    let u = (run-IsRendered es p h).unread in
    (rooms-marks end u end.rooms, dms-marks end u S (dm_users end))
