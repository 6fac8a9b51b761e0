-- ===== src/Server/Sets.antt =====
-- Sets of clients and the rooms that hold them.
use wifi_chat.Base.{
  ◌==◌, ◌≡◌, refl, Bool, true, false, not, ◌&&◌, ◌||◌, is_some, List, [], ◌∷◌, ◌++◌, arith,
}
use wifi_chat.Js.Text.{Text}
use wifi_chat.Js.Dict.{Dict, get}
use wifi_chat.Server.Hub.{ClientId, member, add, without, members_of}
use wifi_chat.Server.Joining.{leave_all}

member-append_one :
    (c d : ClientId) (ds : List ClientId) → member c (ds ++ d ∷ []) ≡ (d == c || member c ds)
unfolding member
member-append_one c d [] = ground arith
member-append_one c d (e ∷ ds) = ground (arith, member-append_one c d ds)

pub member-add :
    (c d : ClientId) (ds : List ClientId) → member c (add d ds) ≡ (d == c || member c ds)
unfolding add
member-add c d ds = ground (arith, member-append_one c d ds)

pub member-without :
    (c d : ClientId) (ds : List ClientId) → member c (without d ds) ≡ (not (d == c) && member c ds)
unfolding member without
member-without c d [] = ground arith
member-without c d (e ∷ ds) = ground (arith, member-without c d ds)

-- Whether nobody is in the list twice.
unfoldable pub distinct : List ClientId → Bool
unfolding member
distinct [] = true
distinct (c ∷ cs) = not (member c cs) && distinct cs

distinct-append_one :
    (c : ClientId) (ds : List ClientId)
    → member c ds ≡ false
    → distinct ds ≡ true
    → distinct (ds ++ c ∷ []) ≡ true
unfolding distinct
distinct-append_one c [] out once = refl
distinct-append_one c (d ∷ ds) out once =
    ground (arith, distinct-append_one c ds, member-append_one d c ds)

pub distinct-add :
    (c : ClientId) (ds : List ClientId) → distinct ds ≡ true → distinct (add c ds) ≡ true
unfolding add
distinct-add c ds once = ground (arith, distinct-append_one c ds)

pub distinct-without :
    (c : ClientId) (ds : List ClientId) → distinct ds ≡ true → distinct (without c ds) ≡ true
unfolding distinct without
distinct-without c [] once = refl
distinct-without c (d ∷ ds) once = ground (arith, distinct-without c ds, member-without d c ds)

-- Who is put out of every room is in none, and all else stays.
pub members_of-leave_all :
    (room : Text) (c : ClientId) (rooms : Dict (List ClientId))
    → (members_of room (leave_all c rooms) ≡ without c (members_of room rooms))
      × (is_some (get room (leave_all c rooms)) ≡ is_some (get room rooms))
unfolding leave_all get
members_of-leave_all room c [] = ground arith
members_of-leave_all room c ((r, members) ∷ rooms) =
    ground (arith, members_of-leave_all room c rooms)
