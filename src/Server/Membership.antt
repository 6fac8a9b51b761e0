-- ===== src/Server/Membership.antt =====
-- What the hub's records and those of the clients have in common.
pub mod Passive
pub mod Handlers
pub mod Joins
pub mod Runs
use wifi_chat.Base.{
  ℕ, suc, ◌==◌, ◌≤◌, ◌<◌, ◌≡◌, refl, Bool, true, false, not, ◌&&◌, ◌||◌, is_some, Option, none,
  some, List, [], ◌∷◌, ◌++◌, arith, if◌then◌else◌,
}
use wifi_chat.Js.Text.{Text, js, str_eq, str_eq_iff, str_eq_refl, truthy}
use wifi_chat.Js.Dict.{Dict, get, put, remove, get-put, get-remove}
use wifi_chat.Chat.State.{general}
use wifi_chat.Server.Hub.{
  ClientId, Client, new_client, Hub, at, member, add, without, close_send, or_nobody, members_of,
  or_false, is_in_room,
}
use wifi_chat.Server.Joining.{leave_all, kick, take_name, register}
use wifi_chat.Server.Rooms.{enter_room, exit_room}
use wifi_chat.Server.Sets.{
  member-add, member-without, members_of-leave_all, distinct, distinct-add, distinct-without,
}

-- Who is in a room by the hub's record has a name, and is in the room by its own; who is registered and in a room by its own record is there by the hub's;
-- nobody is in a room twice. The default room is
-- there. Who is registered is not closed, and so is every client that is still to come; and whoever
-- owns a name was made and has a name.
pub record IsConsistent (h : Hub) : Type 0 where
  pub joined :
      (room : Text) (c : ClientId)
      → member c (members_of room h.rooms) ≡ true
      → (is_in_room room (h.client c) ≡ true)
        × (truthy (h.client c).username ≡ true)
        × (c < h.next_client)
  pub back :
      (room : Text) (c : ClientId)
      → member c h.clients ≡ true
      → is_in_room room (h.client c) ≡ true
      → member c (members_of room h.rooms) ≡ true
  pub once : (room : Text) → distinct (members_of room h.rooms) ≡ true
  pub default : is_some (get general h.rooms) ≡ true
  pub live :
      (c : ClientId)
      → member c h.clients ≡ true
      → ((h.client c).closed ≡ false) × (c < h.next_client)
  pub fresh :
      (c : ClientId) → h.next_client ≤ c → ((h.client c).closed ≡ false) × ((h.client c).rooms ≡ [])
  pub owned :
      (user : Text) (c : ClientId)
      → get user h.user_clients ≡ some c
      → (c < h.next_client) × (truthy (h.client c).username ≡ true)

-- What the invariant reads is the same.
pub record Same (h h' : Hub) : Type 0 where
  pub client : h'.client ≡ h.client
  pub next_client : h'.next_client ≡ h.next_client
  pub clients : h'.clients ≡ h.clients
  pub user_clients : h'.user_clients ≡ h.user_clients
  pub rooms : h'.rooms ≡ h.rooms

pub Same-IsConsistent : {h h' : Hub} → Same h h' → IsConsistent h → IsConsistent h'
Same-IsConsistent s i = record {
  joined = λ room c. rw (s.client, s.next_client, s.rooms) (i.joined room c);
  back = λ room c. rw (s.client, s.clients, s.rooms) (i.back room c);
  once = λ room. rw s.rooms (i.once room);
  default = rw s.rooms i.default;
  live = λ c. rw (s.client, s.next_client, s.clients) (i.live c);
  fresh = λ c. rw (s.client, s.next_client) (i.fresh c);
  owned = λ user c. rw (s.client, s.next_client, s.user_clients) (i.owned user c);
}

get_nil : (r : Text) → ◌≡◌ {A = Option Bool} (get r []) none
unfolding get
get_nil r = refl

remove_nil : (r : Text) → ◌≡◌ {A = Dict Bool} (remove r []) []
unfolding remove
remove_nil r = refl

module _ {h : Hub} (i : IsConsistent h) where
  pub register-IsConsistent : IsConsistent (register h)
  unfolding register
  register-IsConsistent = record {
    joined = λ room c m. ground (arith, i.joined room c);
    back = λ r c m within.
        ground (arith, i.back r c, i.fresh c, get_nil r, member-add c h.next_client h.clients);
    once = i.once;
    default = i.default;
    live = λ c m. ground (arith, i.live c, i.fresh c, member-add c h.next_client h.clients);
    fresh = λ c m. ground (arith, i.fresh c);
    owned = λ user c e. ground (arith, i.owned user c);
  }

  pub enter_room-IsConsistent :
      (c : ClientId) (room : Text)
      → c < h.next_client
      → truthy (h.client c).username ≡ true
      → IsConsistent (enter_room c room h)
  unfolding enter_room
  enter_room-IsConsistent c room made named =
      let members = members_of room h.rooms in
      record {
        joined = λ r d m. ground (
          arith,
          i.joined r d,
          get-put room r (add c members) h.rooms,
          get-put room r true (h.client c).rooms,
          str_eq_iff room r,
          member-add d c members,
        );
        back = λ r d m within. ground (
          arith,
          i.back r d,
          get-put room r (add c members) h.rooms,
          get-put room r true (h.client c).rooms,
          str_eq_iff room r,
          member-add d c members,
        );
        once = λ r. ground (
          arith,
          i.once r,
          i.once room,
          get-put room r (add c members) h.rooms,
          distinct-add c members,
          str_eq_iff room r,
        );
        default = ground (arith, i.default, get-put room general (add c members) h.rooms);
        live = λ d m. ground (arith, i.live d);
        fresh = λ d m. ground (arith, i.fresh d);
        owned = λ user d e. ground (arith, i.owned user d);
      }

  pub exit_room-IsConsistent : (c : ClientId) (room : Text) → IsConsistent (exit_room c room h)
  unfolding exit_room
  exit_room-IsConsistent c room =
      let members = members_of room h.rooms in
      record {
        joined = λ r d m. ground (
          arith,
          i.joined r d,
          get-put room r (without c members) h.rooms,
          get-remove room r (h.client c).rooms,
          str_eq_iff room r,
          member-without d c members,
        );
        back = λ r d m within. ground (
          arith,
          i.back r d,
          get-put room r (without c members) h.rooms,
          get-remove room r (h.client c).rooms,
          str_eq_iff room r,
          member-without d c members,
        );
        once = λ r. ground (
          arith,
          i.once r,
          get-put room r (without c members) h.rooms,
          distinct-without c members,
          i.once room,
        );
        default = ground (arith, i.default, get-put room general (without c members) h.rooms);
        live = λ d m. ground (arith, i.live d);
        fresh = λ d m. ground (arith, i.fresh d, remove_nil room);
        owned = λ user d e. ground (arith, i.owned user d);
      }

  pub kick-IsConsistent :
      (user : Text) (old : ClientId) → old < h.next_client → IsConsistent (kick user old h)
  unfolding kick
  kick-IsConsistent user old made = record {
    joined = λ r d m. ground (
      arith,
      i.joined r d,
      members_of-leave_all r old h.rooms,
      member-without d old (members_of r h.rooms),
    );
    back = λ r d m within. ground (
      arith,
      i.back r d,
      members_of-leave_all r old h.rooms,
      member-without d old (members_of r h.rooms),
      member-without d old h.clients,
    );
    once = λ r. ground (
      arith,
      i.once r,
      members_of-leave_all r old h.rooms,
      distinct-without old (members_of r h.rooms),
    );
    default = ground (arith, i.default, members_of-leave_all general old h.rooms);
    live = λ d m. ground (arith, i.live d, member-without d old h.clients);
    fresh = λ d m. ground (arith, i.fresh d);
    owned = λ u d e. ground (arith, i.owned u d, get-remove user u h.user_clients);
  }

  pub take_name-IsConsistent :
      (c : ClientId) (user key : Text)
      → c < h.next_client
      → truthy user ≡ true
      → IsConsistent (take_name c user key h)
  unfolding take_name
  take_name-IsConsistent c user key made named =
      let members = members_of general h.rooms in
      record {
        joined = λ r d m. ground (
          arith,
          i.joined r d,
          get-put general r (add c members) h.rooms,
          get-put general r true (h.client c).rooms,
          str_eq_iff general r,
          member-add d c members,
        );
        back = λ r d m within. ground (
          arith,
          i.back r d,
          get-put general r (add c members) h.rooms,
          get-put general r true (h.client c).rooms,
          str_eq_iff general r,
          member-add d c members,
        );
        once = λ r. ground (
          arith,
          i.once r,
          i.once general,
          get-put general r (add c members) h.rooms,
          distinct-add c members,
        );
        default = ground (arith, i.default, get-put general general (add c members) h.rooms);
        live = λ d m. ground (arith, i.live d);
        fresh = λ d m. ground (arith, i.fresh d);
        owned = λ u d e. ground (arith, i.owned u d, get-put user u c h.user_clients);
      }

  pub put_out-IsConsistent :
      (c : ClientId) (room : Text)
      → member c h.clients ≡ false
      → IsConsistent (record h { rooms = put room (without c (members_of room h.rooms)) h.rooms })
  put_out-IsConsistent c room gone =
      let members = members_of room h.rooms in
      record {
        joined = λ r d m. ground (
          arith,
          i.joined r d,
          get-put room r (without c members) h.rooms,
          str_eq_iff room r,
          member-without d c members,
        );
        back = λ r d m within. ground (
          arith,
          i.back r d,
          get-put room r (without c members) h.rooms,
          str_eq_iff room r,
          member-without d c members,
        );
        once = λ r. ground (
          arith,
          i.once r,
          get-put room r (without c members) h.rooms,
          distinct-without c members,
          i.once room,
        );
        default = ground (arith, i.default, get-put room general (without c members) h.rooms);
        live = i.live;
        fresh = i.fresh;
        owned = i.owned;
      }

  -- A client and a name are struck off.
  pub strike-IsConsistent :
      (c : ClientId) (user : Text) (owner : Bool)
      → IsConsistent (record h {
        clients = without c h.clients;
        user_clients = if owner then remove user h.user_clients else h.user_clients;
      })
  strike-IsConsistent c user owner = record {
    joined = i.joined;
    back = λ r d m. ground (arith, i.back r d, member-without d c h.clients);
    once = i.once;
    default = i.default;
    live = λ d m. ground (arith, i.live d, member-without d c h.clients);
    fresh = i.fresh;
    owned = λ u d e. ground (arith, i.owned u d, get-remove user u h.user_clients);
  }

  -- A client that is registered no more is closed.
  pub close_send-IsConsistent :
      (c : ClientId)
      → member c h.clients ≡ false
      → c < h.next_client
      → IsConsistent (close_send c h)
  close_send-IsConsistent c gone made = record {
    joined = λ r d m. ground (arith, i.joined r d);
    back = λ r d m. ground (arith, i.back r d);
    once = i.once;
    default = i.default;
    live = λ d m. ground (arith, i.live d);
    fresh = λ d m. ground (arith, i.fresh d);
    owned = λ u d e. ground (arith, i.owned u d);
  }
