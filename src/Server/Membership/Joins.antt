-- ===== src/Server/Membership/Joins.antt =====
-- What a join (`handleJoin` of internal/hub/hub.go) gives to the client.
use wifi_chat.Base.{◌≡◌, Bool, true, false, some, arith}
use wifi_chat.Js.Text.{Text, truthy}
use wifi_chat.Js.Dict.{get, get-put_self}
use wifi_chat.Chat.State.{general}
use wifi_chat.Server.Message.{Message, validate_username}
use wifi_chat.Server.Hub.{ClientId, Hub, Moment, add, member, members_of, is_in_room}
use wifi_chat.Server.Joining.{cool_down, kick_old, take_name, greet, enter_as, enter, handle_join}
use wifi_chat.Server.Sets.{member-add}
use wifi_chat.Server.Membership.Passive

-- Who joins owns the name, has it and is in the default room.
pub record HasJoined (c : ClientId) (user : Text) (h : Hub) : Type 0 where
  pub owner : get user h.user_clients ≡ some c
  pub named : (h.client c).username ≡ user
  pub inside : member c (members_of general h.rooms) ≡ true
  pub knows : is_in_room general (h.client c) ≡ true

take_name-HasJoined :
    (c : ClientId) (user key : Text) (h : Hub) → HasJoined c user (take_name c user key h)
unfolding take_name
take_name-HasJoined c user key h = record {
  owner = get-put_self user c h.user_clients;
  named = ground arith;
  inside = ground (
    arith,
    get-put_self general (add c (members_of general h.rooms)) h.rooms,
    member-add c c (members_of general h.rooms),
  );
  knows = ground (arith, get-put_self general true (h.client c).rooms);
}

greet-HasJoined :
    (c : ClientId) (user key : Text) (b : Bool) (h : Hub)
    → HasJoined c user (greet c user key b (take_name c user key h))
greet-HasJoined c user key b h =
    let s = Passive.greet-Same (take_name c user key h) c user key b in
    let j = take_name-HasJoined c user key h in
    record {
      owner = rw s.user_clients j.owner;
      named = rw s.client j.named;
      inside = rw s.rooms j.inside;
      knows = rw s.client j.knows;
    }

enter_as-HasJoined :
    (c : ClientId) (user key : Text) (recent : Bool) (h : Hub)
    → HasJoined c user (enter_as c user key recent h)
unfolding enter_as
enter_as-HasJoined c user key true h = greet-HasJoined c user key true h
enter_as-HasJoined c user key false h =
    greet-HasJoined c user key (kick_old user h).0 (kick_old user h).1

pub handle_join-HasJoined :
    (t : Moment) (c : ClientId) (m : Message) (h : Hub)
    → truthy m.username ≡ true
    → validate_username m.username ≡ true
    → HasJoined c m.username (handle_join t c m h)
unfolding handle_join enter
handle_join-HasJoined t c m h named valid =
    let cooled = cool_down m.username t.now h.join_cooldown in
    rw (named, valid, handle_join)
      (enter_as-HasJoined c m.username m.public_key cooled.0
        (record h { join_cooldown = cooled.1 }))
