-- ===== src/Server/Hub.antt =====
-- internal/hub: the state of the hub and of its clients (hub.go, client.go), and what the handlers
-- share.
use wifi_chat.Base.{
  ℕ, ◌==◌, leb, Bool, true, false, not, ◌&&◌, ◌||◌, Option, none, some, List, [], ◌∷◌, ◌++◌,
  if◌then◌else◌, length, map,
}
use wifi_chat.Js.Text.{Text, truthy}
use wifi_chat.Js.Dict.{Dict, get, put, remove}
use wifi_chat.Chat.State.{general}
use wifi_chat.Chat.Lists.{add_names}
use wifi_chat.Server.Message.{Message, Reply, error, user_list, room_users}
use wifi_chat.Server.Store.{MessageStore}

-- A `*Client`, by number.
abbrev pub ClientId : Type 0
ClientId = ℕ

-- `Client`; what waits in its channel `Send` is in the hub's record.
pub record Client : Type 0 where
  pub username : Text
  pub public_key : Text
  pub rooms : Dict Bool
  pub closed : Bool

abbrev pub new_client : Client
new_client = record { username = []; public_key = []; rooms = []; closed = false }

-- `Hub`. A set of clients is a list of numbers, and a map to `bool` that has only `true` a set.
-- `next_client` is the number that the next client gets. `relayed` is what was handed to `Mesh.Propagate`, and `synced` the user lists for the mesh.
pub record Hub : Type 0 where
  pub client : ClientId → Client
  pub queue : ClientId → List Reply
  pub next_client : ClientId
  pub clients : List ClientId
  pub user_clients : Dict ClientId
  pub rooms : Dict (List ClientId)
  pub store : MessageStore
  pub remote_users : Dict (List Text)
  pub join_cooldown : Dict ℕ
  pub rate_limiter : Dict ℕ
  pub max_content_len : ℕ
  pub relayed : List Message
  pub synced : List (List Text)

-- What a handler takes from outside: the time in milliseconds, a fresh identifier, and
-- `Mesh.IsRemoteUser`.
pub record Moment : Type 0 where
  pub now : ℕ
  pub fresh_id : Text
  pub mesh_user : Text → Bool

-- A write to one client.
abbrev pub at {ℓ} : {A : Type ℓ} → ClientId → A → (ClientId → A) → ClientId → A
at c v f d = if c == d then v else f d

abbrev pub set_client : ClientId → Client → Hub → Hub
set_client c v h = record h { client = at c v h.client }

-- Sets of clients.
unfoldable pub member : ClientId → List ClientId → Bool
member c [] = false
member c (d ∷ ds) = d == c || member c ds

unfoldable pub add : ClientId → List ClientId → List ClientId
unfolding member
add c ds = if member c ds then ds else ds ++ c ∷ []

unfoldable pub without : ClientId → List ClientId → List ClientId
without c [] = []
without c (d ∷ ds) = let rest = without c ds in if d == c then rest else d ∷ rest

abbrev pub or_nobody : Option (List ClientId) → List ClientId
or_nobody none = []
or_nobody (some cs) = cs

-- `h.Rooms[room]`
abbrev pub members_of : Text → Dict (List ClientId) → List ClientId
members_of room rooms = or_nobody (get room rooms)

abbrev pub or_false : Option Bool → Bool
or_false none = false
or_false (some b) = b

-- `IsInRoom`
abbrev pub is_in_room : Text → Client → Bool
is_in_room room cl = or_false (get room cl.rooms)

-- `JoinRoom` and `LeaveRoom`
abbrev pub join_room : Text → Client → Client
join_room room cl = record cl { rooms = put room true cl.rooms }

abbrev pub leave_room : Text → Client → Client
leave_room room cl = record cl { rooms = remove room cl.rooms }

-- `CloseSend`
abbrev pub close_send : ClientId → Hub → Hub
close_send c h = set_client c (record (h.client c) { closed = true }) h

-- The capacity of the channel `Send`.
abbrev pub capacity : ℕ
capacity = 256

-- `SendJSON`: nothing to a client that is closed, or whose channel is full.
unfoldable pub enqueue :
    (ClientId → Client) → ClientId → Reply → (ClientId → List Reply) → ClientId → List Reply
enqueue client c r queue =
    if (client c).closed || leb capacity (length (queue c))
    then queue
    else at c (queue c ++ r ∷ []) queue

abbrev pub send_json : ClientId → Reply → Hub → Hub
send_json c r h = record h { queue = enqueue h.client c r h.queue }

abbrev pub refuse : ClientId → Text → Hub → Hub
refuse c text h = send_json c (error text) h

-- Whether a client is the one that is left out.
abbrev pub is_excluded : Option ClientId → ClientId → Bool
is_excluded none c = false
is_excluded (some e) c = e == c

-- The loops that send to the clients with a name.
unfoldable pub enqueue_all :
    (ClientId → Client)
    → Reply
    → Option ClientId
    → List ClientId
    → (ClientId → List Reply)
    → ClientId
    → List Reply
unfolding enqueue
enqueue_all client r exclude [] queue = queue
enqueue_all client r exclude (c ∷ cs) queue = enqueue_all client r exclude cs (
    if not (is_excluded exclude c) && truthy (client c).username
    then enqueue client c r queue
    else queue)

abbrev pub send_all : Reply → Option ClientId → List ClientId → Hub → Hub
send_all r exclude cs h = record h { queue = enqueue_all h.client r exclude cs h.queue }

-- `broadcastToRoomLocked`
abbrev pub broadcast_to_room : Text → Reply → Option ClientId → Hub → Hub
broadcast_to_room room r exclude h = send_all r exclude (members_of room h.rooms) h

-- `getRoomListLocked`
abbrev pub get_room_list : Hub → List Text
get_room_list h = map (λ entry. entry.0) h.rooms

-- `getLocalUsernamesLocked`
abbrev pub get_local_usernames : Hub → List Text
get_local_usernames h = map (λ entry. entry.0) h.user_clients

unfoldable pub all_remote : Dict (List Text) → List Text
all_remote [] = []
all_remote ((peer, users) ∷ d) = users ++ all_remote d

-- `getUserListLocked`: a remote user who is in the list already is not repeated.
unfoldable pub get_user_list : Hub → List Text
unfolding all_remote
get_user_list h = add_names (all_remote h.remote_users) (get_local_usernames h)

-- `getPublicKeysLocked`
unfoldable pub public_keys : (ClientId → Client) → Dict ClientId → Dict Text
public_keys client [] = []
public_keys client ((user, c) ∷ d) =
    let rest = public_keys client d in
    if truthy (client c).public_key then (user, (client c).public_key) ∷ rest else rest

abbrev pub get_public_keys : Hub → Dict Text
get_public_keys h = public_keys h.client h.user_clients

-- `broadcastUserListLocked`
unfoldable pub broadcast_user_list : Hub → Hub
unfolding get_user_list
broadcast_user_list h = send_all (user_list (get_user_list h) (get_public_keys h)) none h.clients h

unfoldable pub names_of : (ClientId → Client) → List ClientId → List Text
names_of client [] = []
names_of client (c ∷ cs) =
    let rest = names_of client cs in
    if truthy (client c).username then (client c).username ∷ rest else rest

-- `sendRoomUsersLocked`
unfoldable pub send_room_users : Text → Hub → Hub
unfolding names_of
send_room_users room h =
    let members = members_of room h.rooms in
    send_all (room_users room (names_of h.client members)) none members h

-- `Mesh.Propagate`
abbrev pub propagate : Message → Hub → Hub
propagate m h = record h { relayed = h.relayed ++ m ∷ [] }

abbrev pub sync_users : Hub → Hub
sync_users h = record h { synced = h.synced ++ get_local_usernames h ∷ [] }

-- `NewHub`
unfoldable pub new_hub : MessageStore → ℕ → Hub
new_hub s max = record {
  client = λ c. new_client;
  queue = λ c. [];
  next_client = 0;
  clients = [];
  user_clients = [];
  rooms = (general, []) ∷ [];
  store = s;
  remote_users = [];
  join_cooldown = [];
  rate_limiter = [];
  max_content_len = max;
  relayed = [];
  synced = [];
}
