-- ===== src/Server/Posting.antt =====
-- Who gets a message that is posted in a room (`handleMessage` of internal/hub/hub.go).
use wifi_chat.Base.{
  ℕ, ◌==◌, ltb, ◌≡◌, ◌∙◌, refl, Bool, Bool-cases, true, false, not, ◌&&◌, is_some, none, List, [],
  append-nil, ◌∷◌, ◌++◌, arith, if◌then◌else◌, length, inl, inr,
}
use wifi_chat.Js.Text.{Text, truthy, or_else}
use wifi_chat.Js.Dict.{get}
use wifi_chat.Chat.State.{general}
use wifi_chat.Server.Message.{
  MessageType, empty_message, truncate_content, Message, StoredMessage, Reply, deliver,
}
use wifi_chat.Server.Store.{MessageStore, save}
use wifi_chat.Server.Hub.{
  ClientId, Client, Hub, Moment, capacity, member, members_of, is_in_room, enqueue, enqueue_all,
  new_hub,
}
use wifi_chat.Server.Rooms.{room_message, post, handle_message}
use wifi_chat.Server.Running.{Event, run_hub}
use wifi_chat.Server.Sets.{distinct}
use wifi_chat.Server.Privacy.{enqueue-other}
use wifi_chat.Server.Membership.{IsConsistent}
use wifi_chat.Server.Membership.Runs.{after-IsConsistent}

enqueue_all-outside :
    (client : ClientId → Client) (r : Reply) (cs : List ClientId) (d : ClientId)
    (queue : ClientId → List Reply)
    → member d cs ≡ false
    → enqueue_all client r none cs queue d ≡ queue d
unfolding enqueue_all member
enqueue_all-outside client r [] d queue out = refl
enqueue_all-outside client r (c ∷ cs) d queue out = ground (
  arith,
  enqueue-other client c d r queue,
  enqueue_all-outside client r cs d (enqueue client c r queue),
  enqueue_all-outside client r cs d queue,
)

enqueue-same :
    (client : ClientId → Client) (d : ClientId) (r : Reply) (queue queue' : ClientId → List Reply)
    → queue d ≡ queue' d
    → enqueue client d r queue d ≡ enqueue client d r queue' d
unfolding enqueue
enqueue-same client d r queue queue' e = ground arith

-- What is sent to a list of named clients reaches each of them once.
enqueue_all_lem :
    (client : ClientId → Client) (r : Reply) (cs : List ClientId) (d : ClientId)
    (queue : ClientId → List Reply)
    → distinct cs ≡ true
    → ((c : ClientId) → member c cs ≡ true → truthy (client c).username ≡ true)
    → enqueue_all client r none cs queue d
      ≡ (if member d cs then enqueue client d r queue d else queue d)
unfolding enqueue_all member distinct
enqueue_all_lem client r [] d queue once named = refl
enqueue_all_lem client r (c ∷ cs) d queue once named =
    let next = enqueue client c r queue in
    let head_named : truthy (client c).username ≡ true = named c (ground (arith, member)) in
    let rest = enqueue_all_lem client r cs d next (ground arith) (λ x m. named x (ground arith)) in
    elim (Bool-cases (c == d)) [
      | inl same ↦ ground (arith, enqueue_all-outside client r cs d next)
      | inr other ↦
          ground (
            arith,
            rest,
            enqueue-other client c d r queue other,
            enqueue-same client d r next queue,
          )
    ]

-- Whether a message to the client is not dropped.
abbrev pub has_space : ClientId → Hub → Bool
has_space d h = not (h.client d).closed && ltb (length (h.queue d)) capacity

enqueue-space :
    (b : Bool) (d : ClientId) (r : Reply) (h : Hub)
    → (if b then enqueue h.client d r h.queue d else h.queue d)
      ≡ h.queue d ++ (if b && has_space d h then r ∷ [] else [])
unfolding enqueue
enqueue-space b d r h = ground (arith, append-nil (h.queue d))

posts :
    (h : Hub)
    → IsConsistent h
    → (t : Moment) (c d : ClientId) (room : Text) (m : Message)
    → (post t c room m h).queue d
      ≡ h.queue d
        ++ (if member d (members_of room h.rooms) && has_space d h
            then deliver (room_message t (h.client c).username room m h.max_content_len) ∷ []
            else [])
unfolding post
posts h i t c d room m =
    let r = deliver (room_message t (h.client c).username room m h.max_content_len) in
    enqueue_all_lem h.client r (members_of room h.rooms) d h.queue (i.once room)
      (λ x inside. (i.joined room x inside).1)
    ∙ enqueue-space (member d (members_of room h.rooms)) d r h

-- The hub after the events, from the store of a file.
abbrev pub hub_after : List Event → MessageStore → ℕ → Hub
hub_after es s max = run_hub es (new_hub s max)

-- The room that the message is for.
abbrev pub room_of : Message → Text
room_of m = or_else m.room general

-- The message of the client as the members should get it.
abbrev pub out_of : Moment → ClientId → Message → Hub → Message
out_of t c m h = record (empty_message MessageType.message) {
  from = (h.client c).username;
  room = room_of m;
  content = truncate_content h.max_content_len m.content;
  image_url = m.image_url;
  ts = t.now;
  message_id = or_else m.message_id t.fresh_id;
}

-- And as it should be stored.
abbrev pub posted : Moment → ClientId → Message → Hub → StoredMessage
posted t c m h = record {
  id = h.store.next_id;
  room = room_of m;
  from = (h.client c).username;
  to = [];
  content = truncate_content h.max_content_len m.content;
  image_url = m.image_url;
  timestamp = t.now;
  is_dm = false;
  encrypted = false;
  msg_id = or_else m.message_id t.fresh_id;
  status = [];
}

-- After everything that may have happened to a new hub, a client with a name writes to a room that is
-- there and that it is in. The message, under the sender's name, with the room, the
-- text cut to the hub's limit, the image, the time and its identifier or a fresh one, is put once into the channel of each
-- member that is not closed and whose channel has room, the sender's own if it is such a member, and
-- into no other; it is written at the end of the file with the next identifier; and it is handed to
-- the mesh once.
pub handle_message-posts :
    (es : List Event) (s : MessageStore) (max : ℕ) (t : Moment) (c d : ClientId) (m : Message)
    → truthy ((hub_after es s max).client c).username ≡ true
    → is_some (get (room_of m) (hub_after es s max).rooms) ≡ true
    → is_in_room (room_of m) ((hub_after es s max).client c) ≡ true
    → ((handle_message t c m (hub_after es s max)).queue d
        ≡ (hub_after es s max).queue d
          ++ (if member d (members_of (room_of m) (hub_after es s max).rooms)
                && has_space d (hub_after es s max)
              then deliver (out_of t c m (hub_after es s max)) ∷ []
              else []))
      × ((handle_message t c m (hub_after es s max)).store.disk
          ≡ (hub_after es s max).store.disk ++ posted t c m (hub_after es s max) ∷ [])
      × ((handle_message t c m (hub_after es s max)).relayed
          ≡ (hub_after es s max).relayed ++ out_of t c m (hub_after es s max) ∷ [])
unfolding handle_message save post room_message
handle_message-posts es s max t c d m named there inside =
    let h = hub_after es s max in
    let sent = posts h (after-IsConsistent es s max) t c d (room_of m) m in
    rw (named, there, inside, handle_message) (sent, refl, refl)
