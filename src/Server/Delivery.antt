-- ===== src/Server/Delivery.antt =====
-- A direct message from one page to another, through the server.
use wifi_chat.Base.{
  ℕ, zero, suc, ◌≤◌, ◌<◌, ◌==◌, ◌≡◌, ◌∙◌, ap, refl, Bool, true, false, some, List, [], ◌∷◌, ◌++◌,
  arith, length,
}
use wifi_chat.Js.Text.{Text, str_eq, truthy, or_else}
use wifi_chat.Js.Dict.{get, get-put_self}
use wifi_chat.Chat.State.{
  dm, Packet, dm_packet, direct_message, delivered, Chat, dm_key, messages_at, send,
}
use wifi_chat.Chat.State
use wifi_chat.Chat.Store.{announce, store_and_render}
use wifi_chat.Chat.Messages.{Decrypt, opened, on_dm, dm_failure, or_text}
use wifi_chat.Chat.Messages
use wifi_chat.Chat.Submit.{World, send_content, send_dm, is_some_text, wire_text}
use wifi_chat.Chat.Commands.{own_message}
use wifi_chat.Chat.Wire.{send_content-sealed}
use wifi_chat.Server.Message.{Message, MessageType, Reply, deliver, empty_message, truncate_content}
use wifi_chat.Server.Hub.{ClientId, Client, Hub, Moment, capacity, enqueue}
use wifi_chat.Server.Direct.{ack_of, deliver_local, handle_dm}
use wifi_chat.Server.Direct
use wifi_chat.Server.Running.{dispatch, is_throttled, note_time, handle_raw, process_message}
use wifi_chat.Server.Privacy.{enqueue-other}
use wifi_chat.Server.Link.{message_of, page_message, incoming_of, time_of}

pub truncate_short : (n : ℕ) (s : Text) → length s ≤ n → truncate_content n s ≡ s
unfolding truncate_content
truncate_short zero [] h = refl
truncate_short (suc n) [] h = refl
truncate_short zero (c ∷ s) h = absurd (omega arith)
truncate_short (suc n) (c ∷ []) h = refl
truncate_short (suc n) (c ∷ d ∷ s) h = ground (arith, truncate_short n s, truncate_short n (d ∷ s))

pub enqueue_self :
    (client : ClientId → Client) (c : ClientId) (r : Reply) (queue : ClientId → List Reply)
    → (client c).closed ≡ false
    → length (queue c) < capacity
    → enqueue client c r queue c ≡ queue c ++ r ∷ []
unfolding enqueue
enqueue_self client c r queue open_ free = ground arith

deliver_local-target :
    (t : Moment) (c b : ClientId) (out : Message) (h : Hub)
    → (c == b) ≡ false
    → (h.client b).closed ≡ false
    → length (h.queue b) < capacity
    → (deliver_local t c b out h).queue b ≡ h.queue b ++ deliver out ∷ []
unfolding deliver_local
deliver_local-target t c b out h other open_ free =
    let once = enqueue h.client b (deliver out) h.queue in
    let twice = enqueue h.client c (deliver out) once in
    ground (
      arith,
      enqueue_self h.client b (deliver out) h.queue,
      enqueue-other h.client c b (deliver out) once,
      enqueue-other h.client c b (deliver (ack_of t out)) twice,
    )

-- A sender with a name, whose message is not too early, and a receiver whose channel has room.
pub record IsLinked (t : Moment) (from to : Text) (a b : ClientId) (h : Hub) : Type 0 where
  pub sender : (h.client a).username ≡ from
  pub named : truthy from ≡ true
  pub receiver : get to h.user_clients ≡ some b
  pub known : truthy to ≡ true
  pub others : str_eq to from ≡ false
  pub apart : (a == b) ≡ false
  pub open_ : (h.client b).closed ≡ false
  pub free : length (h.queue b) < capacity
  pub in_time : is_throttled t.now a h ≡ false

-- The server hands a direct message on, with the name of the sender and the time.
process_message-dm :
    (t : Moment) (from to content id : Text) (encrypted : Bool) (a b : ClientId) (h : Hub)
    → IsLinked t from to a b h
    → (process_message t a (some (message_of (dm_packet to content encrypted id))) h).queue b
      ≡ h.queue b
        ++ deliver (
            Direct.direct_message t from
              (message_of (dm_packet to content encrypted id))
              h.max_content_len)
          ∷ []
unfolding process_message handle_raw dispatch note_time handle_dm message_of
process_message-dm t from to content id encrypted a b h l =
    let m = message_of (dm_packet to content encrypted id) in
    ground (
      arith,
      deliver_local-target t a b (Direct.direct_message t from m h.max_content_len)
          (note_time t.now a h),
    )

messages_at-store_and_render :
    (key : Text) (m : State.Message) (c : Chat)
    → messages_at key (store_and_render key m c) ≡ messages_at key c ++ m ∷ []
unfolding store_and_render announce
messages_at-store_and_render key m c =
    ground (arith, get-put_self key (messages_at key c ++ m ∷ []) c.store)

-- The message in the conversation of the receiver.
abbrev pub received : Text → Text → Text → Text → Bool → ℕ → State.Message
received from to content id encrypted now = record {
  kind = direct_message;
  from = from;
  to = to;
  content = content;
  image_url = [];
  ts = time_of now;
  encrypted = encrypted;
  message_id = id;
  status = delivered;
}

on_dm-stored :
    (decrypt : Decrypt) (m : State.Message) (b : Chat)
    → str_eq m.from b.my_username ≡ false
    → messages_at (dm_key m.from) (on_dm decrypt m b)
      ≡ messages_at (dm_key m.from) b
        ++ record m {
          kind = direct_message;
          content = opened decrypt m.from dm_failure m;
          status = delivered;
        }
          ∷ []
unfolding on_dm
on_dm-stored decrypt m b theirs = ground (
  arith,
  messages_at-store_and_render (dm_key m.from)
      (record m {
        kind = direct_message;
        content = opened decrypt m.from dm_failure m;
        status = delivered;
      })
      b,
)

-- What the page makes of the message, where the text can be decrypted.
arrives :
    (decrypt : Decrypt) (now : ℕ) (t : Moment) (from to content sealed id : Text) (b : Chat)
    (limit : ℕ)
    → length sealed ≤ limit
    → truthy id ≡ true
    → str_eq from b.my_username ≡ false
    → decrypt from sealed ≡ some content
    → truthy content ≡ true
    → messages_at (dm_key from) (
        Messages.handle_message decrypt now
          (incoming_of (
            deliver
              (Direct.direct_message t from (message_of (dm_packet to sealed true id)) limit)))
          b)
      ≡ messages_at (dm_key from) b ++ received from to content id true t.now ∷ []
unfolding Messages.handle_message incoming_of Direct.direct_message message_of opened
arrives decrypt now t from to content sealed id b limit short named theirs opens full =
    let out = record (empty_message MessageType.dm) {
      from = from;
      to = to;
      content = truncate_content limit sealed;
      encrypted = true;
      message_id = or_else id t.fresh_id;
      ts = t.now;
    } in
    ground (arith, on_dm-stored decrypt (page_message out) b, truncate_short limit sealed)

own-stored :
    (w : World) (content to : Text) (a : Chat)
    → a.view ≡ dm to
    → messages_at (dm_key to) (send_content w content a)
      ≡ messages_at (dm_key to) a
        ++ own_message to content (is_some_text (w.encrypt to content)) w.fresh_id w.now a ∷ []
unfolding send_content send_dm
own-stored w content to a v =
    let sealed = w.encrypt to content in
    ground (
      arith,
      messages_at-store_and_render (dm_key to)
          (own_message to content (is_some_text sealed) w.fresh_id w.now a)
          (send (dm_packet to (wire_text sealed content) (is_some_text sealed) w.fresh_id) a),
    )

-- Two users of other names are on one server, each with a connection. A text that is not empty is sent
-- in the conversation with a user for whom there is a key, by a page that is online, and its
-- encryption is not empty and not longer than the server's limit. The sender's page keeps the text and
-- sends one packet; if it is not too early for the sender and the receiver's channel is open and has
-- room, the server hands the receiver's page one message more; and if the receiver can decrypt what was
-- sealed, that page keeps the text as one message more of the conversation with the sender, with the
-- identifier that the sender has for it.
pub send_content-delivered :
    (w : World) (t : Moment) (now : ℕ) (decrypt : Decrypt) (content sealed from to : Text)
    (a b : Chat) (ca cb : ClientId) (h : Hub)
    → a.view ≡ dm to
    → a.online ≡ true
    → w.encrypt to content ≡ some sealed
    → truthy sealed ≡ true
    → truthy w.fresh_id ≡ true
    → length sealed ≤ h.max_content_len
    → IsLinked t from to ca cb h
    → str_eq from b.my_username ≡ false
    → decrypt from sealed ≡ some content
    → truthy content ≡ true
    → (messages_at (dm_key to) (send_content w content a)
        ≡ messages_at (dm_key to) a ++ own_message to content true w.fresh_id w.now a ∷ [])
      × ((p : Packet) × (r : Reply) × ((send_content w content a).out ≡ a.out ++ p ∷ [])
          × ((process_message t ca (some (message_of p)) h).queue cb ≡ h.queue cb ++ r ∷ [])
          × (messages_at (dm_key from) (Messages.handle_message decrypt now (incoming_of r) b)
              ≡ messages_at (dm_key from) b ++ received from to content w.fresh_id true t.now ∷ []))
send_content-delivered w t now decrypt content sealed from to a b ca cb h v on e full named short l
      theirs opens text =
    let p = dm_packet to sealed true w.fresh_id in
    (
      own-stored w content to a v
          ∙ ap
              (λ o.
                messages_at (dm_key to) a
                ++ own_message to content (is_some_text o) w.fresh_id w.now a ∷ [])
              e
          ∙ ap (λ s. messages_at (dm_key to) a ++ own_message to content s w.fresh_id w.now a ∷ [])
              full,
      (
        p,
        deliver (Direct.direct_message t from (message_of p) h.max_content_len),
        send_content-sealed w content to sealed a v on e full,
        process_message-dm t from to sealed w.fresh_id true ca cb h l,
        arrives decrypt now t from to content sealed w.fresh_id b h.max_content_len short named
            theirs opens text,
      ),
    )
