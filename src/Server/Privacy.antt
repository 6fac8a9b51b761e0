-- ===== src/Server/Privacy.antt =====
-- Whom internal/hub/hub.go sends what is meant for one user.
use wifi_chat.Base.{
  ◌==◌, ◌≡◌, ◌∙◌, refl, Bool, true, false, some, List, [], ◌∷◌, ◌++◌, arith, inl, inr, Option-cases,
}
use wifi_chat.Js.Text.{Text, js, truthy}
use wifi_chat.Js.Dict.{get}
use wifi_chat.Server.Message.{
  Message, MessageType, StoredMessage, Reply, deliver, error, dm_history, empty_message, dm, image,
  typing, call, key_exchange, get_dm_history, delivery_ack, read_receipt,
}
use wifi_chat.Server.Hub.{ClientId, Client, Hub, Moment, enqueue, refuse}
use wifi_chat.Server.Store.{get_dms}
use wifi_chat.Server.Rooms.{not_joined}
use wifi_chat.Server.Joining.{owns}
use wifi_chat.Server.Direct.{
  ack_of, direct_message, deliver_local, deliver_remote, handle_dm, handle_image,
  handle_get_dm_history, forward, handle_typing, handle_call_signal, handle_key_exchange,
  handle_delivery_receipt,
}
use wifi_chat.Server.Running.{dispatch, note_time, handle_raw, process_message}

-- The types of messages for one user.
abbrev pub is_private_type : MessageType → Text → Bool
is_private_type dm to = true
is_private_type (call k) to = true
is_private_type key_exchange to = true
is_private_type get_dm_history to = true
is_private_type delivery_ack to = true
is_private_type read_receipt to = true
is_private_type image to = truthy to
is_private_type typing to = truthy to
is_private_type type to = false

pub enqueue-other :
    (client : ClientId → Client) (c d : ClientId) (r : Reply) (queue : ClientId → List Reply)
    → (c == d) ≡ false
    → enqueue client c r queue d ≡ queue d
unfolding enqueue
enqueue-other client c d r queue other = ground arith

-- Two sends, to clients other than `d`.
two-other :
    (client : ClientId → Client) (b c d : ClientId) (r s : Reply) (queue : ClientId → List Reply)
    → (b == d) ≡ false
    → (c == d) ≡ false
    → enqueue client c s (enqueue client b r queue) d ≡ queue d
two-other client b c d r s queue hb hc =
    enqueue-other client c d s (enqueue client b r queue) hc ∙ enqueue-other client b d r queue hb

module _ (h : Hub) (c d : ClientId) (other : (c == d) ≡ false) where
  deliver_local-other :
      (t : Moment) (b : ClientId) (out : Message)
      → (b == d) ≡ false
      → (deliver_local t c b out h).queue d ≡ h.queue d
  unfolding deliver_local
  deliver_local-other t b out hb =
      let once = enqueue h.client c (deliver out) (enqueue h.client b (deliver out) h.queue) in
      ground (
        arith,
        two-other h.client b c d (deliver out) (deliver out) h.queue hb other,
        enqueue-other h.client c d (deliver (ack_of t out)) once,
      )

  deliver_remote-other :
      (t : Moment) (out : Message) → (deliver_remote t c out h).queue d ≡ h.queue d
  unfolding deliver_remote
  deliver_remote-other t out = enqueue-other h.client c d (deliver out) h.queue other

  refuse-other : (text : Text) → (refuse c text h).queue d ≡ h.queue d
  refuse-other text = enqueue-other h.client c d (error text) h.queue other

  handle_get_dm_history-other : (m : Message) → (handle_get_dm_history c m h).queue d ≡ h.queue d
  unfolding handle_get_dm_history
  handle_get_dm_history-other m = by_history (get_dms (h.client c).username m.to 50 h.store) refl
    where
      by_history :
          (ss : List StoredMessage)
          → get_dms (h.client c).username m.to 50 h.store ≡ ss
          → (handle_get_dm_history c m h).queue d ≡ h.queue d
      by_history [] e = ground (arith, refuse-other not_joined)
      by_history (s ∷ ss) e = ground (
        arith,
        refuse-other not_joined,
        enqueue-other h.client c d (dm_history m.to (s ∷ ss)) h.queue,
      )

-- A message to one user, for a client `d` that does not own the user's name.
module _ (h : Hub) (c d : ClientId) (other : (c == d) ≡ false) (m : Message)
    (stranger : owns d (get m.to h.user_clients) ≡ false) where
  forward-other : (m' : Message) → (forward m.to m' h).queue d ≡ h.queue d
  unfolding forward
  forward-other m' = elim (Option-cases (get m.to h.user_clients)) [
    | inl e ↦ rw (e, forward)
    | inr (target, e) ↦ ground (arith, enqueue-other h.client target d (deliver m') h.queue)
  ]

  handle_dm-other : (t : Moment) → (handle_dm t c m h).queue d ≡ h.queue d
  unfolding handle_dm
  handle_dm-other t =
      let out = direct_message t (h.client c).username m h.max_content_len in
      elim (Option-cases (get m.to h.user_clients)) [
        | inl e ↦ ground (
          arith,
          refuse-other h c d other not_joined,
          refuse-other h c d other (js "Recipient is required"),
          refuse-other h c d other (js "Cannot DM yourself"),
          refuse-other h c d other (js "User not found: " ++ m.to),
          deliver_remote-other h c d other t out,
        )
        | inr (target, e) ↦ ground (
          arith,
          refuse-other h c d other not_joined,
          refuse-other h c d other (js "Recipient is required"),
          refuse-other h c d other (js "Cannot DM yourself"),
          deliver_local-other h c d other t target out,
        )
      ]

  handle_call_signal-other : (handle_call_signal c m h).queue d ≡ h.queue d
  unfolding handle_call_signal
  handle_call_signal-other =
      let m' = record m { from = (h.client c).username } in
      elim (Option-cases (get m.to h.user_clients)) [
        | inl e ↦ ground (
          arith,
          refuse-other h c d other not_joined,
          refuse-other h c d other (js "Call target is required"),
        )
        | inr (target, e) ↦ ground (
          arith,
          refuse-other h c d other not_joined,
          refuse-other h c d other (js "Call target is required"),
          enqueue-other h.client target d (deliver m') h.queue,
        )
      ]

  handle_key_exchange-other : (handle_key_exchange c m h).queue d ≡ h.queue d
  unfolding handle_key_exchange
  handle_key_exchange-other =
      ground (arith, forward-other (record m { from = (h.client c).username }))

  handle_typing-other :
      (t : Moment) → truthy m.to ≡ true → (handle_typing t c m h).queue d ≡ h.queue d
  unfolding handle_typing
  handle_typing-other t to =
      let typed = record (empty_message typing) {
        username = (h.client c).username;
        to = m.to;
        ts = t.now;
      } in
      ground (arith, forward-other typed)

  handle_delivery_receipt-other : (handle_delivery_receipt c m h).queue d ≡ h.queue d
  unfolding handle_delivery_receipt
  handle_delivery_receipt-other = elim (Option-cases (get m.to h.user_clients)) [
    | inl e ↦ ground (arith, forward)
    | inr (target, e) ↦ ground (
      arith,
      enqueue-other h.client target d (deliver (record m { from = (h.client c).username })) h.queue,
    )
  ]

module _ (h : Hub) (c d : ClientId) (other : (c == d) ≡ false) (m : Message)
    (stranger : owns d (get m.to h.user_clients) ≡ false) where
  handle_image-other :
      (t : Moment) → truthy m.to ≡ true → (handle_image t c m h).queue d ≡ h.queue d
  unfolding handle_image
  handle_image-other t to = ground (
    arith,
    refuse-other h c d other not_joined,
    refuse-other h c d other (js "Image URL is required"),
    handle_dm-other h c d other (record m { type = dm }) stranger t,
  )

  private-other :
      (t : Moment) (type : MessageType)
      → is_private_type type m.to ≡ true
      → (dispatch t c m type h).queue d ≡ h.queue d
  unfolding dispatch
  private-other t dm p = handle_dm-other h c d other m stranger t
  private-other t (call k) p = handle_call_signal-other h c d other m stranger
  private-other t key_exchange p = handle_key_exchange-other h c d other m stranger
  private-other t get_dm_history p = handle_get_dm_history-other h c d other m
  private-other t delivery_ack p = handle_delivery_receipt-other h c d other m stranger
  private-other t read_receipt p = handle_delivery_receipt-other h c d other m stranger
  private-other t image p = handle_image-other t p
  private-other t typing p = handle_typing-other h c d other m stranger t p
  private-other t type p = cc

-- A message for one user (a direct message, an image or a typing notice with a receiver, a signal of a
-- call, a key, a receipt, or the request of a history) puts nothing into the channel of anybody but
-- the sender and the client that owns the receiver's name.
pub process_message-elsewhere :
    (h : Hub) (t : Moment) (c d : ClientId) (m : Message)
    → is_private_type m.type m.to ≡ true
    → (c == d) ≡ false
    → owns d (get m.to h.user_clients) ≡ false
    → (process_message t c (some m) h).queue d ≡ h.queue d
unfolding process_message handle_raw note_time
process_message-elsewhere h t c d m private other stranger =
    let noted = note_time t.now c h in
    ground (
      arith,
      private-other h c d other m stranger t m.type private,
      private-other noted c d other m stranger t m.type private,
    )
