-- ===== src/Server/Throttling.antt =====
-- The rate limit of `ProcessMessage` in internal/hub/hub.go, and the receipts that
-- `sendReadReceipts` of frontend/app.js sends in one loop.
use wifi_chat.Base.{
  ℕ, ◌+◌, ◌<◌, ◌≡◌, refl, ap, ◌∙◌, true, false, some, List, [], ◌∷◌, ◌++◌, arith, All,
}
use wifi_chat.Js.Text.{Text, truthy}
use wifi_chat.Js.Dict.{get, get-put_self}
use wifi_chat.Chat.State.{Packet, read_receipt, Chat, dm_key, messages_at}
use wifi_chat.Chat.Views.{receipts, send_read_receipts}
use wifi_chat.Chat.Receipts.{receipts-mark_read, messages_by_store, out_by_store}
use wifi_chat.Server.Hub.{ClientId, Hub, Moment}
use wifi_chat.Server.Direct.{handle_delivery_receipt}
use wifi_chat.Server.Running.{dispatch, is_throttled, note_time, handle_raw, process_message}
use wifi_chat.Server.Link.{message_of}

-- The packets of a client, each at its moment.
unfoldable pub process_burst : ClientId → List Moment → List Packet → Hub → Hub
process_burst c [] ps h = h
process_burst c (t ∷ ts) [] h = h
process_burst c (t ∷ ts) (p ∷ ps) h =
    process_burst c ts ps (process_message t c (some (message_of p)) h)

-- The client was heard at the time.
abbrev HeardAt : ℕ → ClientId → Hub → Type 0
HeardAt now c h =
    (truthy (h.client c).username ≡ true) × (get (h.client c).username h.rate_limiter ≡ some now)

burst-dropped :
    (c : ClientId) (now : ℕ) (ts : List Moment) (ps : List Packet) (h : Hub)
    → HeardAt now c h
    → All (λ t. Moment.now t < now + 33) ts
    → process_burst c ts ps h ≡ h
unfolding process_burst process_message is_throttled
burst-dropped c now [] ps h heard soon = refl
burst-dropped c now (t ∷ ts) [] h heard soon = refl
burst-dropped c now (t ∷ ts) (p ∷ ps) h heard soon =
    let dropped : process_message t c (some (message_of p)) h ≡ h = ground arith in
    rw dropped (burst-dropped c now ts ps h heard soon.1)

-- A receipt leaves the client heard at its time.
receipt-HeardAt :
    (t : Moment) (c : ClientId) (user id : Text) (h : Hub)
    → truthy (h.client c).username ≡ true
    → is_throttled t.now c h ≡ false
    → HeardAt t.now c (process_message t c (some (message_of (read_receipt user id))) h)
unfolding process_message handle_raw dispatch note_time handle_delivery_receipt message_of
receipt-HeardAt t c user id h named in_time =
    ground (arith, get-put_self (h.client c).username t.now h.rate_limiter)

-- The user opens a conversation in which more than one receipt is due. The page sends a receipt for
-- each message, after which none of them is due any more, and if the packets reach the server within 33 milliseconds of
-- the first, which is in time, the server is as if the first had come alone.
pub send_read_receipts-throttled :
    (peer id : Text) (ps : List Packet) (t : Moment) (ts : List Moment) (a : Chat) (c : ClientId)
    (h : Hub)
    → a.online ≡ true
    → receipts peer (messages_at (dm_key peer) a) ≡ read_receipt peer id ∷ ps
    → truthy (h.client c).username ≡ true
    → is_throttled t.now c h ≡ false
    → All (λ u. Moment.now u < t.now + 33) ts
    → ((send_read_receipts peer a).out ≡ a.out ++ read_receipt peer id ∷ ps)
      × (receipts peer (messages_at (dm_key peer) (send_read_receipts peer a)) ≡ [])
      × (process_burst c (t ∷ ts) (read_receipt peer id ∷ ps) h
          ≡ process_message t c (some (message_of (read_receipt peer id))) h)
unfolding process_burst
send_read_receipts-throttled peer id ps t ts a c h on due named in_time soon = (
  out_by_store (get (dm_key peer) a.store) peer a refl on ∙ ap (λ qs. a.out ++ qs) due,
  ap (receipts peer) (messages_by_store (get (dm_key peer) a.store) peer a refl)
      ∙ receipts-mark_read peer (messages_at (dm_key peer) a),
  burst-dropped c t.now ts ps (process_message t c (some (message_of (read_receipt peer id))) h)
      (receipt-HeardAt t c peer id h named in_time) soon,
)
