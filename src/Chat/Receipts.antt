-- ===== src/Chat/Receipts.antt =====
-- Read receipts (`sendReadReceipts` of frontend/app.js).
use wifi_chat.Base.{
  ◌≡◌, refl, ◌∙◌, true, false, not, ◌&&◌, Option, none, some, List, [], ◌∷◌, ◌++◌, append-nil,
  arith, filter, map, ap,
}
use wifi_chat.Js.Text.{Text, str_eq, truthy}
use wifi_chat.Js.Dict.{get, get-put_self}
use wifi_chat.Chat.State.{Message, read_receipt, is_read, Chat, dm_key, messages_at}
use wifi_chat.Chat.Views.{is_due, receipts, mark_read, send_read_receipts}

-- A receipt for each message that is due, in order, and nothing else.
receipts_lem :
    (peer : Text) (ms : List Message)
    → receipts peer ms ≡ map (λ m. read_receipt peer m.message_id) (filter (is_due peer) ms)
unfolding receipts filter
receipts_lem peer [] = refl
receipts_lem peer (m ∷ ms) = ground (arith, receipts_lem peer ms)

pub receipts-mark_read : (peer : Text) (ms : List Message) → receipts peer (mark_read peer ms) ≡ []
unfolding receipts mark_read
receipts-mark_read peer [] = refl
receipts-mark_read peer (m ∷ ms) = ground (arith, receipts-mark_read peer ms)

pub messages_by_store :
    (o : Option (List Message)) (peer : Text) (c : Chat)
    → get (dm_key peer) c.store ≡ o
    → messages_at (dm_key peer) (send_read_receipts peer c)
      ≡ mark_read peer (messages_at (dm_key peer) c)
unfolding send_read_receipts mark_read
messages_by_store none peer c e = ground arith
messages_by_store (some ms) peer c e =
    ground (arith, get-put_self (dm_key peer) (mark_read peer ms) c.store)

pub out_by_store :
    (o : Option (List Message)) (peer : Text) (c : Chat)
    → get (dm_key peer) c.store ≡ o
    → c.online ≡ true
    → (send_read_receipts peer c).out ≡ c.out ++ receipts peer (messages_at (dm_key peer) c)
unfolding send_read_receipts receipts
out_by_store none peer c e on = ground (arith, append-nil c.out)
out_by_store (some ms) peer c e on = ground arith

out_offline : (peer : Text) (c : Chat) → c.online ≡ false → (send_read_receipts peer c).out ≡ c.out
unfolding send_read_receipts
out_offline peer c off = ground arith

online-receipts : (peer : Text) (c : Chat) → (send_read_receipts peer c).online ≡ c.online
unfolding send_read_receipts
online-receipts peer c = ground arith

-- On an open socket the receipts are one for each message of the peer that has an identifier and is
-- not read, in order; doing it again sends nothing.
pub send_read_receipts-once :
    (peer : Text) (c : Chat)
    → c.online ≡ true
    → ((send_read_receipts peer c).out
        ≡ c.out
          ++ map
              (λ m. read_receipt peer m.message_id)
              (filter
                (λ m. str_eq m.from peer && truthy m.message_id && not (is_read m.status))
                (messages_at (dm_key peer) c)))
      × ((send_read_receipts peer (send_read_receipts peer c)).out
          ≡ (send_read_receipts peer c).out)
send_read_receipts-once peer c on =
    let c' = send_read_receipts peer c in
    let first = out_by_store (get (dm_key peer) c.store) peer c refl on in
    let again =
      out_by_store (get (dm_key peer) c'.store) peer c' refl (online-receipts peer c ∙ on) in
    let stored = messages_by_store (get (dm_key peer) c.store) peer c refl in
    (
      first ∙ ap (λ ps. c.out ++ ps) (receipts_lem peer (messages_at (dm_key peer) c)),
      again
          ∙ ap (λ ms. c'.out ++ receipts peer ms) stored
          ∙ ap (λ ps. c'.out ++ ps) (receipts-mark_read peer (messages_at (dm_key peer) c))
          ∙ append-nil c'.out,
    )

-- On a closed socket no receipt goes out, and all the same none is due any more.
pub send_read_receipts-offline :
    (peer : Text) (c : Chat)
    → c.online ≡ false
    → ((send_read_receipts peer c).out ≡ c.out)
      × (receipts peer (messages_at (dm_key peer) (send_read_receipts peer c)) ≡ [])
send_read_receipts-offline peer c off = (
  out_offline peer c off,
  ap (receipts peer) (messages_by_store (get (dm_key peer) c.store) peer c refl)
      ∙ receipts-mark_read peer (messages_at (dm_key peer) c),
)
