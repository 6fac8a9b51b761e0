-- ===== src/Server/Calling.antt =====
-- The signals of a call (frontend/call.js) through `handleCallSignal` of internal/hub/hub.go.
use wifi_chat.Base.{
  ◌==◌, ◌≡◌, ◌≢◌, refl, ap, ◌∙◌, inl, inr, Bool-cases, Option, none, some, [], ◌∷◌, ◌++◌, arith,
  if◌then◌else◌,
}
use wifi_chat.Js.Text.{Text, truthy}
use wifi_chat.Call.State.{
  Signal, delivered, Kind, other, call_request, call_accept, call_reject, call_offer, call_answer,
  call_ice, call_end,
}
use wifi_chat.Chat.Messages.{call_signal}
use wifi_chat.Server.Message.{MessageType, Message, Reply, deliver}
use wifi_chat.Server.Hub.{ClientId, Hub, Moment}
use wifi_chat.Server.Direct.{handle_call_signal}
use wifi_chat.Server.Running.{dispatch, note_time, handle_raw, process_message}
use wifi_chat.Server.Link.{message_of_signal, incoming_of, or_empty, type_of, incoming_message}
use wifi_chat.Server.Privacy.{enqueue-other}
use wifi_chat.Server.Delivery.{IsLinked, enqueue_self}

-- The signal as the server hands it on.
abbrev pub stamped : Text → Signal → Message
stamped from m = record (message_of_signal m) { from = from }

or_empty-back :
    (o : Option Text) → o ≢ some [] → (if truthy (or_empty o) then some (or_empty o) else none) ≡ o
or_empty-back none full = refl
or_empty-back (some []) full = absurd (full refl)
or_empty-back (some (x ∷ s)) full = refl

type_of_known : (k : Kind) → k ≢ other → type_of k ≡ MessageType.call k
type_of_known call_request known = refl
type_of_known call_accept known = refl
type_of_known call_reject known = refl
type_of_known call_offer known = refl
type_of_known call_answer known = refl
type_of_known call_ice known = refl
type_of_known call_end known = refl
type_of_known other known = absurd (known refl)

read_back :
    (from : Text) (m : Signal)
    → m.kind ≢ other
    → m.sdp ≢ some []
    → incoming_of (deliver (stamped from m)) ≡ call_signal (delivered from m)
unfolding incoming_of message_of_signal incoming_message
read_back from m known full =
    ap (incoming_message (stamped from m)) (type_of_known m.kind known)
    ∙ ap (λ o. call_signal (record (delivered from m) { sdp = o })) (or_empty-back m.sdp full)

relay :
    (t : Moment) (from to : Text) (a b d : ClientId) (h : Hub) (m : Signal)
    → IsLinked t from to a b h
    → m.to ≡ to
    → m.kind ≢ other
    → (process_message t a (some (message_of_signal m)) h).queue d
      ≡ (if b == d then h.queue d ++ deliver (stamped from m) ∷ [] else h.queue d)
unfolding process_message handle_raw dispatch note_time handle_call_signal message_of_signal
relay t from to a b d h m l e known =
    let type = type_of_known m.kind known in
    elim (Bool-cases (b == d)) [
      | inl same ↦ ground (arith, enqueue_self h.client b (deliver (stamped from m)) h.queue)
      | inr apart ↦
          ground (arith, enqueue-other h.client b d (deliver (stamped from m)) h.queue apart)
    ]

-- A signal of a call goes through the server as the proofs on calls take it to go: the server puts one
-- message into the channel of the receiver, as which the receiver's page reads the signal with the name
-- of its sender and nothing else changed, and none into the channel of anybody else. This is for a
-- sender with a name who is not too early, a receiver of another name and connection on this server
-- whose channel is open and has room, and a signal of one of the seven types, without an
-- empty description.
pub process_message-delivers :
    (t : Moment) (from to : Text) (a b : ClientId) (h : Hub) (m : Signal)
    → IsLinked t from to a b h
    → m.to ≡ to
    → m.kind ≢ other
    → m.sdp ≢ some []
    → (r : Reply) × (incoming_of r ≡ call_signal (delivered from m))
      × ((d : ClientId)
          → (process_message t a (some (message_of_signal m)) h).queue d
            ≡ (if b == d then h.queue d ++ r ∷ [] else h.queue d))
process_message-delivers t from to a b h m l e known full = (
  deliver (stamped from m),
  read_back from m known full,
  λ d. relay t from to a b d h m l e known,
)
