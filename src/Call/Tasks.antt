-- ===== src/Call/Tasks.antt =====
-- The async methods of `callManager` (frontend/call.js) after an `await`: `resume` runs one of them
-- from the point where it waits to its next `await` or to its end.
use wifi_chat.Base.{Option, none, some, [], ◌∷◌, ◌++◌}
use wifi_chat.Js.Text.{Text, js}
use wifi_chat.Call.State.{
  Call, ice, sealed_text, Signal, signal, call_offer, call_answer, sent, Task, sealing,
  accept_media, accept_offer, accept_local, offer_opening, offer_media, offer_remote, offer_answer,
  offer_local, answer_opening, ice_opening, emit, await,
}
use wifi_chat.Call.Sealing.{Cipher, send_encrypted}
use wifi_chat.Call.Handlers.{is_video, fail_call, set_up_media, create_peer_connection}

-- How the awaited promise ends: with a value (a session description is its text, and other values
-- are not read) or with an error's message.
pub data Outcome : Type 0 where
  done : Text → Outcome
  failed : Text → Outcome

-- The message of the `TypeError` of a method call on `this.pc` when that is `null`.
abbrev pub null_message : Text
null_message = js "Cannot read properties of null"

-- A call of a method of the connection, inside the `try`.
abbrev pub with_connection : (Call → Call) → Call → Call
with_connection f c = elim c.pc [ none ↦ fail_call null_message c | some _ ↦ f c ]

abbrev pub text_of : Option Text → Text
text_of none = []
text_of (some s) = s

abbrev pub describe_remote : Signal → Call → Call
describe_remote m c = record c { remote_descriptions = c.remote_descriptions ++ text_of m.sdp ∷ [] }

abbrev pub offer_signal : Text → Call → Signal
offer_signal sdp c = record (signal call_offer c.peer) { sdp = some sdp; call_type = c.call_type }

abbrev pub answer_signal : Text → Call → Signal
answer_signal sdp c = record (signal call_answer c.peer) { sdp = some sdp }

-- `onCallICE` after `decryptSignal`. `RTCIceCandidate` throws on a text, which is only logged.
unfoldable pub add_candidate : Signal → Call → Call
add_candidate m c = elim m.candidate [
  | none ↦ c
  | some (sealed_text _) ↦ c
  | some (ice i) ↦ elim c.pc [
    | none ↦ c
    | some _ ↦ record c { remote_candidates = c.remote_candidates ++ ice i ∷ [] }
  ]
]

-- `onCallAnswer` after `decryptSignal`.
unfoldable pub take_answer : Signal → Call → Call
take_answer m c = elim c.pc [ none ↦ c | some _ ↦ describe_remote m c ]

-- `decryptSignal` and `sendEncrypted` catch their errors, so those that wait for them go on.
unfoldable pub resume : Cipher → Task → Outcome → Call → Call
unfolding send_encrypted fail_call set_up_media create_peer_connection add_candidate take_answer
resume k (sealing m) _ c = emit (sent m) c
resume k (accept_media video) (done _) c =
    await accept_offer (create_peer_connection (set_up_media video c))
resume k (accept_media video) (failed e) c = fail_call e c
resume k accept_offer (done sdp) c = with_connection (await (accept_local sdp)) c
resume k accept_offer (failed e) c = fail_call e c
resume k (accept_local sdp) (done _) c = send_encrypted k (offer_signal sdp c) c
resume k (accept_local sdp) (failed e) c = fail_call e c
resume k (offer_opening m) _ c = await (offer_media m (is_video c.call_type)) c
resume k (offer_media m video) (done _) c =
    await offer_remote (describe_remote m (create_peer_connection (set_up_media video c)))
resume k (offer_media m video) (failed e) c = fail_call e c
resume k offer_remote (done _) c = with_connection (await offer_answer) c
resume k offer_remote (failed e) c = fail_call e c
resume k offer_answer (done sdp) c = with_connection (await (offer_local sdp)) c
resume k offer_answer (failed e) c = fail_call e c
resume k (offer_local sdp) (done _) c = send_encrypted k (answer_signal sdp c) c
resume k (offer_local sdp) (failed e) c = fail_call e c
resume k (answer_opening m) _ c = take_answer m c
resume k (ice_opening m) _ c = add_candidate m c
