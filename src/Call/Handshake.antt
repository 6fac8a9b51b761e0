-- ===== src/Call/Handshake.antt =====
-- A call between two managers (frontend/call.js), each message delivered to the other one with the
-- name of its sender.
use wifi_chat.Base.{◌≡◌, false, List, [], ◌∷◌, ◌++◌, some, arith}
use wifi_chat.Js.Text.{Text, js, or_else}
use wifi_chat.Call.State.{
  idle, in_call, Call, Signal, signal, sent, call_request, call_accept, call_offer, call_answer,
  accept_button, mute_button, cam_button, end_button, reject_button, Button,
}
use wifi_chat.Call.Sealing.{Cipher, decrypt_signal}
use wifi_chat.Call.Handlers.{
  on_call_request, on_call_accept, on_call_offer, on_call_answer, start_call, accept_incoming,
}
use wifi_chat.Call.Tasks.{done, resume}
use wifi_chat.Call.Machine.{
  take_task, settle, handle_signal, step, run, dial, clicked, received, settled, click,
  run_listeners, button_eq, press, reachable, Event,
}

abbrev pub five_buttons : List Button
five_buttons = mute_button ∷ cam_button ∷ end_button ∷ accept_button ∷ reject_button ∷ []

module _ (k : Cipher) (a b kind offer answer x : Text) where
  -- The messages as the server delivers them.
  abbrev pub request_signal : Signal
  request_signal = record (signal call_request b) { from = a; call_type = kind }

  abbrev pub accept_signal : Signal
  accept_signal = record (signal call_accept a) { from = b; call_type = or_else kind (js "voice") }

  abbrev pub offer_signal : Signal
  offer_signal = record (signal call_offer b) { from = a; sdp = some offer; call_type = kind }

  abbrev pub answer_signal : Signal
  answer_signal = record (signal call_answer a) { from = b; sdp = some answer }

  abbrev pub granted : Text → Cipher × Event
  granted s = (k, settled 0 (done s))

  abbrev pub caller_events : List (Cipher × Event)
  caller_events =
      (k, dial b kind)
      ∷ (k, received accept_signal)
      ∷ granted x
      ∷ granted offer
      ∷ granted x
      ∷ (k, received answer_signal)
      ∷ granted x
      ∷ []

  abbrev pub callee_events : List (Cipher × Event)
  callee_events =
      (k, received request_signal)
      ∷ (k, clicked accept_button)
      ∷ (k, received offer_signal)
      ∷ granted x
      ∷ granted x
      ∷ granted x
      ∷ granted answer
      ∷ granted x
      ∷ []

  abbrev pub unsent : Signal → Signal
  unsent m = record m { from = [] }

  caller_reaches :
      (c : Call)
      → c.state ≡ idle
      → c.tasks ≡ []
      → k.has_key_for b ≡ false
      → let c' = run caller_events c in
        (c'.state ≡ in_call)
        × (c'.peer ≡ b)
        × (c'.tasks ≡ [])
        × (c'.remote_descriptions ≡ c.remote_descriptions ++ answer ∷ [])
        × (c'.out ≡ (c.out ++ sent (unsent request_signal) ∷ []) ++ sent (unsent offer_signal) ∷ [])
  unfolding run step handle_signal on_call_accept on_call_answer settle take_task resume start_call
      decrypt_signal
  caller_reaches c i t nokey = ground arith

  callee_reaches :
      (c : Call)
      → c.state ≡ idle
      → c.tasks ≡ []
      → c.listeners ≡ five_buttons
      → k.has_key_for a ≡ false
      → let c' = run callee_events c in
        (c'.state ≡ in_call)
        × (c'.peer ≡ a)
        × (c'.tasks ≡ [])
        × (c'.remote_descriptions ≡ c.remote_descriptions ++ offer ∷ [])
        × (c'.out ≡ (c.out ++ sent (unsent accept_signal) ∷ []) ++ sent (unsent answer_signal) ∷ [])
  unfolding run step handle_signal on_call_request on_call_offer settle take_task resume
      decrypt_signal click run_listeners button_eq press reachable accept_incoming
  callee_reaches c i t l nokey = ground arith

  abbrev pub InCallWith : Text → Text → Call → Call → Type 0
  InCallWith peer description c c' =
      (c'.state ≡ in_call)
      × (c'.peer ≡ peer)
      × (c'.tasks ≡ [])
      × (c'.remote_descriptions ≡ c.remote_descriptions ++ description ∷ [])

  -- Both are in the call with each other, nothing is pending, each has the other's description, and
  -- the four messages are all that was sent.
  abbrev pub Connected : Call → Call → Type 0
  Connected c d =
      InCallWith b answer c (run caller_events c)
      × InCallWith a offer d (run callee_events d)
      × ((run caller_events c).out
          ≡ (c.out ++ sent (unsent request_signal) ∷ []) ++ sent (unsent offer_signal) ∷ [])
      × ((run callee_events d).out
          ≡ (d.out ++ sent (unsent accept_signal) ∷ []) ++ sent (unsent answer_signal) ∷ [])

  -- Two idle managers with nothing pending, no keys for each other and the callee's buttons set up:
  -- the caller dials, the callee accepts, both browsers grant what is asked for, and every message
  -- that one of them sends is what the other one receives. Then both are in the call with each
  -- other, nothing is pending, each has the other's description, and nothing else was sent.
  pub handshake :
      (c d : Call)
      → c.state ≡ idle
      → c.tasks ≡ []
      → d.state ≡ idle
      → d.tasks ≡ []
      → d.listeners ≡ five_buttons
      → k.has_key_for a ≡ false
      → k.has_key_for b ≡ false
      → Connected c d
  handshake c d ci ct di dt dl ka kb =
      let (s, p, t, r, o) = caller_reaches c ci ct kb in
      let (s', p', t', r', o') = callee_reaches d di dt dl ka in
      ((s, p, t, r), (s', p', t', r'), o, o')
