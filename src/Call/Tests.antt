-- ===== src/Call/Tests.antt =====
-- The theorems on frontend/call.js at concrete inputs.
use wifi_chat.Base.{
  ℕ, zero, suc, ◌==◌, ◌≡◌, refl, Bool, true, false, List, [], ◌∷◌, ◌++◌, Option, none, some, arith,
  length, drop,
}
use wifi_chat.Js.Text.{Text, js}
use wifi_chat.Call.State.{
  ringing, in_call, Call, Stream, Signal, signal, Ice, Candidate, ice, sealed_text, call_request,
  call_offer, call_end, accept_button, mute_button, accept_media, fresh_call,
}
use wifi_chat.Call.Sealing.{Cipher}
use wifi_chat.Call.Tasks.{done, failed, resume}
use wifi_chat.Call.Machine.{Event, start, clicked, received, settled, tracked, run}
use wifi_chat.Call.Invariant.{IsConsistent, run-IsConsistent, fresh_call-IsConsistent}
use wifi_chat.Call.Secrecy.{IsSafe, run-IsSafe, fresh_call-IsSafe}
use wifi_chat.Call.Endings.{IsOwned, resume-IsOwned}
use wifi_chat.Call.Handshake

abbrev no_keys : Cipher
no_keys = record {
  has_key_for = λ _. false;
  encrypt = λ _ _. none;
  decrypt = λ _ _. none;
  stringify = λ _. [];
  parse = λ _. none;
}

take : ℕ → Text → Text
take zero s = []
take (suc n) [] = []
take (suc n) (c ∷ s) = c ∷ take n s

-- A cipher that puts a number in front, and candidates written with the length of the first part.
abbrev write_ice : Candidate → Text
write_ice (ice i) = i.sdp_m_line_index ∷ length i.candidate ∷ (i.candidate ++ i.sdp_mid)
write_ice (sealed_text s) = s

abbrev read_ice : Text → Option Ice
read_ice (m ∷ n ∷ s) =
    some (record { candidate = take n s; sdp_mid = drop n s; sdp_m_line_index = m })
read_ice _ = none

abbrev open_text : Text → Option Text
open_text [] = none
open_text (c ∷ s) = some s

abbrev keyed : Cipher
keyed = record {
  has_key_for = λ _. true;
  encrypt = λ _ s. some (7 ∷ s);
  decrypt = λ _ s. open_text s;
  stringify = write_ice;
  parse = read_ice;
}

abbrev ann : Text
ann = 97 ∷ []

abbrev bob : Text
bob = 98 ∷ []

abbrev offer_of_ann : Signal
offer_of_ann = record (signal call_offer bob) { from = ann; sdp = some (1 ∷ 2 ∷ []) }

abbrev script : List (Cipher × Event)
script =
    (keyed, start)
    ∷ (keyed, received (record (signal call_request bob) { from = ann }))
    ∷ (keyed, clicked accept_button)
    ∷ (keyed, received offer_of_ann)
    ∷ (keyed, settled 0 (done []))
    ∷ (keyed, settled 0 (done []))
    ∷ (keyed, tracked 5)
    ∷ (keyed, clicked mute_button)
    ∷ (keyed, settled 0 (failed []))
    ∷ []

run-IsConsistent_example : IsConsistent (run script fresh_call)
run-IsConsistent_example = run-IsConsistent script fresh_call-IsConsistent

-- The texts that begin as the encryptions do.
abbrev begins_sealed : Text → Text → Bool
begins_sealed to [] = false
begins_sealed to (c ∷ s) = c == 7

always :
    (t : Text)
    → ◌≡◌ {A = Bool} true true
      × ((s r : Text) → keyed.encrypt t s ≡ some r → begins_sealed t r ≡ true)
always t = (refl, λ s r e. ground arith)

run-IsSafe_example : IsSafe (λ _. true) begins_sealed (run script fresh_call)
run-IsSafe_example =
    run-IsSafe (λ _. true) begins_sealed script
      (always, (always, (always, (always, (always, (always, (always, (always, (always, tt)))))))))
      (fresh_call-IsSafe (λ _. true) begins_sealed)

abbrev own_stream : Stream
own_stream = record { id = 3; has_video = false; audio_on = true; video_on = false }

-- In a call, with a stream, a connection and a timer.
abbrev busy : Call
busy = record fresh_call {
  state = in_call;
  peer = ann;
  pc = some 4;
  local_stream = some own_stream;
  timer_interval = some 5;
  fresh = 6;
  live_streams = 3 ∷ [];
  open_connections = 4 ∷ [];
  intervals = 5 ∷ [];
  ui = record fresh_call.ui { overlay_shown = true; local_video = some 3 };
}

resume-IsOwned_example : IsOwned (resume keyed (accept_media true) (done []) fresh_call)
resume-IsOwned_example =
    resume-IsOwned keyed (accept_media true) (done []) fresh_call (refl, refl)
      (record { streams = refl; connections = refl; timers = refl })

abbrev dialling : Call
dialling = record fresh_call { state = in_call; peer = ann; tasks = accept_media false ∷ [] }

abbrev hung_up : List (Cipher × Event)
hung_up =
    (keyed, received (record (signal call_end bob) { from = ann }))
    ∷ (keyed, settled 0 (done []))
    ∷ (keyed, settled 0 (done (8 ∷ [])))
    ∷ (keyed, settled 0 (done []))
    ∷ []

abbrev phone_rings : Call
phone_rings = record fresh_call {
  state = ringing;
  peer = ann;
  ui = record fresh_call.ui { modal_shown = true };
}

abbrev answered : List (Cipher × Event)
answered =
    (no_keys, received offer_of_ann)
    ∷ (no_keys, settled 0 (done []))
    ∷ (no_keys, settled 0 (done []))
    ∷ (no_keys, settled 0 (done []))
    ∷ (no_keys, settled 0 (done (9 ∷ [])))
    ∷ (no_keys, settled 0 (done []))
    ∷ []

abbrev silent : Call
silent = record busy {
  is_muted = true;
  ui = record busy.ui { mute_active = true };
  local_stream = some (record own_stream { audio_on = false });
}

abbrev callee : Call
callee = record fresh_call { initialized = true; listeners = Handshake.five_buttons }

handshake_example :
    Handshake.Connected no_keys ann bob (js "voice") (1 ∷ []) (2 ∷ []) [] fresh_call callee
unfolding js
handshake_example =
    Handshake.handshake no_keys ann bob (js "voice") (1 ∷ []) (2 ∷ []) [] fresh_call callee refl
      refl refl refl refl refl refl
