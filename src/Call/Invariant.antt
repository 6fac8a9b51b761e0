-- ===== src/Call/Invariant.antt =====
-- What the user sees of a call agrees with the state of the manager, whatever happens in whatever
-- order (frontend/call.js).
use wifi_chat.Base.{
  Option-cases, ℕ, ◌≡◌, Bool, true, false, ◌||◌, List, [], ◌∷◌, none, arith, inl, inr, Bool-cases,
}
use wifi_chat.Js.Text.{Text}
use wifi_chat.Call.State.{
  idle, calling, ringing, in_call, Call, Signal, Task, Button, state_eq, mute_button, cam_button,
  end_button, accept_button, reject_button, sealing, fresh_call,
}
use wifi_chat.Call.Sealing.{Cipher, send_encrypted}
use wifi_chat.Call.Handlers.{
  ice_signal, init, start_call, on_call_request, accept_incoming, reject_incoming, cleanup,
  end_call, fail_call, on_call_end, on_call_reject, on_call_accept, on_call_offer, on_call_answer,
  on_call_ice, on_track, on_ice_candidate, on_ice_state, toggle_mute, toggle_camera,
}
use wifi_chat.Call.Tasks.{Outcome, done, failed, null_message, offer_signal, answer_signal, resume}
use wifi_chat.Call.Machine.{
  start, dial, clicked, received, settled, tracked, found_candidate, ice_changed, button_eq,
  reachable, handle_signal, press, run_listeners, click, take_task, settle, Event, step, run,
}

-- The state, and whether the overlay and the dialog are shown. An idle manager has no peer, a
-- stream that is muted is there, and a call that is not video shows no camera button.
pub record IsConsistent (c : Call) : Type 0 where
  pub no_peer : c.state ≡ idle → c.peer ≡ []
  pub dialog : c.ui.modal_shown ≡ state_eq c.state ringing
  pub overlay : c.ui.overlay_shown ≡ (state_eq c.state calling || state_eq c.state in_call)
  pub unmuted : c.local_stream ≡ none → c.is_muted ≡ false
  pub cam_on : c.local_stream ≡ none → c.is_cam_off ≡ false

module _ {c : Call} (h : IsConsistent c) where
  start_call-IsConsistent : (t kind : Text) → IsConsistent (start_call t kind c)
  unfolding start_call
  start_call-IsConsistent t kind = ground arith

  on_call_request-IsConsistent : (m : Signal) → IsConsistent (on_call_request m c)
  unfolding on_call_request
  on_call_request-IsConsistent m = ground arith

  accept_incoming-IsConsistent : IsConsistent (accept_incoming c)
  unfolding accept_incoming state_eq
  accept_incoming-IsConsistent = ground arith

  toggle_mute-IsConsistent : IsConsistent (toggle_mute c)
  unfolding toggle_mute
  toggle_mute-IsConsistent = ground arith

  toggle_camera-IsConsistent : IsConsistent (toggle_camera c)
  unfolding toggle_camera
  toggle_camera-IsConsistent = ground arith

  on_call_accept-IsConsistent : IsConsistent (on_call_accept c)
  unfolding on_call_accept
  on_call_accept-IsConsistent = ground arith

  init-IsConsistent : IsConsistent (init c)
  unfolding init
  init-IsConsistent = ground arith

  on_track-IsConsistent : (s : ℕ) → IsConsistent (on_track s c)
  unfolding on_track
  on_track-IsConsistent s = ground arith

cleanup-IsConsistent : (c : Call) → IsConsistent (cleanup c)
unfolding cleanup state_eq
cleanup-IsConsistent c = ground arith

end_call-IsConsistent : (c : Call) → IsConsistent (end_call c)
unfolding end_call state_eq
end_call-IsConsistent c = ground arith

fail_call-IsConsistent : (e : Text) (c : Call) → IsConsistent (fail_call e c)
unfolding fail_call state_eq
fail_call-IsConsistent e c = ground arith

on_call_end-IsConsistent : (c : Call) → IsConsistent (on_call_end c)
unfolding on_call_end
on_call_end-IsConsistent c = ground arith

on_call_reject-IsConsistent : (c : Call) → IsConsistent (on_call_reject c)
unfolding on_call_reject state_eq
on_call_reject-IsConsistent c = ground arith

module _ {c : Call} (h : IsConsistent c) where
  on_ice_state-IsConsistent : (lost : Bool) → IsConsistent (on_ice_state lost c)
  unfolding on_ice_state state_eq
  on_ice_state-IsConsistent lost = ground arith

  -- Only where no call is in progress: elsewhere the overlay would stay.
  reject_incoming-IsConsistent : c.ui.overlay_shown ≡ false → IsConsistent (reject_incoming c)
  unfolding reject_incoming state_eq
  reject_incoming-IsConsistent hidden = ground arith

  send_encrypted-IsConsistent : (k : Cipher) (m : Signal) → IsConsistent (send_encrypted k m c)
  unfolding send_encrypted
  send_encrypted-IsConsistent k m = ground arith

  handle_signal-IsConsistent : (k : Cipher) (m : Signal) → IsConsistent (handle_signal k m c)
  unfolding handle_signal on_call_offer on_call_answer on_call_ice
  handle_signal-IsConsistent k m = ground (
    arith,
    on_call_request-IsConsistent h m,
    on_call_accept-IsConsistent h,
    on_call_end-IsConsistent c,
    on_call_reject-IsConsistent c,
  )

-- From the connection on, a task that goes on only adds a task or a message, or ends the call.
resume-IsConsistent :
    (k : Cipher) (t : Task) (o : Outcome) {c : Call}
    → IsConsistent c
    → IsConsistent (resume k t o c)
unfolding resume
resume-IsConsistent k (sealing m) o h = ground arith
resume-IsConsistent k t (failed e) {c} h = ground (arith, fail_call-IsConsistent e c)
resume-IsConsistent k t (done s) {c} h = ground (
  arith,
  fail_call-IsConsistent null_message c,
  send_encrypted-IsConsistent h k (offer_signal s c),
  send_encrypted-IsConsistent h k (answer_signal s c),
)

settle-IsConsistent :
    (k : Cipher) (i : ℕ) (o : Outcome) {c : Call} → IsConsistent c → IsConsistent (settle k i o c)
unfolding settle
settle-IsConsistent k i o {c} h = elim (Option-cases (take_task i c.tasks)) [
  | inl e ↦ rw (e, settle) h
  | inr (p, e) ↦
      rw (e, settle) (resume-IsConsistent k p.0 o {c = record c { tasks = p.1 }} (ground arith))
]

-- What a click does, from where its button is shown.
abbrev Fits : Button → Call → Type 0
Fits reject_button c = c.ui.overlay_shown ≡ false
Fits _ c = Unit {0}

press-Fits : (b : Button) (c : Call) → Fits b c → Fits b (press b c)
unfolding press reject_incoming
press-Fits reject_button c f = f
press-Fits _ c f = tt

press-IsConsistent : (b : Button) {c : Call} → IsConsistent c → Fits b c → IsConsistent (press b c)
unfolding press
press-IsConsistent mute_button h f = toggle_mute-IsConsistent h
press-IsConsistent cam_button h f = toggle_camera-IsConsistent h
press-IsConsistent end_button {c} h f = end_call-IsConsistent c
press-IsConsistent accept_button h f = accept_incoming-IsConsistent h
press-IsConsistent reject_button h f = reject_incoming-IsConsistent h f

run_listeners-IsConsistent :
    (b : Button) (ls : List Button) {c : Call}
    → IsConsistent c
    → Fits b c
    → IsConsistent (run_listeners b ls c)
unfolding run_listeners
run_listeners-IsConsistent b [] h f = h
run_listeners-IsConsistent b (l ∷ ls) {c} h f = elim (Bool-cases (button_eq b l)) [
  | inl e ↦ rw e (run_listeners-IsConsistent b ls (press-IsConsistent b h f) (press-Fits b c f))
  | inr e ↦ rw e (run_listeners-IsConsistent b ls h f)
]

reachable-Fits : (b : Button) {c : Call} → IsConsistent c → reachable b c ≡ true → Fits b c
unfolding reachable state_eq
reachable-Fits reject_button h r = ground arith
reachable-Fits _ h r = tt

click-IsConsistent : (b : Button) {c : Call} → IsConsistent c → IsConsistent (click b c)
unfolding click
click-IsConsistent b {c} h = elim (Bool-cases (reachable b c)) [
  | inl e ↦ rw e (run_listeners-IsConsistent b c.listeners h (reachable-Fits b h e))
  | inr e ↦ rw e h
]

step-IsConsistent : (k : Cipher) (e : Event) {c : Call} → IsConsistent c → IsConsistent (step k e c)
unfolding step on_ice_candidate
step-IsConsistent k start h = init-IsConsistent h
step-IsConsistent k (dial target kind) h = start_call-IsConsistent h target kind
step-IsConsistent k (clicked b) h = click-IsConsistent b h
step-IsConsistent k (received m) h = handle_signal-IsConsistent h k m
step-IsConsistent k (settled i o) h = settle-IsConsistent k i o h
step-IsConsistent k (tracked s) h = on_track-IsConsistent h s
step-IsConsistent k (found_candidate i) {c} h = send_encrypted-IsConsistent h k (ice_signal i c)
step-IsConsistent k (ice_changed lost) h = on_ice_state-IsConsistent h lost

-- From a state where the document and the state of the manager agree, they agree after every run:
-- the dialog is shown exactly while a call rings, the overlay exactly while one is being made or is
-- on, an idle manager has no peer, and without a local stream nothing is muted or switched off.
pub run-IsConsistent :
    (es : List (Cipher × Event)) {c : Call} → IsConsistent c → IsConsistent (run es c)
unfolding run
run-IsConsistent [] h = h
run-IsConsistent ((k, e) ∷ es) h = run-IsConsistent es (step-IsConsistent k e h)

pub fresh_call-IsConsistent : IsConsistent fresh_call
unfolding state_eq
fresh_call-IsConsistent = ground arith
