-- ===== src/Call/Machine.antt =====
-- The call manager of frontend/call.js as a machine: what may happen to it, in any order, is an
-- event, and a run is a list of events.
use wifi_chat.Base.{
  ℕ, zero, suc, Bool, true, false, ◌&&◌, Option, none, some, List, [], ◌∷◌, if◌then◌else◌,
}
use wifi_chat.Js.Text.{Text}
use wifi_chat.Call.State.{
  Call, Signal, call_request, call_accept, call_reject, call_offer, call_answer, call_ice, call_end,
  other, Task, Button, mute_button, cam_button, end_button, accept_button, reject_button, Ice,
}
use wifi_chat.Call.Sealing.{Cipher}
use wifi_chat.Call.Handlers.{
  init, start_call, on_call_request, accept_incoming, reject_incoming, end_call, on_call_end,
  on_call_reject, on_call_accept, on_call_offer, on_call_answer, on_call_ice, on_track,
  on_ice_candidate, on_ice_state, toggle_mute, toggle_camera,
}
use wifi_chat.Call.Tasks.{Outcome, resume}

-- `handleSignal`
unfoldable pub handle_signal : Cipher → Signal → Call → Call
handle_signal k m c = elim m.kind [
  | call_request ↦ on_call_request m c
  | call_accept ↦ on_call_accept c
  | call_reject ↦ on_call_reject c
  | call_offer ↦ on_call_offer k m c
  | call_answer ↦ on_call_answer k m c
  | call_ice ↦ on_call_ice k m c
  | call_end ↦ on_call_end c
  | other ↦ c
]

-- The click listener that `init` registers on a button.
unfoldable pub press : Button → Call → Call
press mute_button = toggle_mute
press cam_button = toggle_camera
press end_button = end_call
press accept_button = accept_incoming
press reject_button = reject_incoming

-- A button can be clicked where it is shown: the first three stand in the overlay, the others in
-- the dialog of an incoming call (frontend/index.html).
unfoldable pub reachable : Button → Call → Bool
reachable mute_button c = c.ui.overlay_shown
reachable cam_button c = c.ui.overlay_shown && c.ui.cam_shown
reachable end_button c = c.ui.overlay_shown
reachable accept_button c = c.ui.modal_shown
reachable reject_button c = c.ui.modal_shown

unfoldable pub button_eq : Button → Button → Bool
button_eq mute_button mute_button = true
button_eq cam_button cam_button = true
button_eq end_button end_button = true
button_eq accept_button accept_button = true
button_eq reject_button reject_button = true
button_eq _ _ = false

-- Every listener of the button runs, in the order of registration.
unfoldable pub run_listeners : Button → List Button → Call → Call
run_listeners b [] c = c
run_listeners b (l ∷ ls) c = run_listeners b ls (if button_eq b l then press b c else c)

unfoldable pub click : Button → Call → Call
click b c = if reachable b c then run_listeners b c.listeners c else c

-- The task at a position, taken out of the list.
unfoldable pub take_task : ℕ → List Task → Option (Task × List Task)
take_task i [] = none
take_task zero (t ∷ ts) = some (t, ts)
take_task (suc i) (t ∷ ts) = elim (take_task i ts) [ none ↦ none | some (u, us) ↦ some (u, t ∷ us) ]

unfoldable pub settle : Cipher → ℕ → Outcome → Call → Call
settle k i o c = elim (take_task i c.tasks) [
  | none ↦ c
  | some (t, ts) ↦ resume k t o (record c { tasks = ts })
]

pub data Event : Type 0 where
  -- `init`, run at each 'system' message
  start : Event
  -- a click on a call button of a conversation, and on one of the manager's own buttons
  dial : Text → Text → Event
  clicked : Button → Event
  received : Signal → Event
  -- the promise of the task at a position ends
  settled : ℕ → Outcome → Event
  -- events of the connection
  tracked : ℕ → Event
  found_candidate : Ice → Event
  ice_changed : Bool → Event

unfoldable pub step : Cipher → Event → Call → Call
step k start c = init c
step k (dial target kind) c = start_call target kind c
step k (clicked b) c = click b c
step k (received m) c = handle_signal k m c
step k (settled i o) c = settle k i o c
step k (tracked s) c = on_track s c
step k (found_candidate i) c = on_ice_candidate k i c
step k (ice_changed lost) c = on_ice_state lost c

-- The keys at hand change between events.
unfoldable pub run : List (Cipher × Event) → Call → Call
run [] c = c
run ((k, e) ∷ es) c = run es (step k e c)
