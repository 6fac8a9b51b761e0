-- ===== src/Call/Secrecy.antt =====
-- Whose signaling data leaves the manager in the clear (frontend/call.js): nobody's for whom a key
-- is at hand, on any path through the async functions.
use wifi_chat.Base.{
  Option-cases, ℕ, zero, suc, ◌≡◌, refl, Bool, true, false, Option, none, not, ◌&&◌, ◌||◌, List, [],
  ◌∷◌, ◌++◌, some, arith, inl, inr, Bool-cases,
}
use wifi_chat.Js.Text.{Text, truthy}
use wifi_chat.Call.State.{
  fresh_call, Call, Signal, Candidate, ice, sealed_text, Task, Button, Output, sent, notice,
  sealing, accept_local, offer_local,
}
use wifi_chat.Call.Sealing.{Cipher, send_encrypted, has_payload, seal_sdp, seal_candidate, as_text}
use wifi_chat.Call.Handlers.{
  init, start_call, on_call_request, accept_incoming, reject_incoming, cleanup, end_call, fail_call,
  on_call_end, on_call_reject, on_call_accept, on_call_offer, on_call_answer, on_call_ice, on_track,
  ice_signal, on_ice_candidate, on_ice_state, toggle_mute, toggle_camera,
}
use wifi_chat.Call.Tasks.{Outcome, done, failed, null_message, offer_signal, answer_signal, resume}
use wifi_chat.Call.Machine.{
  start, dial, clicked, received, settled, tracked, found_candidate, ice_changed, button_eq,
  handle_signal, press, run_listeners, click, take_task, settle, Event, step, run,
}

-- For whom there is a key, and which texts are what an encryption for a receiver has given.
module _ (has : Text → Bool) (is_sealed : Text → Text → Bool) where
  abbrev pub sdp_sealed : Text → Option Text → Bool
  sdp_sealed to none = true
  sdp_sealed to (some s) = not (truthy s) || is_sealed to s

  abbrev pub candidate_sealed : Text → Option Candidate → Bool
  candidate_sealed to none = true
  candidate_sealed to (some (ice _)) = false
  candidate_sealed to (some (sealed_text s)) = not (truthy s) || is_sealed to s

  -- A message is safe if it carries nothing, if there is no key for its receiver, or if it is marked
  -- as encrypted and its description and its candidate are what an encryption for the receiver has
  -- given.
  unfoldable pub is_safe : Signal → Bool
  is_safe m =
      not (has_payload m && truthy m.to && has m.to)
      || m.encrypted && sdp_sealed m.to m.sdp && candidate_sealed m.to m.candidate

  -- A message for which nothing is to be done.
  plain-is_safe :
      (m : Signal) → (has_payload m && truthy m.to && has m.to) ≡ false → is_safe m ≡ true
  unfolding is_safe
  plain-is_safe m plain = ground arith

  unfoldable pub outputs_safe : List Output → Bool
  outputs_safe [] = true
  outputs_safe (sent m ∷ os) = is_safe m && outputs_safe os
  outputs_safe (notice _ ∷ os) = outputs_safe os

  abbrev pub is_safe_task : Task → Bool
  is_safe_task (sealing m) = is_safe m
  is_safe_task _ = true

  unfoldable pub tasks_safe : List Task → Bool
  tasks_safe [] = true
  tasks_safe (t ∷ ts) = is_safe_task t && tasks_safe ts

  outputs_safe-sent :
      (os : List Output) (m : Signal)
      → outputs_safe (os ++ sent m ∷ []) ≡ (outputs_safe os && is_safe m)
  unfolding outputs_safe
  outputs_safe-sent [] m = ground arith
  outputs_safe-sent (sent n ∷ os) m = ground (arith, outputs_safe-sent os m)
  outputs_safe-sent (notice _ ∷ os) m = outputs_safe-sent os m

  outputs_safe-notice :
      (os : List Output) (t : Text) → outputs_safe (os ++ notice t ∷ []) ≡ outputs_safe os
  unfolding outputs_safe
  outputs_safe-notice [] t = refl
  outputs_safe-notice (sent n ∷ os) t = ground (arith, outputs_safe-notice os t)
  outputs_safe-notice (notice _ ∷ os) t = outputs_safe-notice os t

  tasks_safe-snoc :
      (ts : List Task) (t : Task) → tasks_safe (ts ++ t ∷ []) ≡ (tasks_safe ts && is_safe_task t)
  unfolding tasks_safe
  tasks_safe-snoc [] t = ground arith
  tasks_safe-snoc (u ∷ ts) t = ground (arith, tasks_safe-snoc ts t)

  ruleset safe_laws = (outputs_safe-sent, outputs_safe-notice, tasks_safe-snoc)

  pub record IsSafe (c : Call) : Type 0 where
    pub outputs : outputs_safe c.out ≡ true
    pub waiting : tasks_safe c.tasks ≡ true

  -- A cipher with keys for these people, whose encryptions are such texts.
  abbrev pub Knows : Cipher → Type 0
  Knows k =
      (t : Text)
      → (k.has_key_for t ≡ has t) × ((s r : Text) → k.encrypt t s ≡ some r → is_sealed t r ≡ true)

  sealed-sdp : (k : Cipher) (to : Text) (s : Text) → Knows k → sdp_sealed to (k.encrypt to s) ≡ true
  sealed-sdp k to s same = elim (Option-cases (k.encrypt to s)) [
    | inl e ↦ rw e refl
    | inr (r, e) ↦ let known = (same to).1 s r e in rw e (ground arith)
  ]

  sealed-candidate :
      (k : Cipher) (to : Text) (s : Text)
      → Knows k
      → candidate_sealed to (as_text (k.encrypt to s)) ≡ true
  sealed-candidate k to s same = elim (Option-cases (k.encrypt to s)) [
    | inl e ↦ rw e refl
    | inr (r, e) ↦ let known = (same to).1 s r e in rw e (ground arith)
  ]

  seal-is_safe-by :
      (k : Cipher) (peer : Text) (m : Signal)
      → Knows k
      → m.to ≡ peer
      → (o : Option Text) (q : Option Candidate) → m.sdp ≡ o
      → m.candidate ≡ q
      → is_safe (seal_candidate k peer (seal_sdp k peer m)) ≡ true
  unfolding seal_candidate seal_sdp is_safe
  seal-is_safe-by k peer m same to none none e f = ground arith
  seal-is_safe-by k peer m same to (some s) none e f = ground (arith, sealed-sdp k m.to s same)
  seal-is_safe-by k peer m same to none (some x) e f =
      ground (arith, sealed-candidate k m.to (k.stringify x) same)
  seal-is_safe-by k peer m same to (some s) (some x) e f =
      ground (arith, sealed-sdp k m.to s same, sealed-candidate k m.to (k.stringify x) same)

  -- What has been through the encryption is sealed, or carries nothing.
  seal-is_safe :
      (k : Cipher) (peer : Text) (m : Signal)
      → Knows k
      → m.to ≡ peer
      → is_safe (seal_candidate k peer (seal_sdp k peer m)) ≡ true
  seal-is_safe k peer m same to = seal-is_safe-by k peer m same to m.sdp m.candidate refl refl

  module _ {c : Call} (h : IsSafe c) where
    start_call-IsSafe : (t kind : Text) → IsSafe (start_call t kind c)
    unfolding start_call is_safe
    start_call-IsSafe t kind = grind (arith, outputs_safe-sent, outputs_safe-notice)

    send_encrypted-IsSafe :
        (k : Cipher) (m : Signal) → Knows k → m.to ≡ c.peer → IsSafe (send_encrypted k m c)
    unfolding send_encrypted
    send_encrypted-IsSafe k m same to = ground (
      arith,
      outputs_safe-sent c.out m,
      plain-is_safe m,
      (same c.peer).0,
      seal-is_safe k c.peer m same to,
      tasks_safe-snoc c.tasks (sealing (seal_candidate k c.peer (seal_sdp k c.peer m))),
    )

    cleanup-IsSafe : IsSafe (cleanup c)
    unfolding cleanup
    cleanup-IsSafe = ground arith

    fail_call-IsSafe : (e : Text) → IsSafe (fail_call e c)
    unfolding fail_call is_safe
    fail_call-IsSafe e = grind (arith, outputs_safe-sent, outputs_safe-notice)

    -- What a signal does: it answers a request while busy, ends the call, or makes a task wait.
    handle_signal-IsSafe : (k : Cipher) (m : Signal) → IsSafe (handle_signal k m c)
    unfolding handle_signal on_call_offer on_call_answer on_call_ice on_call_request on_call_accept
        on_call_end on_call_reject is_safe
    handle_signal-IsSafe k m =
        grind (arith, outputs_safe-sent, outputs_safe-notice, tasks_safe-snoc)

    press-IsSafe : (b : Button) → IsSafe (press b c)
    unfolding press toggle_mute toggle_camera end_call accept_incoming reject_incoming is_safe
    press-IsSafe b = grind (arith, outputs_safe-sent)

    on_ice_state-IsSafe : (lost : Bool) → IsSafe (on_ice_state lost c)
    unfolding on_ice_state
    on_ice_state-IsSafe lost = grind (arith, outputs_safe-notice)

    init-IsSafe : IsSafe (init c)
    unfolding init
    init-IsSafe = ground arith

    on_track-IsSafe : (s : ℕ) → IsSafe (on_track s c)
    unfolding on_track
    on_track-IsSafe s = ground arith

  resume-IsSafe :
      (k : Cipher)
      → Knows k
      → (t : Task) (o : Outcome) {c : Call} → IsSafe c
      → is_safe_task t ≡ true
      → IsSafe (resume k t o c)
  unfolding resume
  resume-IsSafe k same (sealing m) o {c} h s = grind (arith, outputs_safe-sent)
  resume-IsSafe k same t (failed e) {c} h s = grind (arith, fail_call-IsSafe h e, tasks_safe-snoc)
  resume-IsSafe k same (accept_local x) (done _) {c} h s =
      send_encrypted-IsSafe h k (offer_signal x c) same refl
  resume-IsSafe k same (offer_local x) (done _) {c} h s =
      send_encrypted-IsSafe h k (answer_signal x c) same refl
  resume-IsSafe k same t (done x) {c} h s =
      grind (arith, fail_call-IsSafe h null_message, tasks_safe-snoc)

  take_task-tasks_safe :
      (i : ℕ) (ts : List Task) (t : Task) (us : List Task)
      → take_task i ts ≡ some (t, us)
      → tasks_safe ts ≡ true
      → (is_safe_task t ≡ true) × (tasks_safe us ≡ true)
  unfolding take_task tasks_safe
  take_task-tasks_safe i [] t us e s = cc
  take_task-tasks_safe zero (u ∷ ts) t us e s = ground arith
  take_task-tasks_safe (suc i) (u ∷ ts) t us e s = elim (Option-cases (take_task i ts)) [
    | inl missing ↦ absurd (ground arith)
    | inr (p, found) ↦ ground (arith, take_task-tasks_safe i ts p.0 p.1 (ground arith))
  ]

  settle-IsSafe :
      (k : Cipher) → Knows k → (i : ℕ) (o : Outcome) {c : Call} → IsSafe c → IsSafe (settle k i o c)
  unfolding settle
  settle-IsSafe k same i o {c} h = elim (Option-cases (take_task i c.tasks)) [
    | inl e ↦ rw (e, settle) h
    | inr (p, e) ↦
        let (head, rest) = take_task-tasks_safe i c.tasks p.0 p.1 (ground arith) h.waiting in
        rw (e, settle)
          (resume-IsSafe k same p.0 o {c = record c { tasks = p.1 }}
            (record { outputs = h.outputs; waiting = rest }) head)
  ]

  run_listeners-IsSafe :
      (b : Button) (ls : List Button) {c : Call} → IsSafe c → IsSafe (run_listeners b ls c)
  unfolding run_listeners
  run_listeners-IsSafe b [] h = h
  run_listeners-IsSafe b (l ∷ ls) h = elim (Bool-cases (button_eq b l)) [
    | inl e ↦ rw e (run_listeners-IsSafe b ls (press-IsSafe h b))
    | inr e ↦ rw e (run_listeners-IsSafe b ls h)
  ]

  step-IsSafe : (k : Cipher) → Knows k → (e : Event) {c : Call} → IsSafe c → IsSafe (step k e c)
  unfolding step on_ice_candidate click
  step-IsSafe k same start h = init-IsSafe h
  step-IsSafe k same (dial target kind) h = start_call-IsSafe h target kind
  step-IsSafe k same (clicked b) {c} h = ground (arith, run_listeners-IsSafe b c.listeners h)
  step-IsSafe k same (received m) h = handle_signal-IsSafe h k m
  step-IsSafe k same (settled i o) h = settle-IsSafe k same i o h
  step-IsSafe k same (tracked s) h = on_track-IsSafe h s
  step-IsSafe k same (found_candidate i) {c} h =
      send_encrypted-IsSafe h k (ice_signal i c) same refl
  step-IsSafe k same (ice_changed lost) h = on_ice_state-IsSafe h lost

  -- Every event happens under keys for the same people.
  abbrev pub AllKnow : List (Cipher × Event) → Type 0
  AllKnow [] = Unit {0}
  AllKnow ((k, _) ∷ es) = Knows k × AllKnow es

  -- Take a run during which the people for whom a key is at hand stay the same, and any property that
  -- all texts have that are encrypted for a receiver in it. If what the manager sent and what waits to
  -- be sent was safe before, it is safe after: in each message to a receiver with a name and a key, the
  -- description is absent, empty or a text with the property for that receiver, so is the candidate,
  -- and if there is either of them the message is marked as encrypted.
  pub run-IsSafe :
      (es : List (Cipher × Event)) → AllKnow es → {c : Call} → IsSafe c → IsSafe (run es c)
  unfolding run
  run-IsSafe [] all h = h
  run-IsSafe ((k, e) ∷ es) all h = run-IsSafe es all.1 (step-IsSafe k all.0 e h)

pub fresh_call-IsSafe :
    (has : Text → Bool) (is_sealed : Text → Text → Bool) → IsSafe has is_sealed fresh_call
unfolding outputs_safe tasks_safe
fresh_call-IsSafe has is_sealed = record { outputs = refl; waiting = refl }
