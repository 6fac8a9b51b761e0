-- ===== src/Call/Races.antt =====
-- What can go wrong between the `await`s of a call and with unexpected signals (frontend/call.js).
-- Each theorem describes a class of states.
use wifi_chat.Base.{
  ◌∙◌, ap, sym, ℕ, suc, ◌<◌, ◌==◌, ◌≡◌, refl, Bool, true, false, ◌||◌, List, [], ◌∷◌, ◌++◌, Option,
  none, some, arith, filter,
}
use wifi_chat.Js.Text.{Text, js}
use wifi_chat.Call.State.{
  Output, idle, ringing, Call, Stream, Signal, signal, accept_media, offer_media, sent, notice,
  call_offer, call_end, release,
}
use wifi_chat.Call.Sealing.{Cipher}
use wifi_chat.Call.Handlers.{
  on_track, toggle_mute, on_call_offer, on_call_end, end_call, on_call_reject, fail_call,
}
use wifi_chat.Call.Tasks.{done, resume, answer_signal}
use wifi_chat.Call.Machine.{Event, take_task, settle, handle_signal, step, run, received, settled}
use wifi_chat.Call.Endings.{Ending, hang_up, end_by, stream_id}

abbrev pub heard : Option Stream → Bool
heard none = false
heard (some s) = s.audio_on

abbrev pub runs : ℕ → List ℕ → Bool
runs n [] = false
runs n (m ∷ ms) = n == m || runs n ms

runs-release_ne : (n m : ℕ) (ms : List ℕ) → (n == m) ≡ false → runs n (release m ms) ≡ runs n ms
unfolding filter
runs-release_ne n m [] ne = refl
runs-release_ne n m (l ∷ ms) ne = ground (arith, runs-release_ne n m ms ne)

intervals-end_by :
    (e : Ending) (c : Call) (t : ℕ)
    → c.timer_interval ≡ some t
    → (end_by e c).intervals ≡ release t c.intervals
unfolding end_call on_call_end on_call_reject fail_call
intervals-end_by hang_up c t h = ground arith
intervals-end_by _ c t h = ground arith

-- A further track of the peer starts a further timer, and the first one runs on after the call,
-- however the call ends, if the first one runs and has an earlier number.
pub on_track-leaks :
    (c : Call) (t s : ℕ) (e : Ending)
    → c.timer_interval ≡ some t
    → runs t c.intervals ≡ true
    → t < c.fresh
    → runs t (end_by e (on_track s c)).intervals ≡ true
unfolding on_track filter
on_track-leaks c t s e held live old =
    rw (intervals-end_by e (on_track s c) c.fresh refl)
      (ground (arith, runs-release_ne t c.fresh (c.fresh ∷ c.intervals)))

-- The caller's method from `getUserMedia` to its end.
abbrev pub opens_on : Cipher → Text → Text → Text → List (Cipher × Event)
opens_on k x sdp y =
    (k, settled 0 (done x)) ∷ (k, settled 0 (done sdp)) ∷ (k, settled 0 (done y)) ∷ []

abbrev pub lost_offer : Text → Call → Output
lost_offer sdp c = sent (record (signal call_offer []) { sdp = some sdp; call_type = c.call_type })

-- What an idle manager is after that.
opens_idle :
    (k : Cipher) (c : Call) (v : Bool) (x sdp y : Text)
    → c.tasks ≡ accept_media v ∷ []
    → c.peer ≡ []
    → let c' = run (opens_on k x sdp y) c in
      (c'.state ≡ c.state)
      × (stream_id c'.local_stream ≡ some c.fresh)
      × (c'.pc ≡ some (suc c.fresh))
      × (runs c.fresh c'.live_streams ≡ true)
      × (runs (suc c.fresh) c'.open_connections ≡ true)
      × (c'.ui.overlay_shown ≡ c.ui.overlay_shown)
      × (c'.out ≡ c.out ++ lost_offer sdp c ∷ [])
unfolding run step settle take_task resume
opens_idle k c v x sdp y waits nobody = ground arith

-- What the end of the call leaves alone, and what it resets.
on_call_end_lem :
    (c : Call)
    → ((on_call_end c).tasks ≡ c.tasks)
      × ((on_call_end c).peer ≡ [])
      × ((on_call_end c).state ≡ idle)
      × ((on_call_end c).fresh ≡ c.fresh)
      × ((on_call_end c).call_type ≡ c.call_type)
      × ((on_call_end c).ui.overlay_shown ≡ false)
      × ((on_call_end c).out ≡ c.out ++ notice (js "Call ended") ∷ [])
unfolding on_call_end
on_call_end_lem c = ground arith

run-call_end :
    (k : Cipher) (m : Signal) (es : List (Cipher × Event)) (c : Call)
    → m.kind ≡ call_end
    → run ((k, received m) ∷ es) c ≡ run es (on_call_end c)
unfolding run step handle_signal
run-call_end k m es c e = rw (e, handle_signal) refl

-- If the peer ends the call while the caller's devices are being opened, the opening goes on: the
-- idle manager, whose overlay is hidden, then holds a stream and a connection that run, and has sent
-- an offer to nobody.
pub accept_media-outlives_call :
    (k : Cipher) (c : Call) (v : Bool) (m : Signal) (x sdp y : Text)
    → c.tasks ≡ accept_media v ∷ []
    → m.kind ≡ call_end
    → let c' = run ((k, received m) ∷ opens_on k x sdp y) c in
      (c'.state ≡ idle)
      × (stream_id c'.local_stream ≡ some c.fresh)
      × (c'.pc ≡ some (suc c.fresh))
      × (runs c.fresh c'.live_streams ≡ true)
      × (runs (suc c.fresh) c'.open_connections ≡ true)
      × (c'.ui.overlay_shown ≡ false)
      × (c'.out ≡ (c.out ++ notice (js "Call ended") ∷ []) ++ lost_offer sdp c ∷ [])
accept_media-outlives_call k c v m x sdp y waits end =
    let (tasks, peer, state, next, kind, hidden, told) = on_call_end_lem c in
    let (s, stream, pc, l, o, shown, out) =
      opens_idle k (on_call_end c) v x sdp y (tasks ∙ waits) peer in
    rw (run-call_end k m (opens_on k x sdp y) c end) (
      s ∙ state,
      stream ∙ ap some next,
      pc ∙ ap (λ n. some (suc n)) next,
      ap (λ n. runs n (run (opens_on k x sdp y) (on_call_end c)).live_streams) (sym next) ∙ l,
      ap (λ n. runs (suc n) (run (opens_on k x sdp y) (on_call_end c)).open_connections) (sym next)
          ∙ o,
      shown ∙ hidden,
      ground arith,
    )

-- An offer opens the devices of a user whose phone still rings: without a key, and if the browser
-- grants each request, the answer goes to the caller, a stream runs, and the call was not accepted.
pub on_call_offer-answers_ringing :
    (k : Cipher) (c : Call) (m : Signal) (x y sdp z : Text)
    → c.state ≡ ringing
    → c.tasks ≡ []
    → m.kind ≡ call_offer
    → k.has_key_for c.peer ≡ false
    → let c' =
        run
          ((k, received m)
            ∷ (k, settled 0 (done x))
            ∷ (k, settled 0 (done x))
            ∷ (k, settled 0 (done y))
            ∷ (k, settled 0 (done sdp))
            ∷ (k, settled 0 (done z))
            ∷ [])
          c in
      (c'.state ≡ ringing)
      × (stream_id c'.local_stream ≡ some c.fresh)
      × (c'.out ≡ c.out ++ sent (answer_signal sdp c) ∷ [])
unfolding run step handle_signal on_call_offer settle take_task resume
on_call_offer-answers_ringing k c m x y sdp z rings idle' kind nokey = ground arith

-- A second offer replaces the stream of a muted user by one that is heard, and the manager and its
-- button still show that the user is muted.
pub offer_media-unmutes :
    (k : Cipher) (c : Call) (m : Signal) (v : Bool) (x : Text)
    → c.is_muted ≡ true
    → c.ui.mute_active ≡ true
    → let c' = resume k (offer_media m v) (done x) c in
      (c'.is_muted ≡ true) × (c'.ui.mute_active ≡ true) × (heard c'.local_stream ≡ true)
unfolding resume
offer_media-unmutes k c m v x muted shown = ground arith

-- The button still shows a mute that the end of the call has taken back.
pub toggle_mute-outlives_call :
    (e : Ending) (c : Call) (s : Stream)
    → c.local_stream ≡ some s
    → c.is_muted ≡ false
    → ((end_by e (toggle_mute c)).ui.mute_active ≡ true)
      × ((end_by e (toggle_mute c)).is_muted ≡ false)
unfolding toggle_mute end_call on_call_end on_call_reject fail_call
toggle_mute-outlives_call hang_up c s h m = ground arith
toggle_mute-outlives_call _ c s h m = ground arith
