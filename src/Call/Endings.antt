-- ===== src/Call/Endings.antt =====
-- The ways a call ends, and what of the browser's resources is left (frontend/call.js).
use wifi_chat.Base.{ℕ, ◌≡◌, false, List, [], ◌∷◌, Option, none, some, arith, filter}
use wifi_chat.Js.Text.{Text}
use wifi_chat.Call.State.{idle, Call, Stream, Signal, Task, accept_media, offer_media}
use wifi_chat.Call.Sealing.{Cipher, send_encrypted}
use wifi_chat.Call.Handlers.{cleanup, end_call, fail_call, on_call_end, on_call_reject}
use wifi_chat.Call.Tasks.{Outcome, done, failed, null_message, resume}

-- The user hangs up; the peer ends the call, or declines it; the connection cannot be set up.
pub data Ending : Type 0 where
  hang_up peer_end peer_reject : Ending
  failure : Text → Ending

abbrev pub end_by : Ending → Call → Call
end_by hang_up c = end_call c
end_by peer_end c = on_call_end c
end_by peer_reject c = on_call_reject c
end_by (failure e) c = fail_call e c

abbrev pub held : Option ℕ → List ℕ
held none = []
held (some n) = n ∷ []

abbrev pub stream_id : Option Stream → Option ℕ
stream_id none = none
stream_id (some s) = some s.id

-- What runs in the browser for this manager is what the manager holds, so it can be stopped.
pub record IsOwned (c : Call) : Type 0 where
  pub streams : c.live_streams ≡ held (stream_id c.local_stream)
  pub connections : c.open_connections ≡ held c.pc
  pub timers : c.intervals ≡ held c.timer_interval

-- The call is over: nothing runs, nothing is held, nothing is shown.
pub record IsOver (c : Call) : Type 0 where
  pub state : c.state ≡ idle
  pub peer : c.peer ≡ []
  pub stream : c.local_stream ≡ none
  pub remote : c.remote_stream ≡ none
  pub pc : c.pc ≡ none
  pub timer : c.timer_interval ≡ none
  pub no_streams : c.live_streams ≡ []
  pub no_connections : c.open_connections ≡ []
  pub no_intervals : c.intervals ≡ []
  pub unmuted : c.is_muted ≡ false
  pub cam_on : c.is_cam_off ≡ false
  pub overlay : c.ui.overlay_shown ≡ false
  pub dialog : c.ui.modal_shown ≡ false
  pub no_local_video : c.ui.local_video ≡ none
  pub no_remote_video : c.ui.remote_video ≡ none

cleanup-IsOver : (c : Call) → IsOwned c → IsOver (cleanup c)
unfolding cleanup filter
cleanup-IsOver c h = ground arith

-- The manager is free to take a stream and a connection.
abbrev pub Free : Task → Call → Type 0
Free (accept_media _) c = (c.local_stream ≡ none) × (c.pc ≡ none)
Free (offer_media _ _) c = (c.local_stream ≡ none) × (c.pc ≡ none)
Free _ c = Unit {0}

fail_call-IsOwned : (e : Text) (c : Call) → IsOwned c → IsOwned (fail_call e c)
unfolding fail_call filter
fail_call-IsOwned e c h = ground arith

send_encrypted-IsOwned :
    (k : Cipher) (m : Signal) (c : Call) → IsOwned c → IsOwned (send_encrypted k m c)
unfolding send_encrypted
send_encrypted-IsOwned k m c h = ground arith

-- An async function that goes on keeps what runs and what is held together, if it does not take a
-- stream and a connection where some are held.
pub resume-IsOwned :
    (k : Cipher) (t : Task) (o : Outcome) (c : Call)
    → Free t c
    → IsOwned c
    → IsOwned (resume k t o c)
unfolding resume
resume-IsOwned k (accept_media v) (done x) c f h = ground arith
resume-IsOwned k t (failed e) c f h = ground (arith, fail_call-IsOwned e c)
resume-IsOwned k t (done x) c f h = ground (arith, fail_call-IsOwned null_message c)
