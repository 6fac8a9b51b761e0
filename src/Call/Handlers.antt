-- ===== src/Call/Handlers.antt =====
-- The methods of `callManager` (frontend/call.js) that run without waiting, and the parts of its
-- async methods up to the first `await`.
use wifi_chat.Base.{ℕ, suc, Bool, true, false, not, none, some, [], ◌∷◌, ◌++◌, if◌then◌else◌}
use wifi_chat.Js.Text.{Text, js, str_eq, or_else}
use wifi_chat.Call.State.{
  idle, calling, ringing, in_call, Call, Signal, signal, call_request, call_accept, call_reject,
  call_end, call_ice, sent, notice, accept_media, offer_opening, answer_opening, ice_opening,
  mute_button, cam_button, end_button, accept_button, reject_button, emit, await, release, state_eq,
  Ice, ice,
}
use wifi_chat.Call.Sealing.{Cipher, decrypt_signal, send_encrypted}

abbrev pub is_video : Text → Bool
is_video t = str_eq t (js "video")

-- `init`: the click listeners are registered once.
unfoldable pub init : Call → Call
init c = if c.initialized then c else record c {
  initialized = true;
  listeners =
      c.listeners ++ (mute_button ∷ cam_button ∷ end_button ∷ accept_button ∷ reject_button ∷ []);
}

unfoldable pub start_call : Text → Text → Call → Call
unfolding state_eq
start_call target kind c =
    if not (state_eq c.state idle) then emit (notice (js "Already in a call")) c else record c {
      peer = target;
      call_type = kind;
      state = calling;
      out = c.out ++ sent (record (signal call_request target) { call_type = kind }) ∷ [];
      ui = record c.ui {
        peer_name = target;
        status = js "Calling...";
        timer = [];
        overlay_shown = true;
        overlay_type = kind;
        cam_shown = is_video kind;
      };
    }

unfoldable pub on_call_request : Signal → Call → Call
unfolding state_eq
on_call_request m c =
    if not (state_eq c.state idle)
    then emit (sent (signal call_reject m.from)) c
    else let kind = or_else m.call_type (js "voice") in
      record c {
        state = ringing;
        peer = m.from;
        call_type = kind;
        ui = record c.ui {
          incoming_from = m.from;
          incoming_type = if is_video kind then js "📹 Video Call" else js "📞 Voice Call";
          modal_shown = true;
        };
      }

unfoldable pub accept_incoming : Call → Call
accept_incoming c = record c {
  state = in_call;
  out = c.out ++ sent (record (signal call_accept c.peer) { call_type = c.call_type }) ∷ [];
  ui = record c.ui {
    modal_shown = false;
    peer_name = c.peer;
    status = js "Connecting...";
    timer = [];
    overlay_shown = true;
    overlay_type = c.call_type;
    cam_shown = is_video c.call_type;
  };
}

abbrev pub reset : Call → Call
reset c = record c { state = idle; peer = [] }

unfoldable pub reject_incoming : Call → Call
reject_incoming c = reset (record c {
  ui = record c.ui { modal_shown = false };
  out = c.out ++ sent (signal call_reject c.peer) ∷ [];
})

abbrev pub close_connection : Call → Call
close_connection c = elim c.pc [
  | none ↦ c
  | some p ↦ record c { open_connections = release p c.open_connections; pc = none }
]

abbrev pub stop_stream : Call → Call
stop_stream c = elim c.local_stream [
  | none ↦ c
  | some s ↦ record c { live_streams = release s.id c.live_streams; local_stream = none }
]

abbrev pub clear_timer : Call → Call
clear_timer c = elim c.timer_interval [
  | none ↦ c
  | some t ↦ record c { intervals = release t c.intervals; timer_interval = none }
]

-- Everything after the timer in `cleanup`.
abbrev pub hide_call : Call → Call
hide_call c = record c {
  remote_stream = none;
  ui = record c.ui {
    local_video = none;
    remote_video = none;
    overlay_shown = false;
    modal_shown = false;
  };
  is_muted = false;
  is_cam_off = false;
}

unfoldable pub cleanup : Call → Call
cleanup c = reset (hide_call (clear_timer (stop_stream (close_connection c))))

unfoldable pub end_call : Call → Call
unfolding cleanup
end_call c = cleanup (emit (sent (signal call_end c.peer)) c)

-- The `catch` of `onCallAccept` and `onCallOffer`.
unfoldable pub fail_call : Text → Call → Call
unfolding end_call
fail_call message c = end_call (emit (notice (js "Call failed: " ++ message)) c)

unfoldable pub on_call_end : Call → Call
unfolding cleanup state_eq
on_call_end c =
    let hidden = record c.ui { modal_shown = false } in
    let c' = record c { ui = if state_eq c.state ringing then hidden else c.ui } in
    cleanup (emit (notice (js "Call ended")) c')

unfoldable pub on_call_reject : Call → Call
unfolding cleanup
on_call_reject c = cleanup (emit (notice (c.peer ++ js " declined the call")) c)

-- Up to `getUserMedia`, which is asked for video in a video call.
unfoldable pub on_call_accept : Call → Call
unfolding state_eq
on_call_accept c =
    if not (state_eq c.state calling)
    then c
    else await (accept_media (is_video c.call_type))
        (record c { state = in_call; ui = record c.ui { status = js "Connecting..." } })

module _ (k : Cipher) where
  unfoldable pub on_call_offer : Signal → Call → Call
  on_call_offer m c = await (offer_opening (decrypt_signal k m)) c

  unfoldable pub on_call_answer : Signal → Call → Call
  on_call_answer m c = elim c.pc [
    | none ↦ c
    | some _ ↦ await (answer_opening (decrypt_signal k m)) c
  ]

  unfoldable pub on_call_ice : Signal → Call → Call
  on_call_ice m c = elim c.pc [ none ↦ c | some _ ↦ await (ice_opening (decrypt_signal k m)) c ]

-- `setupMedia` after `getUserMedia`.
unfoldable pub set_up_media : Bool → Call → Call
set_up_media video c = record c {
  local_stream =
      some (record { id = c.fresh; has_video = video; audio_on = true; video_on = true });
  live_streams = c.fresh ∷ c.live_streams;
  ui = record c.ui { local_video = some c.fresh };
  fresh = suc c.fresh;
}

unfoldable pub create_peer_connection : Call → Call
create_peer_connection c = record c {
  pc = some c.fresh;
  open_connections = c.fresh ∷ c.open_connections;
  fresh = suc c.fresh;
}

-- The timer writes to the document every second; here, that it runs.
unfoldable pub start_timer : Call → Call
start_timer c = record c {
  timer_interval = some c.fresh;
  intervals = c.fresh ∷ c.intervals;
  fresh = suc c.fresh;
}

-- The connection's `ontrack`, with the number of the first stream of the event.
unfoldable pub on_track : ℕ → Call → Call
unfolding start_timer
on_track stream c = start_timer (record c {
  remote_stream = some stream;
  ui = record c.ui { remote_video = some stream; status = [] };
})

abbrev pub ice_signal : Ice → Call → Signal
ice_signal i c = record (signal call_ice c.peer) { candidate = some (ice i) }

-- The connection's `onicecandidate`, with a candidate.
unfoldable pub on_ice_candidate : Cipher → Ice → Call → Call
unfolding send_encrypted
on_ice_candidate k i c = send_encrypted k (ice_signal i c) c

-- The connection's `oniceconnectionstatechange`: whether `this.pc.iceConnectionState` is
-- 'disconnected' or 'failed'. Without a connection the handler throws, and does nothing.
unfoldable pub on_ice_state : Bool → Call → Call
unfolding cleanup
on_ice_state lost c = elim c.pc [
  | none ↦ c
  | some _ ↦ if lost then cleanup (emit (notice (js "Call connection lost")) c) else c
]

-- The flag, the tracks and the button, if there is a stream.
unfoldable pub toggle_mute : Call → Call
toggle_mute c = elim c.local_stream [
  | none ↦ c
  | some s ↦ record c {
    is_muted = not c.is_muted;
    local_stream = some (record s { audio_on = c.is_muted });
    ui = record c.ui { mute_active = not c.is_muted };
  }
]

unfoldable pub toggle_camera : Call → Call
toggle_camera c = elim c.local_stream [
  | none ↦ c
  | some s ↦ record c {
    is_cam_off = not c.is_cam_off;
    local_stream = some (record s { video_on = c.is_cam_off });
    ui = record c.ui { cam_active = not c.is_cam_off };
  }
]
