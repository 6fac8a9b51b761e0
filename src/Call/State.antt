-- ===== src/Call/State.antt =====
-- The state of `callManager` (frontend/call.js): its fields, the document elements that it writes,
-- the browser resources that it holds, and the async functions that wait at an `await`.
use wifi_chat.Base.{ℕ, Bool, true, false, Option, none, List, [], ◌∷◌, ◌++◌, ◌==◌, not, filter}
use wifi_chat.Js.Text.{Text, js}

pub data CallState : Type 0 where
  idle calling ringing in_call : CallState

-- The `type` of a signaling message; `other` is any other text.
pub data Kind : Type 0 where
  call_request call_accept call_reject call_offer call_answer call_ice call_end other : Kind

-- What `RTCIceCandidate.toJSON()` gives.
pub record Ice : Type 0 where
  pub candidate : Text
  pub sdp_mid : Text
  pub sdp_m_line_index : ℕ

-- `msg.candidate`: an object, or the text that takes its place when it is encrypted.
pub data Candidate : Type 0 where
  ice : Ice → Candidate
  sealed_text : Text → Candidate

-- A signaling message. A field that is absent, `undefined` or `null` is `none`, or the empty text.
pub record Signal : Type 0 where
  pub kind : Kind
  pub from : Text
  pub to : Text
  pub call_type : Text
  pub sdp : Option Text
  pub candidate : Option Candidate
  pub encrypted : Bool

abbrev pub signal : Kind → Text → Signal
signal kind to = record {
  kind = kind;
  from = [];
  to = to;
  call_type = [];
  sdp = none;
  candidate = none;
  encrypted = false;
}

-- The message as the server delivers it, with the name of its sender.
abbrev pub delivered : Text → Signal → Signal
delivered from m = record m { from = from }

-- What leaves the manager: `send(msg)` and `addSystemMessage(text)` of frontend/app.js.
pub data Output : Type 0 where
  sent : Signal → Output
  notice : Text → Output

-- A `MediaStream` of the local devices: whether it has a video track, and the `enabled` flags.
pub record Stream : Type 0 where
  pub id : ℕ
  pub has_video : Bool
  pub audio_on : Bool
  pub video_on : Bool

-- An async function at its `await`, with the values that it goes on with.
pub data Task : Type 0 where
  -- `sendEncrypted` at `cryptoManager.encrypt`, with the message as it will be sent
  sealing : Signal → Task
  -- `onCallAccept` at `getUserMedia`, `createOffer` and `setLocalDescription`
  accept_media : Bool → Task
  accept_offer : Task
  accept_local : Text → Task
  -- `onCallOffer` at `decryptSignal`, `getUserMedia`, `setRemoteDescription`, `createAnswer` and
  -- `setLocalDescription`
  offer_opening : Signal → Task
  offer_media : Signal → Bool → Task
  offer_remote : Task
  offer_answer : Task
  offer_local : Text → Task
  -- `onCallAnswer` and `onCallICE` at `decryptSignal`
  answer_opening : Signal → Task
  ice_opening : Signal → Task

-- The document elements; a Boolean says whether the element is shown.
pub record Ui : Type 0 where
  pub overlay_shown : Bool
  pub overlay_type : Text
  pub modal_shown : Bool
  pub peer_name : Text
  pub status : Text
  pub timer : Text
  pub incoming_from : Text
  pub incoming_type : Text
  pub cam_shown : Bool
  pub mute_active : Bool
  pub cam_active : Bool
  pub local_video : Option ℕ
  pub remote_video : Option ℕ

pub data Button : Type 0 where
  mute_button cam_button end_button accept_button reject_button : Button

pub record Call : Type 0 where
  pub state : CallState
  pub pc : Option ℕ
  pub local_stream : Option Stream
  pub remote_stream : Option ℕ
  pub peer : Text
  pub call_type : Text
  pub is_muted : Bool
  pub is_cam_off : Bool
  pub ui : Ui
  pub timer_interval : Option ℕ
  pub initialized : Bool
  -- the buttons that have a click listener, once for each listener
  pub listeners : List Button
  -- browser resources in use, by number: streams whose tracks run, connections that are not
  -- closed, and intervals that are not cleared; `fresh` is the next number
  pub fresh : ℕ
  pub live_streams : List ℕ
  pub open_connections : List ℕ
  pub intervals : List ℕ
  -- the descriptions and candidates handed to the connection
  pub remote_descriptions : List Text
  pub remote_candidates : List Candidate
  pub tasks : List Task
  pub out : List Output

abbrev pub blank_ui : Ui
blank_ui = record {
  overlay_shown = false;
  overlay_type = [];
  modal_shown = false;
  peer_name = [];
  status = [];
  timer = [];
  incoming_from = [];
  incoming_type = [];
  cam_shown = true;
  mute_active = false;
  cam_active = false;
  local_video = none;
  remote_video = none;
}

-- The object as the script creates it.
abbrev pub fresh_call : Call
fresh_call = record {
  state = idle;
  pc = none;
  local_stream = none;
  remote_stream = none;
  peer = [];
  call_type = js "voice";
  is_muted = false;
  is_cam_off = false;
  ui = blank_ui;
  timer_interval = none;
  initialized = false;
  listeners = [];
  fresh = 0;
  live_streams = [];
  open_connections = [];
  intervals = [];
  remote_descriptions = [];
  remote_candidates = [];
  tasks = [];
  out = [];
}

abbrev pub emit : Output → Call → Call
emit o c = record c { out = c.out ++ o ∷ [] }

abbrev pub await : Task → Call → Call
await t c = record c { tasks = c.tasks ++ t ∷ [] }

-- A resource is stopped, closed or cleared.
abbrev pub release : ℕ → List ℕ → List ℕ
release n = filter (λ m. not (m == n))

unfoldable pub state_eq : CallState → CallState → Bool
state_eq idle idle = true
state_eq calling calling = true
state_eq ringing ringing = true
state_eq in_call in_call = true
state_eq _ _ = false
