-- ===== src/Chat/State.antt =====
-- The state of frontend/app.js: the global variables, what the page shows of them, and what has
-- left the page.
use wifi_chat.Base.{ℕ, Bool, true, false, Option, none, some, List, [], ◌∷◌, ◌++◌, if◌then◌else◌}
use wifi_chat.Js.Text.{Text, js}
use wifi_chat.Js.Dict.{Dict, get}
use wifi_chat.Call.State.{Signal}

-- `currentView`
pub data View : Type 0 where
  room dm : Text → View

pub data MessageKind : Type 0 where
  system_message room_message direct_message : MessageKind

-- The `status` of a message; `absent` is `undefined` or the empty text.
pub data Status : Type 0 where
  absent sent delivered read : Status
  other : Text → Status

-- A stored message. A text that is `undefined` is empty.
pub record Message : Type 0 where
  pub kind : MessageKind
  pub from : Text
  pub to : Text
  pub content : Text
  pub image_url : Text
  pub ts : Option ℕ
  pub encrypted : Bool
  pub message_id : Text
  pub status : Status

abbrev pub system_text : Text → ℕ → Message
system_text content now = record {
  kind = system_message;
  from = [];
  to = [];
  content = content;
  image_url = [];
  ts = some now;
  encrypted = false;
  message_id = [];
  status = absent;
}

-- What `send` puts on the socket.
pub data Packet : Type 0 where
  -- the name and the public key
  join : Text → Text → Packet
  join_room create_room leave_room : Text → Packet
  get_dm_history : Text → Packet
  -- the receiver and the message that was read
  read_receipt : Text → Text → Packet
  typing_in typing_to : Text → Packet
  -- the room, the content and the identifier
  message : Text → Text → Text → Packet
  -- the receiver, the content, whether it is encrypted, and the identifier
  dm_packet : Text → Text → Bool → Text → Packet
  -- the room or the receiver, the address of the image, the caption and the identifier
  image_in image_to : Text → Text → Text → Text → Packet

-- What the page hands to `callManager`.
pub data CallInput : Type 0 where
  init_call : CallInput
  handle : Signal → CallInput

pub record Notification : Type 0 where
  pub title : Text
  pub body : Text
  pub tag : Text

pub record Chat : Type 0 where
  pub my_username : Text
  pub view : View
  pub rooms : List Text
  pub users : List Text
  pub room_users : Dict (List Text)
  pub store : Dict (List Message)
  pub unread : Dict ℕ
  pub view_restored : Bool
  pub tab_focused : Bool
  pub total_unread : ℕ
  pub notifications_enabled : Bool
  pub disappearing_timer : ℕ
  pub interval_runs : Bool
  -- the socket is open
  pub online : Bool
  -- `reconnectAttempts`, and the delays of the reconnections that were scheduled, in milliseconds
  pub attempts : ℕ
  pub scheduled : List ℕ
  -- `sessionStorage`: the message history and the view
  pub saved_store : Option (Dict (List Message))
  pub saved_view : Option View
  -- the page: the login screen and its message, the rendered messages, who types
  pub login_shown : Bool
  pub login_error : Text
  pub shown : List Message
  pub typing_text : Text
  pub typing_shown : Bool
  pub input_text : Text
  pub emoji_shown : Bool
  -- what has left the page
  pub out : List Packet
  pub imported : List (Text × Text)
  pub calls : List CallInput
  pub notifications : List Notification

abbrev pub general : Text
general = js "general"

-- `dm:${name}`
abbrev pub dm_key : Text → Text
dm_key name = b'd' ∷ b'm' ∷ b':' ∷ name

-- The key of a view in `messageStore` and `unreadCounts`.
abbrev pub key_of : View → Text
key_of (room name) = name
key_of (dm name) = dm_key name

abbrev pub or_empty : Option (List Message) → List Message
or_empty none = []
or_empty (some ms) = ms

-- `messageStore[key] || []`
abbrev pub messages_at : Text → Chat → List Message
messages_at key c = or_empty (get key c.store)

-- `send`
abbrev pub send : Packet → Chat → Chat
send p c = record c { out = if c.online then c.out ++ p ∷ [] else c.out }

abbrev pub is_sent : Status → Bool
is_sent sent = true
is_sent _ = false

abbrev pub is_read : Status → Bool
is_read read = true
is_read _ = false

abbrev pub or_delivered : Status → Status
or_delivered absent = delivered
or_delivered s = s

abbrev pub is_system : Message → Bool
is_system m = elim m.kind [ system_message ↦ true | room_message ↦ false | direct_message ↦ false ]
