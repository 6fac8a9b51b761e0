-- ===== src/Server/Message.antt =====
-- internal/models/message.go: the messages between the pages and the server, and the checks on names
-- and contents.
use wifi_chat.Base.{
  ℕ, zero, suc, ◌==◌, leb, Bool, true, false, ◌&&◌, ◌||◌, Option, none, List, [], ◌∷◌,
  if◌then◌else◌, length,
}
use wifi_chat.Js.Text.{Text}
use wifi_chat.Js.Dict.{Dict}
use wifi_chat.Call.State.{Kind, Candidate}

-- `MessageType`; `mesh_level` stands for announce, peer_discovery and store_forward, and `unknown`
-- for any text that no case of the server names. The kind of a `call` is one of the seven that the
-- server names, and never `other`.
pub data MessageType : Type 0 where
  join message dm image create_room join_room leave_room typing list_rooms list_users : MessageType
  call : Kind → MessageType
  key_exchange get_dm_history delivery_ack read_receipt system mesh_level : MessageType
  unknown : Text → MessageType

-- `Message`, with the fields that a single message has. A field that is absent is empty.
pub record Message : Type 0 where
  pub type : MessageType
  pub content : Text
  pub room : Text
  pub from : Text
  pub to : Text
  pub username : Text
  pub ts : ℕ
  pub image_url : Text
  pub sdp : Text
  pub candidate : Option Candidate
  pub call_type : Text
  pub public_key : Text
  pub encrypted : Bool
  pub message_id : Text
  pub status : Text
  pub ref_id : Text

abbrev pub empty_message : MessageType → Message
empty_message type = record {
  type = type;
  content = [];
  room = [];
  from = [];
  to = [];
  username = [];
  ts = 0;
  image_url = [];
  sdp = [];
  candidate = none;
  call_type = [];
  public_key = [];
  encrypted = false;
  message_id = [];
  status = [];
  ref_id = [];
}

-- `StoredMessage` of internal/store/store.go
pub record StoredMessage : Type 0 where
  pub id : ℕ
  pub room : Text
  pub from : Text
  pub to : Text
  pub content : Text
  pub image_url : Text
  pub timestamp : ℕ
  pub is_dm : Bool
  pub encrypted : Bool
  pub msg_id : Text
  pub status : Text

-- What the server sends to a page: a message, or one of the types that only the server makes.
pub data Reply : Type 0 where
  deliver : Message → Reply
  error : Text → Reply
  -- the content and the room
  welcome : Text → Text → Reply
  room_list : List Text → Reply
  user_list : List Text → Dict Text → Reply
  room_users : Text → List Text → Reply
  -- the user, the room and the public key
  user_joined : Text → Text → Text → Reply
  user_left : Text → Text → Reply
  history dm_history : Text → List StoredMessage → Reply

-- The characters of `usernameRegex`.
abbrev pub is_name_char : ℕ → Bool
is_name_char c =
    leb b'a' c && leb c b'z'
    || leb b'A' c && leb c b'Z'
    || leb b'0' c && leb c b'9'
    || c == b'_'
    || c == b'-'
    || c == b'.'

abbrev pub all_of : (ℕ → Bool) → Text → Bool
all_of p [] = true
all_of p (c ∷ s) = p c && all_of p s

-- `ValidateUsername`
unfoldable pub validate_username : Text → Bool
validate_username s = leb 1 (length s) && leb (length s) 32 && all_of is_name_char s

abbrev pub is_high : ℕ → Bool
is_high c = leb 0xD800 c && leb c 0xDBFF

-- `TruncateContent`: the first runes, of which a surrogate pair is one.
unfoldable pub truncate_content : ℕ → Text → Text
truncate_content zero s = []
truncate_content (suc n) [] = []
truncate_content (suc n) (c ∷ []) = c ∷ []
truncate_content (suc n) (c ∷ d ∷ s) =
    let pair = c ∷ d ∷ truncate_content n s in
    let single = c ∷ truncate_content n (d ∷ s) in if is_high c then pair else single
