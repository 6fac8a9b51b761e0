-- ===== src/Server/Refusing.antt =====
-- What the hub (internal/hub/hub.go) answers a page of frontend/app.js that was loaded again and
-- writes to the room that it shows.
use wifi_chat.Base.{
  ℕ, ◌≡◌, ◌∙◌, ap, Bool, Bool-cases, true, false, is_some, some, List, [], ◌∷◌, ◌++◌, arith, inl,
  inr,
}
use wifi_chat.Js.Text.{Text, js, truthy, str_eq}
use wifi_chat.Js.Dict.{Dict, get, put, get-put}
use wifi_chat.Chat.State.{room, join, Chat, Packet, general}
use wifi_chat.Chat.State
use wifi_chat.Chat.Messages.{Decrypt, system}
use wifi_chat.Chat.Messages
use wifi_chat.Chat.Connection.{on_open, on_keys}
use wifi_chat.Chat.Start.{Tab, reload}
use wifi_chat.Chat.Submit.{World, send_content}
use wifi_chat.Chat.Rejoining.{IsQuiet, greeted-IsQuiet}
use wifi_chat.Server.Message.{validate_username}
use wifi_chat.Server.Hub.{ClientId, Hub, Moment, refuse}
use wifi_chat.Server.Joining.{
  cool_down, kick, kick_old, take_name, greet, enter_as, enter, handle_join, register,
}
use wifi_chat.Server.Rooms.{handle_message}
use wifi_chat.Server.Running.{dispatch, is_throttled, note_time, handle_raw, process_message}
use wifi_chat.Server.Membership.Passive
use wifi_chat.Server.Link.{message_of}
use wifi_chat.Server.Throttling.{process_burst}

-- What a client knows of itself that is not whether it is closed.
record IsNamed (user : Text) (within : Dict Bool) (c : ClientId) (h : Hub) : Type 0 where
  name : (h.client c).username ≡ user
  rooms : (h.client c).rooms ≡ within

rooms-kick_old :
    (user : Text) (c : ClientId) (h : Hub)
    → ((kick_old user h).1.client c).rooms ≡ (h.client c).rooms
unfolding kick_old kick
rooms-kick_old user c h = ground arith

entered-IsNamed :
    (c : ClientId) (user key : Text) (b : Bool) (rooms : Dict Bool) (h : Hub)
    → (h.client c).rooms ≡ rooms
    → IsNamed user (put general true rooms) c (greet c user key b (take_name c user key h))
unfolding take_name
entered-IsNamed c user key b rooms h e =
    let told = Passive.greet-Same (take_name c user key h) c user key b in
    record { name = ground (arith, told.client); rooms = ground (arith, told.client, e) }

joined-IsNamed :
    (c : ClientId) (user key : Text) (recent : Bool) (rooms : Dict Bool) (h : Hub)
    → (h.client c).rooms ≡ rooms
    → IsNamed user (put general true rooms) c (enter_as c user key recent h)
unfolding enter_as
joined-IsNamed c user key true rooms h e = entered-IsNamed c user key true rooms h e
joined-IsNamed c user key false rooms h e =
    entered-IsNamed c user key (kick_old user h).0 rooms (kick_old user h).1
      (rooms-kick_old user c h ∙ e)

-- A new connection joins.
abbrev pub joins : Moment → Text → Text → Hub → Hub
joins t user key h =
    process_message t h.next_client (some (message_of (State.join user key))) (register h)

joins-IsNamed :
    (t : Moment) (user key : Text) (h : Hub)
    → truthy user ≡ true
    → validate_username user ≡ true
    → IsNamed user (put general true []) h.next_client (joins t user key h)
unfolding process_message handle_raw dispatch handle_join enter register message_of
joins-IsNamed t user key h full valid =
    let r = register h in
    let cooled = cool_down user t.now r.join_cooldown in
    let n =
      joined-IsNamed h.next_client user key cooled.0 [] (record r { join_cooldown = cooled.1 })
        (ground arith) in
    ground (arith, n.name, n.rooms)

-- Who is in the default room only can write to no other.
refused :
    (t : Moment) (c : ClientId) (user name text id : Text) (h : Hub)
    → IsNamed user (put general true []) c h
    → truthy user ≡ true
    → truthy name ≡ true
    → str_eq general name ≡ false
    → (answer : Text) × (handle_message t c (message_of (State.message name text id)) h
        ≡ refuse c answer h)
unfolding handle_message message_of get
refused t c user name text id h n known full away = elim (Bool-cases (is_some (get name h.rooms))) [
  | inl there ↦ (
    js "You are not in room: " ++ name,
    ground (arith, n.name, n.rooms, get-put general name true []),
  )
  | inr gone ↦ (js "Room does not exist: " ++ name, ground (arith, n.name))
]

written :
    (w : World) (text name user key : Text) (c : Chat)
    → IsQuiet name user key c
    → (send_content w text c).out ≡ join user key ∷ State.message name text w.fresh_id ∷ []
unfolding send_content
written w text name user key c q = ground (arith, q.out, q.view, q.online)

message_of-message :
    (t : Moment) (c : ClientId) (user name text id : Text) (h : Hub)
    → IsNamed user (put general true []) c h
    → truthy user ≡ true
    → truthy name ≡ true
    → str_eq general name ≡ false
    → is_throttled t.now c h ≡ false
    → (answer : Text) × (process_message t c (some (message_of (State.message name text id))) h
        ≡ refuse c answer (note_time t.now c h))
unfolding process_message handle_raw dispatch note_time message_of
message_of-message t c user name text id h n known full away late =
    let noted = note_time t.now c h in
    let (answer, e) =
      refused t c user name text id noted (record { name = n.name; rooms = n.rooms }) known full
        away in
    (answer, ground (arith, e, n.name))

-- The page after a reload, when the server has greeted it.
abbrev pub greeted_page : Decrypt → ℕ → Text → Text → Text → Tab → Chat
greeted_page decrypt now content where_ key t =
    Messages.handle_message decrypt now (system content where_)
      (on_keys key (on_open (reload t).chat))

-- A logged-in user with a valid name loads the page again while it shows a room other than the
-- default one, whose conversation is saved, and when the server has greeted the page writes a text.
-- Whatever the state of the hub is, if the text does not come too early, the new connection joins and
-- is refused: the hub does nothing with the text but note the time and answer with an error.
pub reload-refused :
    (w : World) (decrypt : Decrypt) (now : ℕ) (content where_ name user key text : Text) (t : Tab)
    (d : Dict (List State.Message)) (ms : List State.Message) (t1 t2 : Moment) (h : Hub)
    → t.saved_username ≡ some user
    → truthy user ≡ true
    → validate_username user ≡ true
    → t.chat.saved_view ≡ some (room name)
    → truthy name ≡ true
    → str_eq general name ≡ false
    → t.chat.saved_store ≡ some d
    → get name d ≡ some ms
    → is_throttled t2.now h.next_client (joins t1 user key h) ≡ false
    → (answer : Text) × (process_burst h.next_client
          (t1 ∷ t2 ∷ [])
          (send_content w text (greeted_page decrypt now content where_ key t)).out
          (register h)
        ≡ refuse h.next_client answer (note_time t2.now h.next_client (joins t1 user key h)))
unfolding process_burst
reload-refused w decrypt now content where_ name user key text t d ms t1 t2 h u known valid v full
      away s g late =
    let q = greeted-IsQuiet decrypt now content where_ name user key t d ms u known v s g in
    let sent = written w text name user key (greeted_page decrypt now content where_ key t) q in
    let (answer, e) =
      message_of-message t2 h.next_client user name text w.fresh_id (joins t1 user key h)
        (joins-IsNamed t1 user key h known valid) known full away late in
    (answer, ap (λ ps. process_burst h.next_client (t1 ∷ t2 ∷ []) ps (register h)) sent ∙ e)
