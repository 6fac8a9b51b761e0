-- ===== src/Chat/Start.antt =====
-- The start and the end of a session of frontend/app.js: `init`, `loadMessageStore`, the login form,
-- `requestNotificationPermission`, `logout` and the form that creates a room.
use wifi_chat.Base.{
  ℕ, suc, Bool, true, false, Option, none, some, List, [], ◌∷◌, ◌++◌, if◌then◌else◌,
}
use wifi_chat.Js.Text.{Text, truthy, trim, is_space}
use wifi_chat.Js.Dict.{Dict}
use wifi_chat.Chat.State.{View, room, Message, create_room, Chat, general, send}

-- `Notification.permission`; the third is `default`.
pub data Permission : Type 0 where
  granted denied undecided : Permission

-- A tab: the page, the name in `sessionStorage`, the names with which `connect` was called, how often
-- the browser asks for the permission, and what it is.
pub record Tab : Type 0 where
  pub chat : Chat
  pub saved_username : Option Text
  pub connected_as : List Text
  pub asked : ℕ
  pub permission : Permission

-- The globals when the script is loaded, with what `sessionStorage` has kept.
unfoldable pub loaded : Option (Dict (List Message)) → Option View → Chat
loaded messages saved = record {
  my_username = [];
  view = room general;
  rooms = [];
  users = [];
  room_users = [];
  store = [];
  unread = [];
  view_restored = false;
  tab_focused = true;
  total_unread = 0;
  notifications_enabled = false;
  disappearing_timer = 0;
  interval_runs = false;
  online = false;
  attempts = 0;
  scheduled = [];
  saved_store = messages;
  saved_view = saved;
  login_shown = true;
  login_error = [];
  shown = [];
  typing_text = [];
  typing_shown = false;
  input_text = [];
  emoji_shown = false;
  out = [];
  imported = [];
  calls = [];
  notifications = [];
}

-- `loadMessageStore`
unfoldable pub load_message_store : Chat → Chat
load_message_store c = elim c.saved_store [ none ↦ c | some d ↦ record c { store = d } ]

-- The part of `init` that takes up the view.
abbrev pub load_view : Chat → Chat
load_view c = elim c.saved_view [ none ↦ c | some v ↦ record c { view = v } ]

-- `requestNotificationPermission`, up to the answer
unfoldable pub request_notification_permission : Tab → Tab
request_notification_permission t = elim t.permission [
  | granted ↦ record t { chat = record t.chat { notifications_enabled = true } }
  | denied ↦ t
  | undecided ↦ record t { asked = suc t.asked }
]

abbrev pub is_granted : Permission → Bool
is_granted granted = true
is_granted _ = false

-- The answer to a request.
unfoldable pub on_permission : Permission → Tab → Tab
on_permission answer t = record t {
  permission = answer;
  chat = record t.chat { notifications_enabled = is_granted answer };
}

-- `connect` as far as it is synchronous: a socket is made.
abbrev pub connect : Text → Tab → Tab
connect username t = record t { connected_as = t.connected_as ++ username ∷ [] }

-- What the login and `init` do with a name.
unfoldable pub enter : Text → Tab → Tab
unfolding request_notification_permission
enter username t =
    connect username (
      request_notification_permission
        (record t { chat = record t.chat { my_username = username } }))

abbrev pub or_no_name : Option Text → Text
or_no_name none = []
or_no_name (some username) = username

unfoldable pub init : Tab → Tab
unfolding enter load_message_store
init t =
    let ready = record t { chat = load_view (load_message_store t.chat) } in
    let username = or_no_name t.saved_username in
    if truthy username then enter username ready else ready

-- The submit of the login form, when the input has the value.
unfoldable pub login : Text → Tab → Tab
unfolding enter
login value t =
    let username = trim value in
    if truthy username then enter username (record t { saved_username = some username }) else t

-- The page is loaded again: the script starts anew, and `sessionStorage` is there.
unfoldable pub reload : Tab → Tab
unfolding init loaded
reload t = init (record t { chat = loaded t.chat.saved_store t.chat.saved_view })

-- `logout`: what the page had in `sessionStorage` is removed, and the page is loaded again. The keys
-- of `cryptoManager` are not part of the tab.
unfoldable pub logout : Tab → Tab
unfolding reload
logout t = reload (record t {
  saved_username = none;
  chat = record t.chat { saved_store = none; saved_view = none; online = false };
})

-- `replace(/\s+/g, '-')`; the flag says that the last character was a space.
unfoldable pub dashes_from : Bool → Text → Text
unfolding is_space
dashes_from after [] = []
dashes_from after (u ∷ s) =
    let rest = dashes_from (is_space u) s in
    if is_space u then (if after then rest else b'-' ∷ rest) else u ∷ rest

-- The name that the form makes of its input; `lower` is `toLowerCase`.
unfoldable pub room_name : (Text → Text) → Text → Text
unfolding dashes_from
room_name lower value = dashes_from false (lower (trim value))

-- The submit of the form that creates a room: the room, and whether the dialog is hidden.
unfoldable pub create_room_submit : (Text → Text) → Text → Chat → Chat × Bool
unfolding room_name
create_room_submit lower value c =
    let name = room_name lower value in
    if truthy name then (send (create_room name) c, true) else (c, false)
