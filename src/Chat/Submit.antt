-- ===== src/Chat/Submit.antt =====
-- `handleSlashCommand`, `emergencyWipe` and the submit of the message form in frontend/app.js.
use wifi_chat.Base.{
  ℕ, ◌*◌, ◌==◌, Bool, true, false, not, ◌||◌, Option, none, some, List, [], ◌∷◌, ◌++◌,
  if◌then◌else◌, map,
}
use wifi_chat.Js.Text.{Text, js, str_eq, truthy, or_else, starts_with, show_number}
use wifi_chat.Chat.State.{room, dm, message, dm_packet, Chat, dm_key, send}
use wifi_chat.Chat.Store.{store_and_render, add_system_message}
use wifi_chat.Chat.Commands.{
  split_spaces, to_lower, target_of, second, join_commas, parse_minutes, own_message, clear_view,
  open_dm_command, slap, hug,
}
use wifi_chat.Chat.Disappearing.{schedule}

pub data Command : Type 0 where
  who clear msg slap_user hug_user wipe fingerprint disappear help no_command : Command

-- The cases of the `switch`.
unfoldable pub command_of : Text → Command
command_of cmd =
    if str_eq cmd (js "/who") || str_eq cmd (js "/w")
    then who
    else if str_eq cmd (js "/clear")
    then clear
    else if str_eq cmd (js "/msg") || str_eq cmd (js "/m")
    then msg
    else if str_eq cmd (js "/slap")
    then slap_user
    else if str_eq cmd (js "/hug")
    then hug_user
    else if str_eq cmd (js "/wipe")
    then wipe
    else if str_eq cmd (js "/fingerprint") || str_eq cmd (js "/fp")
    then fingerprint
    else if str_eq cmd (js "/disappear")
    then disappear
    else if str_eq cmd (js "/help")
    then help
    else no_command

abbrev pub head_of : List Text → Text
head_of [] = []
head_of (p ∷ ps) = p

-- What an operation takes from outside: the time, a fresh identifier, the answer to `confirm`, and
-- `cryptoManager`'s `encrypt` and `getFingerprint`.
pub record World : Type 0 where
  pub now : ℕ
  pub fresh_id : Text
  pub confirmed : Bool
  pub encrypt : Text → Text → Option Text
  pub fingerprint : Text → Text

-- `emergencyWipe`. The name, the keys of `cryptoManager` and the reconnection are not touched.
unfoldable pub emergency_wipe : Bool → Chat → Chat
emergency_wipe confirmed c = if not confirmed then c else record c {
  saved_store = none;
  saved_view = none;
  online = false;
  store = [];
  rooms = [];
  users = [];
  room_users = [];
  unread = [];
  shown = [];
}

unfoldable pub help_text : Text
help_text =
    js
      "Available commands:\n/who — List online users\n/msg @user [message] — Open DM with user\n/clear — Clear current chat locally\n/slap @user — Slap someone with a trout\n/hug @user — Give someone a hug\n/fingerprint [@user] — Show key fingerprint for verification\n/disappear [minutes] — Auto-delete messages (0 = off)\n/wipe — Emergency wipe all local data\n/help — Show this help"

unfoldable pub set_timer : Text → ℕ → Chat → Chat
unfolding schedule
set_timer argument now c =
    let minutes = parse_minutes argument in
    if minutes == 0
    then add_system_message (js "Disappearing messages disabled.") [] now
        (record c { disappearing_timer = 0 })
    else schedule (
        add_system_message
          (js "Disappearing messages enabled: messages auto-delete after "
            ++ show_number minutes
            ++ js " minute(s).")
          [] now (record c { disappearing_timer = minutes * 60 * 1000 }))

-- Whether the input was a command, and the state after it.
unfoldable pub run_command : World → List Text → Command → Chat → Bool × Chat
unfolding emergency_wipe set_timer
run_command w parts who c = (
  true,
  add_system_message (js "Online users: " ++ or_else (join_commas c.users) (js "none")) [] w.now c,
)
run_command w parts clear c = (true, clear_view w.now c)
run_command w parts msg c = (true, open_dm_command parts w.now c)
run_command w parts slap_user c = (true, slap parts w.fresh_id w.now c)
run_command w parts hug_user c = (true, hug parts w.fresh_id w.now c)
run_command w parts wipe c = (true, emergency_wipe w.confirmed c)
run_command w parts fingerprint c =
    let target = or_else (target_of parts) c.my_username in
    (
      true,
      add_system_message
          (js "🔐 Key fingerprint for "
            ++ target
            ++ js ":\n"
            ++ w.fingerprint target
            ++ js "\n\nCompare with your contact in person to verify identity.")
          [] w.now c,
    )
run_command w parts disappear c = (true, set_timer (second parts) w.now c)
run_command w parts help c = (true, add_system_message help_text [] w.now c)
run_command w parts no_command c = (false, c)

unfoldable pub handle_slash_command : World → Text → Chat → Bool × Chat
unfolding run_command command_of
handle_slash_command w input c =
    let parts = split_spaces input in
    run_command w parts (command_of (map to_lower (head_of parts))) c

-- The end of the handler.
abbrev pub clear_input : Chat → Chat
clear_input c = record c { input_text = []; emoji_shown = false }

abbrev pub is_some_text : Option Text → Bool
is_some_text none = false
is_some_text (some t) = truthy t

-- What goes on the wire of a direct message: the encrypted text, or the content if there is none.
abbrev pub wire_text : Option Text → Text → Text
wire_text none content = content
wire_text (some t) content = if truthy t then t else content

unfoldable pub send_dm : World → Text → Text → Chat → Chat
send_dm w name content c =
    let sealed = w.encrypt name content in
    store_and_render (dm_key name)
      (own_message name content (is_some_text sealed) w.fresh_id w.now c)
      (send (dm_packet name (wire_text sealed content) (is_some_text sealed) w.fresh_id) c)

-- The message to the conversation in view, encrypted where there is a key.
unfoldable pub send_content : World → Text → Chat → Chat
send_content w content c = elim c.view [
  | room name ↦ send (message name content w.fresh_id) c
  | dm name ↦ send_dm w name content c
]

-- The submit of the form, for the trimmed content, without an image that waits to be sent.
unfoldable pub submit : World → Text → Chat → Chat
unfolding send_content handle_slash_command
submit w content c =
    if not (truthy content)
    then c
    else if starts_with (b'/' ∷ []) content
    then (let (handled, c') = handle_slash_command w content c in
        if handled then clear_input c' else clear_input (send_content w content c))
    else clear_input (send_content w content c)
