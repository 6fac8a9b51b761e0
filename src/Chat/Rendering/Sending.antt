-- ===== src/Chat/Rendering/Sending.antt =====
-- What the user sends, the commands and the timers, and the rendering (frontend/app.js).
use wifi_chat.Base.{ℕ, suc, ◌*◌, ◌/◌, ◌≡◌, refl, Bool, false, List, [], ◌++◌, arith, map}
use wifi_chat.Js.Text.{Text, js, show_number}
use wifi_chat.Js.Dict.{get, remove}
use wifi_chat.Chat.State.{View, room, dm, dm_packet, Chat, dm_key, key_of, send}
use wifi_chat.Chat.Store.{save_store, render_messages}
use wifi_chat.Chat.Disappearing.{tick}
use wifi_chat.Chat.Connection.{delay, on_close}
use wifi_chat.Chat.Commands.{
  split_spaces, to_lower, target_of, second, parse_minutes, own_message, clear_view,
  open_dm_command, send_plain_dm, send_action, action_command, slap, hug,
}
use wifi_chat.Chat.Submit.{
  World, Command, who, clear, msg, slap_user, hug_user, wipe, fingerprint, disappear, help,
  no_command, command_of, head_of, help_text, is_some_text, wire_text, send_dm, run_command,
  emergency_wipe, set_timer, send_content, submit,
}
use wifi_chat.Chat.Rendering.{
  IsRendered, add_system_message-IsRendered, store_and_render-IsRendered, switch_to_dm-IsRendered,
}

pub tick-IsRendered : (now : ℕ) {c : Chat} → IsRendered c → IsRendered (tick now c)
unfolding tick
tick-IsRendered now {c} h = ground arith

pub on_close-IsRendered : (now : ℕ) {c : Chat} → IsRendered c → IsRendered (on_close now c)
unfolding on_close
on_close-IsRendered now {c} h =
    let c' = record c { online = false; attempts = suc c.attempts } in
    let wait = delay (suc c.attempts) in
    ground (
      arith,
      add_system_message-IsRendered {c = c'} (ground arith)
          (js "Connection lost. Reconnecting in " ++ show_number (wait / 1000) ++ js "s...") [] now,
    )

pub send_plain_dm-IsRendered :
    (name content id : Text) (now : ℕ) {c : Chat}
    → IsRendered c
    → IsRendered (send_plain_dm name content id now c)
unfolding send_plain_dm
send_plain_dm-IsRendered name content id now {c} h =
    store_and_render-IsRendered (dm_key name) (own_message name content false id now c)
      {c = send (dm_packet name content false id) c} (ground arith)

pub send_dm-IsRendered :
    (w : World) (name content : Text) {c : Chat}
    → IsRendered c
    → IsRendered (send_dm w name content c)
unfolding send_dm
send_dm-IsRendered w name content {c} h =
    let sealed = w.encrypt name content in
    store_and_render-IsRendered (dm_key name)
      (own_message name content (is_some_text sealed) w.fresh_id w.now c)
      {c = send (dm_packet name (wire_text sealed content) (is_some_text sealed) w.fresh_id) c}
      (ground arith)

action_by_view :
    (v : View) (content id : Text) (now : ℕ) {c : Chat}
    → c.view ≡ v
    → IsRendered c
    → IsRendered (send_action content id now c)
unfolding send_action
action_by_view (room name) content id now e h = ground arith
action_by_view (dm name) content id now e h =
    ground (arith, send_plain_dm-IsRendered name content id now h)

pub send_action-IsRendered :
    (content id : Text) (now : ℕ) {c : Chat}
    → IsRendered c
    → IsRendered (send_action content id now c)
send_action-IsRendered content id now {c} h = action_by_view c.view content id now refl h

content_by_view :
    (v : View) (w : World) (content : Text) {c : Chat}
    → c.view ≡ v
    → IsRendered c
    → IsRendered (send_content w content c)
unfolding send_content
content_by_view (room name) w content e h = ground arith
content_by_view (dm name) w content e h = ground (arith, send_dm-IsRendered w name content h)

pub action_command-IsRendered :
    (usage before after : Text) (parts : List Text) (id : Text) (now : ℕ) {c : Chat}
    → IsRendered c
    → IsRendered (action_command usage before after parts id now c)
action_command-IsRendered usage before after parts id now h = ground (
  arith,
  add_system_message-IsRendered h usage [] now,
  send_action-IsRendered (before ++ target_of parts ++ after) id now h,
)

pub clear_view-IsRendered : (now : ℕ) {c : Chat} → IsRendered c → IsRendered (clear_view now c)
unfolding clear_view
clear_view-IsRendered now {c} h =
    add_system_message-IsRendered
      {c = render_messages (save_store (record c { store = remove (key_of c.view) c.store }))}
      (ground arith) (js "Chat cleared locally.") [] now

pub open_dm_command-IsRendered :
    (parts : List Text) (now : ℕ) {c : Chat}
    → IsRendered c
    → IsRendered (open_dm_command parts now c)
unfolding open_dm_command
open_dm_command-IsRendered parts now {c} h = ground (
  arith,
  add_system_message-IsRendered h (js "Usage: /msg @username [message]") [] now,
  switch_to_dm-IsRendered (target_of parts) c,
)

pub emergency_wipe-IsRendered :
    (b : Bool) {c : Chat} → IsRendered c → IsRendered (emergency_wipe b c)
unfolding emergency_wipe get
emergency_wipe-IsRendered b h = ground arith

pub set_timer-IsRendered :
    (argument : Text) (now : ℕ) {c : Chat} → IsRendered c → IsRendered (set_timer argument now c)
unfolding set_timer
set_timer-IsRendered argument now {c} h =
    let minutes = parse_minutes argument in
    ground (
      arith,
      add_system_message-IsRendered {c = record c { disappearing_timer = 0 }} (ground arith)
          (js "Disappearing messages disabled.") [] now,
      add_system_message-IsRendered {c = record c { disappearing_timer = minutes * 60 * 1000 }}
          (ground arith)
          (js "Disappearing messages enabled: messages auto-delete after "
            ++ show_number minutes
            ++ js " minute(s).")
          [] now,
    )

pub run_command-IsRendered :
    (w : World) (parts : List Text) (k : Command) {c : Chat}
    → IsRendered c
    → IsRendered (run_command w parts k c).1
unfolding run_command slap hug
run_command-IsRendered w parts who h = add_system_message-IsRendered h _ [] w.now
run_command-IsRendered w parts clear h = clear_view-IsRendered w.now h
run_command-IsRendered w parts msg h = open_dm_command-IsRendered parts w.now h
run_command-IsRendered w parts slap_user h =
    action_command-IsRendered _ _ _ parts w.fresh_id w.now h
run_command-IsRendered w parts hug_user h = action_command-IsRendered _ _ _ parts w.fresh_id w.now h
run_command-IsRendered w parts wipe h = emergency_wipe-IsRendered w.confirmed h
run_command-IsRendered w parts fingerprint h = add_system_message-IsRendered h _ [] w.now
run_command-IsRendered w parts disappear h = set_timer-IsRendered (second parts) w.now h
run_command-IsRendered w parts help h = add_system_message-IsRendered h help_text [] w.now
run_command-IsRendered w parts no_command h = h

pub submit-IsRendered :
    (w : World) (content : Text) {c : Chat} → IsRendered c → IsRendered (submit w content c)
unfolding submit
submit-IsRendered w content {c} h =
    let parts = split_spaces content in
    let k = command_of (map to_lower (head_of parts)) in
    ground (arith, content_by_view c.view w content refl h, run_command-IsRendered w parts k h)
