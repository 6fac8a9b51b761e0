-- ===== src/Chat/Saving/Sending.antt =====
-- What the user sends, the commands and the timers, and the saved conversations (frontend/app.js).
use wifi_chat.Base.{ℕ, suc, ◌*◌, ◌/◌, ◌≡◌, refl, Bool, false, List, [], ◌++◌, arith, map}
use wifi_chat.Js.Text.{Text, js, show_number}
use wifi_chat.Js.Dict.{remove}
use wifi_chat.Chat.State.{View, room, dm, dm_packet, Chat, dm_key, key_of, send}
use wifi_chat.Chat.Store.{save_store, render_messages}
use wifi_chat.Chat.Disappearing.{tick}
use wifi_chat.Chat.Connection.{delay, on_close}
use wifi_chat.Chat.Commands.{
  split_spaces, to_lower, target_of, second, parse_minutes, own_message, clear_view,
  open_dm_command, send_plain_dm, send_action, action_command, slap, hug,
}
use wifi_chat.Chat.Submit.{
  World, Command, who, clear, msg, slap_user, hug_user, wipe, fingerprint, disappear, help,
  no_command, command_of, head_of, help_text, is_some_text, wire_text, send_dm, run_command,
  emergency_wipe, set_timer, send_content, submit,
}
use wifi_chat.Chat.Saving.{
  IsSaved, stored-IsSaved, same-IsSaved, add_system_message-IsSaved, store_and_render-IsSaved,
  switch_to_dm-IsSaved,
}

pub tick-IsSaved : (now : ℕ) {c : Chat} → IsSaved c → IsSaved (tick now c)
unfolding tick
tick-IsSaved now h = record { same = λ key. ground (arith, h.same key) }

pub on_close-IsSaved : (now : ℕ) {c : Chat} → IsSaved c → IsSaved (on_close now c)
unfolding on_close
on_close-IsSaved now {c} h =
    let c' = record c { online = false; attempts = suc c.attempts } in
    let wait = delay (suc c.attempts) in
    let text = js "Connection lost. Reconnecting in " ++ show_number (wait / 1000) ++ js "s..." in
    let told = add_system_message-IsSaved text [] now c' (same-IsSaved c c' refl refl h) in
    record { same = λ key. ground (arith, h.same key, told.same key) }

action_by_view :
    (v : View) (content id : Text) (now : ℕ) {c : Chat}
    → c.view ≡ v
    → IsSaved c
    → IsSaved (send_action content id now c)
unfolding send_action send_plain_dm
action_by_view (room name) content id now e h = record { same = λ key. ground (arith, h.same key) }
action_by_view (dm name) content id now {c} e h =
    let sent =
      store_and_render-IsSaved (dm_key name) (own_message name content false id now c)
        (send (dm_packet name content false id) c) in
    record { same = λ key. ground (arith, sent.same key) }

content_by_view :
    (v : View) (w : World) (content : Text) {c : Chat}
    → c.view ≡ v
    → IsSaved c
    → IsSaved (send_content w content c)
unfolding send_content send_dm
content_by_view (room name) w content e h = record { same = λ key. ground (arith, h.same key) }
content_by_view (dm name) w content {c} e h =
    let sealed = w.encrypt name content in
    let sent =
      store_and_render-IsSaved (dm_key name)
        (own_message name content (is_some_text sealed) w.fresh_id w.now c)
        (send (dm_packet name (wire_text sealed content) (is_some_text sealed) w.fresh_id) c) in
    record { same = λ key. ground (arith, sent.same key) }

action_command-IsSaved :
    (usage before after : Text) (parts : List Text) (id : Text) (now : ℕ) {c : Chat}
    → IsSaved c
    → IsSaved (action_command usage before after parts id now c)
action_command-IsSaved usage before after parts id now {c} h =
    let told = add_system_message-IsSaved usage [] now c h in
    let sent = action_by_view c.view (before ++ target_of parts ++ after) id now refl h in
    record { same = λ key. ground (arith, told.same key, sent.same key) }

clear_view-IsSaved : (now : ℕ) (c : Chat) → IsSaved (clear_view now c)
unfolding clear_view
clear_view-IsSaved now c =
    let c' = render_messages (save_store (record c { store = remove (key_of c.view) c.store })) in
    add_system_message-IsSaved (js "Chat cleared locally.") [] now c' (stored-IsSaved c' refl)

open_dm_command-IsSaved :
    (parts : List Text) (now : ℕ) {c : Chat} → IsSaved c → IsSaved (open_dm_command parts now c)
unfolding open_dm_command
open_dm_command-IsSaved parts now {c} h =
    let told = add_system_message-IsSaved (js "Usage: /msg @username [message]") [] now c h in
    let there = switch_to_dm-IsSaved (target_of parts) c in
    record { same = λ key. ground (arith, told.same key, there.same key) }

emergency_wipe-IsSaved : (b : Bool) {c : Chat} → IsSaved c → IsSaved (emergency_wipe b c)
unfolding emergency_wipe
emergency_wipe-IsSaved b h = record { same = λ key. ground (arith, h.same key) }

set_timer-IsSaved :
    (argument : Text) (now : ℕ) {c : Chat} → IsSaved c → IsSaved (set_timer argument now c)
unfolding set_timer
set_timer-IsSaved argument now {c} h =
    let minutes = parse_minutes argument in
    let off = record c { disappearing_timer = 0 } in
    let on = record c { disappearing_timer = minutes * 60 * 1000 } in
    let text =
      js "Disappearing messages enabled: messages auto-delete after "
      ++ show_number minutes
      ++ js " minute(s)." in
    let told_off =
      add_system_message-IsSaved (js "Disappearing messages disabled.") [] now off
        (same-IsSaved c off refl refl h) in
    let told_on = add_system_message-IsSaved text [] now on (same-IsSaved c on refl refl h) in
    record { same = λ key. ground (arith, told_off.same key, told_on.same key) }

run_command-IsSaved :
    (w : World) (parts : List Text) (k : Command) {c : Chat}
    → IsSaved c
    → IsSaved (run_command w parts k c).1
unfolding run_command slap hug
run_command-IsSaved w parts who {c} h = add_system_message-IsSaved _ [] w.now c h
run_command-IsSaved w parts clear {c} h = clear_view-IsSaved w.now c
run_command-IsSaved w parts msg h = open_dm_command-IsSaved parts w.now h
run_command-IsSaved w parts slap_user h = action_command-IsSaved _ _ _ parts w.fresh_id w.now h
run_command-IsSaved w parts hug_user h = action_command-IsSaved _ _ _ parts w.fresh_id w.now h
run_command-IsSaved w parts wipe h = emergency_wipe-IsSaved w.confirmed h
run_command-IsSaved w parts fingerprint {c} h = add_system_message-IsSaved _ [] w.now c h
run_command-IsSaved w parts disappear h = set_timer-IsSaved (second parts) w.now h
run_command-IsSaved w parts help {c} h = add_system_message-IsSaved help_text [] w.now c h
run_command-IsSaved w parts no_command h = h

pub submit-IsSaved :
    (w : World) (content : Text) {c : Chat} → IsSaved c → IsSaved (submit w content c)
unfolding submit
submit-IsSaved w content {c} h =
    let parts = split_spaces content in
    let k = command_of (map to_lower (head_of parts)) in
    let sent = content_by_view c.view w content refl h in
    let done = run_command-IsSaved w parts k h in
    record { same = λ key. ground (arith, h.same key, sent.same key, done.same key) }
