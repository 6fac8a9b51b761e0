-- ===== src/Chat/Saving/Incoming.antt =====
-- Messages of the server and the saved conversations (`handleMessage` of frontend/app.js).
use wifi_chat.Base.{
  ℕ, ◌≡◌, refl, true, false, ◌&&◌, Option, none, some, List, [], ◌∷◌, ◌++◌, if◌then◌else◌, arith,
  inl, inr, Bool-cases, map,
}
use wifi_chat.Js.Text.{Text, js, str_eq, truthy, or_else}
use wifi_chat.Call.State.{Signal}
use wifi_chat.Chat.State.{init_call, View, room, dm, Message, Status, delivered, read, Chat, dm_key}
use wifi_chat.Chat.Store.{add_system_message}
use wifi_chat.Chat.Messages.{
  Decrypt, Incoming, error, system, user_list, message, direct, dm_history, history, user_joined,
  user_left, typing, call_signal, delivery_ack, receipt, unknown_error, acknowledge, on_error,
  restore_view, on_system, on_dm, finish_dm_history, on_history, on_call_signal, update_if_named,
  or_status, open_history, handle_message, import_key, is_other,
}
use wifi_chat.Chat.Saving.{
  IsSaved, stored-IsSaved, same-IsSaved, add_system_message-IsSaved, store_and_render-IsSaved,
  update_message_status-IsSaved, switch_to_room-IsSaved, switch_to_dm-IsSaved, show_typing-IsSaved,
}

module _ {c : Chat} (h : IsSaved c) where
  on_error-IsSaved : (err text : Text) (now : ℕ) → IsSaved (on_error err text now c)
  unfolding on_error
  on_error-IsSaved err text now =
      let told = js "Error: " ++ or_else (or_else err text) unknown_error in
      record {
        same = λ key.
            ground (arith, h.same key, (add_system_message-IsSaved told [] now c h).same key);
      }

  acknowledge-IsSaved : (peer id : Text) → IsSaved (acknowledge peer id c)
  acknowledge-IsSaved peer id = record { same = λ key. ground (arith, h.same key) }

  on_call_signal-IsSaved : (m : Signal) → IsSaved (on_call_signal m c)
  unfolding on_call_signal
  on_call_signal-IsSaved m = record { same = λ key. ground (arith, h.same key) }

  update_if_named-IsSaved : (id : Text) (s : Status) → IsSaved (update_if_named id s c)
  update_if_named-IsSaved id s = record {
    same = λ key. ground (arith, h.same key, (update_message_status-IsSaved id s c h).same key);
  }

finish_dm_history-IsSaved :
    (peer : Text) (ms : List Message) (c : Chat) → IsSaved (finish_dm_history peer ms c)
unfolding finish_dm_history
finish_dm_history-IsSaved peer ms c = stored-IsSaved (finish_dm_history peer ms c) (ground arith)

on_history-IsSaved : (name : Text) (ms : List Message) (c : Chat) → IsSaved (on_history name ms c)
unfolding on_history
on_history-IsSaved name ms c = stored-IsSaved (on_history name ms c) (ground arith)

on_dm-IsSaved :
    {c : Chat} → IsSaved c → (decrypt : Decrypt) (m : Message) → IsSaved (on_dm decrypt m c)
unfolding on_dm
on_dm-IsSaved {c} h decrypt m = elim (Bool-cases (str_eq m.from c.my_username)) [
  | inl own ↦ simp own h
  | inr theirs ↦
      simp theirs
        (acknowledge-IsSaved (store_and_render-IsSaved (dm_key m.from) _ c) m.from m.message_id)
]

restore_by_view :
    (s : Option View) {c : Chat} → c.saved_view ≡ s → IsSaved c → IsSaved (restore_view c)
unfolding restore_view
restore_by_view none e h = record { same = λ key. ground (arith, h.same key) }
restore_by_view (some (dm name)) {c} e h =
    let there = switch_to_dm-IsSaved name (record c { view_restored = true }) in
    record { same = λ key. ground (arith, h.same key, there.same key) }
restore_by_view (some (room name)) {c} e h =
    let c' = record c { view_restored = true } in
    let there = switch_to_room-IsSaved name c' (same-IsSaved c c' refl refl h) in
    record { same = λ key. ground (arith, h.same key, there.same key) }

on_system-IsSaved :
    (content where_ : Text) (now : ℕ) {c : Chat}
    → IsSaved c
    → IsSaved (on_system content where_ now c)
unfolding on_system
on_system-IsSaved content where_ now {c} h =
    let c' = record c { login_shown = false; calls = c.calls ++ init_call ∷ [] } in
    restore_by_view (add_system_message content where_ now c').saved_view refl
      (add_system_message-IsSaved content where_ now c' (same-IsSaved c c' refl refl h))

pub handle_message-IsSaved :
    (decrypt : Decrypt) (now : ℕ) (m : Incoming) {c : Chat}
    → IsSaved c
    → IsSaved (handle_message decrypt now m c)
unfolding handle_message
handle_message-IsSaved decrypt now (error err text) h = on_error-IsSaved h err text now
handle_message-IsSaved decrypt now (system content where_) h =
    on_system-IsSaved content where_ now h
handle_message-IsSaved decrypt now (message name m) {c} h = store_and_render-IsSaved name _ c
handle_message-IsSaved decrypt now (direct m) h = on_dm-IsSaved h decrypt m
handle_message-IsSaved decrypt now (dm_history peer ms) {c} h =
    finish_dm_history-IsSaved peer (map (open_history decrypt c.my_username) ms) c
handle_message-IsSaved decrypt now (history name ms) {c} h = on_history-IsSaved name ms c
handle_message-IsSaved decrypt now (user_joined user where_ key) {c} h =
    add_system_message-IsSaved (user ++ js " joined") where_ now
      (if truthy key && is_other c.my_username user then import_key user key c else c)
      (record { same = λ key. ground (arith, h.same key) })
handle_message-IsSaved decrypt now (user_left user where_) {c} h =
    add_system_message-IsSaved (user ++ js " left") where_ now c h
handle_message-IsSaved decrypt now (typing user where_) {c} h = show_typing-IsSaved user where_ c h
handle_message-IsSaved decrypt now (call_signal m) h = on_call_signal-IsSaved h m
handle_message-IsSaved decrypt now (delivery_ack id s) h =
    update_if_named-IsSaved h id (or_status s delivered)
handle_message-IsSaved decrypt now (receipt id s) h =
    update_if_named-IsSaved h id (or_status s read)
handle_message-IsSaved decrypt now (user_list names keys) h = record {
  same = λ key. ground (arith, h.same key);
}
handle_message-IsSaved decrypt now m h = record { same = λ key. ground (arith, h.same key) }
