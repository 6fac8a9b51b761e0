-- ===== src/Chat/Saving/Reloading.antt =====
-- A session of frontend/app.js, and the conversations after the page is loaded again.
use wifi_chat.Base.{ℕ, zero, suc, ◌≡◌, refl, Bool, true, false, List, [], ◌∷◌, ◌++◌, arith, filter}
use wifi_chat.Js.Text.{Text, js, trim}
use wifi_chat.Chat.State.{View, room, dm, image_to, Chat, dm_key, messages_at, send}
use wifi_chat.Chat.Commands.{own_message}
use wifi_chat.Chat.Submit.{World}
use wifi_chat.Chat.Connection.{on_open, on_keys, on_focus, on_blur}
use wifi_chat.Chat.Session.{
  Event, incoming, to_room, to_dm, left, submitted, typed, ticked, closed, step,
}
use wifi_chat.Chat.Images.{
  Page, Outcome, uploaded, refused, show_image_preview, clear_image_preview, begin_upload,
  send_image_dm, send_image, settle, finish_upload, submit_form, PageEvent, happened, picked,
  cancelled, ended, step_page, run_page,
}
use wifi_chat.Chat.Start.{
  Tab, loaded, load_message_store, request_notification_permission, enter, init, reload,
}
use wifi_chat.Chat.Saving.{
  is_talk, or_no_messages, IsSaved, add_system_message-IsSaved, store_and_render-IsSaved,
  switch_to_room-IsSaved, switch_to_dm-IsSaved, send_typing-IsSaved,
}
use wifi_chat.Chat.Saving.Incoming.{handle_message-IsSaved}
use wifi_chat.Chat.Saving.Sending.{tick-IsSaved, on_close-IsSaved, submit-IsSaved}

-- Everything but a click on the leave button.
abbrev pub stays_in : Event → Bool
stays_in left = false
stays_in _ = true

step-IsSaved : (e : Event) {c : Chat} → stays_in e ≡ true → IsSaved c → IsSaved (step e c)
unfolding step on_open on_keys on_focus on_blur
step-IsSaved (incoming decrypt now m) s h = handle_message-IsSaved decrypt now m h
step-IsSaved (to_room name) {c} s h = switch_to_room-IsSaved name c h
step-IsSaved (to_dm user) {c} s h = switch_to_dm-IsSaved user c
step-IsSaved (submitted w content) s h = submit-IsSaved w content h
step-IsSaved typed {c} s h = send_typing-IsSaved c h
step-IsSaved (ticked now) s h = tick-IsSaved now h
step-IsSaved (closed now) s h = on_close-IsSaved now h
step-IsSaved left s h = cc
step-IsSaved e s h = record { same = λ key. ground (arith, h.same key) }

image_by_view :
    (v : View) (w : World) (url caption : Text) {c : Chat}
    → c.view ≡ v
    → IsSaved c
    → IsSaved (send_image w url caption c)
unfolding send_image send_image_dm
image_by_view (room name) w url caption e h = record { same = λ key. ground (arith, h.same key) }
image_by_view (dm name) w url caption {c} e h =
    let m = record (own_message name caption false w.fresh_id w.now c) { image_url = url } in
    let sent =
      store_and_render-IsSaved (dm_key name) m (send (image_to name url caption w.fresh_id) c) in
    record { same = λ key. ground (arith, sent.same key) }

settle-IsSaved :
    (w : World) (outcome : Outcome) (value : Text) (p : Page)
    → IsSaved p.chat
    → IsSaved (settle w outcome value p).chat
unfolding settle clear_image_preview
settle-IsSaved w (uploaded url) value p h =
    let sent = image_by_view p.chat.view w url (trim value) refl h in
    record { same = λ key. ground (arith, sent.same key) }
settle-IsSaved w (refused err) value p h =
    add_system_message-IsSaved (js "Failed to upload image: " ++ err) [] w.now p.chat h

finish_upload-IsSaved :
    (w : World) (outcome : Outcome) (value : Text) (p : Page) (n : ℕ)
    → p.waiting ≡ n
    → IsSaved p.chat
    → IsSaved (finish_upload w outcome value p).chat
unfolding finish_upload
finish_upload-IsSaved w outcome value p zero e h = record {
  same = λ key. ground (arith, h.same key);
}
finish_upload-IsSaved w outcome value p (suc n) e h =
    let settled = settle-IsSaved w outcome value (record p { waiting = n }) h in
    record { same = λ key. ground (arith, settled.same key) }

submit_form-IsSaved :
    (w : World) (value : Text) (p : Page) → IsSaved p.chat → IsSaved (submit_form w value p).chat
unfolding submit_form begin_upload
submit_form-IsSaved w value p h =
    let sent = submit-IsSaved w (trim value) h in
    record { same = λ key. ground (arith, h.same key, sent.same key) }

abbrev pub page_stays_in : PageEvent → Bool
page_stays_in (happened e) = stays_in e
page_stays_in _ = true

step_page-IsSaved :
    (e : PageEvent) (p : Page)
    → page_stays_in e ≡ true
    → IsSaved p.chat
    → IsSaved (step_page e p).chat
unfolding step_page show_image_preview clear_image_preview
step_page-IsSaved (happened (submitted w value)) p s h = submit_form-IsSaved w value p h
step_page-IsSaved (happened e) p s h = step-IsSaved e s h
step_page-IsSaved (picked picture) p s h = h
step_page-IsSaved cancelled p s h = record { same = λ key. ground (arith, h.same key) }
step_page-IsSaved (ended w outcome value) p s h =
    finish_upload-IsSaved w outcome value p p.waiting refl h

abbrev pub AllStay : List PageEvent → Type 0
AllStay [] = Unit {0}
AllStay (e ∷ es) = (page_stays_in e ≡ true) × AllStay es

run_page-IsSaved :
    (es : List PageEvent) (p : Page) → AllStay es → IsSaved p.chat → IsSaved (run_page es p).chat
unfolding run_page
run_page-IsSaved [] p s h = h
run_page-IsSaved (e ∷ es) p s h =
    run_page-IsSaved es (step_page e p) s.1 (step_page-IsSaved e p s.0 h)

store-reload : (t : Tab) → (reload t).chat.store ≡ or_no_messages t.chat.saved_store
unfolding reload init loaded load_message_store enter request_notification_permission
store-reload t = ground arith

-- Take a session in which the leave button is not clicked, from a state whose saved conversations
-- are those of the page up to system messages. When the page is loaded again after it, every
-- conversation has the messages that it had before, in order, up to system messages.
pub reload-messages :
    (es : List PageEvent) (p : Page) (t : Tab) (key : Text)
    → AllStay es
    → IsSaved p.chat
    → filter is_talk (messages_at key (reload (record t { chat = (run_page es p).chat })).chat)
      ≡ filter is_talk (messages_at key (run_page es p).chat)
reload-messages es p t key s h =
    let after = record t { chat = (run_page es p).chat } in
    rw (store-reload after) ((run_page-IsSaved es p s h).same key)
