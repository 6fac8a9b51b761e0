-- ===== src/Chat/Images.antt =====
-- The images of frontend/app.js: `showImagePreview`, `clearImagePreview`, `uploadAndSendImage` before
-- and after the upload, and the whole listener of the form's submit.
use wifi_chat.Base.{ℕ, zero, suc, Bool, true, false, Option, none, some, List, [], ◌∷◌, ◌++◌}
use wifi_chat.Js.Text.{Text, js, trim}
use wifi_chat.Chat.State.{room, dm, image_in, image_to, Chat, dm_key, send}
use wifi_chat.Chat.Store.{store_and_render, add_system_message}
use wifi_chat.Chat.Commands.{own_message}
use wifi_chat.Chat.Submit.{World, submit}
use wifi_chat.Chat.Session.{Event, submitted, step}

-- A file that was picked: its name, and the object URL of its preview.
pub record Picture : Type 0 where
  pub name : Text
  pub preview_url : Text

-- The page with `pendingImage`, the bar of the preview, the upload button, and the uploads: how many
-- wait for the server's answer, and what they posted.
pub record Page : Type 0 where
  pub chat : Chat
  pub pending : Option Picture
  pub thumb : Text
  pub preview_name : Text
  pub preview_shown : Bool
  pub placeholder : Text
  pub revoked : List Text
  pub upload_disabled : Bool
  pub upload_label : Text
  pub waiting : ℕ
  pub posted : List Picture

-- `showImagePreview`, with the URL that `createObjectURL` gives for the file
unfoldable pub show_image_preview : Picture → Page → Page
show_image_preview picture p = record p {
  pending = some picture;
  thumb = picture.preview_url;
  preview_name = picture.name;
  preview_shown = true;
  placeholder = js "Add a caption (optional)...";
}

abbrev pub revoke : Page → Page
revoke p = elim p.pending [
  | none ↦ p
  | some picture ↦ record p { pending = none; revoked = p.revoked ++ picture.preview_url ∷ [] }
]

unfoldable pub clear_image_preview : Page → Page
clear_image_preview p = record (revoke p) {
  preview_shown = false;
  placeholder = js "Type a message...";
}

-- `uploadAndSendImage`, up to the answer of the server
unfoldable pub begin_upload : Page → Page
begin_upload p = elim p.pending [
  | none ↦ p
  | some picture ↦ record p {
    upload_disabled = true;
    upload_label = js "...";
    waiting = suc p.waiting;
    posted = p.posted ++ picture ∷ [];
  }
]

-- The address of the image, or the message of the error.
pub data Outcome : Type 0 where
  uploaded refused : Text → Outcome

-- The image message to a user, which is stored here too.
unfoldable pub send_image_dm : World → Text → Text → Text → Chat → Chat
send_image_dm w name url caption c =
    store_and_render (dm_key name)
      (record (own_message name caption false w.fresh_id w.now c) { image_url = url })
      (send (image_to name url caption w.fresh_id) c)

-- The image message to the conversation in view.
unfoldable pub send_image : World → Text → Text → Chat → Chat
unfolding send_image_dm
send_image w url caption c = elim c.view [
  | room name ↦ send (image_in name url caption w.fresh_id) c
  | dm name ↦ send_image_dm w name url caption c
]

-- The `finally` part.
abbrev pub enable_upload : Page → Page
enable_upload p = record p { upload_disabled = false; upload_label = js "📷" }

-- The answer to an upload, when the input has the value.
unfoldable pub settle : World → Outcome → Text → Page → Page
unfolding send_image
settle w (uploaded url) value p = enable_upload (
    clear_image_preview
      (record p { chat = record (send_image w url (trim value) p.chat) { input_text = [] } }))
settle w (refused err) value p =
    enable_upload (record p {
      chat = add_system_message (js "Failed to upload image: " ++ err) [] w.now p.chat;
    })

-- `uploadAndSendImage`, from the answer on, for one of the uploads that wait.
unfoldable pub finish_upload : World → Outcome → Text → Page → Page
unfolding settle
finish_upload w outcome value p = elim p.waiting [
  | zero ↦ p
  | suc n ↦ settle w outcome value (record p { waiting = n })
]

-- The submit of the form, when the input has the value.
unfoldable pub submit_form : World → Text → Page → Page
unfolding begin_upload
submit_form w value p = elim p.pending [
  | none ↦ record p { chat = submit w (trim value) p.chat }
  | some picture ↦ begin_upload p
]

pub data PageEvent : Type 0 where
  -- an event of the rest of the page; a submit comes with the value of the input
  happened : Event → PageEvent
  picked : Picture → PageEvent
  cancelled : PageEvent
  ended : World → Outcome → Text → PageEvent

abbrev pub step_chat : Event → Page → Page
step_chat (submitted w value) p = submit_form w value p
step_chat e p = record p { chat = step e p.chat }

unfoldable pub step_page : PageEvent → Page → Page
unfolding step submit_form finish_upload show_image_preview clear_image_preview
step_page (happened e) p = step_chat e p
step_page (picked picture) p = show_image_preview picture p
step_page cancelled p = clear_image_preview p
step_page (ended w outcome value) p = finish_upload w outcome value p

unfoldable pub run_page : List PageEvent → Page → Page
run_page [] p = p
run_page (e ∷ es) p = run_page es (step_page e p)
