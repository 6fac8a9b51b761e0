-- ===== src/Chat/Uploads.antt =====
-- The images of frontend/app.js and the conversation in view.
use wifi_chat.Base.{
  ℕ, zero, suc, Bool, ◌≡◌, ◌∙◌, refl, true, false, some, List, [], ◌∷◌, ◌++◌, arith,
}
use wifi_chat.Js.Text.{Text, js, trim}
use wifi_chat.Chat.State.{View, room, dm, image_to, Chat, dm_key, send}
use wifi_chat.Chat.Views.{switch_to_dm, send_read_receipts}
use wifi_chat.Chat.Commands.{own_message}
use wifi_chat.Chat.Submit.{World}
use wifi_chat.Chat.Session.{submitted, to_dm, step}
use wifi_chat.Chat.Rendering.{
  IsRendered, add_system_message-IsRendered, store_and_render-IsRendered,
}
use wifi_chat.Chat.Rendering.Sending.{submit-IsRendered}
use wifi_chat.Chat.Rendering.Sessions.{plain_event, step-IsRendered}
use wifi_chat.Chat.Wire.{out-store_and_render}
use wifi_chat.Chat.Images.{
  Picture, Page, Outcome, uploaded, refused, show_image_preview, clear_image_preview, begin_upload,
  send_image_dm, send_image, settle, finish_upload, submit_form, PageEvent, happened, picked,
  cancelled, ended, step_page, run_page,
}

image_dm-IsRendered :
    (w : World) (name url caption : Text) {c : Chat}
    → IsRendered c
    → IsRendered (send_image_dm w name url caption c)
unfolding send_image_dm
image_dm-IsRendered w name url caption {c} h =
    store_and_render-IsRendered (dm_key name)
      (record (own_message name caption false w.fresh_id w.now c) { image_url = url })
      {c = send (image_to name url caption w.fresh_id) c} (ground arith)

image_by_view :
    (v : View) (w : World) (url caption : Text) {c : Chat}
    → c.view ≡ v
    → IsRendered c
    → IsRendered (send_image w url caption c)
unfolding send_image
image_by_view (room name) w url caption e h = ground arith
image_by_view (dm name) w url caption e h = ground (arith, image_dm-IsRendered w name url caption h)

settle-IsRendered :
    (w : World) (outcome : Outcome) (value : Text) (p : Page)
    → IsRendered p.chat
    → IsRendered (settle w outcome value p).chat
unfolding settle clear_image_preview
settle-IsRendered w (uploaded url) value p h =
    ground (arith, image_by_view p.chat.view w url (trim value) refl h)
settle-IsRendered w (refused err) value p h =
    add_system_message-IsRendered h (js "Failed to upload image: " ++ err) [] w.now

finish_upload-IsRendered :
    (w : World) (outcome : Outcome) (value : Text) (p : Page)
    → IsRendered p.chat
    → IsRendered (finish_upload w outcome value p).chat
unfolding finish_upload
finish_upload-IsRendered w outcome value p h = waits p.waiting
  where
    waits :
        (n : ℕ)
        → IsRendered (
            Page.chat
              (elim n [ zero ↦ p | suc n' ↦ settle w outcome value (record p { waiting = n' }) ]))
    waits zero = h
    waits (suc n) = settle-IsRendered w outcome value (record p { waiting = n }) h

submit_form-IsRendered :
    (w : World) (value : Text) (p : Page)
    → IsRendered p.chat
    → IsRendered (submit_form w value p).chat
unfolding submit_form begin_upload
submit_form-IsRendered w value p h = ground (arith, submit-IsRendered w (trim value) h)

abbrev pub plain_page_event : PageEvent → Bool
plain_page_event (happened e) = plain_event e
plain_page_event _ = true

step_page-IsRendered :
    (e : PageEvent) (p : Page)
    → plain_page_event e ≡ true
    → IsRendered p.chat
    → IsRendered (step_page e p).chat
unfolding step_page show_image_preview clear_image_preview
step_page-IsRendered (happened (submitted w value)) p plain h = submit_form-IsRendered w value p h
step_page-IsRendered (happened e) p plain h = step-IsRendered e plain h
step_page-IsRendered (picked picture) p plain h = h
step_page-IsRendered cancelled p plain h = ground arith
step_page-IsRendered (ended w outcome value) p plain h =
    finish_upload-IsRendered w outcome value p h

abbrev pub AllPagePlain : List PageEvent → Type 0
AllPagePlain [] = Unit {0}
AllPagePlain (e ∷ es) = (plain_page_event e ≡ true) × AllPagePlain es

-- A session with images, that is, in which images are picked, cancelled and sent, and uploads end
-- with success or failure while other things happen, shows at its end exactly the stored messages of
-- the conversation in view, and counts none of them as unread, if it did at its start and no room
-- that is opened or whose history comes has a name that begins with `dm:`.
pub run_page-IsRendered :
    (es : List PageEvent) (p : Page)
    → AllPagePlain es
    → IsRendered p.chat
    → IsRendered (run_page es p).chat
unfolding run_page
run_page-IsRendered [] p plain h = h
run_page-IsRendered (e ∷ es) p plain h =
    run_page-IsRendered es (step_page e p) plain.1 (step_page-IsRendered e p plain.0 h)

view-switch_to_dm : (user : Text) (c : Chat) → (switch_to_dm user c).view ≡ dm user
unfolding switch_to_dm send_read_receipts
view-switch_to_dm user c = ground arith

online-switch_to_dm : (user : Text) (c : Chat) → (switch_to_dm user c).online ≡ c.online
unfolding switch_to_dm send_read_receipts
online-switch_to_dm user c = ground arith

out-send_image :
    (w : World) (user url caption : Text) (c : Chat)
    → c.view ≡ dm user
    → c.online ≡ true
    → (send_image w url caption c).out ≡ c.out ++ image_to user url caption w.fresh_id ∷ []
unfolding send_image send_image_dm
out-send_image w user url caption c v on = ground (
  arith,
  out-store_and_render (dm_key user)
      (record (own_message user caption false w.fresh_id w.now c) { image_url = url })
      (send (image_to user url caption w.fresh_id) c),
)

-- An image is submitted in some conversation, and before its upload has ended the user opens the
-- conversation with somebody: the image goes to that one, with the text of the input as its caption,
-- whichever conversation it was submitted in.
pub finish_upload-elsewhere :
    (w : World) (p : Page) (picture : Picture) (text user url value : Text)
    → p.pending ≡ some picture
    → p.chat.online ≡ true
    → (finish_upload w
        (uploaded url)
        value
        (step_page (happened (to_dm user)) (submit_form w text p))).chat.out
      ≡ (switch_to_dm user p.chat).out ++ image_to user url (trim value) w.fresh_id ∷ []
unfolding finish_upload settle clear_image_preview submit_form begin_upload step_page step
finish_upload-elsewhere w p picture text user url value pending on = rw pending (
    simp (
      finish_upload,
      out-send_image w user url (trim value) (switch_to_dm user p.chat)
          (view-switch_to_dm user p.chat) (online-switch_to_dm user p.chat ∙ on),
    ))
