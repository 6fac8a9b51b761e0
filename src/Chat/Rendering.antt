-- ===== src/Chat/Rendering.antt =====
-- The page shows the conversation in view, and counts nothing of it as unread, after everything
-- that frontend/app.js does.
pub mod Incoming
pub mod Sending
pub mod Sessions
use wifi_chat.Base.{
  ℕ, zero, suc, ◌+◌, ◌≡◌, refl, Bool, true, false, not, ◌&&◌, ◌||◌, Option, none, some, List, [],
  ◌∷◌, ◌++◌, if◌then◌else◌, arith, inl, inr, Bool-cases, Option-cases,
}
use wifi_chat.Js.Text.{Text, js, str_eq, str_eq_iff, str_eq_refl, truthy, or_else, starts_with}
use wifi_chat.Js.Dict.{Dict, get, put, remove, get-put, get-remove}
use wifi_chat.Chat.State.{
  View, room, dm, Message, Status, Packet, Chat, general, dm_key, key_of, or_empty, messages_at,
  system_text,
}
use wifi_chat.Chat.Store.{
  count_at, save_store, render_messages, push, append_message, notify_message, announce,
  store_and_render, add_system_message, mark_store, update_message_status,
}
use wifi_chat.Chat.Views.{
  switch_to_room, switch_to_dm, mark_read, send_read_receipts, leave, leave_room_click, send_typing,
  show_typing,
}

-- A room's name that cannot be taken for the key of a conversation.
abbrev pub is_plain : Text → Bool
is_plain name = not (starts_with (dm_key []) name)

abbrev pub plain_view : View → Bool
plain_view (room name) = is_plain name
plain_view (dm name) = true

abbrev pub plain_saved : Option View → Bool
plain_saved none = true
plain_saved (some v) = plain_view v

pub record IsRendered (c : Chat) : Type 0 where
  pub shown : c.shown ≡ messages_at (key_of c.view) c
  pub unread : count_at (key_of c.view) c.unread ≡ 0
  pub plain : plain_view c.view ≡ true
  pub saved : plain_saved c.saved_view ≡ true

module _ {c : Chat} (h : IsRendered c) where
  pub announce-IsRendered :
      (key : Text) (m : Message)
      → str_eq key (key_of c.view) ≡ false
      → IsRendered (announce key m c)
  unfolding announce
  announce-IsRendered key m other =
      ground (arith, get-put key (key_of c.view) (count_at key c.unread + 1) c.unread)

  -- A message that goes elsewhere leaves the view as it is.
  push-IsRendered :
      (key : Text) (m : Message) → str_eq key (key_of c.view) ≡ false → IsRendered (push key m c)
  push-IsRendered key m other =
      ground (arith, get-put key (key_of c.view) (messages_at key c ++ m ∷ []) c.store)

  push-append-IsRendered :
      (key : Text) (m : Message)
      → str_eq key (key_of c.view) ≡ true
      → IsRendered (append_message m (push key m c))
  push-append-IsRendered key m here = ground (
    arith,
    str_eq_iff key (key_of c.view),
    get-put key (key_of c.view) (messages_at key c ++ m ∷ []) c.store,
  )

  pub add_system_message-IsRendered :
      (content where_ : Text) (now : ℕ) → IsRendered (add_system_message content where_ now c)
  unfolding add_system_message
  add_system_message-IsRendered content where_ now =
      let key = or_else where_ (key_of c.view) in
      elim (Bool-cases (str_eq key (key_of c.view))) [
        | inl e ↦ rw e (push-append-IsRendered key (system_text content now) e)
        | inr e ↦ rw e (push-IsRendered key (system_text content now) e)
      ]

pub save_store-IsRendered : {c : Chat} → IsRendered c → IsRendered (save_store c)
save_store-IsRendered h = ground arith

pub store_and_render-IsRendered :
    (key : Text) (m : Message) {c : Chat} → IsRendered c → IsRendered (store_and_render key m c)
unfolding store_and_render
store_and_render-IsRendered key m {c} h = elim (Bool-cases (str_eq key (key_of c.view))) [
  | inl e ↦ rw e (save_store-IsRendered (push-append-IsRendered h key m e))
  | inr e ↦ rw e (announce-IsRendered (save_store-IsRendered (push-IsRendered h key m e)) key m e)
]

-- Rendering makes the view agree, if its unread count is 0.
pub render_messages-IsRendered :
    (c : Chat)
    → count_at (key_of c.view) c.unread ≡ 0
    → plain_view c.view ≡ true
    → plain_saved c.saved_view ≡ true
    → IsRendered (render_messages c)
render_messages-IsRendered c u p s = ground arith

module _ {c : Chat} (h : IsRendered c) where
  pub update_message_status-IsRendered :
      (id : Text) (s : Status) → IsRendered (update_message_status id s c)
  unfolding update_message_status
  update_message_status-IsRendered id s = ground arith

  pub send_typing-IsRendered : IsRendered (send_typing c)
  unfolding send_typing
  send_typing-IsRendered = ground arith

  pub show_typing-IsRendered : (user where_ : Text) → IsRendered (show_typing user where_ c)
  unfolding show_typing
  show_typing-IsRendered user where_ = ground arith

-- From any state.
pub switch_to_room-IsRendered :
    (name : Text) (c : Chat) → is_plain name ≡ true → IsRendered (switch_to_room name c)
unfolding switch_to_room
switch_to_room-IsRendered name c plain =
    ground (arith, get-put name name 0 c.unread, str_eq_refl name)

pub general-plain : is_plain general ≡ true
unfolding js starts_with
general-plain = refl

pub switch_to_dm-IsRendered : (user : Text) (c : Chat) → IsRendered (switch_to_dm user c)
unfolding switch_to_dm
switch_to_dm-IsRendered user c =
    ground (arith, get-put (dm_key user) (dm_key user) 0 c.unread, str_eq_refl (dm_key user))

leave_by_view : (v : View) {c : Chat} → c.view ≡ v → IsRendered c → IsRendered (leave_room_click c)
unfolding leave_room_click
leave_by_view (dm name) e h = rw (e, leave_room_click) h
leave_by_view (room name) {c} e h = elim (Bool-cases (str_eq name general)) [
  | inl here ↦ rw (e, leave_room_click, here) h
  | inr away ↦
      rw (e, leave_room_click, away)
        (switch_to_room-IsRendered general (leave name c) general-plain)
]

pub leave_room_click-IsRendered : {c : Chat} → IsRendered c → IsRendered (leave_room_click c)
leave_room_click-IsRendered {c} h = leave_by_view c.view refl h
