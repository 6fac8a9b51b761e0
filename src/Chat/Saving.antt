-- ===== src/Chat/Saving.antt =====
-- What `sessionStorage` has of the conversations of frontend/app.js.
pub mod Incoming
pub mod Sending
pub mod Reloading
use wifi_chat.Base.{
  ℕ, zero, suc, ◌≡◌, ◌∙◌, sym, ap, refl, Bool, true, false, not, Option, none, some, List, [], ◌∷◌,
  ◌++◌, arith, if◌then◌else◌, filter, map, inl, inr, Bool-cases,
}
use wifi_chat.Js.Text.{Text, js, str_eq, str_eq_iff, truthy, or_else}
use wifi_chat.Js.Dict.{Dict, get, put, get-put}
use wifi_chat.Chat.State.{
  View, room, dm, Message, Status, Chat, key_of, dm_key, or_empty, messages_at, is_system,
  system_text, send,
}
use wifi_chat.Chat.Views.{
  switch_to_room, switch_to_dm, send_read_receipts, show_typing, send_typing,
}
use wifi_chat.Chat.Store.{
  save_store, announce, notify_message, store_and_render, add_system_message, update_message_status,
}

abbrev pub is_talk : Message → Bool
is_talk m = not (is_system m)

abbrev pub or_no_messages : Option (Dict (List Message)) → Dict (List Message)
or_no_messages none = []
or_no_messages (some d) = d

-- Up to system messages, the saved conversations are those of the page.
pub record IsSaved (c : Chat) : Type 0 where
  pub same :
      (key : Text)
      → filter is_talk (or_empty (get key (or_no_messages c.saved_store)))
        ≡ filter is_talk (messages_at key c)

pub stored-IsSaved : (c : Chat) → c.saved_store ≡ some c.store → IsSaved c
stored-IsSaved c e = record { same = λ key. rw e refl }

pub same-IsSaved :
    (c d : Chat) → d.store ≡ c.store → d.saved_store ≡ c.saved_store → IsSaved c → IsSaved d
same-IsSaved c d e f h = record { same = λ key. rw (e, f) (h.same key) }

filter-system :
    (ms : List Message) (content : Text) (now : ℕ)
    → filter is_talk (ms ++ system_text content now ∷ []) ≡ filter is_talk ms
unfolding filter
filter-system [] content now = refl
filter-system (m ∷ ms) content now = ground (arith, filter-system ms content now)

pub add_system_message-IsSaved :
    (content where_ : Text) (now : ℕ) (c : Chat)
    → IsSaved c
    → IsSaved (add_system_message content where_ now c)
unfolding add_system_message
add_system_message-IsSaved content where_ now c h =
    let at = or_else where_ (key_of c.view) in
    let ms = messages_at at c ++ system_text content now ∷ [] in
    record {
      same = λ key. ground (
        arith,
        h.same key,
        get-put at key ms c.store,
        str_eq_iff at key,
        filter-system (messages_at at c) content now,
      );
    }

pub saved-store_and_render :
    (key : Text) (m : Message) (c : Chat)
    → (store_and_render key m c).saved_store ≡ some (store_and_render key m c).store
unfolding store_and_render announce
saved-store_and_render key m c = ground arith

pub store_and_render-IsSaved :
    (key : Text) (m : Message) (c : Chat) → IsSaved (store_and_render key m c)
store_and_render-IsSaved key m c =
    stored-IsSaved (store_and_render key m c) (saved-store_and_render key m c)

pub update_message_status-IsSaved :
    (id : Text) (s : Status) (c : Chat) → IsSaved c → IsSaved (update_message_status id s c)
unfolding update_message_status
update_message_status-IsSaved id s c h = record { same = λ key. ground (arith, h.same key) }

pub switch_to_room-IsSaved : (name : Text) (c : Chat) → IsSaved c → IsSaved (switch_to_room name c)
unfolding switch_to_room
switch_to_room-IsSaved name c h = record { same = λ key. ground (arith, h.same key) }

-- The read receipts save the store.
pub switch_to_dm-IsSaved : (user : Text) (c : Chat) → IsSaved (switch_to_dm user c)
unfolding switch_to_dm send_read_receipts
switch_to_dm-IsSaved user c = stored-IsSaved (switch_to_dm user c) (ground arith)

pub show_typing-IsSaved :
    (user where_ : Text) (c : Chat) → IsSaved c → IsSaved (show_typing user where_ c)
unfolding show_typing
show_typing-IsSaved user where_ c h = record { same = λ key. ground (arith, h.same key) }

pub send_typing-IsSaved : (c : Chat) → IsSaved c → IsSaved (send_typing c)
unfolding send_typing
send_typing-IsSaved c h = record { same = λ key. ground (arith, h.same key) }
