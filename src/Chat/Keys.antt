-- ===== src/Chat/Keys.antt =====
-- The keys of the conversations in frontend/app.js: rooms by their name, users after `dm:`.
use wifi_chat.Base.{ℕ, ◌≡◌, false, [], ◌∷◌, ◌++◌, arith}
use wifi_chat.Js.Text.{Text, str_eq_refl}
use wifi_chat.Chat.State.{dm, Message, room_message, absent, Chat, dm_key}
use wifi_chat.Chat.Store.{store_and_render}
use wifi_chat.Chat.Messages.{Decrypt, message, handle_message}

-- A message to a room that is named `dm:` and a user's name is shown in the conversation with that
-- user, like a message of the conversation.
pub message-shown_as_dm :
    (decrypt : Decrypt) (now : ℕ) (user : Text) (m : Message) (c : Chat)
    → c.view ≡ dm user
    → (handle_message decrypt now (message (dm_key user) m) c).shown
      ≡ c.shown
        ++ record m { kind = room_message; to = []; encrypted = false; status = absent } ∷ []
unfolding handle_message store_and_render
message-shown_as_dm decrypt now user m c e = ground (arith, str_eq_refl (dm_key user))
