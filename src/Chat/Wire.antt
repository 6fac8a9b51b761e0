-- ===== src/Chat/Wire.antt =====
-- What the commands and the message form of frontend/app.js put on the wire, and what they forget.
use wifi_chat.Base.{ℕ, suc, ◌<◌, ◌≡◌, true, some, List, [], ◌∷◌, ◌++◌, arith, map}
use wifi_chat.Js.Text.{Text, truthy, starts_with}
use wifi_chat.Chat.State.{Message, dm, dm_packet, Chat, dm_key, send}
use wifi_chat.Chat.Store.{store_and_render, announce, add_system_message}
use wifi_chat.Chat.Commands.{
  to_lower, split_spaces, target_of, join_spaces, own_message, open_dm_command,
}
use wifi_chat.Chat.Connection.{delay, on_close}
use wifi_chat.Chat.Submit.{
  World, msg, send_content, send_dm, submit, emergency_wipe, command_of, handle_slash_command,
}

pub out-store_and_render :
    (key : Text) (m : Message) (c : Chat) → (store_and_render key m c).out ≡ c.out
unfolding store_and_render announce
out-store_and_render key m c = ground arith

-- In a conversation with a user for whom there is a key, the form sends the encrypted text, marked
-- as such, and nothing else.
pub send_content-sealed :
    (w : World) (content user t : Text) (c : Chat)
    → c.view ≡ dm user
    → c.online ≡ true
    → w.encrypt user content ≡ some t
    → truthy t ≡ true
    → (send_content w content c).out ≡ c.out ++ dm_packet user t true w.fresh_id ∷ []
unfolding send_content send_dm
send_content-sealed w content user t c v on e full = ground (
  arith,
  out-store_and_render (dm_key user) (own_message user content true w.fresh_id w.now c)
      (send (dm_packet user t true w.fresh_id) c),
)

-- After a wipe the page reconnects under the same name.
pub on_close-after_wipe :
    (now : ℕ) (c : Chat)
    → truthy c.my_username ≡ true
    → c.attempts < 5
    → ((on_close now (emergency_wipe true c)).scheduled
        ≡ c.scheduled ++ delay (suc c.attempts) ∷ [])
      × ((on_close now (emergency_wipe true c)).my_username ≡ c.my_username)
unfolding on_close emergency_wipe add_system_message
on_close-after_wipe now c name room_left = ground arith

-- The text of `/msg` stands in the input when the command has run, and the submit empties the input.
pub submit-forgets_msg :
    (w : World) (content first name p : Text) (ps : List Text) (c : Chat)
    → starts_with (b'/' ∷ []) content ≡ true
    → split_spaces content ≡ first ∷ name ∷ p ∷ ps
    → command_of (map to_lower first) ≡ msg
    → truthy (target_of (first ∷ name ∷ p ∷ ps)) ≡ true
    → ((handle_slash_command w content c).1.input_text ≡ join_spaces (p ∷ ps))
      × ((submit w content c).input_text ≡ [])
unfolding submit open_dm_command starts_with
submit-forgets_msg w content first name p ps c slash parts command target = ground arith
