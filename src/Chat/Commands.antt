-- ===== src/Chat/Commands.antt =====
-- Sending in frontend/app.js: the submit of the message form and the slash commands.
use wifi_chat.Base.{
  ℕ, ◌+◌, ◌-◌, ◌*◌, ◌==◌, leb, Bool, false, not, ◌&&◌, some, List, [], ◌∷◌, ◌++◌, if◌then◌else◌,
}
use wifi_chat.Js.Text.{Text, js, truthy, is_space}
use wifi_chat.Js.Dict.{remove}
use wifi_chat.Chat.State.{
  room, dm, Message, direct_message, sent, message, dm_packet, Chat, dm_key, key_of, send,
}
use wifi_chat.Chat.Store.{save_store, render_messages, store_and_render, add_system_message}
use wifi_chat.Chat.Views.{switch_to_dm}

abbrev pub grow : ℕ → List Text → List Text
grow u [] = (u ∷ []) ∷ []
grow u (part ∷ parts) = (u ∷ part) ∷ parts

-- `input.split(/\s+/)`; the flag says that the last character was a space.
unfoldable pub split_from : Bool → Text → List Text
unfolding is_space
split_from after [] = [] ∷ []
split_from after (u ∷ s) =
    let rest = split_from (is_space u) s in
    if is_space u then (if after then rest else [] ∷ rest) else grow u rest

abbrev pub split_spaces : Text → List Text
split_spaces = split_from false

-- `toLowerCase`, on the letters that the names of the commands have.
abbrev pub to_lower : ℕ → ℕ
to_lower u = if leb b'A' u && leb u b'Z' then u + 32 else u

-- `(parts[1] || '').replace(/^@/, '')`
unfoldable pub target_of : List Text → Text
target_of (_ ∷ (u ∷ name) ∷ _) = if u == b'@' then name else u ∷ name
target_of _ = []

unfoldable pub join_spaces : List Text → Text
join_spaces [] = []
join_spaces (p ∷ []) = p
join_spaces (p ∷ q ∷ ps) = p ++ b' ' ∷ join_spaces (q ∷ ps)

unfoldable pub join_commas : List Text → Text
join_commas [] = []
join_commas (p ∷ []) = p
join_commas (p ∷ q ∷ ps) = p ++ b',' ∷ b' ' ∷ join_commas (q ∷ ps)

-- `parseInt(s) || 0` where it is not negative, and 0 where it is: leading digits, after a sign.
abbrev pub is_digit : ℕ → Bool
is_digit u = leb b'0' u && leb u b'9'

unfoldable pub read_digits : ℕ → Text → ℕ
read_digits n [] = n
read_digits n (u ∷ s) =
    let rest = read_digits (n * 10 + (u - b'0')) s in if is_digit u then rest else n

-- A prefix `0x` makes `parseInt` read hexadecimal digits.
unfoldable pub read_hex : ℕ → Text → ℕ
read_hex n [] = n
read_hex n (u ∷ s) =
    let v = to_lower u in
    let digit = read_hex (n * 16 + (u - b'0')) s in
    let letter = read_hex (n * 16 + (v - b'a' + 10)) s in
    if is_digit u then digit else if leb b'a' v && leb v b'f' then letter else n

abbrev pub unsigned : Text → ℕ
unsigned (u ∷ x ∷ s) =
    if u == b'0' && to_lower x == b'x' then read_hex 0 s else read_digits 0 (u ∷ x ∷ s)
unsigned s = read_digits 0 s

unfoldable pub parse_minutes : Text → ℕ
unfolding read_digits read_hex
parse_minutes [] = 0
parse_minutes (u ∷ s) = if u == b'-' then 0 else if u == b'+' then unsigned s else unsigned (u ∷ s)

abbrev pub second : List Text → Text
second (_ ∷ p ∷ _) = p
second _ = []

abbrev pub own_message : Text → Text → Bool → Text → ℕ → Chat → Message
own_message target content encrypted id now c = record {
  kind = direct_message;
  from = c.my_username;
  to = target;
  content = content;
  image_url = [];
  ts = some now;
  encrypted = encrypted;
  message_id = id;
  status = sent;
}

unfoldable pub send_plain_dm : Text → Text → Text → ℕ → Chat → Chat
send_plain_dm name content id now c =
    store_and_render (dm_key name) (own_message name content false id now c)
      (send (dm_packet name content false id) c)

-- A message to the view as `/slap` and `/hug` send it.
unfoldable pub send_action : Text → Text → ℕ → Chat → Chat
send_action content id now c = elim c.view [
  | room name ↦ send (message name content id) c
  | dm name ↦ send_plain_dm name content id now c
]

unfoldable pub clear_view : ℕ → Chat → Chat
clear_view now c =
    add_system_message (js "Chat cleared locally.") [] now
      (render_messages (save_store (record c { store = remove (key_of c.view) c.store })))

unfoldable pub open_dm_command : List Text → ℕ → Chat → Chat
open_dm_command parts now c =
    let target = target_of parts in
    if not (truthy target)
    then add_system_message (js "Usage: /msg @username [message]") [] now c
    else (elim parts [
      | _ ∷ _ ∷ p ∷ ps ↦ record (switch_to_dm target c) { input_text = join_spaces (p ∷ ps) }
      | _ ↦ switch_to_dm target c
    ])

abbrev pub action_command : Text → Text → Text → List Text → Text → ℕ → Chat → Chat
action_command usage before after parts id now c =
    let target = target_of parts in
    if not (truthy target)
    then add_system_message usage [] now c
    else send_action (before ++ target ++ after) id now c

unfoldable pub slap : List Text → Text → ℕ → Chat → Chat
slap parts id now c =
    action_command (js "Usage: /slap @username") (js "slaps ")
      (js " around a bit with a large trout 🐟") parts id now c

unfoldable pub hug : List Text → Text → ℕ → Chat → Chat
hug parts id now c =
    action_command (js "Usage: /hug @username") (js "gives ") (js " a warm hug 🫂") parts id now c
