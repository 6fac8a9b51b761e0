-- ===== src/Chat/Element.antt =====
-- The element that `appendMessage` of frontend/app.js makes of a message.
use wifi_chat.Base.{
  ℕ, zero, suc, ◌≡◌, Bool, true, false, not, ◌&&◌, Option, none, some, arith, if◌then◌else◌,
}
use wifi_chat.Js.Text.{Text, js, str_eq, truthy, has_any}
use wifi_chat.Chat.State.{Message, Status, absent, sent, delivered, read, other, is_system}
use wifi_chat.Chat.Avatars.{get_user_color, get_user_initial}
use wifi_chat.Chat.Lists.{Avatar}
use wifi_chat.Format.Rules.{Regexes}
use wifi_chat.Format.Message.{format_message}
use wifi_chat.Format.Markup.{own_tags}
use wifi_chat.Format.Tokens.{Matching}
use wifi_chat.Format.Blocks.{tags}
use wifi_chat.Format.Placing.{is_nul}
use wifi_chat.Format.Safety.{format_message-own_tags}

-- What is set as `innerHTML`, and what as `textContent`.
pub data Content : Type 0 where
  html text : Text → Content

-- The mark of the delivery: the text, the colour and the title.
pub record Ticks : Type 0 where
  pub marks : Text
  pub color : Text
  pub title : Text

pub record Bubble : Type 0 where
  pub mine : Bool
  pub avatar : Option Avatar
  pub author : Text
  pub time : Option Text
  pub lock : Bool
  pub image : Option Text
  pub content : Option Content
  pub ticks : Option Ticks

-- A line of the system, or a message.
pub data Element : Type 0 where
  line : Text → Element
  bubble : Bubble → Element

-- `toUpperCase`, `formatTime` and the regular expressions of the formatter.
pub record Display : Type 0 where
  pub upper : Text → Text
  pub format_time : ℕ → Text
  pub regexes : Regexes

-- A time of 0 is not shown.
abbrev pub time_of : (ℕ → Text) → Option ℕ → Option Text
time_of format_time none = none
time_of format_time (some zero) = none
time_of format_time (some (suc n)) = some (format_time (suc n))

unfoldable pub ticks_of : Status → Option Ticks
ticks_of absent = none
ticks_of read = some (record { marks = js "✓✓"; color = js "#4FC3F7"; title = js "Read" })
ticks_of delivered = some (record { marks = js "✓✓"; color = js "#999"; title = js "Delivered" })
ticks_of sent = some (record { marks = js "✓"; color = js "#666"; title = js "Sent" })
ticks_of (other t) = some (record { marks = js "✓"; color = js "#666"; title = js "Sent" })

-- The formatter's HTML where it finds code, and else the text itself.
unfoldable pub content_of : Regexes → Text → Option Content
content_of R s =
    let formatted = format_message R s in
    if not (truthy s)
    then none
    else if formatted.has_code
    then some (html formatted.html)
    else some (text s)

abbrev pub some_text : Text → Option Text
some_text s = if truthy s then some s else none

unfoldable pub bubble_of : Display → Text → Message → Bubble
unfolding ticks_of content_of
bubble_of D me m =
    let mine = str_eq m.from me in
    record {
      mine = mine;
      avatar =
          if not mine && truthy m.from
          then some
              (record { color = get_user_color m.from; initial = get_user_initial D.upper m.from })
          else none;
      author = if mine then js "You" else m.from;
      time = time_of D.format_time m.ts;
      lock = m.encrypted;
      image = some_text m.image_url;
      content = content_of D.regexes m.content;
      ticks = if mine then ticks_of m.status else none;
    }

unfoldable pub element_of : Display → Text → Message → Element
unfolding bubble_of
element_of D me m = if is_system m then line m.content else bubble (bubble_of D me m)

-- What is set as HTML has no tags but the given ones.
abbrev pub own_content : Option Content → Bool
own_content (some (html h)) = own_tags tags h
own_content _ = true

abbrev pub own_element : Element → Bool
own_element (line s) = true
own_element (bubble b) = own_content b.content

-- A message without NUL characters puts no tags into the page but the formatter's.
pub element_of-own_tags :
    (D : Display) (me : Text) (m : Message)
    → Matching D.regexes
    → has_any is_nul m.content ≡ false
    → own_element (element_of D me m) ≡ true
unfolding element_of bubble_of content_of
element_of-own_tags D me m laws plain =
    ground (arith, format_message-own_tags D.regexes m.content laws plain)
