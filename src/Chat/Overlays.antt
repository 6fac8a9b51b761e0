-- ===== src/Chat/Overlays.antt =====
-- What lies over the page of frontend/app.js: the emoji picker, the lightbox, the dialog for a room
-- and the sidebar, with the listeners that open and close them.
pub mod Picking
use wifi_chat.Base.{
  ℕ, zero, suc, ◌==◌, ◌≡◌, refl, Bool, true, false, not, Option, none, some, List, [], ◌∷◌, ◌++◌,
  if◌then◌else◌, map,
}
use wifi_chat.Js.Text.{Text, js}
use wifi_chat.Chat.Emoji.{emoji_categories}

pub record EmojiTab : Type 0 where
  pub title : Text
  pub icon : Text
  pub active : Bool

pub record Picker : Type 0 where
  pub shown : Bool
  pub tabs : List EmojiTab
  pub grid : List Text

pub record Overlays : Type 0 where
  pub picker : Picker
  -- the image of the lightbox, while it is open
  pub lightbox : Option Text
  pub room_dialog : Bool
  pub room_input : Text
  pub sidebar : Bool
  pub input_text : Text

abbrev pub Categories : Type 0
Categories = List (Text × List Text)

abbrev pub first_of : List Text → Text
first_of [] = []
first_of (e ∷ es) = e

-- The emoji of the category with the position.
unfoldable pub emoji_at : ℕ → Categories → List Text
emoji_at n [] = []
emoji_at zero ((title, es) ∷ cs) = es
emoji_at (suc n) ((title, es) ∷ cs) = emoji_at n cs

abbrev pub passive : Text × List Text → EmojiTab
passive c = record { title = c.0; icon = first_of c.1; active = false }

-- The tabs, of which the one with the position is active.
unfoldable pub tabs_at : ℕ → Categories → List EmojiTab
tabs_at n [] = []
tabs_at zero ((title, es) ∷ cs) =
    record { title = title; icon = first_of es; active = true } ∷ map passive cs
tabs_at (suc n) ((title, es) ∷ cs) =
    record { title = title; icon = first_of es; active = false } ∷ tabs_at n cs

-- `buildEmojiPicker`
unfoldable pub build_emoji_picker : Picker → Picker
unfolding tabs_at emoji_at
build_emoji_picker p = record p {
  tabs = tabs_at 0 emoji_categories;
  grid = emoji_at 0 emoji_categories;
}

abbrev pub deactivate : EmojiTab → EmojiTab
deactivate t = record t { active = false }

-- `classList.remove('active')` on every tab, and `add` on the one with the position.
unfoldable pub activate : ℕ → List EmojiTab → List EmojiTab
activate n [] = []
activate zero (t ∷ ts) = record t { active = true } ∷ map deactivate ts
activate (suc n) (t ∷ ts) = deactivate t ∷ activate n ts

-- The click on a tab: the tab is active, and `renderEmojiGrid` shows its category.
unfoldable pub click_tab : ℕ → Picker → Picker
unfolding activate emoji_at
click_tab n p = record p { tabs = activate n p.tabs; grid = emoji_at n emoji_categories }

abbrev pub is_built : List EmojiTab → Bool
is_built [] = false
is_built (t ∷ ts) = true

-- `toggleEmojiPicker` and `closeEmojiPicker`
unfoldable pub toggle_emoji_picker : Picker → Picker
unfolding build_emoji_picker
toggle_emoji_picker p =
    if p.shown
    then record p { shown = false }
    else record (if is_built p.tabs then p else build_emoji_picker p) { shown = true }

abbrev pub close_emoji_picker : Picker → Picker
close_emoji_picker p = record p { shown = false }

pub data Action : Type 0 where
  -- the emoji button, a tab by its position, and an emoji
  emoji_button : Action
  tab_button : ℕ → Action
  emoji : Text → Action
  -- a click on neither the picker nor its button
  outside : Action
  image : Text → Action
  -- the close button of the lightbox, or the lightbox around the image
  lightbox_close : Action
  create_room cancel_room : Action
  escape : Action
  sidebar_open sidebar_close : Action

abbrev pub open_lightbox : Text → Overlays → Overlays
open_lightbox url o = record o { lightbox = some url }

abbrev pub close_lightbox : Overlays → Overlays
close_lightbox o = record o { lightbox = none }

-- The listener of the Escape key.
unfoldable pub on_escape : Overlays → Overlays
on_escape o = record o {
  room_dialog = false;
  lightbox = none;
  picker = close_emoji_picker o.picker;
}

unfoldable pub act : Action → Overlays → Overlays
unfolding toggle_emoji_picker click_tab on_escape
act emoji_button o = record o { picker = toggle_emoji_picker o.picker }
act (tab_button n) o = record o { picker = click_tab n o.picker }
act (emoji e) o = record o { input_text = o.input_text ++ e }
act outside o = record o { picker = close_emoji_picker o.picker }
act (image url) o = open_lightbox url o
act lightbox_close o = close_lightbox o
act create_room o = record o { room_dialog = true; room_input = [] }
act cancel_room o = record o { room_dialog = false }
act escape o = on_escape o
act sidebar_open o = record o { sidebar = true }
act sidebar_close o = record o { sidebar = false }

unfoldable pub act_all : List Action → Overlays → Overlays
act_all [] o = o
act_all (a ∷ actions) o = act_all actions (act a o)
