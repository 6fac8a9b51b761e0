-- ===== src/Chat/Lists.antt =====
-- What the side lists and the header of frontend/app.js show: `renderRoomList`, `renderDMList`,
-- `renderUserList`, `updateChatSubtitle` and the headers that `switchToRoom` and `switchToDM` set.
-- Each is a function of the state at the moment at which the page calls it.
use wifi_chat.Base.{
  ℕ, zero, suc, ◌==◌, Bool, true, false, not, Option, none, some, List, [], ◌∷◌, ◌++◌,
  if◌then◌else◌, map, length, drop, ◌||◌,
}
use wifi_chat.Js.Text.{Text, js, str_eq, starts_with, show_number}
use wifi_chat.Js.Dict.{Dict, get}
use wifi_chat.Chat.State.{View, room, dm, Message, Chat, general, dm_key}
use wifi_chat.Chat.Store.{count_at}
use wifi_chat.Chat.Messages.{is_in_room, is_viewing}
use wifi_chat.Chat.Avatars.{get_user_color, get_user_initial}

-- `toUpperCase` and `cryptoManager.hasKeyFor`.
pub record Surroundings : Type 0 where
  pub upper : Text → Text
  pub has_key_for : Text → Bool

pub record Avatar : Type 0 where
  pub color : Text
  pub initial : Text

-- An element of a list, and the view that a click opens.
pub record Item : Type 0 where
  pub avatar : Option Avatar
  pub dot : Bool
  pub label : Text
  pub lock : Bool
  pub active : Bool
  pub badge : Option ℕ
  pub opens : View

-- A count that is 0 or not there has no badge.
abbrev pub badge_of : ℕ → Option ℕ
badge_of zero = none
badge_of (suc n) = some (suc n)

abbrev pub room_item : Chat → Text → Item
room_item c name = record {
  avatar = none;
  dot = false;
  label = js "# " ++ name;
  lock = false;
  active = is_in_room name c;
  badge = badge_of (count_at name c.unread);
  opens = room name;
}

-- `renderRoomList`
unfoldable pub room_list : Chat → List Item
room_list c = map (room_item c) c.rooms

-- `names.includes(name)`
unfoldable pub includes : Text → List Text → Bool
includes name [] = false
includes name (n ∷ names) = str_eq n name || includes name names

-- `Set.prototype.add`: a name that is there keeps its place.
unfoldable pub add_name : Text → List Text → List Text
add_name name [] = name ∷ []
add_name name (n ∷ names) =
    let rest = add_name name names in if str_eq n name then n ∷ names else n ∷ rest

unfoldable pub add_names : List Text → List Text → List Text
add_names [] set = set
add_names (name ∷ names) set = add_names names (add_name name set)

-- The users of the direct conversations in the store: `key.slice(3)`, if the key starts with `dm:`.
unfoldable pub stored_peers : Dict (List Message) → List Text
unfolding starts_with
stored_peers [] = []
stored_peers ((key, ms) ∷ store) =
    let rest = stored_peers store in if starts_with (dm_key []) key then drop 3 key ∷ rest else rest

-- `dmUsers`, in the order of the set
unfoldable pub dm_users : Chat → List Text
dm_users c = add_names c.users (add_names (stored_peers c.store) [])

module _ (S : Surroundings) where
  abbrev pub avatar_of : Text → Avatar
  avatar_of user = record { color = get_user_color user; initial = get_user_initial S.upper user }

  abbrev pub dm_item : Chat → Text → Item
  dm_item c user = record {
    avatar = some (avatar_of user);
    dot = includes user c.users;
    label = user;
    lock = S.has_key_for user;
    active = is_viewing user c;
    badge = badge_of (count_at (dm_key user) c.unread);
    opens = dm user;
  }

  -- `renderDMList`
  unfoldable pub dm_list : Chat → List Item
  unfolding dm_users
  dm_list c = map (dm_item c) (dm_users c)

  abbrev pub user_item : Text → Item
  user_item user = record {
    avatar = some (avatar_of user);
    dot = true;
    label = user;
    lock = false;
    active = false;
    badge = none;
    opens = dm user;
  }

  -- `renderUserList`
  unfoldable pub user_list : Chat → List Item
  user_list c = map user_item c.users

abbrev pub or_nobody : Option (List Text) → List Text
or_nobody none = []
or_nobody (some names) = names

-- The subtitle, and whether the mark of the encryption is hidden.
unfoldable pub update_chat_subtitle : Surroundings → Chat → Text × Bool
unfolding includes
update_chat_subtitle S c = elim c.view [
  | room name ↦
      let n = length (or_nobody (get name c.room_users)) in
      (show_number n ++ js " member" ++ (if not (n == 1) then js "s" else []), true)
  | dm name ↦
      (if includes name c.users then js "Online" else js "Offline", not (S.has_key_for name))
]

-- The title, and whether the leave button and the buttons of calls are displayed.
pub record Header : Type 0 where
  pub title : Text
  pub leave_shown : Bool
  pub calls_shown : Bool

unfoldable pub header_of : View → Header
header_of (room name) = record {
  title = js "# " ++ name;
  leave_shown = not (str_eq name general);
  calls_shown = false;
}
header_of (dm user) = record { title = js "@ " ++ user; leave_shown = false; calls_shown = true }
