-- ===== src/Chat/Presence.antt =====
-- Who stands in the lists of frontend/app.js, and with which badges.
use wifi_chat.Base.{
  ◌≡◌, refl, ap, Bool, true, false, not, ◌&&◌, ◌||◌, is_some, List, [], ◌∷◌, arith, map, drop,
  if◌then◌else◌,
}
use wifi_chat.Js.Text.{Text, str_eq, str_eq_iff, starts_with}
use wifi_chat.Js.Dict.{Dict, get}
use wifi_chat.Chat.State.{Message, Chat, dm_key}
use wifi_chat.Chat.Lists.{
  Surroundings, Item, includes, add_name, add_names, stored_peers, dm_users, dm_item, dm_list,
}

unfoldable pub distinct_names : List Text → Bool
distinct_names [] = true
distinct_names (n ∷ names) = not (includes n names) && distinct_names names

includes-add_name :
    (name added : Text) (set : List Text)
    → includes name (add_name added set) ≡ (str_eq added name || includes name set)
unfolding includes add_name
includes-add_name name added [] = refl
includes-add_name name added (n ∷ set) = ground (
  arith,
  includes-add_name name added set,
  str_eq_iff n added,
  str_eq_iff n name,
  str_eq_iff added name,
)

distinct-add_name :
    (added : Text) (set : List Text)
    → distinct_names set ≡ true
    → distinct_names (add_name added set) ≡ true
unfolding distinct_names add_name includes
distinct-add_name added [] h = refl
distinct-add_name added (n ∷ set) h = ground (
  arith,
  includes-add_name n added set,
  distinct-add_name added set,
  str_eq_iff n added,
  str_eq_iff added n,
)

includes-add_names :
    (name : Text) (names set : List Text)
    → includes name (add_names names set) ≡ (includes name names || includes name set)
unfolding includes add_names
includes-add_names name [] set = refl
includes-add_names name (n ∷ names) set =
    ground (arith, includes-add_names name names (add_name n set), includes-add_name name n set)

distinct-add_names :
    (names set : List Text)
    → distinct_names set ≡ true
    → distinct_names (add_names names set) ≡ true
unfolding add_names
distinct-add_names [] set h = h
distinct-add_names (n ∷ names) set h =
    distinct-add_names names (add_name n set) (distinct-add_name n set h)

-- A key that begins with `dm:` is the key of what follows.
str_eq-key :
    (key name : Text)
    → str_eq key (dm_key name)
      ≡ (if starts_with (dm_key []) key then str_eq (drop 3 key) name else false)
unfolding str_eq starts_with
str_eq-key [] name = refl
str_eq-key (a ∷ []) name = ground arith
str_eq-key (a ∷ b ∷ []) name = ground arith
str_eq-key (a ∷ b ∷ d ∷ key) name = ground arith

includes-stored_peers :
    (name : Text) (store : Dict (List Message))
    → includes name (stored_peers store) ≡ is_some (get (dm_key name) store)
unfolding includes stored_peers get
includes-stored_peers name [] = refl
includes-stored_peers name ((key, ms) ∷ store) =
    ground (arith, includes-stored_peers name store, str_eq-key key name)

map-label :
    (S : Surroundings) (c : Chat) (names : List Text)
    → map (λ item. Item.label item) (map (dm_item S c) names) ≡ names
map-label S c [] = refl
map-label S c (n ∷ names) = ap (λ ns. n ∷ ns) (map-label S c names)

-- In the list of direct conversations stand exactly the users who are online and those with whom a
-- conversation is stored, each once.
pub dm_list-names :
    (S : Surroundings) (c : Chat) (name : Text)
    → (includes name (map (λ item. Item.label item) (dm_list S c))
        ≡ (includes name c.users || is_some (get (dm_key name) c.store)))
      × (distinct_names (map (λ item. Item.label item) (dm_list S c)) ≡ true)
unfolding dm_list includes distinct_names
dm_list-names S c name =
    let peers = stored_peers c.store in
    rw (map-label S c (dm_users c)) (
      ground (
        arith,
        includes-add_names name c.users (add_names peers []),
        includes-add_names name peers [],
        includes-stored_peers name c.store,
      ),
      distinct-add_names c.users (add_names peers []) (distinct-add_names peers [] refl),
    )
