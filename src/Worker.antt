-- ===== src/Worker.antt =====
-- frontend/sw.js: the service worker, its caches and its three listeners.
pub mod Offline
mod Tests
use wifi_chat.Base.{
  Bool, true, false, ◌&&◌, ◌||◌, Option, none, some, List, [], ◌∷◌, if◌then◌else◌, filter,
}
use wifi_chat.Js.Text.{Text, js, str_eq, starts_with}
use wifi_chat.Js.Dict.{Dict, get, put}

-- A request of the page: its address, the path in it, and whether its method is GET.
pub record Request : Type 0 where
  pub url : Text
  pub pathname : Text
  pub is_get : Bool

-- A response: `response.ok`, whether a cache takes it (not a partial one), and the body.
pub record Response : Type 0 where
  pub ok : Bool
  pub storable : Bool
  pub body : Text

-- What the network answers at a moment, if it does.
abbrev pub Network : Type 0
Network = Text → Option Response

-- `caches`: by name, the responses by address.
abbrev pub Caches : Type 0
Caches = Dict (Dict Response)

abbrev pub cache_name : Text
cache_name = js "wifi-chat-v5"

abbrev pub assets : List Text
assets =
    js "/"
    ∷ js "/index.html"
    ∷ js "/style.css"
    ∷ js "/app.js"
    ∷ js "/crypto.js"
    ∷ js "/call.js"
    ∷ js "/codeformat.js"
    ∷ js "/manifest.json"
    ∷ []

abbrev pub or_no_responses : Option (Dict Response) → Dict Response
or_no_responses none = []
or_no_responses (some d) = d

-- `caches.open(CACHE_NAME)`, which makes the cache if it is not there, and a write to it.
abbrev pub opened : Caches → Dict Response
opened caches = or_no_responses (get cache_name caches)

-- `cache.addAll`: all of the addresses, or none if one is not answered with a success.
unfoldable pub add_all : Network → List Text → Dict Response → Option (Dict Response)
add_all network [] cache = some cache
add_all network (url ∷ urls) cache =
    let fetched = network url in
    elim fetched [
      | none ↦ none
      | some r ↦ if r.ok && r.storable then add_all network urls (put url r cache) else none
    ]

-- The listener of `install`, and whether the worker is installed.
unfoldable pub on_install : Network → Caches → Bool × Caches
unfolding add_all
on_install network caches = elim (add_all network assets (opened caches)) [
  | none ↦ (false, put cache_name (opened caches) caches)
  | some cache ↦ (true, put cache_name cache caches)
]

-- The listener of `activate` deletes the caches of other versions.
unfoldable pub on_activate : Caches → Caches
unfolding filter
on_activate caches = filter (λ entry. str_eq entry.0 cache_name) caches

-- The early return of the listener of `fetch`.
unfoldable pub is_bypassed : Text → Bool
unfolding starts_with
is_bypassed pathname =
    starts_with (js "/ws") pathname
    || starts_with (js "/api/") pathname
    || starts_with (js "/uploads/") pathname

-- `cache.put`, which refuses requests with other methods and partial responses.
unfoldable pub keep : Request → Response → Caches → Caches
keep request r caches =
    if request.is_get && r.storable
    then put cache_name (put request.url r (opened caches)) caches
    else put cache_name (opened caches) caches

-- `caches.match`: the first cache that has the address.
unfoldable pub match_url : Text → Caches → Option Response
match_url url [] = none
match_url url ((name, cache) ∷ caches) = elim (get url cache) [
  | some r ↦ some r
  | none ↦ match_url url caches
]

unfoldable pub match_request : Request → Caches → Option Response
match_request request caches = if request.is_get then match_url request.url caches else none

-- What the page gets: the worker stands aside, the response, or a network error.
pub data Answer : Type 0 where
  by_browser : Answer
  answered : Response → Answer
  failed : Answer

-- The listener of `fetch`: the network first, and the caches where it does not answer.
unfoldable pub on_fetch : Network → Request → Caches → Answer × Caches
unfolding is_bypassed keep match_request
on_fetch network request caches =
    if is_bypassed request.pathname then (by_browser, caches) else elim (network request.url) [
      | some r ↦ (answered r, keep request r caches)
      | none ↦ (elim (match_request request caches) [ some r ↦ answered r | none ↦ failed ], caches)
    ]
