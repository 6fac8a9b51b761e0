-- ===== src/Worker/Offline.antt =====
-- What the service worker of frontend/sw.js answers without a network.
use wifi_chat.Base.{
  ◌≡◌, refl, inl, inr, Option-cases, Bool, true, false, not, ◌&&◌, Option, none, some, List, [],
  ◌∷◌, arith, if◌then◌else◌,
}
use wifi_chat.Js.Text.{Text, str_eq, str_eq_iff, str_eq_refl}
use wifi_chat.Js.Dict.{Dict, get, put, get-put}
use wifi_chat.Worker.{
  Request, Response, Network, Caches, cache_name, is_bypassed, keep, match_url, Answer, answered,
  failed, on_activate, on_fetch, match_request,
}

-- A request that is made while the network answers in one way.
abbrev pub Visit : Type 0
Visit = Network × Request

unfoldable pub browse : List Visit → Caches → Caches
browse [] caches = caches
browse ((network, request) ∷ visits) caches = browse visits (on_fetch network request caches).1

abbrev pub or_earlier : Option Response → Option Response → Option Response
or_earlier none earlier = earlier
or_earlier (some r) earlier = some r

-- The response of a visit that the worker keeps.
unfoldable pub kept : Visit → Option Response
kept (network, request) =
    if not (is_bypassed request.pathname) && request.is_get
    then elim (network request.url) [ none ↦ none | some r ↦ if r.storable then some r else none ]
    else none

abbrev pub kept_by : Text → Visit → Option Response
kept_by url v = if str_eq v.1.url url then kept v else none

-- The reference: the last response of the network to the address, or an earlier one.
unfoldable pub latest : Text → List Visit → Option Response → Option Response
latest url [] earlier = earlier
latest url (v ∷ visits) earlier = latest url visits (or_earlier (kept_by url v) earlier)

abbrev pub or_failed : Option Response → Answer
or_failed none = failed
or_failed (some r) = answered r

abbrev pub has_name : Text → Caches → Bool
has_name name [] = false
has_name name ((j, cache) ∷ caches) = if str_eq j name then true else has_name name caches

abbrev pub distinct_names : Caches → Bool
distinct_names [] = true
distinct_names ((j, cache) ∷ caches) = not (has_name j caches) && distinct_names caches

abbrev current : Dict Response → Caches
current cache = (cache_name, cache) ∷ []

abbrev pub offline : Network
offline url = none

activate-others : (caches : Caches) → has_name cache_name caches ≡ false → on_activate caches ≡ []
unfolding on_activate
activate-others [] h = refl
activate-others ((j, cache) ∷ caches) h = ground (arith, activate-others caches)

-- After the activation there is one cache.
activate-current :
    (caches : Caches) (cache : Dict Response)
    → distinct_names caches ≡ true
    → get cache_name caches ≡ some cache
    → on_activate caches ≡ current cache
unfolding on_activate get
activate-current [] cache h e = cc
activate-current ((j, d) ∷ caches) cache h e =
    ground (arith, str_eq_iff j cache_name, activate-others caches, activate-current caches cache)

abbrev stored : Text → Option Response → Dict Response → Dict Response
stored url none cache = cache
stored url (some r) cache = put url r cache

-- One visit changes the one cache, in no address but its own.
fetch-current :
    (network : Network) (request : Request) (cache : Dict Response)
    → (on_fetch network request (current cache)).1
      ≡ current (stored request.url (kept (network, request)) cache)
unfolding on_fetch keep kept get put
fetch-current network request cache = elim (Option-cases (network request.url)) [
  | inl e ↦ ground (arith, str_eq_refl cache_name)
  | inr (r, e) ↦ ground (arith, str_eq_refl cache_name)
]

get-stored :
    (url at : Text) (r : Option Response) (cache : Dict Response)
    → get url (stored at r cache) ≡ or_earlier (if str_eq at url then r else none) (get url cache)
get-stored url at none cache = ground arith
get-stored url at (some r) cache = ground (arith, get-put at url r cache)

browse-latest :
    (visits : List Visit) (cache : Dict Response) (url : Text)
    → match_url url (browse visits (current cache)) ≡ latest url visits (get url cache)
unfolding browse latest match_url
browse-latest [] cache url = ground arith
browse-latest ((network, request) ∷ visits) cache url =
    let next = stored request.url (kept (network, request)) cache in
    rw (fetch-current network request cache) (simp (get-stored, browse-latest visits next url))

-- A worker that was installed and becomes active in caches with different names answers a GET
-- request to an address that it does not leave to the browser, without a network and after any
-- visits: with the last response of the network to the address that a cache takes, be it a success
-- or not, or with the response from the installation, or, if there is neither, with an error.
pub on_fetch-offline :
    (visits : List Visit) (caches : Caches) (cache : Dict Response) (request : Request)
    → distinct_names caches ≡ true
    → get cache_name caches ≡ some cache
    → request.is_get ≡ true
    → is_bypassed request.pathname ≡ false
    → (on_fetch offline request (browse visits (on_activate caches))).0
      ≡ or_failed (latest request.url visits (get request.url cache))
unfolding on_fetch match_request
on_fetch-offline visits caches cache request distinct installed is_get handled =
    rw (activate-current caches cache distinct installed)
      (ground (arith, browse-latest visits cache request.url))
