-- ===== src/Worker/Tests.antt =====
-- The theorems on frontend/sw.js at concrete inputs.
use wifi_chat.Base.{◌≡◌, refl, true, some, [], ◌∷◌}
use wifi_chat.Js.Text.{js, starts_with, str_eq}
use wifi_chat.Js.Dict.{get}
use wifi_chat.Worker.{
  Request, Response, Network, Caches, cache_name, is_bypassed, on_activate, on_fetch,
}
use wifi_chat.Worker.Offline.{offline, browse, latest, or_failed, on_fetch-offline}

abbrev script : Request
script = record { url = js "/app.js"; pathname = js "/app.js"; is_get = true }

abbrev installed : Response
installed = record { ok = true; storable = true; body = 1 ∷ [] }

abbrev newer : Network
newer url = some (record { ok = true; storable = true; body = 2 ∷ [] })

abbrev before : Caches
before = (js "wifi-chat-v4", []) ∷ (cache_name, (js "/app.js", installed) ∷ []) ∷ []

on_fetch-offline_example :
    (on_fetch offline script (browse ((newer, script) ∷ []) (on_activate before))).0
    ≡ or_failed (
        latest
          (js "/app.js")
          ((newer, script) ∷ [])
          (get (js "/app.js") ((js "/app.js", installed) ∷ [])))
unfolding js str_eq starts_with get is_bypassed
on_fetch-offline_example =
    on_fetch-offline ((newer, script) ∷ []) before ((js "/app.js", installed) ∷ []) script refl refl
      refl refl
