-- ===== src/Crypto/Tests.antt =====
-- The theorems on frontend/crypto.js at concrete inputs, with a toy in place of Web Crypto that
-- follows its rules.
use wifi_chat.Base.{
  ◌++◌, ℕ, ◌+◌, ◌%◌, ◌<◌, ◌≡◌, refl, true, false, Option, none, some, List, [], ◌∷◌, map, ◌==◌,
  if◌then◌else◌, arith, All,
}
use wifi_chat.Js.Text.{Text, js, str_eq}
use wifi_chat.Js.Dict.{get}
use wifi_chat.Call.State.{Signal, signal, call_offer, Candidate, Ice, sent, emit, fresh_call}
use wifi_chat.Call.Sealing.{send_encrypted}
use wifi_chat.Chat.State.{Chat, dm, dm_packet}
use wifi_chat.Chat.Submit.{World, send_content}
use wifi_chat.Crypto.Clear.{as_cipher, encrypting, send-in_the_clear}
use wifi_chat.Crypto.Web.{Bytes, Usage, derive_bits, WebCrypto, ChecksUsages, derives_bits}
use wifi_chat.Crypto.Manager.{Manager, init, is_inherited, has_key_for, encrypt, decrypt}
use wifi_chat.Crypto.Life.{Event, initialised, imported, derived, reloaded, run, reload}
use wifi_chat.Crypto.Usages.{HasNoKey, has_key_for-run}
use wifi_chat.Crypto.Pinning.{awaits, run-pins}
use wifi_chat.Crypto.Reloading.{Reimports, init-reload}
use wifi_chat.Crypto.Fingerprint.{get_fingerprint, get_fingerprint-same}

record ToyKey : Type 0 where
  pub uses : List Usage
  pub number : ℕ

abbrev toy_key : List Usage → Text → Option ToyKey
toy_key us (n ∷ []) = some (record { uses = us; number = n })
toy_key us _ = none

abbrev toy_opened : ℕ → Bytes → Option Bytes
toy_opened n [] = none
toy_opened n (m ∷ plain) = if n == m then some plain else none

abbrev toy : WebCrypto ToyKey
toy = record {
  usages = λ k. k.uses;
  generate =
      λ seed us. some (record { uses = us; number = seed }, record { uses = []; number = seed });
  import_jwk = λ t us. toy_key us t;
  export_jwk = λ k. k.number ∷ [];
  import_raw = λ bytes us. toy_key us bytes;
  export_raw = λ k. k.number ∷ [];
  derive =
      λ peer own n. if derives_bits own.uses then some ((peer.number + own.number) ∷ []) else none;
  digest = map (λ n. n % 256);
  import_aes = λ bytes us. toy_key us bytes;
  encrypt_aes = λ k iv plain. some (k.number ∷ plain);
  decrypt_aes = λ k iv sealed. toy_opened k.number sealed;
  encode = λ t. t;
  decode = λ t. t;
  btoa = λ bytes. some bytes;
  atob = λ t. some t;
}

toy_import_asked :
    (t : Text) (us : List Usage) (k : ToyKey)
    → derives_bits us ≡ false
    → toy_key us t ≡ some k
    → derives_bits k.uses ≡ false
toy_import_asked (n ∷ []) us k h e = ground arith
toy_import_asked [] us k h e = ground arith
toy_import_asked (n ∷ m ∷ t) us k h e = ground arith

toy-ChecksUsages : ChecksUsages toy
toy-ChecksUsages = record {
  derive_refused = λ peer own n h. ground arith;
  import_asked = toy_import_asked;
  generate_asked = λ seed us k p h e. ground arith;
}

toy-Reimports : Reimports toy
toy-Reimports = record { own = λ seed x y h. refl; public = λ seed x y h. refl; full = λ k. refl }

abbrev fresh : Text → Manager ToyKey
fresh name = record {
  key_pair = none;
  public_key = [];
  peer_keys = [];
  shared_keys = [];
  available = true;
  my_username = name;
  in_flight = [];
  saved_private = [];
  saved_public = [];
  saved_public_b64 = [];
  saved_peers = [];
}

abbrev alice : Text
alice = js "alice"

abbrev bob : Text
bob = js "bob"

abbrev session : List Event
session = initialised 5 ∷ imported bob (7 ∷ []) ∷ derived 0 ∷ reloaded alice ∷ initialised 6 ∷ []

fresh-HasNoKey : HasNoKey toy (fresh alice)
fresh-HasNoKey = record { shared = refl; own = record {} }

has_key_for-run_example :
    (has_key_for bob (run toy session (fresh alice)) ≡ is_inherited bob)
    × (encrypt toy bob (3 ∷ []) (1 ∷ []) (run toy session (fresh alice)) ≡ none)
    × (decrypt toy bob (3 ∷ []) (run toy session (fresh alice)) ≡ none)
has_key_for-run_example =
    has_key_for-run toy toy-ChecksUsages session bob (3 ∷ []) (1 ∷ []) (fresh alice) fresh-HasNoKey

init-reload_example : (init toy 6 (reload bob (init toy 5 (fresh alice)).1)).0 ≡ some (5 ∷ [])
unfolding init
init-reload_example = init-reload toy toy-Reimports 5 6 bob (5 ∷ []) (fresh alice) refl refl refl

-- A manager whose pair is for the derivation of bits.
abbrev pair_of : ℕ → ToyKey × ToyKey
pair_of n = (record { uses = derive_bits ∷ []; number = n }, record { uses = []; number = n })

abbrev with_pair : Text → ℕ → Manager ToyKey
with_pair name n = record (fresh name) { key_pair = some (pair_of n); public_key = n ∷ [] }

abbrev twelve : Bytes
twelve = 1 ∷ 2 ∷ 3 ∷ 4 ∷ 5 ∷ 6 ∷ 7 ∷ 8 ∷ 9 ∷ 10 ∷ 11 ∷ 12 ∷ []

abbrev bobs_key : ToyKey
bobs_key = record { uses = []; number = 12 }

abbrev knows_bob : Manager ToyKey
knows_bob = record (with_pair alice 5) {
  shared_keys = (bob, bobs_key) ∷ [];
  saved_peers = (bob, 7 ∷ []) ∷ [];
}

-- An import for bob is refused, and one for carol starts and ends.
abbrev imports : List Event
imports = imported bob (9 ∷ []) ∷ imported (js "carol") (8 ∷ []) ∷ derived 0 ∷ []

run-pins_example :
    (get bob (run toy imports knows_bob).shared_keys ≡ some bobs_key)
    × (get bob (run toy imports knows_bob).saved_peers ≡ some (7 ∷ []))
unfolding get str_eq js awaits
run-pins_example =
    run-pins toy imports bob bobs_key (7 ∷ []) knows_bob (refl, (refl, (refl, tt))) refl refl refl

toy_digest : (raw : Bytes) → All (λ n. n < 256) (toy.digest raw)
toy_digest [] = record {}
toy_digest (n ∷ raw) = (omega arith, toy_digest raw)

get_fingerprint-same_example : toy.digest (7 ∷ []) ≡ toy.digest (7 ∷ [])
unfolding get str_eq js get_fingerprint
get_fingerprint-same_example =
    get_fingerprint-same toy bob bob (7 ∷ []) (7 ∷ []) knows_bob (with_pair bob 7) toy_digest refl
      refl refl refl refl refl refl

abbrev page : Chat
page = record {
  my_username = alice;
  view = dm bob;
  rooms = [];
  users = bob ∷ [];
  room_users = [];
  store = [];
  unread = [];
  view_restored = false;
  tab_focused = false;
  total_unread = 0;
  notifications_enabled = true;
  disappearing_timer = 0;
  interval_runs = false;
  online = true;
  attempts = 0;
  scheduled = [];
  saved_store = none;
  saved_view = none;
  login_shown = true;
  login_error = [];
  shown = [];
  typing_text = [];
  typing_shown = false;
  input_text = [];
  emoji_shown = false;
  out = [];
  imported = [];
  calls = [];
  notifications = [];
}

abbrev world : World
world = record {
  now = 9;
  fresh_id = 8 ∷ [];
  confirmed = true;
  encrypt = λ _ _. none;
  fingerprint = λ s. s;
}

abbrev offer : Signal
offer = record (signal call_offer bob) { sdp = some (js "sdp") }

abbrev no_text : Candidate → Text
no_text _ = []

abbrev no_ice : Text → Option Ice
no_ice _ = none

send-in_the_clear_example :
    (send_encrypted
        (as_cipher toy twelve (run toy session (fresh alice)) no_text no_ice)
        offer
        (record fresh_call { peer = bob })
      ≡ emit (sent offer) (record fresh_call { peer = bob }))
    × ((send_content
          (encrypting toy twelve (run toy session (fresh alice)) world)
          (js "hello")
          page).out
        ≡ page.out ++ dm_packet bob (js "hello") false (8 ∷ []) ∷ [])
unfolding is_inherited str_eq js
send-in_the_clear_example =
    send-in_the_clear toy toy-ChecksUsages session twelve no_text no_ice (fresh alice) offer
      (record fresh_call { peer = bob }) world (js "hello") bob page fresh-HasNoKey refl refl refl
