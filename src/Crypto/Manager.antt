-- ===== src/Crypto/Manager.antt =====
-- The state of `cryptoManager` (frontend/crypto.js) and its methods.
use wifi_chat.Base.{
  ℕ, zero, suc, Bool, false, not, ◌&&◌, ◌||◌, Option, none, some, List, [], ◌∷◌, ◌++◌,
  if◌then◌else◌, ltb, length, take, drop, is_some,
}
use wifi_chat.Js.Text.{Text, js, str_eq, truthy}
use wifi_chat.Js.Dict.{Dict, get, put}
use wifi_chat.Crypto.Web.{Bytes, derive_key, encrypt_use, decrypt_use, WebCrypto}

-- The fields, `window.myUsername`, and what `sessionStorage` holds (`e2ee-privkey`, `e2ee-pubkey`,
-- `e2ee-pubkey-b64`, empty where absent, and `e2ee-peers`).
pub record Manager (Key : Type 0) : Type 0 where
  -- the private and the public key
  pub key_pair : Option (Key × Key)
  pub public_key : Text
  pub peer_keys : Dict Key
  pub shared_keys : Dict Key
  pub available : Bool
  pub my_username : Text
  -- the calls of `importPeerKey` that wait for the browser, with their user and public key
  pub in_flight : List (Text × Text)
  pub saved_private : Text
  pub saved_public : Text
  pub saved_public_b64 : Text
  pub saved_peers : Dict Text

abbrev pub then_some {ℓ κ} : {A : Type ℓ} {B : Type κ} → Option A → (A → Option B) → Option B
then_some none f = none
then_some (some a) f = f a

-- An element of a list, and the others.
unfoldable pub take_nth {ℓ} : {A : Type ℓ} → ℕ → List A → Option (A × List A)
take_nth n [] = none
take_nth zero (x ∷ xs) = some (x, xs)
take_nth (suc n) (x ∷ xs) = elim (take_nth n xs) [ none ↦ none | some (y, ys) ↦ some (y, x ∷ ys) ]

-- The bytes before and after the twelfth; a view beyond the end throws.
abbrev pub split_sealed : Bytes → Option (Bytes × Bytes)
split_sealed all = if ltb (length all) 12 then none else some (take 12 all, drop 12 all)

-- The names that every plain object answers to, from `Object.prototype`. An index with one of them
-- gives a function or an object, which is truthy and no key.
abbrev pub inherited_names : List Text
inherited_names =
    js "constructor"
    ∷ js "toString"
    ∷ js "toLocaleString"
    ∷ js "valueOf"
    ∷ js "hasOwnProperty"
    ∷ js "isPrototypeOf"
    ∷ js "propertyIsEnumerable"
    ∷ js "__proto__"
    ∷ js "__defineGetter__"
    ∷ js "__defineSetter__"
    ∷ js "__lookupGetter__"
    ∷ js "__lookupSetter__"
    ∷ []

abbrev any_name : Text → List Text → Bool
any_name name [] = false
any_name name (n ∷ names) = str_eq n name || any_name name names

unfoldable pub is_inherited : Text → Bool
is_inherited name = any_name name inherited_names

module _ {Key : Type 0} where
  abbrev pub set_shared : Text → Key → Manager Key → Manager Key
  set_shared user k m = record m { shared_keys = put user k m.shared_keys }

  -- `hasKeyFor`
  abbrev pub has_key_for : Text → Manager Key → Bool
  has_key_for user m = is_some (get user m.shared_keys) || is_inherited user

  -- `_savePeerKey`
  abbrev pub save_peer_key : Text → Text → Manager Key → Manager Key
  save_peer_key user b64 m = record m { saved_peers = put user b64 m.saved_peers }

  module _ (W : WebCrypto Key) where
    -- The derivation that `importPeerKey` and `_restoreSharedKeys` share.
    unfoldable pub derive_shared : Key → Key → Option Key
    derive_shared peer own =
        then_some (W.derive peer own 256)
          (λ bits. W.import_aes (W.digest bits) (encrypt_use ∷ decrypt_use ∷ []))

    abbrev pub read_peer_key : Text → Option Key
    read_peer_key b64 = then_some (W.atob b64) (λ raw. W.import_raw raw [])

    -- The `try` of both: the peer's key is kept even if the derivation throws. The last argument is
    -- what is done after a derivation.
    unfoldable pub try_derive :
        Text → Text → Key → (Manager Key → Manager Key) → Manager Key → Manager Key
    unfolding derive_shared
    try_derive user b64 own after m = elim (read_peer_key b64) [
      | none ↦ m
      | some peer ↦
          let kept = record m { peer_keys = put user peer m.peer_keys } in
          elim (derive_shared peer own) [ none ↦ kept | some k ↦ after (set_shared user k kept) ]
    ]

    -- `importPeerKey` up to its first `await`.
    unfoldable pub start_import : Text → Text → Manager Key → Manager Key
    start_import user b64 m =
        if m.available
          && is_some m.key_pair
          && truthy b64
          && not (str_eq user m.my_username)
          && not (has_key_for user m)
        then record m { in_flight = m.in_flight ++ (user, b64) ∷ [] }
        else m

    -- The rest of it, which asks no more whether there is a shared key. A key pair that is there
    -- stays until the page is loaded again.
    unfoldable pub finish_import : Text → Text → Manager Key → Manager Key
    unfolding try_derive
    finish_import user b64 m = elim m.key_pair [
      | none ↦ m
      | some pair ↦ try_derive user b64 pair.0 (save_peer_key user b64) m
    ]

    -- One of the calls that wait goes on.
    unfoldable pub finish_at : ℕ → Manager Key → Manager Key
    unfolding finish_import
    finish_at i m = elim (take_nth i m.in_flight) [
      | none ↦ m
      | some ((user, b64), rest) ↦ finish_import user b64 (record m { in_flight = rest })
    ]

    -- The loop of `_restoreSharedKeys` over the entries of `e2ee-peers`.
    unfoldable pub restore_shared : Key → Dict Text → Manager Key → Manager Key
    restore_shared own [] m = m
    restore_shared own ((user, b64) ∷ rest) m =
        restore_shared own rest
          (if str_eq user m.my_username then m else try_derive user b64 own (λ m'. m') m)

    -- The pair that `init` finds in the storage.
    unfoldable pub saved_pair : Manager Key → Option (Key × Key)
    saved_pair m =
        if truthy m.saved_private && truthy m.saved_public && truthy m.saved_public_b64
        then then_some (W.import_jwk m.saved_private (derive_key ∷ []))
            (λ own. then_some (W.import_jwk m.saved_public []) (λ public. some (own, public)))
        else none

    -- The second half of `init`; `btoa` fails for no key, which is short.
    unfoldable pub generate_pair : ℕ → Manager Key → Option Text × Manager Key
    generate_pair seed m = elim (W.generate seed (derive_key ∷ [])) [
      | none ↦ (none, m)
      | some (own, public) ↦
          let kept = record m { key_pair = some (own, public) } in
          elim (W.btoa (W.export_raw public)) [
            | none ↦ (none, kept)
            | some b64 ↦ (
              some b64,
              record kept {
                public_key = b64;
                saved_private = W.export_jwk own;
                saved_public = W.export_jwk public;
                saved_public_b64 = b64;
              },
            )
          ]
    ]

    -- `init`, with the public key that it gives, or `none` if it throws.
    unfoldable pub init : ℕ → Manager Key → Option Text × Manager Key
    unfolding saved_pair generate_pair
    init seed m = if not m.available then (some [], m) else elim (saved_pair m) [
      | some pair ↦ (
        some m.saved_public_b64,
        restore_shared pair.0 m.saved_peers
            (record m { key_pair = some pair; public_key = m.saved_public_b64 }),
      )
      | none ↦ generate_pair seed m
    ]

    -- `encrypt`, with the random initialisation vector.
    unfoldable pub encrypt : Text → Text → Bytes → Manager Key → Option Text
    encrypt user text iv m =
        if not m.available
        then none
        else then_some (get user m.shared_keys)
            (λ k. then_some (W.encrypt_aes k iv (W.encode text)) (λ sealed. W.btoa (iv ++ sealed)))

    unfoldable pub decrypt : Text → Text → Manager Key → Option Text
    decrypt user b64 m =
        if not m.available
        then none
        else then_some (get user m.shared_keys) (λ k. then_some (W.atob b64) (λ all.
          then_some (split_sealed all) (λ (iv, sealed).
            then_some (W.decrypt_aes k iv sealed) (λ plain. some (W.decode plain)))))
