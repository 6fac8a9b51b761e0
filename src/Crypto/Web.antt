-- ===== src/Crypto/Web.antt =====
-- What frontend/crypto.js takes from the browser: Web Crypto, text encodings and base64.
use wifi_chat.Base.{ℕ, ◌≡◌, Bool, true, false, ◌||◌, Option, none, some, List, [], ◌∷◌}
use wifi_chat.Js.Text.{Text}

abbrev pub Bytes : Type 0
Bytes = List ℕ

-- The uses of a key that the source names.
pub data Usage : Type 0 where
  derive_key derive_bits encrypt_use decrypt_use : Usage

abbrev pub is_derive_bits : Usage → Bool
is_derive_bits derive_bits = true
is_derive_bits _ = false

unfoldable pub derives_bits : List Usage → Bool
derives_bits [] = false
derives_bits (u ∷ us) = is_derive_bits u || derives_bits us

-- `crypto.subtle` with the algorithms of the source (ECDH on P-256, SHA-256, AES-GCM). An operation
-- that throws is `none`. What is random is the first argument.
pub record WebCrypto (Key : Type 0) : Type 0 where
  pub usages : Key → List Usage
  -- the private and the public key
  pub generate : ℕ → List Usage → Option (Key × Key)
  -- `importKey('jwk', JSON.parse(text), …)`, and its inverse with `JSON.stringify`
  pub import_jwk : Text → List Usage → Option Key
  pub export_jwk : Key → Text
  pub import_raw : Bytes → List Usage → Option Key
  pub export_raw : Key → Bytes
  -- the public key, the private key and the number of bits
  pub derive : Key → Key → ℕ → Option Bytes
  pub digest : Bytes → Bytes
  pub import_aes : Bytes → List Usage → Option Key
  -- the key, the initialisation vector and the data
  pub encrypt_aes : Key → Bytes → Bytes → Option Bytes
  pub decrypt_aes : Key → Bytes → Bytes → Option Bytes
  -- `TextEncoder` and `TextDecoder`
  pub encode : Text → Bytes
  pub decode : Bytes → Text
  -- `btoa(String.fromCharCode(...bytes))`, which throws on more bytes than a call takes arguments
  pub btoa : Bytes → Option Text
  pub atob : Text → Option Bytes

-- The rules of the standard for the uses of a private key: an operation for which the key has no
-- use throws, and a key has no use that was not asked for.
pub record ChecksUsages {Key : Type 0} (W : WebCrypto Key) : Type 0 where
  pub derive_refused :
      (peer own : Key) (n : ℕ) → derives_bits (W.usages own) ≡ false → W.derive peer own n ≡ none
  pub import_asked :
      (t : Text) (us : List Usage) (k : Key)
      → derives_bits us ≡ false
      → W.import_jwk t us ≡ some k
      → derives_bits (W.usages k) ≡ false
  pub generate_asked :
      (seed : ℕ) (us : List Usage) (k p : Key)
      → derives_bits us ≡ false
      → W.generate seed us ≡ some (k, p)
      → derives_bits (W.usages k) ≡ false
