-- ===== src/Crypto/Fingerprint.antt =====
-- `getFingerprint` of frontend/crypto.js, and what two users learn who compare fingerprints.
use wifi_chat.Base.{
  ℕ, ◌<◌, ◌+◌, ◌*◌, ◌-◌, ◌/◌, ◌%◌, ◌≡◌, ◌∙◌, sym, ap, refl, Bool, true, not, ◌&&◌, ◌==◌, leb, ltb,
  Option, none, some, [], ◌∷◌, map, filter, if◌then◌else◌, arith, All,
}
use wifi_chat.Js.Text.{Text, js, str_eq, truthy}
use wifi_chat.Js.Dict.{get}
use wifi_chat.Crypto.Web.{Bytes, WebCrypto}
use wifi_chat.Crypto.Manager.{Manager, then_some}

-- `b.toString(16).padStart(2, '0')` of a byte.
unfoldable pub hex_digit : ℕ → ℕ
hex_digit n = if ltb n 10 then b'0' + n else b'a' + (n - 10)

unfoldable pub hex : Bytes → Text
hex [] = []
hex (b ∷ bs) = hex_digit (b / 16) ∷ hex_digit (b % 16) ∷ hex bs

-- `hex.match(/.{1,4}/g).join(' ')`, where there is a match.
unfoldable pub in_fours : Text → Text
in_fours (a ∷ b ∷ c ∷ d ∷ e ∷ s) = a ∷ b ∷ c ∷ d ∷ b' ' ∷ in_fours (e ∷ s)
in_fours s = s

-- `toUpperCase`, on digits and Latin letters.
unfoldable pub upper : ℕ → ℕ
upper c = if leb b'a' c && leb c b'z' then c - 32 else c

-- No byte has no match, and `null.join` throws.
unfoldable pub format_hash : Bytes → Option Text
format_hash [] = none
format_hash (b ∷ bs) = some (map upper (in_fours (hex (b ∷ bs))))

abbrev pub or_missing : Option Text → Text
or_missing none = []
or_missing (some t) = t

-- The key that is shown: the own one, or the saved one of a peer.
abbrev pub key_for : {Key : Type 0} → Text → Manager Key → Text
key_for user m =
    if str_eq user m.my_username then m.public_key else or_missing (get user m.saved_peers)

-- The text that is shown, or `none` if the method throws.
unfoldable pub get_fingerprint : {Key : Type 0} → WebCrypto Key → Text → Manager Key → Option Text
unfolding format_hash
get_fingerprint W user m =
    if not m.available
    then some []
    else if not (truthy (key_for user m))
    then some (js "No key available")
    else then_some (W.atob (key_for user m)) (λ raw. format_hash (W.digest raw))

-- Reading a fingerprint: the spaces go, and two digits make a byte.
abbrev not_space : ℕ → Bool
not_space c = not (c == b' ')

abbrev value_of : ℕ → ℕ
value_of c = if ltb c 58 then c - 48 else c - 55

unfoldable unhex : Text → Bytes
unhex (a ∷ b ∷ s) = (value_of a * 16 + value_of b) ∷ unhex s
unhex _ = []

value_of-upper : (n : ℕ) → n < 16 → value_of (upper (hex_digit n)) ≡ n
unfolding upper hex_digit
value_of-upper n h = ground arith

unhex-hex : (bs : Bytes) → All (λ b. b < 256) bs → unhex (map upper (hex bs)) ≡ bs
unfolding unhex hex
unhex-hex [] h = refl
unhex-hex (b ∷ bs) h =
    let high = value_of-upper (b / 16) (omega (arith, h.0)) in
    let low = value_of-upper (b % 16) (omega arith) in ground (arith, high, low, unhex-hex bs h.1)

-- Characters that are no spaces, neither as they are nor in upper case.
abbrev Plain : ℕ → Type 0
Plain c = not_space (upper c) ≡ true

filter-in_fours : (s : Text) → All Plain s → filter not_space (map upper (in_fours s)) ≡ map upper s
unfolding filter in_fours upper
filter-in_fours (a ∷ b ∷ c ∷ d ∷ e ∷ s) h = ground (arith, filter-in_fours (e ∷ s) h.1.1.1.1)
filter-in_fours [] h = refl
filter-in_fours (a ∷ []) h = ground (arith, h)
filter-in_fours (a ∷ b ∷ []) h = ground (arith, h)
filter-in_fours (a ∷ b ∷ c ∷ []) h = ground (arith, h)
filter-in_fours (a ∷ b ∷ c ∷ d ∷ []) h = ground (arith, h)

hex_digit-Plain : (n : ℕ) → n < 16 → Plain (hex_digit n)
unfolding upper hex_digit
hex_digit-Plain n h = ground arith

hex-Plain : (bs : Bytes) → All (λ b. b < 256) bs → All Plain (hex bs)
unfolding hex
hex-Plain [] h = record {}
hex-Plain (b ∷ bs) h = (
  hex_digit-Plain (b / 16) (omega (arith, h.0)),
  (hex_digit-Plain (b % 16) (omega arith), hex-Plain bs h.1),
)

abbrev read_back : Option Text → Bytes
read_back none = []
read_back (some t) = unhex (filter not_space t)

read_back-format_hash : (bs : Bytes) → All (λ b. b < 256) bs → read_back (format_hash bs) ≡ bs
unfolding format_hash
read_back-format_hash [] h = refl
read_back-format_hash (b ∷ bs) h =
    ap unhex (filter-in_fours (hex (b ∷ bs)) (hex-Plain (b ∷ bs) h)) ∙ unhex-hex (b ∷ bs) h

-- Two users whose browsers hold a key for the names that they ask for, and show the same
-- fingerprint, hold keys with the same hash, if a hash consists of bytes.
pub get_fingerprint-same :
    {Key : Type 0} (W : WebCrypto Key) (u v : Text) (ra rb : Bytes) (a b : Manager Key)
    → ((raw : Bytes) → All (λ n. n < 256) (W.digest raw))
    → a.available ≡ true
    → b.available ≡ true
    → truthy (key_for u a) ≡ true
    → truthy (key_for v b) ≡ true
    → W.atob (key_for u a) ≡ some ra
    → W.atob (key_for v b) ≡ some rb
    → get_fingerprint W u a ≡ get_fingerprint W v b
    → W.digest ra ≡ W.digest rb
unfolding get_fingerprint
get_fingerprint-same W u v ra rb a b bytes ona onb fa fb reada readb same =
    let same' : format_hash (W.digest ra) ≡ format_hash (W.digest rb) = ground (arith, same) in
    sym (read_back-format_hash (W.digest ra) (bytes ra))
    ∙ ap read_back same'
    ∙ read_back-format_hash (W.digest rb) (bytes rb)
