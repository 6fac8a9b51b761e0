-- ===== src/Js/Text.antt =====
-- JavaScript strings, as lists of their UTF-16 code units.
use Prim.Native.Char.{code}
use wifi_chat.Base.{
  leb, not, ◌||◌, Option, none, some, drop, length, is_some, ◌≡◌, zero, suc, ℕ, ◌+◌, ◌-◌, ◌/◌, ◌%◌,
  String, refl, ◌↔◌, Bool, true, false, ◌&&◌, List, [], ◌∷◌, ◌++◌, arith, ltb, ◌==◌, ==_iff,
  if◌then◌else◌,
}

abbrev pub Text : Type 0
Text = List ℕ

-- A character above the basic plane is a pair of surrogates.
utf16 : ℕ → Text → Text
utf16 c rest =
    if ltb c 0x10000
    then c ∷ rest
    else (0xD800 + (c - 0x10000) / 0x400) ∷ (0xDC00 + (c - 0x10000) % 0x400) ∷ rest

-- A string literal.
unfoldable pub js : String → Text
unfolding utf16
js String.[] = []
js (String.◌∷◌ c s) = utf16 (code c) (js s)

-- `a === b`
unfoldable pub str_eq : Text → Text → Bool
str_eq [] [] = true
str_eq (a ∷ s) (b ∷ t) = a == b && str_eq s t
str_eq [] (b ∷ t) = false
str_eq (a ∷ s) [] = false

pub str_eq_iff : (s t : Text) → (str_eq s t ≡ true) ↔ (s ≡ t)
unfolding str_eq
str_eq_iff [] [] = (λ _. refl, λ _. refl)
str_eq_iff (a ∷ s) (b ∷ t) = ground (arith, ==_iff a b, str_eq_iff s t)
str_eq_iff [] (b ∷ t) = (λ h. cc, λ h. cc)
str_eq_iff (a ∷ s) [] = (λ h. cc, λ h. cc)

pub str_eq_refl : (s : Text) → str_eq s s ≡ true
str_eq_refl s = (str_eq_iff s s).1 refl

-- An empty string is falsy.
abbrev pub truthy : Text → Bool
truthy [] = false
truthy (c ∷ s) = true

-- `a || b`
abbrev pub or_else : Text → Text → Text
or_else s t = if truthy s then s else t

-- `s.startsWith(p)`
unfoldable pub starts_with : Text → Text → Bool
starts_with [] s = true
starts_with (c ∷ p) [] = false
starts_with (c ∷ p) (d ∷ s) = c == d && starts_with p s

pub starts_with-append : (p s : Text) → starts_with p (p ++ s) ≡ true
unfolding starts_with
starts_with-append [] s = refl
starts_with-append (c ∷ p) s = ground (arith, starts_with-append p s)

-- `String(n)`; the fuel is more than the number of digits.
unfoldable pub digits_of : ℕ → ℕ → Text → Text
digits_of zero n acc = acc
digits_of (suc fuel) n acc =
    let rest = digits_of fuel (n / 10) ((b'0' + n % 10) ∷ acc) in
    if ltb n 10 then (b'0' + n) ∷ acc else rest

unfoldable pub show_number : ℕ → Text
unfolding digits_of
show_number n = digits_of (suc n) n []

-- `\s` of a regular expression.
unfoldable pub is_space : ℕ → Bool
is_space u =
    leb 9 u && leb u 13
    || u == 0x20
    || u == 0xA0
    || u == 0x1680
    || leb 0x2000 u && leb u 0x200A
    || u == 0x2028
    || u == 0x2029
    || u == 0x202F
    || u == 0x205F
    || u == 0x3000
    || u == 0xFEFF

-- Whether a character with the property stands in a text.
abbrev pub has_any : (ℕ → Bool) → Text → Bool
has_any p [] = false
has_any p (c ∷ s) = p c || has_any p s

-- `s.trimEnd()` and `s.trim()`; the whitespace is that of `\s`.
unfoldable pub trim_start : Text → Text
trim_start [] = []
trim_start (c ∷ s) = let rest = trim_start s in if is_space c then rest else c ∷ s

unfoldable pub trim_end : Text → Text
unfolding is_space
trim_end [] = []
trim_end (c ∷ s) = let rest = trim_end s in if is_space c && not (truthy rest) then [] else c ∷ rest

abbrev pub trim : Text → Text
trim s = trim_end (trim_start s)

-- `s.indexOf(p)`, as the parts of `s` around the first `p`.
unfoldable pub split_at : Text → Text → Option (Text × Text)
unfolding starts_with
split_at p [] = if truthy p then none else some ([], [])
split_at p (c ∷ s) =
    let rest = split_at p s in
    if starts_with p (c ∷ s)
    then some ([], drop (length p) (c ∷ s))
    else elim rest [ none ↦ none | some (a, b) ↦ some (c ∷ a, b) ]

abbrev pub contains : Text → Text → Bool
contains p s = is_some (split_at p s)

-- The replacement text of `s.replace(p, r)`: `$$`, `$&`, `$` with a backquote and `$'` stand for a
-- dollar, the match, and what is before and after it.
unfoldable pub expand : Text → Text → Text → Text → Text
expand found pre post [] = []
expand found pre post (c ∷ []) = c ∷ []
expand found pre post (c ∷ d ∷ r) =
    let rest = expand found pre post r in
    let plain = c ∷ expand found pre post (d ∷ r) in
    if not (c == b'$')
    then plain
    else if d == b'$'
    then b'$' ∷ rest
    else if d == b'&'
    then found ++ rest
    else if d == b'`'
    then pre ++ rest
    else if d == b'\''
    then post ++ rest
    else plain

-- `s.replace(p, r)`, for texts `p` and `r`.
unfoldable pub replace : Text → Text → Text → Text
unfolding split_at expand
replace p r s = elim (split_at p s) [ none ↦ s | some (a, b) ↦ a ++ (expand p a b r ++ b) ]
