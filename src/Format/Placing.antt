-- ===== src/Format/Placing.antt =====
-- Texts in which NUL characters stand only round placeholders (frontend/codeformat.js).
use wifi_chat.Base.{
  ℕ, zero, suc, ◌+◌, ◌/◌, ◌%◌, ◌≡◌, refl, sym, ap, ◌∙◌, ◌==◌, Bool, true, false, not, ◌&&◌, ◌||◌,
  [], ◌∷◌, ◌++◌, drop, length, none, some, Option, inl, inr, Option-cases, if◌then◌else◌,
  append_assoc, append-nil, arith,
}
use wifi_chat.Js.Text.{Text, js, has_any, show_number, digits_of, starts_with, truthy}
use wifi_chat.Js.Scan.{Hit, scan, fill, scan-none, scan-some}
use wifi_chat.Format.Message.{
  is_name, block_name, inline_name, placeholder, is_digit, match_inline, until_backquote,
}
use wifi_chat.Format.Substitution.{show_number-plain, has_any-append}

-- Outside of placeholders, or inside of one, with what of it was read. No backquote is inside.
unfoldable pub well_placed : Option Text → Text → Bool
well_placed none [] = true
well_placed none (c ∷ s) =
    let inside = well_placed (some []) s in
    let outside = well_placed none s in if c == 0 then inside else outside
well_placed (some name) [] = false
well_placed (some name) (c ∷ s) =
    let closed = is_name name && well_placed none s in
    let more = not (c == b'`') && well_placed (some (name ++ c ∷ [])) s in
    if c == 0 then closed else more

abbrev pub is_nul : ℕ → Bool
is_nul c = c == 0

-- Characters that may not be inside.
abbrev is_outer : ℕ → Bool
is_outer c = c == 0 || c == b'`'

pub well_placed-plain : (s : Text) → has_any is_nul s ≡ false → well_placed none s ≡ true
unfolding well_placed
well_placed-plain [] h = refl
well_placed-plain (c ∷ s) h = ground (arith, well_placed-plain s)

well_placed-inside :
    (name t s : Text)
    → has_any is_outer t ≡ false
    → is_name (name ++ t) ≡ true
    → well_placed none s ≡ true
    → well_placed (some name) (t ++ 0 ∷ s) ≡ true
unfolding well_placed
well_placed-inside name [] s h n w = ground (arith, append-nil name)
well_placed-inside name (c ∷ t) s h n w =
    ground (arith, append_assoc name (c ∷ []) t, well_placed-inside (name ++ c ∷ []) t s)

-- After a backquote the text goes on outside.
well_placed-after :
    (st : Option Text) (u v : Text)
    → well_placed st (u ++ b'`' ∷ v) ≡ true
    → well_placed none v ≡ true
unfolding well_placed
well_placed-after none [] v h = h
well_placed-after (some name) [] v h = ground arith
well_placed-after none (c ∷ u) v h =
    ground (arith, well_placed-after none u v, well_placed-after (some []) u v)
well_placed-after (some name) (c ∷ u) v h =
    ground (arith, well_placed-after none u v, well_placed-after (some (name ++ c ∷ [])) u v)

until_backquote-splits :
    (s code : Text) → until_backquote s ≡ some code → s ≡ code ++ b'`' ∷ drop (suc (length code)) s
unfolding until_backquote
until_backquote-splits [] code h = ground arith
until_backquote-splits (c ∷ s) code h = elim (Option-cases (until_backquote s)) [
  | inl e ↦ ground (arith, e)
  | inr (u, e) ↦ ground (arith, e, until_backquote-splits s u e)
]

-- The names of the placeholders.
all_digits_lem : (n : ℕ) → has_any (λ c. not (is_digit c)) (show_number n) ≡ false
all_digits_lem n = show_number-plain (λ c. not (is_digit c)) n (λ c k. ground arith)

truthy-digits_of :
    (fuel n : ℕ) (acc : Text) → truthy acc ≡ true → truthy (digits_of fuel n acc) ≡ true
unfolding digits_of
truthy-digits_of zero n acc h = h
truthy-digits_of (suc fuel) n acc h =
    ground (arith, truthy-digits_of fuel (n / 10) ((b'0' + n % 10) ∷ acc))

truthy-show_number : (n : ℕ) → truthy (show_number n) ≡ true
unfolding show_number digits_of
truthy-show_number n = ground (arith, truthy-digits_of n (n / 10) ((b'0' + n % 10) ∷ []))

is_name-block : (n : ℕ) → is_name (block_name ++ show_number n) ≡ true
unfolding is_name js starts_with
is_name-block n = ground (arith, all_digits_lem n, truthy-show_number n)

is_name-inline : (n : ℕ) → is_name (inline_name ++ show_number n) ≡ true
unfolding is_name js starts_with
is_name-inline n = ground (arith, all_digits_lem n, truthy-show_number n)

-- A name whose numbers make names of placeholders.
pub record IsKind (name : Text) : Type 0 where
  pub plain : has_any is_outer name ≡ false
  pub named : (n : ℕ) → is_name (name ++ show_number n) ≡ true

block-IsKind : IsKind block_name
unfolding js
block-IsKind = record { plain = refl; named = is_name-block }

inline-IsKind : IsKind inline_name
unfolding js
inline-IsKind = record { plain = refl; named = is_name-inline }

well_placed-placeholder :
    (name : Text) (n : ℕ) (s : Text)
    → IsKind name
    → well_placed none s ≡ true
    → well_placed none (placeholder name n ++ s) ≡ true
unfolding well_placed
well_placed-placeholder name n s k w =
    let whole : name ++ show_number n ++ 0 ∷ s ≡ name ++ (show_number n ++ 0 ∷ []) ++ s =
      simp append_assoc in
    let outer =
      has_any-append is_outer name (show_number n) k.plain
        (show_number-plain is_outer n (λ c h. ground arith)) in
    ap (well_placed (some [])) (sym whole)
    ∙ well_placed-inside [] (name ++ show_number n) s outer (k.named n) w

well_placed-char :
    (c : ℕ) (s : Text)
    → (c == 0) ≡ false
    → well_placed none s ≡ true
    → well_placed none (c ∷ s) ≡ true
unfolding well_placed
well_placed-char c s h w = ground arith

-- What is read next, if what follows it stays well placed in every state.
well_placed-next :
    (st : Option Text) (c : ℕ) (s t : Text)
    → well_placed st (c ∷ s) ≡ true
    → ((st' : Option Text) → well_placed st' s ≡ true → well_placed st' t ≡ true)
    → well_placed st (c ∷ t) ≡ true
unfolding well_placed
well_placed-next none c s t h f = ground (arith, f none, f (some []))
well_placed-next (some name) c s t h f = ground (arith, f none, f (some (name ++ c ∷ [])))

match_inline-code :
    (c : ℕ) (s : Text) (m : Hit Text)
    → match_inline (c ∷ s) ≡ some m
    → ((c == b'`') ≡ true) × (u : Text) × (until_backquote s ≡ some u) × (m.more ≡ suc (length u))
unfolding match_inline
match_inline-code c s m e = elim (Option-cases (until_backquote s)) [
  | inl f ↦ absurd (ground (arith, f, e))
  | inr (u, f) ↦ (ground (arith, f, e), u, f, ground (arith, f, e))
]

well_placed-tick :
    (st : Option Text) (c : ℕ) (s : Text)
    → (c == b'`') ≡ true
    → well_placed st (c ∷ s) ≡ true
    → (st ≡ none) × (well_placed none s ≡ true)
unfolding well_placed
well_placed-tick none c s t h = ground arith
well_placed-tick (some name) c s t h = ground arith

-- A match of the second pass begins and ends outside.
match_inline-outside :
    (st : Option Text) (c : ℕ) (s : Text) (m : Hit Text)
    → well_placed st (c ∷ s) ≡ true
    → match_inline (c ∷ s) ≡ some m
    → (st ≡ none) × (well_placed none (drop m.more s) ≡ true)
match_inline-outside st c s m h e =
    let (tick, u, f, n) = match_inline-code c s m e in
    let splits = until_backquote-splits s u f in
    let outside = well_placed-tick st c s tick h in
    let after =
      well_placed-after none u (drop (suc (length u)) s)
        (ap (well_placed none) (sym splits) ∙ outside.1) in
    (outside.0, ap (λ k. well_placed none (drop k s)) n ∙ after)

-- The first pass, over a message without NUL characters.
pub fill-well_placed :
    {A : Type 0} (match : Text → Option (Hit A)) (n k : ℕ) (s : Text)
    → has_any is_nul s ≡ false
    → well_placed none (fill (placeholder block_name) n (scan match k s)) ≡ true
unfolding scan fill
fill-well_placed match n k [] h = unfold well_placed in refl
fill-well_placed match n (suc k) (c ∷ s) h = fill-well_placed match n k s (ground arith)
fill-well_placed match n zero (c ∷ s) h = elim (Option-cases (match (c ∷ s))) [
  | inl e ↦
      ap (λ ps. well_placed none (fill (placeholder block_name) n ps)) (scan-none match c s e)
      ∙ well_placed-char c (fill (placeholder block_name) n (scan match 0 s)) (ground arith)
          (fill-well_placed match n 0 s (ground arith))
  | inr (m, e) ↦
      ap (λ ps. well_placed none (fill (placeholder block_name) n ps)) (scan-some match c s m e)
      ∙ well_placed-placeholder block_name n
          (fill (placeholder block_name) (suc n) (scan match m.more s)) block-IsKind
          (fill-well_placed match (suc n) m.more s (ground arith))
]

-- The second pass, over a text that the first pass leaves; a match lies outside of placeholders.
pub ticks-well_placed :
    (n k : ℕ) (s : Text) (st : Option Text)
    → well_placed st (drop k s) ≡ true
    → well_placed st (fill (placeholder inline_name) n (scan match_inline k s)) ≡ true
unfolding scan fill
ticks-well_placed n zero [] st h = h
ticks-well_placed n (suc k) [] st h = h
ticks-well_placed n (suc k) (c ∷ s) st h = ticks-well_placed n k s st h
ticks-well_placed n zero (c ∷ s) st h = elim (Option-cases (match_inline (c ∷ s))) [
  | inl e ↦
      ap (λ ps. well_placed st (fill (placeholder inline_name) n ps)) (scan-none match_inline c s e)
      ∙ well_placed-next st c s (fill (placeholder inline_name) n (scan match_inline 0 s)) h
          (λ st' h'. ticks-well_placed n 0 s st' h')
  | inr (m, e) ↦
      let (outside, after) = match_inline-outside st c s m h e in
      let rest = ticks-well_placed (suc n) m.more s none after in
      ap (λ ps. well_placed st (fill (placeholder inline_name) n ps))
        (scan-some match_inline c s m e)
      ∙ ap
          (λ st'. well_placed st' (
            placeholder inline_name n
            ++ fill (placeholder inline_name) (suc n) (scan match_inline m.more s)))
          outside
      ∙ well_placed-placeholder inline_name n
          (fill (placeholder inline_name) (suc n) (scan match_inline m.more s)) inline-IsKind rest
]
