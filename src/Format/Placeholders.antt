-- ===== src/Format/Placeholders.antt =====
-- The pass of frontend/codeformat.js that escapes what stands between the placeholders.
use mathlib.Core.Path.{subst}
use wifi_chat.Base.{
  ℕ, zero, suc, ◌≡◌, refl, sym, ap, ◌∙◌, ◌==◌, true, false, not, ◌&&◌, [], ◌∷◌, ◌++◌, All, drop,
  length, none, some, Option, inl, inr, ◌⊎◌, Bool-cases, append_assoc, append-nil, arith,
}
use wifi_chat.Js.Text.{Text, js, has_any, starts_with, split_at}
use wifi_chat.Js.Scan.{Piece, char, hit, scan, scan-none, scan-some}
use wifi_chat.Format.Message.{
  is_name, is_digit, all_digits, block_name, inline_name, match_placeholder,
}
use wifi_chat.Format.Markup.{is_lt}
use wifi_chat.Format.Plain.{match_placeholder-none, split_at-append}
use wifi_chat.Format.Substitution.{has_any-append, drop-starts_with}
use wifi_chat.Format.Placing.{well_placed, is_nul}

digits-plain : (s : Text) → has_any (λ c. not (is_digit c)) s ≡ false → has_any is_lt s ≡ false
digits-plain [] h = refl
digits-plain (c ∷ s) h = ground (arith, digits-plain s)

named-plain :
    (name u : Text)
    → has_any is_lt name ≡ false
    → starts_with name u ≡ true
    → has_any (λ c. not (is_digit c)) (drop (length name) u) ≡ false
    → has_any is_lt u ≡ false
named-plain name u plain h d =
    ap (has_any is_lt) (sym (drop-starts_with name u h))
    ∙ has_any-append is_lt name (drop (length name) u) plain (digits-plain (drop (length name) u) d)

is_name-cases :
    (u : Text)
    → is_name u ≡ true
    → ((starts_with block_name u ≡ true) × (has_any (λ c. not (is_digit c)) (drop 9 u) ≡ false))
      ⊎ ((starts_with inline_name u ≡ true) × (has_any (λ c. not (is_digit c)) (drop 6 u) ≡ false))
unfolding is_name
is_name-cases u h = elim (Bool-cases (starts_with block_name u && all_digits (drop 9 u))) [
  | inl e ↦ inl (ground arith)
  | inr e ↦ inr (ground arith)
]

is_name-plain : (u : Text) → is_name u ≡ true → has_any is_lt u ≡ false
unfolding js
is_name-plain u h = elim (is_name-cases u h) [
  | inl (e, d) ↦ named-plain block_name u refl e d
  | inr (e, d) ↦ named-plain inline_name u refl e d
]

-- What is inside a placeholder ends it.
well_placed-splits :
    (name s : Text)
    → well_placed (some name) s ≡ true
    → (u : Text) × (v : Text) × (s ≡ u ++ 0 ∷ v)
      × (has_any is_nul u ≡ false)
      × (is_name (name ++ u) ≡ true)
      × (well_placed none v ≡ true)
unfolding well_placed
well_placed-splits name [] h = absurd (cc)
well_placed-splits name (c ∷ s) h = elim (Bool-cases (c == 0)) [
  | inl e ↦ ([], s, ground (arith, e), refl, ground (arith, e, append-nil name), ground (arith, e))
  | inr e ↦
      let (u, v, splits, plain, named, after) =
        well_placed-splits (name ++ c ∷ []) s (ground (arith, e)) in
      (
        c ∷ u,
        v,
        ap (λ t. c ∷ t) splits,
        ground (arith, e, plain),
        ground (arith, named, append_assoc name (c ∷ []) u),
        after,
      )
]

-- A piece of a text that is well placed: no NUL character outside, and no `<` inside.
abbrev pub PieceOk : Piece Text → Type 0
PieceOk (char c) = (c == 0) ≡ false
PieceOk (hit p) = has_any is_lt p ≡ false

well_placed-outside :
    (c : ℕ) (s : Text)
    → (c == 0) ≡ false
    → well_placed none (c ∷ s) ≡ true
    → well_placed none s ≡ true
unfolding well_placed
well_placed-outside c s e h = ground (arith, h)

well_placed-opens :
    (c : ℕ) (s : Text)
    → (c == 0) ≡ true
    → well_placed none (c ∷ s) ≡ true
    → well_placed (some []) s ≡ true
unfolding well_placed
well_placed-opens c s e h = ground (arith, h)

split_here :
    (u v : Text)
    → elim (split_at (0 ∷ []) (0 ∷ v)) as (λ _. Option (Text × Text)) [
      | none ↦ none
      | some (a, b) ↦ some (u ++ a, b)
    ]
      ≡ some (u, v)
unfolding split_at starts_with
split_here u v = ap (λ t. some (t, v)) (append-nil u)

drop-behind : (u v : Text) → drop (suc (length u)) (u ++ 0 ∷ v) ≡ v
drop-behind [] v = refl
drop-behind (c ∷ u) v = drop-behind u v

match_placeholder-found :
    (c : ℕ) (s u v : Text)
    → (c == 0) ≡ true
    → s ≡ u ++ 0 ∷ v
    → has_any is_nul u ≡ false
    → is_name u ≡ true
    → match_placeholder (c ∷ s) ≡ some (record { value = 0 ∷ (u ++ 0 ∷ []); more = suc (length u) })
unfolding match_placeholder
match_placeholder-found c s u v e splits plain named =
    let found : split_at (0 ∷ []) s ≡ some (u, v) =
      ap (split_at (0 ∷ [])) splits ∙ split_at-append 0 [] u (0 ∷ v) plain ∙ split_here u v in
    ground (arith, found, named)

pub placeholders-ok :
    (k : ℕ) (s : Text)
    → well_placed none (drop k s) ≡ true
    → All PieceOk (scan match_placeholder k s)
unfolding scan
placeholders-ok zero [] h = record {}
placeholders-ok (suc k) [] h = record {}
placeholders-ok (suc k) (c ∷ s) h = placeholders-ok k s h
placeholders-ok zero (c ∷ s) h = elim (Bool-cases (c == 0)) [
  | inr e ↦
      subst (All PieceOk) (sym (scan-none match_placeholder c s (match_placeholder-none c s e)))
        (e, placeholders-ok 0 s (well_placed-outside c s e h))
  | inl e ↦
      let (u, v, splits, plain, named, after) =
        well_placed-splits [] s (well_placed-opens c s e h) in
      let found = match_placeholder-found c s u v e splits plain named in
      subst (All PieceOk) (sym (scan-some match_placeholder c s _ found)) (
        has_any-append is_lt u (0 ∷ []) (is_name-plain u named) refl,
        placeholders-ok (suc (length u)) s
            (ap (well_placed none) (ap (drop (suc (length u))) splits ∙ drop-behind u v) ∙ after),
      )
]
