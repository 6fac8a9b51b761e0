-- ===== src/Format/Substitution.antt =====
-- Texts with tags of their own only, through the replacements of frontend/codeformat.js.
use wifi_chat.Base.{
  ◌<◌, ◌+◌, ◌%◌, ◌/◌, ℕ, zero, suc, ◌≡◌, refl, sym, ◌==◌, Bool, true, false, List, [], ◌∷◌, ◌++◌,
  All, some, inl, inr, Option-cases, drop, length, arith,
}
use wifi_chat.Js.Text.{
  show_number, digits_of, Text, js, has_any, starts_with, expand, split_at, replace,
}
use wifi_chat.Format.Message.{break_lines, restore, placeholder}
use wifi_chat.Format.Plain.{replace-found, replace-missing}
use wifi_chat.Format.Markup.{
  own_tags, is_lt, Lack, Keeps, opens-Keeps, own_tags-plain, own_tags-append, own_tags-suffix,
  own_tags-before, own_tags-cons, own_tags-tail,
}

abbrev pub is_dollar : ℕ → Bool
is_dollar c = c == b'$'

abbrev pub is_break : ℕ → Bool
is_break c = c == b'\n'

expand-Keeps : (found pre post : Text) → Keeps is_dollar (expand found pre post)
unfolding expand
expand-Keeps found pre post c [] h = refl
expand-Keeps found pre post c (d ∷ s) h = ground arith

break_lines-Keeps : Keeps is_break break_lines
unfolding break_lines
break_lines-Keeps c s h = ground arith

pub drop-starts_with : (p s : Text) → starts_with p s ≡ true → p ++ drop (length p) s ≡ s
unfolding starts_with
drop-starts_with [] s h = refl
drop-starts_with (c ∷ p) [] h = cc
drop-starts_with (c ∷ p) (d ∷ s) h = ground (arith, drop-starts_with p s)

pub split_at-append_parts : (p s a b : Text) → split_at p s ≡ some (a, b) → s ≡ a ++ (p ++ b)
unfolding split_at
split_at-append_parts [] [] a b h = ground arith
split_at-append_parts (c ∷ p) [] a b h = ground arith
split_at-append_parts p (d ∷ s) a b h = elim (Option-cases (split_at p s)) [
  | inl e ↦ ground (arith, e, drop-starts_with p (d ∷ s))
  | inr ((x, y), e) ↦ ground (arith, e, drop-starts_with p (d ∷ s), split_at-append_parts p s x y e)
]

pub has_any-append :
    (p : ℕ → Bool) (s t : Text)
    → has_any p s ≡ false
    → has_any p t ≡ false
    → has_any p (s ++ t) ≡ false
has_any-append p [] t h k = k
has_any-append p (c ∷ s) t h k = ground (arith, has_any-append p s t)

-- A property that no digit has is that of no number.
digits_of-plain :
    (p : ℕ → Bool) (fuel n : ℕ) (acc : Text)
    → ((c : ℕ) → c < 10 → p (b'0' + c) ≡ false)
    → has_any p acc ≡ false
    → has_any p (digits_of fuel n acc) ≡ false
unfolding digits_of
digits_of-plain p zero n acc d h = h
digits_of-plain p (suc fuel) n acc d h =
    let low = d (n % 10) (omega arith) in
    ground (
      arith,
      d n,
      low,
      digits_of-plain p fuel (n / 10) ((b'0' + n % 10) ∷ acc) d (ground (arith, low)),
    )

pub show_number-plain :
    (p : ℕ → Bool) (n : ℕ)
    → ((c : ℕ) → c < 10 → p (b'0' + c) ≡ false)
    → has_any p (show_number n) ≡ false
unfolding show_number
show_number-plain p n d = digits_of-plain p (suc n) n [] d refl

placeholder-plain :
    (name : Text) (n : ℕ) → has_any is_lt name ≡ false → has_any is_lt (placeholder name n) ≡ false
placeholder-plain name n h = has_any-append is_lt name (show_number n ++ 0 ∷ []) h (
    has_any-append is_lt (show_number n) (0 ∷ []) (show_number-plain is_lt n (λ c k. ground arith))
      refl)

module _ (ts : List Text) where
  pub own_tags-expand :
      (found pre post r : Text)
      → Lack is_dollar ts
      → own_tags ts found ≡ true
      → own_tags ts pre ≡ true
      → own_tags ts post ≡ true
      → own_tags ts r ≡ true
      → own_tags ts (expand found pre post r) ≡ true
  unfolding expand
  own_tags-expand found pre post [] l hf ha hb h = h
  own_tags-expand found pre post (c ∷ []) l hf ha hb h = h
  own_tags-expand found pre post (c ∷ d ∷ r) l hf ha hb h =
      let tail = own_tags-tail ts c (d ∷ r) h in
      let rest = own_tags-expand found pre post r l hf ha hb (own_tags-tail ts d r tail) in
      let next = own_tags-expand found pre post (d ∷ r) l hf ha hb tail in
      let plain =
        own_tags-cons ts c (d ∷ r) (expand found pre post (d ∷ r)) h
          (opens-Keeps is_dollar (expand found pre post) ts (d ∷ r) (expand-Keeps found pre post) l)
          next in
      ground (
        arith,
        plain,
        own_tags-plain ts (b'$' ∷ []) refl,
        own_tags-append ts (b'$' ∷ []) (expand found pre post r),
        own_tags-append ts found (expand found pre post r) hf rest,
        own_tags-append ts pre (expand found pre post r) ha rest,
        own_tags-append ts post (expand found pre post r) hb rest,
      )

  pub own_tags-break_lines :
      (s : Text)
      → Lack is_break ts
      → own_tags ts (js "<br>") ≡ true
      → own_tags ts s ≡ true
      → own_tags ts (break_lines s) ≡ true
  unfolding break_lines
  own_tags-break_lines [] l br h = h
  own_tags-break_lines (c ∷ s) l br h =
      let rest = own_tags-break_lines s l br (own_tags-tail ts c s h) in
      ground (
        arith,
        own_tags-append ts (js "<br>") (break_lines s) br rest,
        own_tags-cons ts c s (break_lines s) h
            (opens-Keeps is_break break_lines ts s break_lines-Keeps l) rest,
      )

  -- A replacement of a text that begins with a character that the tags lack.
  pub own_tags-replace :
      (e : ℕ) (p r s : Text)
      → Lack is_dollar ts
      → Lack (λ c. c == e) ts
      → own_tags ts (e ∷ p) ≡ true
      → own_tags ts r ≡ true
      → own_tags ts s ≡ true
      → own_tags ts (replace (e ∷ p) r s) ≡ true
  own_tags-replace e p r s ld le hp hr hs = elim (Option-cases (split_at (e ∷ p) s)) [
    | inl f ↦ rw (replace-missing (e ∷ p) r s f) hs
    | inr ((a, b), f) ↦
        let whole = split_at-append_parts (e ∷ p) s a b f in
        let all : own_tags ts (a ++ (e ∷ (p ++ b))) ≡ true = rw (sym whole) hs in
        let pre = own_tags-before ts e a (p ++ b) le all in
        let post = own_tags-suffix ts (e ∷ p) b (own_tags-suffix ts a (e ∷ (p ++ b)) all) in
        let put = own_tags-expand (e ∷ p) a b r ld hp pre post hr in
        rw (replace-found (e ∷ p) r s a b f) (
          own_tags-append ts a (expand (e ∷ p) a b r ++ b) pre
            (own_tags-append ts (expand (e ∷ p) a b r) b put post))
  ]

  -- The placeholders begin with a NUL character, and have no `<`.
  pub own_tags-restore :
      (name : Text) (n : ℕ) (blocks : List Text) (s : Text)
      → Lack is_dollar ts
      → Lack (λ c. c == 0) ts
      → has_any is_lt name ≡ false
      → All (λ b. own_tags ts b ≡ true) blocks
      → own_tags ts s ≡ true
      → own_tags ts (restore name n blocks s) ≡ true
  unfolding restore
  own_tags-restore name n [] s ld le lt h hs = hs
  own_tags-restore name n (b ∷ bs) s ld le lt h hs =
      own_tags-restore name (suc n) bs (replace (placeholder name n) b s) ld le lt h.1 (
        own_tags-replace 0 (name ++ (show_number n ++ 0 ∷ [])) b s ld le
          (own_tags-plain ts (placeholder name n) (placeholder-plain name n lt)) h.0 hs)
