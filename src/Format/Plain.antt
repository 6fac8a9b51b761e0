-- ===== src/Format/Plain.antt =====
-- Characters that mean nothing to the passes of `formatMessage` (frontend/codeformat.js).
use wifi_chat.Base.{ℕ, ◌≡◌, refl, ◌==◌, false, [], ◌∷◌, ◌++◌, none, some, arith}
use wifi_chat.Js.Text.{Text, js, has_any, split_at, starts_with, replace, expand}
use wifi_chat.Format.Message.{match_fence, match_inline, match_placeholder, break_lines}

pub match_fence-none : (c : ℕ) (t : Text) → (c == b'`') ≡ false → match_fence (c ∷ t) ≡ none
unfolding match_fence js starts_with
match_fence-none c t h = ground arith

pub match_inline-none : (c : ℕ) (t : Text) → (c == b'`') ≡ false → match_inline (c ∷ t) ≡ none
unfolding match_inline
match_inline-none c t h = ground arith

pub match_placeholder-none :
    (c : ℕ) (t : Text) → (c == 0) ≡ false → match_placeholder (c ∷ t) ≡ none
unfolding match_placeholder
match_placeholder-none c t h = ground arith

pub break_lines-append :
    (p s : Text) → has_any (λ c. c == b'\n') p ≡ false → break_lines (p ++ s) ≡ p ++ break_lines s
unfolding break_lines
break_lines-append [] s h = refl
break_lines-append (c ∷ p) s h = ground (arith, break_lines-append p s)

-- The first occurrence of a text that begins with a character is not before that character.
pub split_at-append :
    (c : ℕ) (pat p s : Text)
    → has_any (λ d. d == c) p ≡ false
    → split_at (c ∷ pat) (p ++ s)
      ≡ elim (split_at (c ∷ pat) s) [ none ↦ none | some (a, b) ↦ some (p ++ a, b) ]
unfolding split_at starts_with
split_at-append c pat [] s h = ground arith
split_at-append c pat (d ∷ p) s h = ground (arith, split_at-append c pat p s)

pub replace-found :
    (pat r s a b : Text)
    → split_at pat s ≡ some (a, b)
    → replace pat r s ≡ a ++ (expand pat a b r ++ b)
unfolding replace
replace-found pat r s a b h = ground (arith, h)

pub replace-missing : (pat r s : Text) → split_at pat s ≡ none → replace pat r s ≡ s
unfolding replace
replace-missing pat r s h = ground (arith, h)
