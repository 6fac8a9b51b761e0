-- ===== src/Format/Tokens.antt =====
-- The matches of the token rules of frontend/codeformat.js, and the highlighted code.
use mathlib.Core.Path.{subst}
use wifi_chat.Base.{
  ℕ, zero, suc, ◌-◌, ◌≤◌, ◌<◌, ◌≡◌, refl, sym, List, [], ◌∷◌, ◌++◌, All, All-append, All-map, some,
  inl, inr, Option-cases, length, take, drop, append-nil, arith,
}
use wifi_chat.Js.Text.{Text, or_else}
use wifi_chat.Format.Highlight.{Token}
use wifi_chat.Format.Rules.{Rule, Match, Regexes, token_rules, token_of, exec_all, collect}
use wifi_chat.Format.Splicing.{Inside}

-- What `exec` finds from a position on: a match that is not empty, lies in the text behind the
-- position, and has its group in it.
pub record IsMatch (html : Text) (last : ℕ) (m : Match) : Type 0 where
  pub behind : last ≤ m.start
  pub not_empty : m.start < m.end
  pub inside : m.end ≤ length html
  pub is_full : m.full ≡ take (m.end - m.start) (drop m.start html)
  pub has_group : (a : Text) × (b : Text) × (m.full ≡ a ++ (m.group ++ b))

pub record Matching (R : Regexes) : Type 0 where
  pub found :
      (rule : Rule) (html : Text) (last : ℕ) (m : Match)
      → R.exec rule html last ≡ some m
      → IsMatch html last m

-- A token that was matched in a text.
pub record IsToken (html : Text) (r : Token) : Type 0 where
  pub inside : Inside html r
  pub is_full : r.full_match ≡ take (r.end - r.start) (drop r.start html)
  pub has_text : (a : Text) × (b : Text) × (r.full_match ≡ a ++ (r.text ++ b))

or_else-part :
    (group full : Text)
    → (a : Text) × (b : Text) × (full ≡ a ++ (group ++ b))
    → (a : Text) × (b : Text) × (full ≡ a ++ (or_else group full ++ b))
or_else-part [] full h = ([], [], sym (append-nil full))
or_else-part (c ∷ group) full h = h

module _ (R : Regexes) (laws : Matching R) where
  token_of-IsToken :
      (html class_name : Text) (last : ℕ) (m : Match)
      → IsMatch html last m
      → IsToken html (token_of R class_name m)
  token_of-IsToken html class_name last m h = record {
    inside = (omega (arith, h.not_empty), h.inside);
    is_full = h.is_full;
    has_text = or_else-part m.group m.full h.has_group;
  }

  pub exec_all-ends :
      (fuel : ℕ) (rule : Rule) (class_name html : Text) (last : ℕ)
      → length html - last < fuel
      → (rs : List Token) × (exec_all R fuel rule class_name html last ≡ some rs)
        × All (λ r. IsToken html r × (r.class_name ≡ class_name)) rs
  unfolding exec_all
  exec_all-ends zero rule class_name html last h = absurd (omega arith)
  exec_all-ends (suc fuel) rule class_name html last h =
      elim (Option-cases (R.exec rule html last)) [
        | inl e ↦ ([], ground (arith, e), record {})
        | inr (m, e) ↦
            let ok = laws.found rule html last m e in
            let (rs, all, tokens) =
              exec_all-ends fuel rule class_name html m.end
                (omega (arith, ok.behind, ok.not_empty, ok.inside)) in
            (
              token_of R class_name m ∷ rs,
              ground (arith, e, all),
              ((token_of-IsToken html class_name last m ok, refl), tokens),
            )
      ]

module _ (R : Regexes) (laws : Matching R) (C : Text → Type 0) where
  -- A token whose class has a property.
  abbrev pub IsClassed : Text → Token → Type 0
  IsClassed html r = IsToken html r × C r.class_name

  classed :
      (html class_name : Text) (rs : List Token)
      → C class_name
      → All (λ r. IsToken html r × (r.class_name ≡ class_name)) rs
      → All (IsClassed html) rs
  classed html class_name [] c h = h
  classed html class_name (r ∷ rs) c h =
      ((h.0.0, subst C (sym h.0.1) c), classed html class_name rs c h.1)

  pub collect-ends :
      (rules : List (Rule × Text)) (html : Text)
      → All (λ e. C (e.1)) rules
      → (rs : List Token) × (collect R rules html ≡ some rs) × All (IsClassed html) rs
  unfolding collect
  collect-ends [] html c = ([], refl, record {})
  collect-ends ((rule, class_name) ∷ rules) html c =
      let (rs, found, ok) =
        exec_all-ends R laws (suc (length html)) rule class_name html 0 (omega arith) in
      let (more, rest, oks) = collect-ends rules html c.1 in
      (
        rs ++ more,
        ground (arith, found, rest),
        All-append (IsClassed html) rs more (classed html class_name rs c.0 ok) oks,
      )

-- The loops that collect the matches come to an end, with tokens that stand in the text, if each
-- match of a rule is not empty and lies in the text from `lastIndex` on.
pub collect-total :
    (R : Regexes) (html : Text)
    → Matching R
    → (rs : List Token) × (collect R token_rules html ≡ some rs) × All (IsToken html) rs
collect-total R html laws =
    let (rs, found, ok) = collect-ends R laws (λ _. Unit {0}) token_rules html (_) in
    (rs, found, All-map {P = λ r. IsToken html r × Unit {0}} rs (λ r h. h.0) ok)
