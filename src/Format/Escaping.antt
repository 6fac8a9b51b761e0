-- ===== src/Format/Escaping.antt =====
-- The HTML of code in frontend/codeformat.js has no tags but the formatter's.
use wifi_chat.Base.{
  Bool, ℕ, zero, suc, ◌-◌, ◌≡◌, refl, sym, ap, ◌∙◌, true, false, List, [], ◌∷◌, ◌++◌, All, All-map,
  inl, inr, Option-cases, take, drop, arith,
}
use wifi_chat.Js.Text.{Text, js, has_any, split_at}
use wifi_chat.Format.Highlight.{
  Token, sort, without_overlaps, highlighted, mark_token, span, span_end,
}
use wifi_chat.Format.Rules.{Regexes, token_rules, languages, best_of, score, detect_language}
use wifi_chat.Format.Splicing.{read_from, All-sort, All-without_overlaps, highlighted-read_from}
use wifi_chat.Format.Message.{escape_char, escape_html, or_no_tokens, highlight}
use wifi_chat.Format.Markup.{own_tags, is_lt, Lack, own_tags-plain, own_tags-append}
use wifi_chat.Format.Plain.{replace-found, replace-missing}
use wifi_chat.Format.Substitution.{
  is_dollar, own_tags-expand, split_at-append_parts, has_any-append,
}
use wifi_chat.Format.Tokens.{Matching, IsToken, collect-ends}

escape_char-plain : (c : ℕ) → has_any is_lt (escape_char c) ≡ false
unfolding js
escape_char-plain c = ground arith

pub escape_html-plain : (s : Text) → has_any is_lt (escape_html s) ≡ false
unfolding escape_html
escape_html-plain [] = refl
escape_html-plain (c ∷ s) =
    has_any-append is_lt (escape_char c) (escape_html s) (escape_char-plain c) (escape_html-plain s)

module _ (p : ℕ → Bool) where
  has_any-take : (n : ℕ) (s : Text) → has_any p s ≡ false → has_any p (take n s) ≡ false
  has_any-take zero s h = refl
  has_any-take (suc n) [] h = refl
  has_any-take (suc n) (c ∷ s) h = ground (arith, has_any-take n s)

  has_any-drop : (n : ℕ) (s : Text) → has_any p s ≡ false → has_any p (drop n s) ≡ false
  has_any-drop zero s h = h
  has_any-drop (suc n) [] h = refl
  has_any-drop (suc n) (c ∷ s) h = has_any-drop n s (ground arith)

  has_any-parts :
      (s t : Text) → has_any p (s ++ t) ≡ false → (has_any p s ≡ false) × (has_any p t ≡ false)
  has_any-parts [] t h = (refl, h)
  has_any-parts (c ∷ s) t h = ground (arith, has_any-parts s t)

module _ (ts : List Text) (dollars : Lack is_dollar ts)
    (closing : own_tags ts span_end ≡ true) where
  abbrev pub IsClass : Text → Type 0
  IsClass class_name = own_tags ts (span class_name) ≡ true

  mark_token-own :
      (html : Text) (r : Token)
      → has_any is_lt html ≡ false
      → IsToken html r
      → IsClass r.class_name
      → own_tags ts (mark_token r) ≡ true
  unfolding mark_token
  mark_token-own html r plain ok class =
      let full : has_any is_lt r.full_match ≡ false = rw ok.is_full (
        has_any-take is_lt (r.end - r.start) (drop r.start html)
          (has_any-drop is_lt r.start html plain)) in
      let (a, b, part) = ok.has_text in
      let text =
        (has_any-parts is_lt r.text b
          ((has_any-parts is_lt a (r.text ++ b) (ap (has_any is_lt) (sym part) ∙ full)).1)).0 in
      let rep =
        own_tags-append ts (span r.class_name) (r.text ++ span_end) class
          (own_tags-append ts r.text span_end (own_tags-plain ts r.text text) closing) in
      elim (Option-cases (split_at r.text r.full_match)) [
        | inl e ↦
            rw (replace-missing r.text (span r.class_name ++ (r.text ++ span_end)) r.full_match e)
              (own_tags-plain ts r.full_match full)
        | inr ((u, v), e) ↦
            let whole = split_at-append_parts r.text r.full_match u v e in
            let (pre, behind) =
              has_any-parts is_lt u (r.text ++ v) (ap (has_any is_lt) (sym whole) ∙ full) in
            let post = (has_any-parts is_lt r.text v behind).1 in
            let put =
              own_tags-expand ts r.text u v (span r.class_name ++ (r.text ++ span_end)) dollars
                (own_tags-plain ts r.text text) (own_tags-plain ts u pre) (own_tags-plain ts v post)
                rep in
            rw (replace-found r.text (span r.class_name ++ (r.text ++ span_end)) r.full_match u v e)
              (own_tags-append ts u _ (own_tags-plain ts u pre)
                (own_tags-append ts _ v put (own_tags-plain ts v post)))
      ]

  read_from-own :
      (p : ℕ) (s : Text) (rs : List Token)
      → has_any is_lt s ≡ false
      → All (λ r. own_tags ts (mark_token r) ≡ true) rs
      → own_tags ts (read_from mark_token p s rs) ≡ true
  unfolding read_from
  read_from-own p s [] plain h = own_tags-plain ts s plain
  read_from-own p s (r ∷ rs) plain h =
      let before = has_any-take is_lt (r.start - p) s plain in
      let after = has_any-drop is_lt (r.end - p) s plain in
      own_tags-append ts (take (r.start - p) s)
        (mark_token r ++ read_from mark_token r.end (drop (r.end - p) s) rs)
        (own_tags-plain ts (take (r.start - p) s) before)
        (own_tags-append ts (mark_token r) (read_from mark_token r.end (drop (r.end - p) s) rs) h.0
          (read_from-own r.end (drop (r.end - p) s) rs after h.1))

  module _ (R : Regexes) (laws : Matching R) (classes : All (λ e. IsClass (e.1)) token_rules) where
    pub highlight-own : (code : Text) → own_tags ts (highlight R code) ≡ true
    unfolding highlight
    highlight-own code =
        let html = escape_html code in
        let plain = escape_html-plain code in
        let (rs, found, ok) = collect-ends R laws IsClass token_rules html classes in
        let P = λ (r : Token). IsToken html r × IsClass r.class_name in
        let kept = All-without_overlaps P 0 (sort rs) (All-sort P rs ok) in
        let marks =
          All-map {P = P} (without_overlaps 0 (sort rs))
            (λ r h. mark_token-own html r plain h.0 h.1) kept in
        let same =
          highlighted-read_from mark_token rs html (All-map {P = P} rs (λ r h. h.0.inside) ok) in
        ap (λ o. own_tags ts (highlighted mark_token (or_no_tokens o) html)) found
        ∙ ap (own_tags ts) same.0
        ∙ read_from-own 0 html (without_overlaps 0 (sort rs)) plain marks

-- No name of a language has a `<`.
best_of-plain :
    (scored : Text → ℕ) (langs : List Text) (best : Text) (n : ℕ)
    → Lack is_lt langs
    → has_any is_lt best ≡ false
    → has_any is_lt (best_of scored langs best n) ≡ false
unfolding best_of
best_of-plain scored [] best n l h = ground arith
best_of-plain scored (lang ∷ langs) best n l h = ground (
  arith,
  best_of-plain scored langs lang (scored lang) l.1 l.0,
  best_of-plain scored langs best n l.1 h,
)

languages-plain : Lack is_lt languages
unfolding js
languages-plain = ground arith

pub detect_language-plain :
    (R : Regexes) (code : Text) → has_any is_lt (detect_language R code) ≡ false
unfolding detect_language
detect_language-plain R code =
    best_of-plain (λ lang. score code (R.patterns lang)) languages [] 0 languages-plain refl
