-- ===== src/Format/Injection.antt =====
-- What a message with a NUL character gets past the escaping of frontend/codeformat.js.
use wifi_chat.Base.{
  ℕ, ◌≡◌, refl, sym, ap, ◌∙◌, ◌==◌, Bool, true, false, ◌||◌, [], ◌∷◌, ◌++◌, map, none, some, Option,
  append-nil, arith,
}
use wifi_chat.Js.Text.{Text, js, has_any, split_at, expand, starts_with, show_number}
use wifi_chat.Js.Scan.{
  hit, scan, hits, fill, parts, chars, chars-append, scan-append, hits-append, fill-append,
  parts-append,
}
use wifi_chat.Format.Rules.{Regexes}
use wifi_chat.Format.Plain.{
  match_fence-none, match_inline-none, match_placeholder-none, break_lines-append, split_at-append,
  replace-found,
}
use wifi_chat.Format.Message.{
  format_fences, format_pieces, Fenced, match_fence, match_inline, match_placeholder, is_name,
  all_digits, block_name, inline_name, placeholder, inline_code, escape_html, escape_part,
  escape_around, restore, break_lines, format_marked, format_message, join,
}

-- Characters that the formatter looks for.
abbrev pub is_special : ℕ → Bool
is_special c = c == b'`' || c == 0 || c == b'\n'

abbrev pub tail : Text
tail = js "`x`"

-- Up to the code between the backquotes.
abbrev head : Text → Text
head p = 0 ∷ (block_name ++ p)

no_ticks : (p : Text) → has_any is_special p ≡ false → has_any (λ c. c == b'`') p ≡ false
no_ticks [] h = refl
no_ticks (c ∷ p) h = ground (arith, no_ticks p)

no_nuls : (p : Text) → has_any is_special p ≡ false → has_any (λ c. c == 0) p ≡ false
no_nuls [] h = refl
no_nuls (c ∷ p) h = ground (arith, no_nuls p)

no_breaks : (p : Text) → has_any is_special p ≡ false → has_any (λ c. c == b'\n') p ≡ false
no_breaks [] h = refl
no_breaks (c ∷ p) h = ground (arith, no_breaks p)

fences-chars :
    (R : Regexes) (c : Text)
    → format_fences R c (chars c) ≡ format_pieces R c [] (scan match_inline 0 c)
unfolding format_fences fill hits
fences-chars R c =
    let none_found : hits {A = Fenced} (chars c) ≡ [] =
      ap hits (sym (append-nil (chars c))) ∙ hits-append c [] in
    let same : fill {A = Fenced} (placeholder block_name) 0 (chars c) ≡ c =
      ap (fill (placeholder block_name) 0) (sym (append-nil (chars c)))
      ∙ fill-append (placeholder block_name) 0 c []
      ∙ append-nil c in
    rw (none_found, same) refl

module _ (p : Text) (plain : has_any is_special p ≡ false) where
  scan_fences : scan match_fence 0 (head p ++ tail) ≡ chars (head p ++ tail)
  unfolding js scan match_fence
  scan_fences =
      scan-append match_fence (λ c. c == b'`') (head p) tail match_fence-none (no_ticks p plain)
      ∙ sym (chars-append (head p) tail)

  scan_ticks : scan match_inline 0 (head p ++ tail) ≡ chars (head p) ++ hit (js "x") ∷ []
  unfolding js scan match_inline
  scan_ticks =
      scan-append match_inline (λ c. c == b'`') (head p) tail match_inline-none (no_ticks p plain)

  -- What is left when the code is taken out.
  abbrev marked_text : Text
  marked_text = head p ++ placeholder inline_name 0

  split-placeholder : split_at (placeholder inline_name 0) marked_text ≡ some (head p, [])
  unfolding split_at starts_with js show_number
  split-placeholder =
      let behind : split_at (placeholder inline_name 0)
            (block_name ++ p ++ placeholder inline_name 0)
          ≡ some (block_name ++ p ++ [], []) =
        split_at-append 0 (inline_name ++ (b'0' ∷ 0 ∷ [])) (block_name ++ p)
          (placeholder inline_name 0) (no_nuls p plain) in
      ap
        (λ o. elim o as (λ _. Option (Text × Text)) [ none ↦ none | some (a, b) ↦ some (0 ∷ a, b) ])
        behind
      ∙ ap (λ t. some (0 ∷ t, [])) (append-nil (block_name ++ p))

  module _ (not_name : all_digits p ≡ false) where
    placeholder-none : match_placeholder marked_text ≡ none
    unfolding match_placeholder split_at starts_with is_name js show_number
    placeholder-none =
        let named : split_at (0 ∷ []) (block_name ++ p ++ placeholder inline_name 0)
            ≡ some (block_name ++ p ++ [], inline_name ++ b'0' ∷ 0 ∷ []) =
          split_at-append 0 [] (block_name ++ p) (placeholder inline_name 0) (no_nuls p plain) in
        ground (arith, named, append-nil p)

    scan_placeholders :
        scan match_placeholder 0 marked_text
        ≡ chars (head p) ++ hit (placeholder inline_name 0) ∷ []
    unfolding scan match_placeholder js show_number
    scan_placeholders =
        let behind : scan match_placeholder 0 (block_name ++ p ++ placeholder inline_name 0)
            ≡ chars (block_name ++ p) ++ hit (placeholder inline_name 0) ∷ [] =
          scan-append match_placeholder (λ c. c == 0) (block_name ++ p) (placeholder inline_name 0)
            match_placeholder-none (no_nuls p plain) in
        ground (arith, placeholder-none, behind)

    escape_around-marked : escape_around marked_text ≡ marked_text
    unfolding escape_around parts js starts_with show_number
    escape_around-marked =
        ap (λ ps. join (map escape_part (parts [] ps))) scan_placeholders
        ∙ ap (λ ts. join (map escape_part ts))
            (parts-append [] (head p) (hit (placeholder inline_name 0) ∷ []))
        ∙ refl

    expanded :
        expand (placeholder inline_name 0) (head p) [] (inline_code (js "x")) ≡ inline_code (js "x")
    unfolding expand inline_code js escape_html
    expanded = refl

    restored :
        restore inline_name 0 (inline_code (js "x") ∷ []) marked_text
        ≡ head p ++ inline_code (js "x")
    unfolding restore
    restored =
        replace-found (placeholder inline_name 0) (inline_code (js "x")) marked_text (head p) []
          split-placeholder
        ∙ ap (λ t. head p ++ t) (append-nil _ ∙ expanded)

    broken : break_lines (head p ++ inline_code (js "x")) ≡ head p ++ inline_code (js "x")
    unfolding inline_code js break_lines escape_html
    broken = break_lines-append (head p) (inline_code (js "x")) (no_breaks p plain)

    filled : fill (placeholder inline_name) 0 (chars (head p) ++ hit (js "x") ∷ []) ≡ marked_text
    unfolding fill
    filled =
        fill-append (placeholder inline_name) 0 (head p) (hit (js "x") ∷ [])
        ∙ ap (λ t. head p ++ t) (append-nil (placeholder inline_name 0))

    marked_up :
        format_marked [] (inline_code (js "x") ∷ []) marked_text ≡ head p ++ inline_code (js "x")
    unfolding format_marked restore
    marked_up =
        ap (λ t. break_lines (restore inline_name 0 (inline_code (js "x") ∷ []) t))
          escape_around-marked
        ∙ ap break_lines restored
        ∙ broken

    pieces :
        (R : Regexes) (c : Text)
        → format_pieces R c [] (chars (head p) ++ hit (js "x") ∷ [])
          ≡ record { html = head p ++ inline_code (js "x"); has_code = true }
    unfolding format_pieces hits
    pieces R c =
        let found = hits-append (head p) (hit (js "x") ∷ []) in rw (found, filled, marked_up) refl

    -- A message that begins with a NUL character and `CODEBLOCK`, goes on with any text and ends in
    -- inline code is shown with the text as HTML, unescaped, if the text has no backquote, NUL
    -- character or line break and is no number.
    pub format_message-injects :
        (R : Regexes)
        → format_message R (head p ++ tail)
          ≡ record { html = head p ++ inline_code (js "x"); has_code = true }
    unfolding format_message
    format_message-injects R =
        ap (format_fences R (head p ++ tail)) scan_fences
        ∙ fences-chars R (head p ++ tail)
        ∙ ap (format_pieces R (head p ++ tail) []) scan_ticks
        ∙ pieces R (head p ++ tail)
