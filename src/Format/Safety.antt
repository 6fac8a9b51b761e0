-- ===== src/Format/Safety.antt =====
-- The HTML that frontend/codeformat.js makes of a message without NUL characters.
use wifi_chat.Base.{◌≡◌, refl, true, false, List, [], ◌∷◌, ◌++◌, map, All, none, arith}
use wifi_chat.Js.Text.{Text, js, trim, has_any, starts_with}
use wifi_chat.Js.Scan.{Piece, char, hit, scan, hits, fill, parts, All-hits}
use wifi_chat.Format.Rules.{Regexes}
use wifi_chat.Format.Message.{
  block_name, inline_name, placeholder, match_placeholder, match_fence, match_inline, escape_html,
  escape_part, escape_around, join, restore, format_marked, format_pieces, format_fences,
  format_message, inline_code, fenced_block,
}
use wifi_chat.Format.Markup.{own_tags, is_lt, own_tags-plain, own_tags-append}
use wifi_chat.Format.Substitution.{has_any-append, own_tags-restore, own_tags-break_lines}
use wifi_chat.Format.Escaping.{escape_html-plain}
use wifi_chat.Format.Tokens.{Matching}
use wifi_chat.Format.Blocks.{
  tags, AreTags, tags-AreTags, inline_code-own, detected-own, fenced_block-own, match_fence-plain,
}
use wifi_chat.Format.Placeholders.{PieceOk, placeholders-ok}
use wifi_chat.Format.Placing.{well_placed, is_nul, fill-well_placed, ticks-well_placed}

module _ (ts : List Text) where
  escape_html-own : (s : Text) → own_tags ts (escape_html s) ≡ true
  escape_html-own s = own_tags-plain ts (escape_html s) (escape_html-plain s)

  escape_part-outside : (s : Text) → has_any is_nul s ≡ false → own_tags ts (escape_part s) ≡ true
  unfolding escape_part starts_with
  escape_part-outside [] h = escape_html-own []
  escape_part-outside (c ∷ s) h = ground (arith, escape_html-own (c ∷ s))

  escape_part-placeholder :
      (p : Text) → has_any is_lt p ≡ false → own_tags ts (escape_part p) ≡ true
  unfolding escape_part
  escape_part-placeholder p h = ground (arith, escape_html-own p, own_tags-plain ts p h)

  parts-own :
      (part : Text) (ps : List (Piece Text))
      → has_any is_nul part ≡ false
      → All PieceOk ps
      → own_tags ts (join (map escape_part (parts part ps))) ≡ true
  unfolding parts
  parts-own part [] h ok =
      own_tags-append ts (escape_part part) [] (escape_part-outside part h)
        (own_tags-plain ts [] refl)
  parts-own part (char c ∷ ps) h ok =
      parts-own (part ++ c ∷ []) ps (has_any-append is_nul part (c ∷ []) h (ground (arith, ok.0)))
        ok.1
  parts-own part (hit p ∷ ps) h ok =
      own_tags-append ts (escape_part part) (escape_part p ++ join (map escape_part (parts [] ps)))
        (escape_part-outside part h)
        (own_tags-append ts (escape_part p) (join (map escape_part (parts [] ps)))
          (escape_part-placeholder p ok.0) (parts-own [] ps refl ok.1))

  escape_around-own : (s : Text) → well_placed none s ≡ true → own_tags ts (escape_around s) ≡ true
  unfolding escape_around
  escape_around-own s w = parts-own [] (scan match_placeholder 0 s) refl (placeholders-ok 0 s w)

  All-own_map :
      {A : Type 0} (P : A → Type 0) (f : A → Text) (xs : List A)
      → ((x : A) → P x → own_tags ts (f x) ≡ true)
      → All P xs
      → All (λ t. own_tags ts t ≡ true) (map f xs)
  All-own_map P f [] g h = record {}
  All-own_map P f (x ∷ xs) g h = (g x h.0, All-own_map P f xs g h.1)

  module _ (ok : AreTags ts) where
    format_marked-own :
        (blocks inlines : List Text) (s : Text)
        → All (λ t. own_tags ts t ≡ true) blocks
        → All (λ t. own_tags ts t ≡ true) inlines
        → well_placed none s ≡ true
        → own_tags ts (format_marked blocks inlines s) ≡ true
    unfolding format_marked js
    format_marked-own blocks inlines s hb hi w =
        let escaped = escape_around-own s w in
        let first =
          own_tags-restore ts block_name 0 blocks (escape_around s) ok.no_dollar ok.no_nul refl hb
            escaped in
        let second =
          own_tags-restore ts inline_name 0 inlines (restore block_name 0 blocks (escape_around s))
            ok.no_dollar ok.no_nul refl hi first in
        own_tags-break_lines ts
          (restore inline_name 0 inlines (restore block_name 0 blocks (escape_around s)))
          ok.no_break ok.line_break second

    inlines-own :
        (ticks : List (Piece Text)) → All (λ t. own_tags ts t ≡ true) (map inline_code (hits ticks))
    unfolding hits
    inlines-own [] = record {}
    inlines-own (char c ∷ ticks) = inlines-own ticks
    inlines-own (hit code ∷ ticks) = (inline_code-own ts ok code, inlines-own ticks)

    module _ (R : Regexes) (laws : Matching R) where
      format_pieces-own :
          (content : Text) (blocks : List Text) (ticks : List (Piece Text))
          → All (λ t. own_tags ts t ≡ true) blocks
          → well_placed none (fill (placeholder inline_name) 0 ticks) ≡ true
          → own_tags ts (format_pieces R content blocks ticks).html ≡ true
      unfolding format_pieces
      format_pieces-own content blocks ticks hb w =
          let marked = fill (placeholder inline_name) 0 ticks in
          let inlines = map inline_code (hits ticks) in
          ground (
            arith,
            format_marked-own blocks inlines marked hb (inlines-own ticks) w,
            detected-own ts ok R laws content (trim content),
            own_tags-break_lines ts (escape_html marked) ok.no_break ok.line_break
                (escape_html-own marked),
          )

      format_message-own :
          (content : Text)
          → has_any is_nul content ≡ false
          → own_tags ts (format_message R content).html ≡ true
      unfolding format_message format_fences
      format_message-own content plain =
          let fences = scan match_fence 0 content in
          let result = fill (placeholder block_name) 0 fences in
          let blocks =
            All-own_map (λ f. has_any is_lt f.lang ≡ false) (fenced_block R) (hits fences)
              (λ f h. fenced_block-own ts ok R laws f h)
              (All-hits (λ f. has_any is_lt f.lang ≡ false) match_fence 0 content
                match_fence-plain) in
          let placed =
            ticks-well_placed 0 0 result none (fill-well_placed match_fence 0 0 content plain) in
          ground (
            arith,
            own_tags-plain ts [] refl,
            format_pieces-own content (map (fenced_block R) (hits fences))
                (scan match_inline 0 result) blocks placed,
          )

-- The HTML of a message without NUL characters has no tags but the formatter's: every `<` in it
-- begins one of them, written out to its `>`, whatever the regular expressions match.
pub format_message-own_tags :
    (R : Regexes) (content : Text)
    → Matching R
    → has_any is_nul content ≡ false
    → own_tags tags (format_message R content).html ≡ true
format_message-own_tags R content laws = format_message-own tags tags-AreTags R laws content
