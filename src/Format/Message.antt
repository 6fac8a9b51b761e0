-- ===== src/Format/Message.antt =====
-- `formatMessage` of frontend/codeformat.js and what it calls.
use wifi_chat.Base.{
  ℕ, suc, ◌-◌, ◌==◌, Bool, true, false, not, ◌&&◌, ◌||◌, Option, none, some, List, [], ◌∷◌, ◌++◌,
  length, drop, map, leb, if◌then◌else◌,
}
use wifi_chat.Js.Text.{
  Text, js, truthy, starts_with, or_else, trim, trim_end, split_at, replace, show_number, has_any,
}
use wifi_chat.Js.Scan.{Hit, Piece, scan, hits, fill, parts}
use wifi_chat.Format.Highlight.{Token, highlighted, mark_token, span, span_end}
use wifi_chat.Format.Rules.{
  Regexes, token_rules, collect, detect_language, looks_like_code, is_word,
}

-- `escapeHtml`: the text of an element, read back as HTML.
abbrev pub escape_char : ℕ → Text
escape_char c =
    if c == b'&'
    then js "&amp;"
    else if c == b'<'
    then js "&lt;"
    else if c == b'>'
    then js "&gt;"
    else if c == 0xA0
    then js "&nbsp;"
    else c ∷ []

unfoldable pub escape_html : Text → Text
escape_html [] = []
escape_html (c ∷ s) = escape_char c ++ escape_html s

abbrev pub or_no_tokens : Option (List Token) → List Token
or_no_tokens none = []
or_no_tokens (some rs) = rs

-- `highlight`; the language makes no difference.
unfoldable pub highlight : Regexes → Text → Text
unfolding escape_html highlighted mark_token collect
highlight R code =
    let html = escape_html code in
    highlighted mark_token (or_no_tokens (collect R token_rules html)) html

-- The longest prefix of word characters, and the rest.
unfoldable pub take_word : Text → Text × Text
take_word [] = ([], [])
take_word (c ∷ s) = let (w, rest) = take_word s in if is_word c then (c ∷ w, rest) else ([], c ∷ s)

abbrev pub skip_newline : Text → Text
skip_newline [] = []
skip_newline (c ∷ s) = if c == b'\n' then s else c ∷ s

abbrev pub fence : Text
fence = js "```"

-- The language and the code of a block.
pub record Fenced : Type 0 where
  pub lang : Text
  pub code : Text

-- `/```(\w*)\n?([\s\S]*?)```/` at the head of a text. Where the longest word leaves no closing
-- fence, no shorter one does.
unfoldable pub match_fence : Text → Option (Hit Fenced)
unfolding take_word split_at
match_fence s =
    if not (starts_with fence s)
    then none
    else let (lang, rest) = take_word (drop 3 s) in
      let body = skip_newline rest in
      elim (split_at fence body) [
        | none ↦ none
        | some (code, after) ↦ some (record {
          value = record { lang = lang; code = code };
          more = length s - length after - 1;
        })
      ]

-- The characters up to a backquote, if one comes before the end of the line.
unfoldable pub until_backquote : Text → Option Text
until_backquote [] = none
until_backquote (c ∷ s) =
    let rest = until_backquote s in
    if c == b'`'
    then some []
    else if c == b'\n'
    then none
    else elim rest [ none ↦ none | some u ↦ some (c ∷ u) ]

-- /`([^`\n]+)`/ at the head of a text.
unfoldable pub match_inline : Text → Option (Hit Text)
unfolding until_backquote
match_inline [] = none
match_inline (c ∷ s) = if not (c == b'`') then none else elim (until_backquote s) [
  | none ↦ none
  | some code ↦
      if truthy code then some (record { value = code; more = suc (length code) }) else none
]

abbrev pub block_name : Text
block_name = js "CODEBLOCK"

abbrev pub inline_name : Text
inline_name = js "INLINE"

abbrev pub placeholder : Text → ℕ → Text
placeholder name n = 0 ∷ (name ++ (show_number n ++ 0 ∷ []))

abbrev pub is_digit : ℕ → Bool
is_digit c = leb b'0' c && leb c b'9'

abbrev pub all_digits : Text → Bool
all_digits s = truthy s && not (has_any (λ c. not (is_digit c)) s)

-- `CODEBLOCK\d+` or `INLINE\d+`, as a whole.
unfoldable pub is_name : Text → Bool
unfolding starts_with
is_name s =
    starts_with block_name s && all_digits (drop 9 s)
    || starts_with inline_name s && all_digits (drop 6 s)

-- `/\x00CODEBLOCK\d+\x00|\x00INLINE\d+\x00/` at the head of a text.
unfoldable pub match_placeholder : Text → Option (Hit Text)
unfolding split_at is_name
match_placeholder [] = none
match_placeholder (c ∷ s) = if not (c == 0) then none else elim (split_at (0 ∷ []) s) [
  | none ↦ none
  | some (name, after) ↦
      if is_name name
      then some (record { value = 0 ∷ (name ++ 0 ∷ []); more = suc (length name) })
      else none
]

-- A part is escaped unless it begins like a placeholder.
unfoldable pub escape_part : Text → Text
unfolding starts_with escape_html
escape_part part =
    if starts_with (0 ∷ block_name) part || starts_with (0 ∷ inline_name) part
    then part
    else escape_html part

abbrev pub join : List Text → Text
join [] = []
join (t ∷ ts) = t ++ join ts

unfoldable pub escape_around : Text → Text
unfolding scan match_placeholder parts escape_part
escape_around s = join (map escape_part (parts [] (scan match_placeholder 0 s)))

-- The loops that put the blocks in place of their placeholders.
unfoldable pub restore : Text → ℕ → List Text → Text → Text
unfolding replace show_number
restore name n [] s = s
restore name n (b ∷ bs) s = restore name (suc n) bs (replace (placeholder name n) b s)

-- `result.replace(/\n/g, '<br>')`
unfoldable pub break_lines : Text → Text
break_lines [] = []
break_lines (c ∷ s) = let rest = break_lines s in if c == b'\n' then js "<br>" ++ rest else c ∷ rest

pub record Formatted : Type 0 where
  pub html : Text
  pub has_code : Bool

abbrev pub block_open : Text
block_open = js "<div class=\"code-block\">"

abbrev pub copy_button : Text
copy_button =
    js "<button class=\"code-copy-btn\" onclick=\"codeFormatter.copyCode(this)\" title=\"Copy\">"
    ++ (js "📋" ++ js "</button>")

unfoldable pub lang_label : Text → Text
lang_label lang = if truthy lang then span (js "code-lang-label") ++ (lang ++ span_end) else []

unfoldable pub code_block : Text → Text → Text
unfolding lang_label
code_block lang html =
    block_open
    ++ (lang_label lang
        ++ (copy_button
            ++ (js "<pre>"
                ++ (js "<code>" ++ (html ++ (js "</code>" ++ (js "</pre>" ++ js "</div>")))))))

unfoldable pub inline_code : Text → Text
inline_code code = js "<code class=\"inline-code\">" ++ (escape_html code ++ js "</code>")

abbrev pub is_empty : List Text → Bool
is_empty [] = true
is_empty (t ∷ ts) = false

-- The message with the code that its marks set off.
unfoldable pub format_marked : List Text → List Text → Text → Text
unfolding escape_around restore break_lines
format_marked blocks inlines s =
    break_lines (restore inline_name 0 inlines (restore block_name 0 blocks (escape_around s)))

module _ (R : Regexes) where
  unfoldable pub fenced_block : Fenced → Text
  unfolding code_block highlight
  fenced_block f =
      code_block (or_else f.lang (detect_language R (trim f.code))) (highlight R (trim_end f.code))

  -- What is done with the message once its blocks and its inline code are found.
  unfoldable pub format_pieces : Text → List Text → List (Piece Text) → Formatted
  format_pieces content blocks ticks =
      let inlines = map inline_code (hits ticks) in
      let marked = fill (placeholder inline_name) 0 ticks in
      if not (is_empty blocks && is_empty inlines)
      then record { html = format_marked blocks inlines marked; has_code = true }
      else if looks_like_code R content
      then record {
        html = code_block (detect_language R content) (highlight R (trim content));
        has_code = true;
      }
      else record { html = break_lines (escape_html marked); has_code = false }

  -- The inline code is looked for in what the pass over the blocks leaves.
  unfoldable pub format_fences : Text → List (Piece Fenced) → Formatted
  unfolding format_pieces
  format_fences content fences =
      format_pieces content (map fenced_block (hits fences))
        (scan match_inline 0 (fill (placeholder block_name) 0 fences))

  unfoldable pub format_message : Text → Formatted
  unfolding format_fences
  format_message content =
      if not (truthy content)
      then record { html = []; has_code = false }
      else format_fences content (scan match_fence 0 content)
