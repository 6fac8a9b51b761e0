-- ===== src/Format/Tests.antt =====
-- The theorem on frontend/codeformat.js at a concrete input.
use mathlib.Core.Path.{subst}
use wifi_chat.Base.{
  Option, some, ℕ, zero, suc, ◌-◌, ◌<◌, length, drop, take, sym, ap, ◌∙◌, All, refl, none, true,
  false, ◌≡◌, List, [], ◌∷◌, ◌++◌, arith,
}
use wifi_chat.Js.Text.{Text, js, trim_end}
use wifi_chat.Format.Highlight.{Token, before, insert, sort, without_overlaps, highlighted}
use wifi_chat.Js.Scan.{scan, fill, hits}
use wifi_chat.Format.Rules.{Regexes, Rule, number_rule, Match, collect, token_rules}
use wifi_chat.Format.Tokens.{IsMatch, Matching, IsToken, collect-total}
use wifi_chat.Format.Markup.{own_tags}
use wifi_chat.Format.Blocks.{tags}
use wifi_chat.Format.Safety.{format_message-own_tags}
use wifi_chat.Format.Injection.{tail, format_message-injects}
use wifi_chat.Format.Message.{
  fenced_block, inline_code, format_marked, format_message, code_block, placeholder, block_name,
  match_fence, match_inline,
}
use wifi_chat.Format.Splicing.{Chain, InText, read_from, highlighted-read_from}

-- `let` in `let x = 1`, the whole as another match, and the number.
abbrev keyword : Token
keyword = record {
  start = 0;
  end = 3;
  text = js "let";
  class_name = js "code-keyword";
  full_match = js "let";
}

abbrev inner : Token
inner = record keyword { start = 1; end = 2; text = js "e"; full_match = js "e" }

abbrev number : Token
number = record {
  start = 8;
  end = 9;
  text = js "1";
  class_name = js "code-number";
  full_match = js "1";
}

abbrev line : Text
line = js "let x = 1"

abbrev marked : Token → Text
marked r = js "<" ++ r.text ++ js ">"

abbrev matches : List Token
matches = number ∷ inner ∷ keyword ∷ []

matches-InText : InText line matches
unfolding js
matches-InText = (
  (omega arith, omega arith),
  ((omega arith, omega arith), ((omega arith, omega arith), record {})),
)

highlighted-read_from_example :
    (highlighted marked matches line ≡ read_from marked 0 line (keyword ∷ number ∷ []))
    × Chain 0 (keyword ∷ number ∷ [])
unfolding sort insert before without_overlaps
highlighted-read_from_example = highlighted-read_from marked matches line matches-InText

abbrev no_matches : Regexes
no_matches = record { exec = λ _ _ _. none; patterns = λ _. []; declares = λ _. false }

format_fence :
    format_message no_matches (js "a ```js\nx<1\n``` b")
    ≡ record { html = js "a " ++ code_block (js "js") (js "x&lt;1") ++ js " b"; has_code = true }
unfolding format_message fenced_block inline_code format_marked code_block js scan fill hits
    match_fence match_inline trim_end
format_fence = refl

-- A block between backquotes is lost.
format_lost : format_message no_matches (js "`a ```x``` b`") ≡ record {
  html = js "<code class=\"inline-code\">a " ++ placeholder block_name 0 ++ js " b</code>";
  has_code = true;
}
unfolding format_message fenced_block inline_code format_marked js scan fill hits match_fence
    match_inline
format_lost = refl

-- A rule that matches any character, and ten that match nothing.
abbrev next_char : Text → ℕ → Option Match
next_char [] last = none
next_char (c ∷ s) last = some (record { start = last; end = suc last; full = c ∷ []; group = [] })

abbrev toy_exec : Rule → Text → ℕ → Option Match
toy_exec number_rule html last = next_char (drop last html) last
toy_exec _ html last = none

abbrev toy : Regexes
toy = record no_matches { exec = toy_exec }

lt-of_drop : (n : ℕ) (s t : Text) (c : ℕ) → drop n s ≡ c ∷ t → n < length s
lt-of_drop zero [] t c h = ground arith
lt-of_drop zero (d ∷ s) t c h = omega arith
lt-of_drop (suc n) [] t c h = ground arith
lt-of_drop (suc n) (d ∷ s) t c h = omega (arith, lt-of_drop n s t c h)

next_char-IsMatch :
    (html s : Text) (last : ℕ) (m : Match)
    → drop last html ≡ s
    → next_char s last ≡ some m
    → IsMatch html last m
next_char-IsMatch html [] last m e h = absurd (ground arith)
next_char-IsMatch html (c ∷ s) last m e h =
    let one : suc last - last ≡ 1 = omega arith in
    let same : record { start = last; end = suc last; full = c ∷ []; group = [] } ≡ m =
      ground arith in
    subst (IsMatch html last) same (record {
      behind = omega arith;
      not_empty = omega arith;
      inside = omega (arith, lt-of_drop last html s c e);
      is_full = sym (ap (λ n. take n (drop last html)) one ∙ ap (take 1) e);
      has_group = (c ∷ [], [], refl);
    })

toy_found :
    (rule : Rule) (html : Text) (last : ℕ) (m : Match)
    → toy_exec rule html last ≡ some m
    → IsMatch html last m
toy_found number_rule html last m e = next_char-IsMatch html (drop last html) last m refl e
toy_found _ html last m e = absurd (ground arith)

toy-Matching : Matching toy
toy-Matching = record { found = toy_found }

collect-total_example :
    (rs : List Token) × (collect toy token_rules line ≡ some rs) × All (IsToken line) rs
collect-total_example = collect-total toy line toy-Matching

format_message-own_tags_example : own_tags tags (format_message toy (js "1 `<b>` <i>")).html ≡ true
unfolding js
format_message-own_tags_example = format_message-own_tags toy (js "1 `<b>` <i>") toy-Matching refl

abbrev payload : Text
payload = js "<img src=x onerror=alert(1)>"

format_message-injects_example :
    format_message toy (0 ∷ (block_name ++ (payload ++ tail)))
    ≡ record { html = 0 ∷ (block_name ++ (payload ++ inline_code (js "x"))); has_code = true }
unfolding js
format_message-injects_example = format_message-injects payload refl refl toy
