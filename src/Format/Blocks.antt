-- ===== src/Format/Blocks.antt =====
-- The tags that frontend/codeformat.js writes, and the blocks that it makes of them.
use wifi_chat.Base.{◌≡◌, refl, ◌==◌, true, false, List, [], ◌∷◌, ◌++◌, All, some, drop, arith}
use wifi_chat.Js.Text.{Text, js, has_any, or_else, trim, trim_end}
use wifi_chat.Js.Scan.{Hit}
use wifi_chat.Format.Highlight.{span, span_end}
use wifi_chat.Format.Rules.{Regexes, token_rules, detect_language}
use wifi_chat.Format.Message.{
  escape_html, take_word, lang_label, code_block, inline_code, block_open, copy_button, highlight,
  Fenced, fenced_block, match_fence,
}
use wifi_chat.Format.Markup.{own_tags, is_lt, Lack, own_tags-plain, own_tags-append}
use wifi_chat.Format.Substitution.{is_dollar, is_break}
use wifi_chat.Format.Escaping.{escape_html-plain, highlight-own, detect_language-plain}
use wifi_chat.Format.Tokens.{Matching}

-- The tags, without their `<`.
abbrev pub tags : List Text
tags =
    js "span class=\"code-comment\">"
    ∷ js "span class=\"code-string\">"
    ∷ js "span class=\"code-number\">"
    ∷ js "span class=\"code-keyword\">"
    ∷ js "span class=\"code-type\">"
    ∷ js "span class=\"code-function\">"
    ∷ js "span class=\"code-decorator\">"
    ∷ js "span class=\"code-lang-label\">"
    ∷ js "/span>"
    ∷ js "div class=\"code-block\">"
    ∷ js "/div>"
    ∷ js "button class=\"code-copy-btn\" onclick=\"codeFormatter.copyCode(this)\" title=\"Copy\">"
    ∷ js "/button>"
    ∷ js "pre>"
    ∷ js "/pre>"
    ∷ js "code>"
    ∷ js "code class=\"inline-code\">"
    ∷ js "/code>"
    ∷ js "br>"
    ∷ []

-- What is checked of the tags by evaluation.
pub record AreTags (ts : List Text) : Type 0 where
  pub no_dollar : Lack is_dollar ts
  pub no_break : Lack is_break ts
  pub no_nul : Lack (λ c. c == 0) ts
  pub classes : All (λ e. own_tags ts (span (e.1)) ≡ true) token_rules
  pub label : own_tags ts (span (js "code-lang-label")) ≡ true
  pub closing : own_tags ts span_end ≡ true
  pub opening : own_tags ts block_open ≡ true
  pub button : own_tags ts copy_button ≡ true
  pub pre : own_tags ts (js "<pre>") ≡ true
  pub code : own_tags ts (js "<code>") ≡ true
  pub ends : own_tags ts (js "</code>" ++ (js "</pre>" ++ js "</div>")) ≡ true
  pub inline : own_tags ts (js "<code class=\"inline-code\">") ≡ true
  pub inline_end : own_tags ts (js "</code>") ≡ true
  pub line_break : own_tags ts (js "<br>") ≡ true

pub tags-AreTags : AreTags tags
unfolding js own_tags
tags-AreTags = record {
  no_dollar = ground arith;
  no_break = ground arith;
  no_nul = ground arith;
  classes = (
    refl,
    (refl, (refl, (refl, (refl, (refl, (refl, (refl, (refl, (refl, (refl, record {})))))))))),
  );
  label = refl;
  closing = refl;
  opening = refl;
  button = refl;
  pre = refl;
  code = refl;
  ends = refl;
  inline = refl;
  inline_end = refl;
  line_break = refl;
}

take_word-plain : (s : Text) → has_any is_lt (take_word s).0 ≡ false
unfolding take_word
take_word-plain [] = refl
take_word-plain (c ∷ s) = ground (arith, take_word-plain s)

pub match_fence-plain :
    (s : Text) (h : Hit Fenced) → match_fence s ≡ some h → has_any is_lt h.value.lang ≡ false
unfolding match_fence
match_fence-plain s h e = ground (arith, take_word-plain (drop 3 s))

or_else-plain :
    (a b : Text)
    → has_any is_lt a ≡ false
    → has_any is_lt b ≡ false
    → has_any is_lt (or_else a b) ≡ false
or_else-plain [] b h k = k
or_else-plain (c ∷ a) b h k = h

module _ (ts : List Text) (ok : AreTags ts) where
  lang_label-own : (lang : Text) → has_any is_lt lang ≡ false → own_tags ts (lang_label lang) ≡ true
  unfolding lang_label own_tags
  lang_label-own [] h = refl
  lang_label-own (c ∷ lang) h =
      own_tags-append ts (span (js "code-lang-label")) ((c ∷ lang) ++ span_end) ok.label
        (own_tags-append ts (c ∷ lang) span_end (own_tags-plain ts (c ∷ lang) h) ok.closing)

  code_block-own :
      (lang html : Text)
      → has_any is_lt lang ≡ false
      → own_tags ts html ≡ true
      → own_tags ts (code_block lang html) ≡ true
  unfolding code_block
  code_block-own lang html l h = own_tags-append ts block_open _ ok.opening (
      own_tags-append ts (lang_label lang) _ (lang_label-own lang l) (
        own_tags-append ts copy_button _ ok.button (
          own_tags-append ts (js "<pre>") _ ok.pre
            (own_tags-append ts (js "<code>") _ ok.code (own_tags-append ts html _ h ok.ends)))))

  pub inline_code-own : (code : Text) → own_tags ts (inline_code code) ≡ true
  unfolding inline_code
  inline_code-own code =
      own_tags-append ts (js "<code class=\"inline-code\">") (escape_html code ++ js "</code>")
        ok.inline
        (own_tags-append ts (escape_html code) (js "</code>")
          (own_tags-plain ts (escape_html code) (escape_html-plain code)) ok.inline_end)

  module _ (R : Regexes) (laws : Matching R) where
    pub detected-own :
        (content code : Text)
        → own_tags ts (code_block (detect_language R content) (highlight R code)) ≡ true
    detected-own content code =
        code_block-own (detect_language R content) (highlight R code)
          (detect_language-plain R content)
          (highlight-own ts ok.no_dollar ok.closing R laws ok.classes code)

    pub fenced_block-own :
        (f : Fenced) → has_any is_lt f.lang ≡ false → own_tags ts (fenced_block R f) ≡ true
    unfolding fenced_block
    fenced_block-own f l =
        code_block-own (or_else f.lang (detect_language R (trim f.code)))
          (highlight R (trim_end f.code))
          (or_else-plain f.lang _ l (detect_language-plain R (trim f.code)))
          (highlight-own ts ok.no_dollar ok.closing R laws ok.classes (trim_end f.code))
