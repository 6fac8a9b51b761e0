-- ===== src/Format/Rules.antt =====
-- The rules of frontend/codeformat.js: the languages, the tokens, `detectLanguage`,
-- `looksLikeCode`, and the loop of `highlight` that collects the matches.
use wifi_chat.Base.{
  ℕ, zero, suc, ◌+◌, ◌*◌, ◌==◌, ltb, leb, Bool, true, false, ◌&&◌, ◌||◌, Option, none, some, List,
  [], ◌∷◌, ◌++◌, length, filter, if◌then◌else◌,
}
use wifi_chat.Js.Text.{Text, js, or_else, is_space, contains, has_any}
use wifi_chat.Format.Highlight.{Token}

pub data Rule : Type 0 where
  line_comment hash_comment block_comment : Rule
  double_quoted single_quoted back_quoted : Rule
  number_rule keyword_rule type_rule call_rule decorator_rule : Rule

-- `tokenRules`, each with its `className`.
abbrev pub token_rules : List (Rule × Text)
token_rules =
    (line_comment, js "code-comment")
    ∷ (hash_comment, js "code-comment")
    ∷ (block_comment, js "code-comment")
    ∷ (double_quoted, js "code-string")
    ∷ (single_quoted, js "code-string")
    ∷ (back_quoted, js "code-string")
    ∷ (number_rule, js "code-number")
    ∷ (keyword_rule, js "code-keyword")
    ∷ (type_rule, js "code-type")
    ∷ (call_rule, js "code-function")
    ∷ (decorator_rule, js "code-decorator")
    ∷ []

-- The names in `langPatterns`.
abbrev pub languages : List Text
languages =
    js "go"
    ∷ js "python"
    ∷ js "javascript"
    ∷ js "typescript"
    ∷ js "java"
    ∷ js "kotlin"
    ∷ js "rust"
    ∷ js "c"
    ∷ js "cpp"
    ∷ js "html"
    ∷ js "css"
    ∷ js "sql"
    ∷ js "bash"
    ∷ js "json"
    ∷ js "yaml"
    ∷ js "swift"
    ∷ []

-- What `exec` gives: the positions of the match and of what follows it, the match, and its first
-- group, which is empty if it took no part.
pub record Match : Type 0 where
  pub start : ℕ
  pub end : ℕ
  pub full : Text
  pub group : Text

-- The regular expressions: `exec` of a token rule from a `lastIndex` on, the tests of the patterns
-- of a language, and the test for the words of declarations in `looksLikeCode`.
pub record Regexes : Type 0 where
  pub exec : Rule → Text → ℕ → Option Match
  pub patterns : Text → List (Text → Bool)
  pub declares : Text → Bool

unfoldable pub score : Text → List (Text → Bool) → ℕ
score code [] = 0
score code (p ∷ ps) = if p code then suc (score code ps) else score code ps

-- The loop of `detectLanguage`, with `best` and `bestScore`.
unfoldable pub best_of : (Text → ℕ) → List Text → Text → ℕ → Text
best_of scored [] best n = if leb 1 n then best else []
best_of scored (lang ∷ langs) best n =
    if ltb n (scored lang)
    then best_of scored langs lang (scored lang)
    else best_of scored langs best n

module _ (R : Regexes) where
  unfoldable pub detect_language : Text → Text
  unfolding best_of
  detect_language code = best_of (λ lang. score code (R.patterns lang)) languages [] 0

  abbrev pub token_of : Text → Match → Token
  token_of class_name m = record {
    start = m.start;
    end = m.end;
    text = or_else m.group m.full;
    class_name = class_name;
    full_match = m.full;
  }

  -- `while ((match = regex.exec(html)) !== null)`, on fuel; `none` if that runs out.
  unfoldable pub exec_all : ℕ → Rule → Text → Text → ℕ → Option (List Token)
  exec_all zero rule class_name html last = none
  exec_all (suc fuel) rule class_name html last = elim (R.exec rule html last) [
    | none ↦ some []
    | some m ↦ elim (exec_all fuel rule class_name html m.end) [
      | none ↦ none
      | some rs ↦ some (token_of class_name m ∷ rs)
    ]
  ]

  -- The loop over the rules; the fuel is more than the length of the text.
  unfoldable pub collect : List (Rule × Text) → Text → Option (List Token)
  unfolding exec_all
  collect [] html = some []
  collect ((rule, class_name) ∷ rules) html =
      elim (exec_all (suc (length html)) rule class_name html 0) [
        | none ↦ none
        | some rs ↦ elim (collect rules html) [ none ↦ none | some more ↦ some (rs ++ more) ]
      ]

-- `text.split('\n')`
unfoldable pub lines_of : Text → List Text
lines_of [] = [] ∷ []
lines_of (c ∷ s) =
    let rest = lines_of s in
    if c == b'\n' then [] ∷ rest else elim rest [ [] ↦ (c ∷ []) ∷ [] | l ∷ ls ↦ (c ∷ l) ∷ ls ]

-- `/^\s{2}/`
abbrev pub is_indented : Text → Bool
is_indented (c ∷ d ∷ _) = is_space c && is_space d
is_indented _ = false

-- `/[{};]/`
abbrev pub is_brace : ℕ → Bool
is_brace c = c == b'{' || c == b'}' || c == b';'

-- `\w`
abbrev pub is_word : ℕ → Bool
is_word c =
    leb b'a' c && leb c b'z' || leb b'A' c && leb c b'Z' || leb b'0' c && leb c b'9' || c == b'_'

abbrev pub has_operator : Text → Bool
has_operator s =
    contains (js ":=") s
    || contains (js "=>") s
    || contains (js "->") s
    || contains (js "!=") s
    || contains (js "==") s
    || contains (js "&&") s
    || contains (js "||") s

-- `/\w+\([^)]*\)/`: a word character before a parenthesis that is closed somewhere after it.
unfoldable pub has_call : Text → Bool
has_call (c ∷ d ∷ s) = is_word c && d == b'(' && has_any (λ e. e == b')') s || has_call (d ∷ s)
has_call _ = false

abbrev pub one_if : Bool → ℕ
one_if true = 1
one_if false = 0

module _ (R : Regexes) where
  -- The number of `codeSignals`; `n > m * 0.3` is taken as `10 n > 3 m`.
  unfoldable pub code_signals : Text → ℕ
  unfolding lines_of has_call
  code_signals s =
      one_if (ltb (3 * length (lines_of s)) (10 * length (filter is_indented (lines_of s))))
      + one_if (has_any is_brace s)
      + one_if (R.declares s)
      + one_if (has_operator s)
      + one_if (has_call s)

  unfoldable pub looks_like_code : Text → Bool
  unfolding code_signals
  looks_like_code s =
      if ltb (length s) 20
      then false
      else if ltb (length (lines_of s)) 2
      then false
      else leb 2 (code_signals s)
