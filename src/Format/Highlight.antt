-- ===== src/Format/Highlight.antt =====
-- `highlight` of frontend/codeformat.js, after the matches of the token rules are collected and
-- sorted.
use wifi_chat.Base.{ℕ, ltb, Bool, true, false, List, [], ◌∷◌, ◌++◌, if◌then◌else◌, take, drop}
use wifi_chat.Js.Text.{Text, js, replace}

-- A match, with the positions of its first character and of the one after it.
pub record Token : Type 0 where
  pub start : ℕ
  pub end : ℕ
  pub text : Text
  pub class_name : Text
  pub full_match : Text

-- `replacements.sort(…)`, by the start, the longest first, as an insertion.
unfoldable pub before : Token → Token → Bool
before a b =
    if ltb a.start b.start then true else if ltb b.start a.start then false else ltb b.end a.end

unfoldable pub insert : Token → List Token → List Token
unfolding before
insert r [] = r ∷ []
insert r (s ∷ rs) = let rest = insert r rs in if before s r then s ∷ rest else r ∷ s ∷ rs

-- The sort keeps the order of tokens that it does not tell apart.
unfoldable pub sort : List Token → List Token
unfolding insert
sort [] = []
sort (r ∷ rs) = insert r (sort rs)

-- The loop that keeps what does not overlap. `last_end` starts as -1, which lets the same tokens
-- through as 0.
unfoldable pub without_overlaps : ℕ → List Token → List Token
without_overlaps last_end [] = []
without_overlaps last_end (r ∷ rs) =
    let kept = without_overlaps r.end rs in
    let left_out = without_overlaps last_end rs in
    if ltb r.start last_end then left_out else r ∷ kept

-- `mark` is what takes the place of a token: `r.fullMatch.replace(r.text, …)`.
module _ (mark : Token → Text) where
  -- One turn of the last loop.
  unfoldable pub splice : Token → Text → Text
  splice r html = take r.start html ++ (mark r ++ drop r.end html)

  -- The loop, which runs from the last token to the first.
  unfoldable pub replace_all : List Token → Text → Text
  unfolding splice
  replace_all [] html = html
  replace_all (r ∷ rs) html = splice r (replace_all rs html)

  -- The sort and the last two loops of `highlight`.
  unfoldable pub highlighted : List Token → Text → Text
  unfolding sort without_overlaps replace_all
  highlighted rs html = replace_all (without_overlaps 0 (sort rs)) html

abbrev pub span : Text → Text
span class_name = js "<span class=\"" ++ (class_name ++ js "\">")

abbrev pub span_end : Text
span_end = js "</span>"

-- What takes the place of a token: its text in a `span` of its class.
unfoldable pub mark_token : Token → Text
mark_token r = replace r.text (span r.class_name ++ (r.text ++ span_end)) r.full_match
