-- ===== src/Format/Splicing.antt =====
-- Replacing the tokens from the last to the first gives the same as reading the text once.
use wifi_chat.Base.{
  ℕ, zero, suc, ◌-◌, ◌≤◌, ◌≡◌, ◌∙◌, sym, ap, refl, List, [], ◌∷◌, ◌++◌, take, drop, length, All,
  append_assoc, arith,
}
use wifi_chat.Js.Text.{Text}
use wifi_chat.Format.Highlight.{Token, insert, sort, without_overlaps, replace_all, highlighted}

-- A token has its start before its end, and its end within the text.
abbrev pub Inside : Text → Token → Type 0
Inside html r = (r.start ≤ r.end) × (r.end ≤ length html)

abbrev pub InText : Text → List Token → Type 0
InText html = All (Inside html)

-- The tokens follow one another from a position on.
abbrev pub Chain : ℕ → List Token → Type 0
Chain p [] = Unit {0}
Chain p (r ∷ rs) = (p ≤ r.start) × Chain r.end rs

without_overlaps-Chain : (p : ℕ) (rs : List Token) → Chain p (without_overlaps p rs)
unfolding without_overlaps
without_overlaps-Chain p [] = record {}
without_overlaps-Chain p (r ∷ rs) =
    ground (arith, without_overlaps-Chain p rs, without_overlaps-Chain r.end rs)

-- What holds of every match holds of those that are left.
module _ (P : Token → Type 0) where
  pub All-without_overlaps : (p : ℕ) (rs : List Token) → All P rs → All P (without_overlaps p rs)
  unfolding without_overlaps
  All-without_overlaps p [] h = h
  All-without_overlaps p (r ∷ rs) h =
      ground (arith, All-without_overlaps p rs h.1, All-without_overlaps r.end rs h.1)

  All-insert : (r : Token) (rs : List Token) → P r → All P rs → All P (insert r rs)
  unfolding insert
  All-insert r [] one h = (one, h)
  All-insert r (s ∷ rs) one h = ground (arith, All-insert r rs one h.1)

  pub All-sort : (rs : List Token) → All P rs → All P (sort rs)
  unfolding sort
  All-sort [] h = h
  All-sort (r ∷ rs) h = All-insert r (sort rs) h.0 (All-sort rs h.1)

take-append_take : (s e : ℕ) (h f : Text) → s ≤ e → e ≤ length h → take s (take e h ++ f) ≡ take s h
take-append_take zero e h f le len = refl
take-append_take (suc s) zero h f le len = ground arith
take-append_take (suc s) (suc e) [] f le len = ground arith
take-append_take (suc s) (suc e) (c ∷ h) f le len =
    ap (λ t. c ∷ t) (take-append_take s e h f (omega arith) (omega arith))

drop-append_take : (e : ℕ) (h f : Text) → e ≤ length h → drop e (take e h ++ f) ≡ f
drop-append_take zero h f len = refl
drop-append_take (suc e) [] f len = ground arith
drop-append_take (suc e) (c ∷ h) f len = drop-append_take e h f (omega arith)

take-nil : (n : ℕ) → take {A = ℕ} n [] ≡ []
take-nil zero = refl
take-nil (suc n) = refl

drop-nil : (n : ℕ) → drop {A = ℕ} n [] ≡ []
drop-nil zero = refl
drop-nil (suc n) = refl

take-split : (p s : ℕ) (h : Text) → p ≤ s → take p h ++ take (s - p) (drop p h) ≡ take s h
take-split zero s h le = let e : s - 0 ≡ s = omega arith in ap (λ n. take n h) e
take-split (suc p) zero h le = ground arith
take-split (suc p) (suc s) [] le = take-nil (suc s - suc p)
take-split (suc p) (suc s) (c ∷ h) le =
    let e : suc s - suc p ≡ s - p = omega arith in
    ap (λ n. c ∷ (take p h ++ take n (drop p h))) e
    ∙ ap (λ t. c ∷ t) (take-split p s h (omega arith))

drop-drop : (p e : ℕ) (h : Text) → p ≤ e → drop (e - p) (drop p h) ≡ drop e h
drop-drop zero e h le = let q : e - 0 ≡ e = omega arith in ap (λ n. drop n h) q
drop-drop (suc p) zero h le = ground arith
drop-drop (suc p) (suc e) [] le = drop-nil (suc e - suc p)
drop-drop (suc p) (suc e) (c ∷ h) le =
    let q : suc e - suc p ≡ e - p = omega arith in
    ap (λ n. drop n (drop p h)) q ∙ drop-drop p e h (omega arith)

take-drop : (p : ℕ) (h : Text) → take p h ++ drop p h ≡ h
take-drop zero h = refl
take-drop (suc p) [] = refl
take-drop (suc p) (c ∷ h) = ap (λ t. c ∷ t) (take-drop p h)

module _ (mark : Token → Text) where
  -- The text from a position on, read once: what stands between the tokens stays, and each token
  -- is marked.
  unfoldable pub read_from : ℕ → Text → List Token → Text
  read_from p html [] = html
  read_from p html (r ∷ rs) =
      take (r.start - p) html ++ (mark r ++ read_from r.end (drop (r.end - p) html) rs)

  -- What the loop does from a position on, where the tokens follow one another.
  replace_all-read_from :
      (p : ℕ) (rs : List Token) (html : Text)
      → Chain p rs
      → InText html rs
      → replace_all mark rs html ≡ take p html ++ read_from p (drop p html) rs
  unfolding replace_all read_from
  replace_all-read_from p [] html c h = sym (take-drop p html)
  replace_all-read_from p (r ∷ rs) html (le, c) ((se, en), h) =
      let rest = read_from r.end (drop r.end html) rs in
      let before : take r.start (replace_all mark rs html) ≡ take r.start html =
        ap (take r.start) (replace_all-read_from r.end rs html c h)
        ∙ take-append_take r.start r.end html rest se en in
      let after : drop r.end (replace_all mark rs html) ≡ rest =
        ap (drop r.end) (replace_all-read_from r.end rs html c h)
        ∙ drop-append_take r.end html rest en in
      rw (before, after, drop-drop p r.end html (omega arith), sym (take-split p r.start html le))
        (append_assoc (take p html) (take (r.start - p) (drop p html)) (mark r ++ rest))

  -- The highlighted text is the text read once, with the tokens marked that the sort and the test
  -- for overlaps leave, and the rest as it is, if each match has its start before its end and lies
  -- in the text. What is left overlaps nowhere.
  pub highlighted-read_from :
      (rs : List Token) (html : Text)
      → InText html rs
      → (highlighted mark rs html ≡ read_from 0 html (without_overlaps 0 (sort rs)))
        × Chain 0 (without_overlaps 0 (sort rs))
  unfolding highlighted
  highlighted-read_from rs html h =
      let c = without_overlaps-Chain 0 (sort rs) in
      let inside = All-without_overlaps (Inside html) 0 (sort rs) (All-sort (Inside html) rs h) in
      (replace_all-read_from 0 (without_overlaps 0 (sort rs)) html c inside, c)
