-- ===== src/Js/Scan.antt =====
-- Global regular expressions: a text taken apart into matches and the characters between them.
use wifi_chat.Base.{
  ℕ, zero, suc, ◌≡◌, refl, sym, ap, ◌∙◌, Bool, false, List, [], ◌∷◌, ◌++◌, append-nil, append_assoc,
  Option, none, some, inl, inr, Option-cases, All, arith,
}
use wifi_chat.Js.Text.{Text, has_any}

-- A match at the head of a text: what is taken of it, and how many characters follow the first.
pub record Hit (A : Type 0) : Type 0 where
  pub value : A
  pub more : ℕ

pub data Piece (A : Type 0) : Type 0 where
  char : ℕ → Piece A
  hit : A → Piece A

module _ {A : Type 0} where
  -- The first argument looks for a match at the head; the number is what is left of a match.
  unfoldable pub scan : (Text → Option (Hit A)) → ℕ → Text → List (Piece A)
  scan match k [] = []
  scan match (suc k) (c ∷ s) = scan match k s
  scan match zero (c ∷ s) = elim (match (c ∷ s)) [
    | none ↦ char c ∷ scan match zero s
    | some h ↦ hit h.value ∷ scan match h.more s
  ]

  unfoldable pub hits : List (Piece A) → List A
  hits [] = []
  hits (char c ∷ ps) = hits ps
  hits (hit a ∷ ps) = a ∷ hits ps

  -- `s.replace(regex, f)`, where `f` goes by the number of the match.
  unfoldable pub fill : (ℕ → Text) → ℕ → List (Piece A) → Text
  fill f n [] = []
  fill f n (char c ∷ ps) = c ∷ fill f n ps
  fill f n (hit a ∷ ps) = f n ++ fill f (suc n) ps

-- `s.split(regex)` with a group round the whole: the parts and the matches in turn. The first
-- argument is the part so far.
unfoldable pub parts : Text → List (Piece Text) → List Text
parts part [] = part ∷ []
parts part (char c ∷ ps) = parts (part ++ c ∷ []) ps
parts part (hit p ∷ ps) = part ∷ p ∷ parts [] ps

module _ {A : Type 0} where
  abbrev pub chars : Text → List (Piece A)
  chars [] = []
  chars (c ∷ s) = char c ∷ chars s

  pub chars-append : (s t : Text) → chars (s ++ t) ≡ chars s ++ chars t
  chars-append [] t = refl
  chars-append (c ∷ s) t = ap (λ ps. char c ∷ ps) (chars-append s t)

  -- A text in which no match begins comes through as it is.
  pub scan-append :
      (match : Text → Option (Hit A)) (bad : ℕ → Bool) (p s : Text)
      → ((c : ℕ) (t : Text) → bad c ≡ false → match (c ∷ t) ≡ none)
      → has_any bad p ≡ false
      → scan match 0 (p ++ s) ≡ chars p ++ scan match 0 s
  unfolding scan
  scan-append match bad [] s never h = refl
  scan-append match bad (c ∷ p) s never h =
      ground (arith, never c (p ++ s), scan-append match bad p s never)

  pub hits-append : (p : Text) (ps : List (Piece A)) → hits (chars p ++ ps) ≡ hits ps
  unfolding hits
  hits-append [] ps = refl
  hits-append (c ∷ p) ps = hits-append p ps

  pub fill-append :
      (f : ℕ → Text) (n : ℕ) (p : Text) (ps : List (Piece A))
      → fill f n (chars p ++ ps) ≡ p ++ fill f n ps
  unfolding fill
  fill-append f n [] ps = refl
  fill-append f n (c ∷ p) ps = ap (λ t. c ∷ t) (fill-append f n p ps)

pub parts-append :
    (part p : Text) (ps : List (Piece Text)) → parts part (chars p ++ ps) ≡ parts (part ++ p) ps
unfolding parts
parts-append part [] ps = ap (λ t. parts t ps) (sym (append-nil part))
parts-append part (c ∷ p) ps =
    parts-append (part ++ c ∷ []) p ps ∙ ap (λ t. parts t ps) (append_assoc part (c ∷ []) p)

-- What holds of every match that is found holds of all that a scan gives.
pub All-hits :
    {A : Type 0} (P : A → Type 0) (match : Text → Option (Hit A)) (k : ℕ) (s : Text)
    → ((t : Text) (h : Hit A) → match t ≡ some h → P h.value)
    → All P (hits (scan match k s))
unfolding scan hits
All-hits P match k [] f = record {}
All-hits P match (suc k) (c ∷ s) f = All-hits P match k s f
All-hits P match zero (c ∷ s) f = elim (Option-cases (match (c ∷ s))) [
  | inl e ↦ ground (arith, e, All-hits P match 0 s f)
  | inr (h, e) ↦ ground (arith, e, f (c ∷ s) h e, All-hits P match h.more s f)
]

module _ {A : Type 0} (match : Text → Option (Hit A)) (c : ℕ) (s : Text) where
  pub scan-none : match (c ∷ s) ≡ none → scan match 0 (c ∷ s) ≡ char c ∷ scan match 0 s
  unfolding scan
  scan-none e = ground (arith, e)

  pub scan-some :
      (h : Hit A)
      → match (c ∷ s) ≡ some h
      → scan match 0 (c ∷ s) ≡ hit h.value ∷ scan match h.more s
  unfolding scan
  scan-some h e = ground (arith, e)
