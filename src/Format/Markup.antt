-- ===== src/Format/Markup.antt =====
-- Texts in which every `<` begins one of some given tags, and what keeps them so.
use wifi_chat.Base.{
  ℕ, ◌≡◌, refl, sym, ◌==◌, Bool, true, false, not, ◌&&◌, ◌||◌, List, [], ◌∷◌, ◌++◌, All, arith,
}
use wifi_chat.Js.Text.{Text, has_any, starts_with}

-- Whether a text begins with one of some texts.
unfoldable pub opens : List Text → Text → Bool
unfolding starts_with
opens [] s = false
opens (t ∷ ts) s = starts_with t s || opens ts s

abbrev pub is_lt : ℕ → Bool
is_lt c = c == b'<'

-- None of some texts has such a character.
abbrev pub Lack : (ℕ → Bool) → List Text → Type 0
Lack p = All (λ t. has_any p t ≡ false)

starts_with-more : (t s u : Text) → starts_with t s ≡ true → starts_with t (s ++ u) ≡ true
unfolding starts_with
starts_with-more [] s u h = refl
starts_with-more (c ∷ t) [] u h = cc
starts_with-more (c ∷ t) (d ∷ s) u h = ground (arith, starts_with-more t s u)

opens-append : (ts : List Text) (s u : Text) → opens ts s ≡ true → opens ts (s ++ u) ≡ true
unfolding opens
opens-append [] s u h = h
opens-append (t ∷ ts) s u h = ground (arith, starts_with-more t s u, opens-append ts s u)

-- A text that lacks a character does not reach past it.
starts_with-before :
    (e : ℕ) (t s u : Text)
    → has_any (λ c. c == e) t ≡ false
    → starts_with t (s ++ e ∷ u) ≡ true
    → starts_with t s ≡ true
unfolding starts_with
starts_with-before e [] s u l h = refl
starts_with-before e (c ∷ t) [] u l h = ground arith
starts_with-before e (c ∷ t) (d ∷ s) u l h = ground (arith, starts_with-before e t s u)

opens-before :
    (e : ℕ) (ts : List Text) (s u : Text)
    → Lack (λ c. c == e) ts
    → opens ts (s ++ e ∷ u) ≡ true
    → opens ts s ≡ true
unfolding opens
opens-before e [] s u l h = h
opens-before e (t ∷ ts) s u l h =
    ground (arith, starts_with-before e t s u, opens-before e ts s u l.1)

-- A function on texts that leaves all but some characters alone.
abbrev pub Keeps : (ℕ → Bool) → (Text → Text) → Type 0
Keeps p f = (c : ℕ) (s : Text) → p c ≡ false → f (c ∷ s) ≡ c ∷ f s

starts_with-Keeps :
    (p : ℕ → Bool) (f : Text → Text) (t s : Text)
    → Keeps p f
    → has_any p t ≡ false
    → starts_with t s ≡ true
    → starts_with t (f s) ≡ true
unfolding starts_with
starts_with-Keeps p f [] s k l h = refl
starts_with-Keeps p f (c ∷ t) [] k l h = cc
starts_with-Keeps p f (c ∷ t) (d ∷ s) k l h =
    let same : c ≡ d = ground (arith, h) in
    let plain : p d ≡ false = rw (sym same) (ground arith) in
    rw (k d s plain) (ground (arith, starts_with-Keeps p f t s k))

pub opens-Keeps :
    (p : ℕ → Bool) (f : Text → Text) (ts : List Text) (s : Text)
    → Keeps p f
    → Lack p ts
    → opens ts s ≡ true
    → opens ts (f s) ≡ true
unfolding opens
opens-Keeps p f [] s k l h = h
opens-Keeps p f (t ∷ ts) s k l h =
    ground (arith, starts_with-Keeps p f t s k, opens-Keeps p f ts s k l.1)

module _ (ts : List Text) where
  -- Every `<` begins one of the tags, which are given without it.
  unfoldable pub own_tags : Text → Bool
  unfolding opens
  own_tags [] = true
  own_tags (c ∷ s) = (not (is_lt c) || opens ts s) && own_tags s

  pub own_tags-plain : (s : Text) → has_any is_lt s ≡ false → own_tags s ≡ true
  unfolding own_tags
  own_tags-plain [] h = refl
  own_tags-plain (c ∷ s) h = ground (arith, own_tags-plain s)

  pub own_tags-append :
      (s u : Text) → own_tags s ≡ true → own_tags u ≡ true → own_tags (s ++ u) ≡ true
  unfolding own_tags
  own_tags-append [] u h k = k
  own_tags-append (c ∷ s) u h k = ground (arith, own_tags-append s u, opens-append ts s u)

  pub own_tags-suffix : (s u : Text) → own_tags (s ++ u) ≡ true → own_tags u ≡ true
  unfolding own_tags
  own_tags-suffix [] u h = h
  own_tags-suffix (c ∷ s) u h = own_tags-suffix s u (ground arith)

  pub own_tags-before :
      (e : ℕ) (s u : Text)
      → Lack (λ c. c == e) ts
      → own_tags (s ++ e ∷ u) ≡ true
      → own_tags s ≡ true
  unfolding own_tags
  own_tags-before e [] u l h = refl
  own_tags-before e (c ∷ s) u l h = ground (arith, opens-before e ts s u l, own_tags-before e s u l)

  pub own_tags-cons :
      (c : ℕ) (s u : Text)
      → own_tags (c ∷ s) ≡ true
      → (opens ts s ≡ true → opens ts u ≡ true)
      → own_tags u ≡ true
      → own_tags (c ∷ u) ≡ true
  unfolding own_tags
  own_tags-cons c s u h more k = ground (arith, more)

  pub own_tags-tail : (c : ℕ) (s : Text) → own_tags (c ∷ s) ≡ true → own_tags s ≡ true
  unfolding own_tags
  own_tags-tail c s h = ground arith
