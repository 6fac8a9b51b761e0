-- ===== src/Chat/Avatars.antt =====
-- The avatars of frontend/app.js: `getUserColor` and `getUserInitial`.
use Prim.Native.Nat.{◌^◌}
use wifi_chat.Base.{
  ℕ, zero, suc, ◌+◌, ◌-◌, ◌*◌, ◌%◌, ◌≤◌, ◌<◌, ltb, leb, List, [], ◌∷◌, arith, length, if◌then◌else◌,
  All,
}
use wifi_chat.Js.Text.{Text, js}

-- An integer; `negsuc n` is -(n + 1).
pub data ℤ : Type 0 where
  pos negsuc : ℕ → ℤ

abbrev pub abs : ℤ → ℕ
abs (pos n) = n
abs (negsuc n) = suc n

-- The difference of two natural numbers.
abbrev pub diff : ℕ → ℕ → ℤ
diff a b = if leb b a then pos (a - b) else negsuc (b - a - 1)

infixl 60 ◌-ℤ◌
abbrev pub ◌-ℤ◌ : ℤ → ℤ → ℤ
pos a -ℤ pos b = diff a b
pos a -ℤ negsuc b = pos (a + suc b)
negsuc a -ℤ pos b = negsuc (a + b)
negsuc a -ℤ negsuc b = diff b a

abbrev pub add_code : ℕ → ℤ → ℤ
add_code c (pos a) = pos (c + a)
add_code c (negsuc a) = diff c (suc a)

-- A number below 2 ^ 32 as a signed one.
unfoldable pub signed : ℕ → ℤ
signed u = if ltb u (2 ^ 31) then pos u else negsuc (2 ^ 32 - u - 1)

-- `h << 5`, on 32 bits
unfoldable pub shift_left_5 : ℤ → ℤ
unfolding signed
shift_left_5 (pos n) = signed (n * 32 % 2 ^ 32)
shift_left_5 (negsuc n) = signed ((2 ^ 32 - suc n * 32 % 2 ^ 32) % 2 ^ 32)

-- The loop of `getUserColor`. Its sums are not cut to 32 bits.
unfoldable pub hash_from : ℤ → Text → ℤ
hash_from h [] = h
hash_from h (c ∷ name) = hash_from (add_code c (shift_left_5 h -ℤ h)) name

abbrev pub avatar_colors : List Text
avatar_colors =
    js "#6c5ce7"
    ∷ js "#e17055"
    ∷ js "#00b894"
    ∷ js "#fdcb6e"
    ∷ js "#0984e3"
    ∷ js "#e84393"
    ∷ js "#00cec9"
    ∷ js "#d63031"
    ∷ js "#6c5ce7"
    ∷ js "#55a3f0"
    ∷ []

abbrev pub color_at : ℕ → List Text → Text
color_at n [] = []
color_at zero (t ∷ ts) = t
color_at (suc n) (t ∷ ts) = color_at n ts

unfoldable pub get_user_color : Text → Text
get_user_color name = color_at (abs (hash_from (pos 0) name) % 10) avatar_colors

-- `upper` is `toUpperCase`.
unfoldable pub get_user_initial : (Text → Text) → Text → Text
get_user_initial upper [] = js "?"
get_user_initial upper (c ∷ name) = upper (c ∷ [])

signed-bound : (u : ℕ) → u < 2 ^ 32 → abs (signed u) ≤ 2 ^ 31
unfolding signed
signed-bound u h = ground arith

shift-bound : (h : ℤ) → abs (shift_left_5 h) ≤ 2 ^ 31
unfolding shift_left_5
shift-bound (pos n) = signed-bound (n * 32 % 2 ^ 32) (omega arith)
shift-bound (negsuc n) = signed-bound ((2 ^ 32 - suc n * 32 % 2 ^ 32) % 2 ^ 32) (omega arith)

sub-bound : (a b : ℤ) → abs (a -ℤ b) ≤ abs a + abs b
sub-bound (pos a) (pos b) = ground arith
sub-bound (pos a) (negsuc b) = ground arith
sub-bound (negsuc a) (pos b) = ground arith
sub-bound (negsuc a) (negsuc b) = ground arith

add_code-bound : (c : ℕ) (h : ℤ) → abs (add_code c h) ≤ c + abs h
add_code-bound c (pos a) = ground arith
add_code-bound c (negsuc a) = ground arith

-- A character code has 16 bits.
abbrev pub IsUnit : ℕ → Type 0
IsUnit c = c < 2 ^ 16

hash_from-bound :
    (h : ℤ) (name : Text)
    → All IsUnit name
    → abs (hash_from h name) ≤ abs h + length name * (2 ^ 31 + 2 ^ 16)
unfolding hash_from
hash_from-bound h [] u = omega arith
hash_from-bound h (c ∷ name) u =
    let next = add_code c (shift_left_5 h -ℤ h) in
    omega (
      arith,
      hash_from-bound next name u.1,
      add_code-bound c (shift_left_5 h -ℤ h),
      sub-bound (shift_left_5 h) h,
      shift-bound h,
      u.0,
    )

-- The sums stay in the range in which a JavaScript number is exact, for names of up to four million
-- characters.
pub hash_from-exact :
    (name : Text) → All IsUnit name → length name ≤ 4000000 → abs (hash_from (pos 0) name) < 2 ^ 53
hash_from-exact name u short = omega (arith, hash_from-bound (pos 0) name u)
