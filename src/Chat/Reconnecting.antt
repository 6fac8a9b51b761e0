-- ===== src/Chat/Reconnecting.antt =====
-- How often and how fast the page reconnects (`onclose` in frontend/app.js).
use wifi_chat.Base.{
  take, ℕ, zero, suc, ◌+◌, ◌≤◌, ◌≡◌, refl, true, List, [], ◌∷◌, ◌++◌, append_assoc, append-nil,
  arith, ltb, leb, ◌||◌, if◌then◌else◌, sym,
}
use wifi_chat.Js.Text.{truthy}
use wifi_chat.Chat.State.{Chat}
use wifi_chat.Chat.Store.{add_system_message}
use wifi_chat.Chat.Connection.{delay, on_close}

-- The socket closes a number of times, and never opens in between.
abbrev pub closes : ℕ → List ℕ → Chat → Chat
closes zero times c = c
closes (suc n) [] c = closes n [] (on_close 0 c)
closes (suc n) (t ∷ times) c = closes n times (on_close t c)

-- The delays from an attempt on.
abbrev pub backoff : ℕ → ℕ → List ℕ
backoff zero a = []
backoff (suc n) a = if ltb a 5 then delay (suc a) ∷ backoff n (suc a) else []

module _ (now : ℕ) (c : Chat) (name : truthy c.my_username ≡ true) where
  keeps_name : truthy (on_close now c).my_username ≡ true
  unfolding on_close add_system_message
  keeps_name = ground arith

  attempts-on_close :
      (on_close now c).attempts ≡ (if ltb c.attempts 5 then suc c.attempts else c.attempts)
  unfolding on_close add_system_message
  attempts-on_close = ground arith

  scheduled-on_close :
      (on_close now c).scheduled
      ≡ (if ltb c.attempts 5 then c.scheduled ++ delay (suc c.attempts) ∷ [] else c.scheduled)
  unfolding on_close add_system_message
  scheduled-on_close = ground arith

  login-on_close : (on_close now c).login_shown ≡ (leb 5 c.attempts || c.login_shown)
  unfolding on_close add_system_message
  login-on_close = ground arith

backoff_over : (n a : ℕ) → 5 ≤ a → backoff n a ≡ []
backoff_over zero a h = refl
backoff_over (suc n) a h = ground arith

-- One more delay for each close, until there have been five attempts.
scheduled-closes :
    (n : ℕ) (times : List ℕ) (c : Chat)
    → truthy c.my_username ≡ true
    → (closes n times c).scheduled ≡ c.scheduled ++ backoff n c.attempts
scheduled-closes zero times c name = sym (append-nil c.scheduled)
scheduled-closes (suc n) [] c name = ground (
  arith,
  scheduled-closes n [] (on_close 0 c) (keeps_name 0 c name),
  scheduled-on_close 0 c name,
  attempts-on_close 0 c name,
  append_assoc c.scheduled (delay (suc c.attempts) ∷ []) (backoff n (suc c.attempts)),
  append-nil c.scheduled,
  backoff_over n c.attempts,
)
scheduled-closes (suc n) (t ∷ times) c name = ground (
  arith,
  scheduled-closes n times (on_close t c) (keeps_name t c name),
  scheduled-on_close t c name,
  attempts-on_close t c name,
  append_assoc c.scheduled (delay (suc c.attempts) ∷ []) (backoff n (suc c.attempts)),
  append-nil c.scheduled,
  backoff_over n c.attempts,
)

-- The delays as the source computes them, in milliseconds.
abbrev pub delays : List ℕ
delays = 2000 ∷ 4000 ∷ 8000 ∷ 10000 ∷ 10000 ∷ []

backoff-delays : (n : ℕ) → backoff n 0 ≡ take n delays
unfolding delay
backoff-delays zero = refl
backoff-delays (suc zero) = refl
backoff-delays (suc (suc zero)) = refl
backoff-delays (suc (suc (suc zero))) = refl
backoff-delays (suc (suc (suc (suc zero)))) = refl
backoff-delays (suc (suc (suc (suc (suc zero))))) = refl
backoff-delays (suc (suc (suc (suc (suc (suc n)))))) = refl

-- Once the attempts are used up, a further close shows the login screen, and no earlier one does.
login-closes :
    (n : ℕ) (times : List ℕ) (c : Chat)
    → truthy c.my_username ≡ true
    → c.attempts ≤ 5
    → (closes n times c).login_shown ≡ (ltb 5 (n + c.attempts) || c.login_shown)
login-closes zero times c name le = ground arith
login-closes (suc n) [] c name le = ground (
  arith,
  login-on_close 0 c name,
  attempts-on_close 0 c name,
  login-closes n [] (on_close 0 c) (keeps_name 0 c name)
      (ground (arith, attempts-on_close 0 c name)),
)
login-closes (suc n) (t ∷ times) c name le = ground (
  arith,
  login-on_close t c name,
  attempts-on_close t c name,
  login-closes n times (on_close t c) (keeps_name t c name)
      (ground (arith, attempts-on_close t c name)),
)

-- A named page whose socket closes a number of times without opening, from a fresh count: it
-- schedules one reconnection for each of the first five closes, after 2, 4, 8, 10 and 10 seconds,
-- and shows the login screen from the sixth close on, and not for an earlier one.
pub closes-delays :
    (n : ℕ) (times : List ℕ) (c : Chat)
    → truthy c.my_username ≡ true
    → c.attempts ≡ 0
    → c.scheduled ≡ []
    → ((closes n times c).scheduled ≡ take n delays)
      × ((closes n times c).login_shown ≡ (ltb 5 n || c.login_shown))
closes-delays n times c name none_ empty = (
  ground (arith, scheduled-closes n times c name, backoff-delays n),
  ground (arith, login-closes n times c name),
)
