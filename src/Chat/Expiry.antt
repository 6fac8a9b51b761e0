-- ===== src/Chat/Expiry.antt =====
-- What the interval of the disappearing messages leaves (frontend/app.js).
use wifi_chat.Base.{
  ℕ, ◌+◌, ◌≡◌, refl, ltb, ◌==◌, Bool, false, not, ◌&&◌, ◌||◌, List, [], ◌∷◌, if◌then◌else◌, arith,
  filter, length, length-filter-le,
}
use wifi_chat.Js.Dict.{Dict}
use wifi_chat.Chat.State.{Message, Chat, is_system}
use wifi_chat.Chat.Disappearing.{or_zero, stays, expire, tick}

-- A filter that drops nothing is the identity.
filter_full {ℓ} :
    {A : Type ℓ} (p : A → Bool) (xs : List A)
    → ltb (length (filter p xs)) (length xs) ≡ false
    → filter p xs ≡ xs
unfolding filter
filter_full p [] h = refl
filter_full p (x ∷ xs) h = ground (arith, filter_full p xs, length-filter-le p xs)

abbrev pub keep_young : ℕ → ℕ → Dict (List Message) → Dict (List Message)
keep_young timer now [] = []
keep_young timer now ((key, ms) ∷ d) =
    (key, filter (λ m. is_system m || ltb now (or_zero m.ts + timer)) ms) ∷ keep_young timer now d

filter-stays :
    (timer now : ℕ) (ms : List Message)
    → (timer == 0) ≡ false
    → filter (stays timer now) ms ≡ filter (λ m. is_system m || ltb now (or_zero m.ts + timer)) ms
unfolding filter
filter-stays timer now [] on = refl
filter-stays timer now (m ∷ ms) on = ground (arith, filter-stays timer now ms on)

expire-keep_young :
    (timer now : ℕ) (d : Dict (List Message))
    → (timer == 0) ≡ false
    → (expire timer now d).0 ≡ keep_young timer now d
unfolding expire
expire-keep_young timer now [] on = refl
expire-keep_young timer now ((key, ms) ∷ d) on = ground (
  arith,
  expire-keep_young timer now d on,
  filter_full (stays timer now) ms,
  filter-stays timer now ms on,
)

expire_unchanged :
    (timer now : ℕ) (d : Dict (List Message))
    → (expire timer now d).1 ≡ false
    → (expire timer now d).0 ≡ d
unfolding expire
expire_unchanged timer now [] h = refl
expire_unchanged timer now ((key, ms) ∷ d) h = ground (arith, expire_unchanged timer now d)

-- After the callback the store holds, of each conversation, the system messages and those whose time
-- and the timer together lie after the present, in order, if the timer is set and the interval runs,
-- and the same as before if not.
pub store-tick :
    (now : ℕ) (c : Chat)
    → (tick now c).store ≡ (
        if c.interval_runs && not (c.disappearing_timer == 0)
        then keep_young c.disappearing_timer now c.store
        else c.store)
unfolding tick
store-tick now c = ground (
  arith,
  expire-keep_young c.disappearing_timer now c.store,
  expire_unchanged c.disappearing_timer now c.store,
)
