-- ===== src/Chat/Disappearing.antt =====
-- Disappearing messages in frontend/app.js: `scheduleDisappearingMessages` and the callback of its
-- interval.
use wifi_chat.Base.{
  ℕ, ◌-◌, ltb, ◌==◌, Bool, true, false, not, ◌||◌, Option, none, some, List, [], ◌∷◌, if◌then◌else◌,
  filter, length,
}
use wifi_chat.Js.Dict.{Dict}
use wifi_chat.Chat.State.{Message, Chat, is_system}
use wifi_chat.Chat.Store.{save_store, render_messages}

abbrev pub or_zero : Option ℕ → ℕ
or_zero none = 0
or_zero (some n) = n

-- The test of the filter. A time in the future makes the age negative in the source and 0 here;
-- both are below the timer, which is positive.
abbrev pub stays : ℕ → ℕ → Message → Bool
stays timer now m = is_system m || ltb (now - or_zero m.ts) timer

-- The loop over the store: the conversations after it, and whether one became shorter.
unfoldable pub expire : ℕ → ℕ → Dict (List Message) → Dict (List Message) × Bool
unfolding filter
expire timer now [] = ([], false)
expire timer now ((key, ms) ∷ d) =
    let (rest, changed) = expire timer now d in
    let kept = filter (stays timer now) ms in
    if ltb (length kept) (length ms)
    then ((key, kept) ∷ rest, true)
    else ((key, ms) ∷ rest, changed)

unfoldable pub tick : ℕ → Chat → Chat
unfolding expire
tick now c =
    if not c.interval_runs
    then c
    else if c.disappearing_timer == 0
    then record c { interval_runs = false }
    else let (d, changed) = expire c.disappearing_timer now c.store in
      if changed then render_messages (save_store (record c { store = d })) else c

unfoldable pub schedule : Chat → Chat
schedule c = record c { interval_runs = not (c.disappearing_timer == 0) }
