-- ===== src/Server/Sending.antt =====
-- `SendJSON` and `CloseSend` of internal/hub/client.go on the channel of one client, as goroutines
-- run them against one another.
use wifi_chat.Base.{
  ℕ, leb, ◌≡◌, refl, Bool, true, false, not, List, [], ◌∷◌, ◌++◌, arith, if◌then◌else◌, length,
}
use wifi_chat.Server.Message.{Reply}
use wifi_chat.Server.Hub.{new_client, member, add, without, capacity, enqueue}

-- The channel, the goroutines that have found it open and have not sent yet, and whether a send has
-- panicked.
pub record Channel : Type 0 where
  pub closed : Bool
  pub waiting : List Reply
  pub passed : List ℕ
  pub panicked : Bool

abbrev pub new_channel : Channel
new_channel = record { closed = false; waiting = []; passed = []; panicked = false }

-- What a goroutine does without interruption: the test of `closed` under the lock, the send, which
-- panics on a closed channel, and `CloseSend`.
pub data Action : Type 0 where
  checks : ℕ → Action
  sends : ℕ → Reply → Action
  closes : Action

abbrev pub check_open : ℕ → Channel → Channel
check_open g c = if c.closed then c else record c { passed = add g c.passed }

abbrev pub put_in : Reply → Channel → Channel
put_in r c =
    if c.closed
    then record c { panicked = true }
    else if leb capacity (length c.waiting)
    then c
    else record c { waiting = c.waiting ++ r ∷ [] }

abbrev pub send_on : ℕ → Reply → Channel → Channel
send_on g r c = if member g c.passed then put_in r (record c { passed = without g c.passed }) else c

unfoldable pub perform : Action → Channel → Channel
unfolding member add without
perform (checks g) c = check_open g c
perform (sends g r) c = send_on g r c
perform closes c = record c { closed = true }

unfoldable pub perform_all : List Action → Channel → Channel
unfolding perform
perform_all [] c = c
perform_all (a ∷ more) c = perform_all more (perform a c)

-- Calls that run from their beginning to their end.
pub data Whole : Type 0 where
  sending : ℕ → Reply → Whole
  closing : Whole

unfoldable pub actions_of : List Whole → List Action
actions_of [] = []
actions_of (sending g r ∷ ws) = checks g ∷ sends g r ∷ actions_of ws
actions_of (closing ∷ ws) = closes ∷ actions_of ws

-- No goroutine is between the test and the send, and none has panicked.
record IsQuiet (c : Channel) : Type 0 where
  passed : c.passed ≡ []
  panicked : c.panicked ≡ false

one_send :
    (g : ℕ) (r : Reply) (c : Channel)
    → IsQuiet c
    → IsQuiet (perform (sends g r) (perform (checks g) c))
unfolding perform add without member
one_send g r c q = record {
  passed = ground (arith, q.passed);
  panicked = ground (arith, q.passed, q.panicked);
}

actions_of-IsQuiet :
    (ws : List Whole) (c : Channel) → IsQuiet c → IsQuiet (perform_all (actions_of ws) c)
unfolding perform_all actions_of
actions_of-IsQuiet [] c q = q
actions_of-IsQuiet (sending g r ∷ ws) c q =
    actions_of-IsQuiet ws (perform (sends g r) (perform (checks g) c)) (one_send g r c q)
actions_of-IsQuiet (closing ∷ ws) c q =
    actions_of-IsQuiet ws (perform closes c) (record { passed = q.passed; panicked = q.panicked })

-- The calls of one goroutine after another, from a new channel.
abbrev pub channel_after : List Whole → Channel
channel_after ws = perform_all (actions_of ws) new_channel

-- After any calls that ran one after another on a new channel, none has panicked, and one more
-- `SendJSON` that runs alone does to what waits what the hub's model says. But if the channel is
-- still open and `CloseSend` runs between the test of that `SendJSON` and its send, the send panics.
pub perform_all-races :
    (ws : List Whole) (g : ℕ) (r : Reply)
    → ((channel_after ws).panicked ≡ false)
      × ((perform_all (checks g ∷ sends g r ∷ []) (channel_after ws)).waiting
          ≡ enqueue
              (λ _. record new_client { closed = (channel_after ws).closed })
              g
              r
              (λ _. (channel_after ws).waiting)
              g)
      × ((perform_all (checks g ∷ closes ∷ sends g r ∷ []) (channel_after ws)).panicked
          ≡ not (channel_after ws).closed)
unfolding perform_all perform add without member enqueue
perform_all-races ws g r =
    let q = actions_of-IsQuiet ws new_channel (record { passed = refl; panicked = refl }) in
    let c = channel_after ws in
    (q.panicked, ground (arith, q.passed, q.panicked), ground (arith, q.passed, q.panicked))
