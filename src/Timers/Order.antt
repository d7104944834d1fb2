-- ===== src/Timers/Order.antt =====
-- Who times out first in echoD, and how long a node sleeps.
use echod.Prelude.{Option, arith, false, none, some, true, ℕ, ◌+◌, ◌<◌, ◌≡◌, ◌≢◌, ◌≤◌, ◌⊎◌}
use echod.Config.{
  echod_election_timeout_max, echod_election_timeout_min, echod_ping_max_interval,
  election_tie_break_ms, full_charge,
}
use echod.Messages.{is_leading, observer}
use echod.Node.{Coordinator, Env, echo_d, ms}
use echod.Timers.{
  least_wait, new_election_deadline, poll_quantum, reset_election_timer, wakeup_interval,
}

-- With tie-breaks below 30 ms, 96 667 millionths (9.7 %) more battery is an earlier deadline, when
-- both timers are reset at the same time.
pub reset_election_timer-earlier :
    (env : Env) (c d : Coordinator)
    → c.protocol ≡ echo_d
    → d.protocol ≡ echo_d
    → c.battery ≤ full_charge
    → c.tie_break_ms < election_tie_break_ms
    → d.battery + 96_667 ≤ c.battery
    → (reset_election_timer env c).election_deadline
      < (reset_election_timer env d).election_deadline
unfolding reset_election_timer new_election_deadline
reset_election_timer-earlier env c d p q full tie gap = rw (p, q) (omega arith)

-- With less of a difference the tie-break may decide: a node with up to 96 666 millionths less
-- battery and tie-break 0 has the earlier deadline than one with tie-break 29.
pub reset_election_timer-inverts :
    (env : Env) (c d : Coordinator)
    → c.protocol ≡ echo_d
    → d.protocol ≡ echo_d
    → c.tie_break_ms ≡ 29
    → d.tie_break_ms ≡ 0
    → c.battery ≤ d.battery + 96_666
    → (reset_election_timer env d).election_deadline
      < (reset_election_timer env c).election_deadline
unfolding reset_election_timer new_election_deadline
reset_election_timer-inverts env c d p q t u gap = rw (p, q) (omega arith)

-- A fresh deadline of echoD is 300 to 630 ms ahead, so further ahead than the longest interval
-- between two pings.
pub reset_election_timer_bounds :
    (env : Env) (c : Coordinator)
    → c.protocol ≡ echo_d
    → c.battery ≤ full_charge
    → c.tie_break_ms < election_tie_break_ms
    → let deadline = (reset_election_timer env c).election_deadline in
      (env.now + ms echod_election_timeout_min ≤ deadline)
      × (env.now + ms echod_ping_max_interval < deadline)
      × (deadline < env.now + ms (echod_election_timeout_max + election_tie_break_ms))
unfolding reset_election_timer new_election_deadline
reset_election_timer_bounds env c p full tie = rw p (omega arith)

-- The wake-up is not past the deadline, if there is one, unless it is the least wait.
abbrev pub NotPast : ℕ → Env → Option ℕ → Type 0
NotPast wake env none = Unit
NotPast wake env (some deadline) = (wake ≡ least_wait) ⊎ (env.now + wake ≤ deadline)

-- Every node sleeps between 1 and 50 ms. A leader of echoD sleeps neither past its next ping nor past
-- the end of its batch window, and no follower or candidate past its election deadline; if that is
-- less than 1 ms ahead, it sleeps 1 ms.
pub wakeup_interval_bounds :
    (env : Env) (c : Coordinator)
    → let wake = wakeup_interval env c in
      (least_wait ≤ wake)
      × (wake ≤ poll_quantum)
      × ((is_leading c.state ≡ false)
          ⊎ (c.protocol ≢ echo_d)
          ⊎ (NotPast wake env c.batch_deadline
              × NotPast wake env (some (c.last_ping_time + ms c.ping_interval))))
      × ((is_leading c.state ≡ true)
          ⊎ (c.state ≡ observer)
          ⊎ NotPast wake env (some c.election_deadline))
unfolding wakeup_interval
wakeup_interval_bounds env c = ground arith
