-- ===== src/Examples/Timing.antt =====
-- Timers and pings.
use echod.Prelude.{arith, refl, ◌+◌, ◌<◌, ◌≡◌, ◌≤◌}
use echod.Config.{
  echod_election_timeout_max, echod_election_timeout_min, echod_ping_max_interval,
  election_tie_break_ms, liveness_ping_interval,
}
use echod.Examples.Data.{env, leading, node, weaker}
use echod.Liveness.{send_liveness_ping}
use echod.Liveness.Backoff.{pings, pings-cap}
use echod.Node.{ms}
use echod.Timers.{reset_election_timer}
use echod.Timers.Order.{
  reset_election_timer-earlier, reset_election_timer-inverts, reset_election_timer_bounds,
}

reset_election_timer-earlier_example :
    (reset_election_timer env node).election_deadline
    < (reset_election_timer env weaker).election_deadline
reset_election_timer-earlier_example =
    reset_election_timer-earlier env node weaker refl refl (omega arith) (omega arith) (omega arith)

reset_election_timer-inverts_example :
    (reset_election_timer env weaker).election_deadline
    < (reset_election_timer env
        (record node { battery = 690_000; tie_break_ms = 29 })).election_deadline
reset_election_timer-inverts_example =
    reset_election_timer-inverts env (record node { battery = 690_000; tie_break_ms = 29 }) weaker
      refl refl refl refl (omega arith)

reset_election_timer_bounds_example :
    let deadline = (reset_election_timer env node).election_deadline in
    (env.now + ms echod_election_timeout_min ≤ deadline)
    × (env.now + ms echod_ping_max_interval < deadline)
    × (deadline < env.now + ms (echod_election_timeout_max + election_tie_break_ms))
reset_election_timer_bounds_example =
    reset_election_timer_bounds env node refl (omega arith) (omega arith)

pings-cap_example :
    ((pings 3 env leading).ping_interval ≡ echod_ping_max_interval)
    × ((send_liveness_ping env
          (record leading { last_consensus_activity = 4_950_000_000 })).ping_interval
        ≡ liveness_ping_interval)
pings-cap_example =
    pings-cap 0 4_950_000_000 env leading (refl, omega arith, omega arith)
      (omega arith, omega arith) (omega arith)
