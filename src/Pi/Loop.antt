-- ===== src/Pi/Loop.antt =====
-- The main loop of the hardware coordinator, rpi/coordinator/echo_node.py.
use echod.Prelude.{
  Bool, Option, String, [], false, if◌then◌else◌, leb, length, ltb, none, not, some, true, ℕ, ◌&&◌,
  ◌+◌,
}
use echod.Config.{t_handoff}
use echod.Messages.{Command, is_leading, is_observer}
use echod.Node.{Protocol, echo, echo_d, raft}
use echod.Pi.{PiCoordinator, PiEnv, check_battery}
use echod.Pi.Handoff.{pi_initiate_handoff}
use echod.Pi.Inbox.{drain_inbox}
use echod.Pi.Liveness.{
  pi_ping_interval, pi_send_heartbeats, pi_send_leaf_keepalives, pi_send_liveness_ping,
}
use echod.Pi.Rounds.{pi_flush_batch}
use echod.Pi.Votes.{pi_start_election}

-- LEAF_KEEPALIVE_INTERVAL, 5 s
abbrev pub pi_keepalive_interval : ℕ
pi_keepalive_interval = 5_000_000_000

abbrev pub pi_is_past : ℕ → Option ℕ → Bool
pi_is_past now none = false
pi_is_past now (some t) = leb t now

unfoldable pub pi_flush_if_due : PiEnv → PiCoordinator → PiCoordinator
unfolding pi_flush_batch
pi_flush_if_due env c = if pi_is_past env.now c.batch_deadline then pi_flush_batch env c else c

unfoldable pub pi_ping_if_due : PiEnv → ℕ → PiCoordinator → PiCoordinator
unfolding pi_send_liveness_ping
pi_ping_if_due env interval c =
    if leb (c.last_ping_time + interval) env.now
    then record (pi_send_liveness_ping c) { last_ping_time = env.now }
    else c

unfoldable pub pi_heartbeat_if_due : PiEnv → PiCoordinator → PiCoordinator
unfolding pi_send_heartbeats
pi_heartbeat_if_due env c =
    if leb (c.last_ping_time + pi_ping_interval) env.now
    then record (pi_send_heartbeats c) { last_ping_time = env.now }
    else c

unfoldable pub pi_handoff_if_low : PiEnv → PiCoordinator → PiCoordinator
unfolding pi_initiate_handoff
pi_handoff_if_low env c =
    if ltb env.level t_handoff && not c.handoff_sent then pi_initiate_handoff env c else c

-- A leader's part of a tick. RAFT_HEARTBEAT_INTERVAL is LIVENESS_PING_INTERVAL.
abbrev pub lead : Protocol → PiEnv → PiCoordinator → PiCoordinator
lead raft env c = pi_heartbeat_if_due env c
lead echo env c = pi_ping_if_due env pi_ping_interval c
lead echo_d env c =
    let d = pi_flush_if_due env c in pi_handoff_if_low env (pi_ping_if_due env d.ping_interval d)

abbrev pub keep_leaves : Protocol → PiEnv → PiCoordinator → PiCoordinator
keep_leaves echo_d env c =
    if ltb 0 (length c.leaves) && leb (c.last_leaf_keepalive + pi_keepalive_interval) env.now
    then record (pi_send_leaf_keepalives c) { last_leaf_keepalive = env.now }
    else c
keep_leaves p env c = c

unfoldable pub pi_act : PiEnv → PiCoordinator → PiCoordinator
unfolding pi_heartbeat_if_due pi_ping_if_due pi_flush_if_due pi_handoff_if_low pi_start_election
pi_act env c =
    if is_leading c.state
    then lead c.protocol env c
    else if leb c.election_deadline env.now
    then pi_start_election env c
    else c

unfoldable pub pi_tick : PiEnv → PiCoordinator → PiCoordinator
unfolding pi_act pi_send_leaf_keepalives
pi_tick env c = if is_observer c.state then c else keep_leaves c.protocol env (pi_act env c)

-- The rest of a round of `run`, which ends where a handler has raised, but for the status that it publishes and the pause.
unfoldable pub pi_settle : PiEnv → PiCoordinator → PiCoordinator
unfolding check_battery pi_tick
pi_settle env c = pi_tick env (check_battery env c.protocol c)

abbrev pub pi_settled : PiEnv → Option PiCoordinator → Option PiCoordinator
pi_settled env none = none
pi_settled env (some c) = some (if c.raised then c else pi_settle env c)

unfoldable pub pi_run_round :
    (Command → String) → (ℕ → PiEnv) → PiEnv → ℕ → PiCoordinator → Option PiCoordinator
unfolding drain_inbox pi_settle
pi_run_round dumps envs env fuel c = pi_settled env (drain_inbox dumps envs fuel c)

-- What `run` sets up, and `stop`.
unfoldable pub pi_start : PiCoordinator → PiCoordinator
pi_start c = record c { running = true; inbox = some [] }

unfoldable pub pi_stop : PiCoordinator → PiCoordinator
pi_stop c = record c { running = false }
