-- ===== src/Pi/Liveness.antt =====
-- Heartbeats, pings, keepalives and leaf registration of the hardware coordinator,
-- rpi/coordinator/echo_node.py.
use echod.Prelude.{if◌then◌else◌, leb, min, some, true, ℕ, ◌*◌}
use echod.Messages.{LeafRegisterRequest, LivenessPing, NodeId}
use echod.Node.{Protocol, echo_d}
use echod.Pi.{
  PiCoordinator, PiEnv, pi_adopt_term, pi_broadcast, pi_reset_election_timer, pi_send, pi_send_each,
  pi_step_down,
}
use echod.Pi.Rounds.{send_append_each}
use echod.Prelude.Dict.{add}
use echod.Wire.{PiPayload}

unfoldable pub pi_send_heartbeats : PiCoordinator → PiCoordinator
unfolding send_append_each
pi_send_heartbeats c = send_append_each c.peers c

abbrev pub pi_ping : PiCoordinator → PiPayload
pi_ping c = PiPayload.liveness_ping (record { term = c.current_term; leader_id = c.node_id })

-- LIVENESS_PING_INTERVAL, and ECHOD_PING_MAX_INTERVAL, in nanoseconds
abbrev pub pi_ping_interval : ℕ
pi_ping_interval = 250_000_000

abbrev pub pi_ping_max_interval : ℕ
pi_ping_max_interval = 1_000_000_000

unfoldable pub pi_next_interval : PiCoordinator → ℕ
pi_next_interval c =
    if leb c.last_ping_time c.last_consensus_activity
    then pi_ping_interval
    else min (c.ping_interval * 2) pi_ping_max_interval

abbrev pub pi_ping_method : Protocol → PiCoordinator → PiCoordinator
pi_ping_method echo_d c = record (pi_send_each c.peers (pi_ping c) c) {
  ping_interval = pi_next_interval c;
}
pi_ping_method _ c = pi_broadcast (pi_ping c) c

unfoldable pub pi_send_liveness_ping : PiCoordinator → PiCoordinator
unfolding pi_send_each pi_next_interval pi_broadcast
pi_send_liveness_ping c = pi_ping_method c.protocol c

-- The leaves are visited in the order of their registration; the code's set has no order.
unfoldable pub pi_send_leaf_keepalives : PiCoordinator → PiCoordinator
unfolding pi_send_each
pi_send_leaf_keepalives c = pi_send_each c.leaves (pi_ping c) c

unfoldable pub pi_handle_liveness_ping : PiEnv → LivenessPing → PiCoordinator → PiCoordinator
unfolding pi_step_down pi_reset_election_timer
pi_handle_liveness_ping env ping c =
    if leb c.current_term ping.term
    then pi_reset_election_timer env
        (record (pi_adopt_term env ping.term c) { current_leader_id = some ping.leader_id })
    else c

unfoldable pub pi_handle_leaf_register :
    NodeId → LeafRegisterRequest → PiCoordinator → PiCoordinator
unfolding pi_send
pi_handle_leaf_register sender req c =
    pi_send sender
      (PiPayload.leaf_register_response
        (record { accepted = true; coordinator_id = c.node_id; term = c.current_term }))
      (record c { leaves = add req.leaf_id c.leaves })
