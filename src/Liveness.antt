-- ===== src/Liveness.antt =====
-- Pings, heartbeats and leaf registration: simulation/core/coordinator.py,
-- simulation/protocols/raft.py and simulation/protocols/echod.py.
pub mod Backoff
use echod.Prelude.{if◌then◌else◌, leb, min, some, true, ℕ, ◌*◌}
use echod.Config.{echod_ping_max_interval, liveness_backoff_factor, liveness_ping_interval}
use echod.Messages.{LeafRegisterRequest, LivenessPing, NodeId, Payload}
use echod.Node.{
  Coordinator, Env, Protocol, address, broadcast, coordinators_except, echo, echo_d, members, post,
  raft, send, step_down,
}
use echod.Prelude.Dict.{add, keys}
use echod.Replication.{adopt_term, append_messages}
use echod.Timers.{reset_election_timer}

abbrev pub ping_of : Coordinator → Payload
ping_of c = Payload.liveness_ping (record { term = c.current_term; leader_id = c.node_id })

-- The interval after a ping of echoD: fast after consensus activity, else doubled up to the cap.
unfoldable pub next_ping_interval : ℕ → ℕ → ℕ → ℕ
next_ping_interval last_consensus_activity last_ping_time interval =
    if leb last_ping_time last_consensus_activity
    then liveness_ping_interval
    else min (interval * liveness_backoff_factor) echod_ping_max_interval

-- CoordinatorNode._send_liveness_ping
unfoldable pub broadcast_ping : Env → Coordinator → Coordinator
unfolding broadcast
broadcast_ping env c = broadcast env (ping_of c) c

-- EchoDCoordinator._send_liveness_ping
unfoldable pub adaptive_ping : Env → Coordinator → Coordinator
unfolding post next_ping_interval
adaptive_ping env c =
    post env (address c.node_id (coordinators_except c.node_id (members env.cluster)) (ping_of c))
      (record c {
        ping_interval =
            next_ping_interval c.last_consensus_activity c.last_ping_time c.ping_interval;
      })

abbrev pub ping_method : Protocol → Env → Coordinator → Coordinator
ping_method raft env c = broadcast_ping env c
ping_method echo env c = broadcast_ping env c
ping_method echo_d env c = adaptive_ping env c

unfoldable pub send_liveness_ping : Env → Coordinator → Coordinator
unfolding broadcast_ping adaptive_ping
send_liveness_ping env c = ping_method c.protocol env c

-- RaftNode._send_heartbeats
unfoldable pub send_heartbeats : Env → Coordinator → Coordinator
unfolding post
send_heartbeats env c = post env (append_messages c (keys c.next_index)) c

unfoldable pub send_leaf_keepalives : Env → Coordinator → Coordinator
unfolding post
send_leaf_keepalives env c = post env (address c.node_id c.leaves (ping_of c)) c

unfoldable pub handle_liveness_ping : Env → NodeId → LivenessPing → Coordinator → Coordinator
unfolding step_down reset_election_timer
handle_liveness_ping env sender ping c =
    if leb c.current_term ping.term
    then reset_election_timer env
        (record (adopt_term ping.term c) { current_leader_id = some ping.leader_id })
    else c

unfoldable pub handle_leaf_register : Env → NodeId → LeafRegisterRequest → Coordinator → Coordinator
unfolding send
handle_leaf_register env sender req c =
    send env sender
      (Payload.leaf_register_response
        (record { accepted = true; coordinator_id = c.node_id; term = c.current_term }))
      (record c { leaves = add req.leaf_id c.leaves })
