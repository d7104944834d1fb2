-- ===== src/Dispatch.antt =====
-- The event loop of a coordinator: the dispatch of messages (simulation/core/node.py) and the idle
-- ticks of the three classes.
pub mod Votes
pub mod Silence
pub mod Ticks
pub mod Campaigns
pub mod States
pub mod Invariant
use echod.Prelude.{
  Bool, List, Option, [], false, if◌then◌else◌, leb, ltb, none, not, some, true, ℕ, ◌&&◌, ◌-◌, ◌∷◌,
}
use echod.Config.{leaf_keepalive_interval, liveness_ping_interval, t_handoff}
use echod.Election.{handle_request_vote, handle_request_vote_response, start_election}
use echod.Handoff.{handle_leadership_handoff, initiate_handoff}
use echod.Liveness.{
  handle_leaf_register, handle_liveness_ping, send_heartbeats, send_leaf_keepalives,
  send_liveness_ping,
}
use echod.Messages.{Message, NodeId, Payload, is_leader, is_leading, is_observer}
use echod.Node.{Coordinator, Env, Protocol, echo, echo_d, ms, percent, raft}
use echod.Provisional.{handle_append_entries}
use echod.Replication.{handle_append_entries_response}
use echod.Sensors.{handle_sensor_data}
use echod.Triggers.{flush_batch}

unfoldable pub handle_payload : Env → NodeId → Payload → Coordinator → Coordinator
unfolding handle_request_vote handle_request_vote_response handle_append_entries
    handle_append_entries_response handle_liveness_ping handle_leadership_handoff
    handle_leaf_register handle_sensor_data
handle_payload env sender (Payload.request_vote rpc) c = handle_request_vote env sender rpc c
handle_payload env sender (Payload.request_vote_response resp) c =
    handle_request_vote_response env sender resp c
handle_payload env sender (Payload.append_entries rpc) c = handle_append_entries env sender rpc c
handle_payload env sender (Payload.append_entries_response resp) c =
    handle_append_entries_response env sender resp c
handle_payload env sender (Payload.liveness_ping ping) c = handle_liveness_ping env sender ping c
handle_payload env sender (Payload.leadership_handoff handoff) c =
    handle_leadership_handoff env sender handoff c
handle_payload env sender (Payload.leaf_register req) c = handle_leaf_register env sender req c
handle_payload env sender (Payload.leaf_register_response resp) c = c
handle_payload env sender (Payload.sensor_data report) c = handle_sensor_data env sender report c

unfoldable pub handle_message : Env → Message → Coordinator → Coordinator
unfolding handle_payload
handle_message env msg c = handle_payload env msg.sender_id msg.payload c

-- now - self._last_ping_time >= interval, for an interval that is not 0
abbrev pub is_due : ℕ → ℕ → ℕ → Bool
is_due now last interval = leb interval (now - last)

abbrev pub mark_ping : Env → Coordinator → Coordinator
mark_ping env c = record c { last_ping_time = env.now }

-- CoordinatorNode._on_idle
unfoldable pub base_on_idle : Env → Coordinator → Coordinator
unfolding send_liveness_ping start_election
base_on_idle env c =
    if is_observer c.state
    then c
    else if is_leading c.state
    then (if is_due env.now c.last_ping_time (ms liveness_ping_interval)
        then mark_ping env (send_liveness_ping env c)
        else c)
    else if leb c.election_deadline env.now
    then start_election env c
    else c

-- RaftNode._on_idle
unfoldable pub raft_on_idle : Env → Coordinator → Coordinator
unfolding send_heartbeats start_election
raft_on_idle env c =
    if is_observer c.state
    then c
    else if is_leader c.state
    then (if is_due env.now c.last_ping_time (ms liveness_ping_interval)
        then mark_ping env (send_heartbeats env c)
        else c)
    else if leb c.election_deadline env.now
    then start_election env c
    else c

abbrev pub is_past : ℕ → Option ℕ → Bool
is_past now none = false
is_past now (some deadline) = leb deadline now

-- The three steps of a leader's tick of echoD, and the keepalives that follow it.
unfoldable pub flush_if_due : Env → Coordinator → Coordinator
unfolding flush_batch
flush_if_due env c = if is_past env.now c.batch_deadline then flush_batch env c else c

unfoldable pub ping_if_due : Env → Coordinator → Coordinator
unfolding send_liveness_ping
ping_if_due env c =
    if is_due env.now c.last_ping_time (ms c.ping_interval)
    then mark_ping env (send_liveness_ping env c)
    else c

unfoldable pub hand_off_if_low : Env → Coordinator → Coordinator
unfolding initiate_handoff
hand_off_if_low env c =
    if ltb (percent c.battery) t_handoff && not c.handoff_sent then initiate_handoff env c else c

abbrev pub is_empty : List NodeId → Bool
is_empty [] = true
is_empty (x ∷ xs) = false

unfoldable pub keepalive_if_due : Env → Coordinator → Coordinator
unfolding send_leaf_keepalives
keepalive_if_due env c =
    if not (is_empty c.leaves) && is_due env.now c.last_leaf_keepalive (ms leaf_keepalive_interval)
    then record (send_leaf_keepalives env c) { last_leaf_keepalive = env.now }
    else c

-- EchoDCoordinator._on_idle
unfoldable pub echod_on_idle : Env → Coordinator → Coordinator
echod_on_idle env c =
    if is_observer c.state
    then c
    else if is_leading c.state
    then keepalive_if_due env (hand_off_if_low env (ping_if_due env (flush_if_due env c)))
    else if leb c.election_deadline env.now
    then keepalive_if_due env (start_election env c)
    else keepalive_if_due env c

abbrev pub idle_method : Protocol → Env → Coordinator → Coordinator
idle_method raft env c = raft_on_idle env c
idle_method echo env c = base_on_idle env c
idle_method echo_d env c = echod_on_idle env c

unfoldable pub on_idle : Env → Coordinator → Coordinator
unfolding base_on_idle raft_on_idle echod_on_idle
on_idle env c = idle_method c.protocol env c
