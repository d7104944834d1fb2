-- ===== src/Dispatch/States.antt =====
-- The state diagram of a coordinator, for every message and idle tick.
use echod.Prelude.{Bool, arith, false, true, ◌≡◌, ◌⊎◌}
use echod.Dispatch.{
  base_on_idle, echod_on_idle, flush_if_due, hand_off_if_low, handle_payload, idle_method,
  keepalive_if_due, ping_if_due, raft_on_idle,
}
use echod.Election.{count_vote, handle_request_vote, handle_request_vote_response, start_election}
use echod.Election.Promotion.{become_leader-Promoted}
use echod.Handoff.{handle_leadership_handoff}
use echod.Liveness.{handle_leaf_register, handle_liveness_ping}
use echod.Messages.{
  AppendEntriesResponse, AppendEntriesRpc, LeadershipHandoff, LeafRegisterRequest, LivenessPing,
  NodeId, NodeState, Payload, RequestVoteResponse, RequestVoteRpc, SensorDataReport, candidate,
  follower, is_leading, leader, local_leader, observer,
}
use echod.Node.{Coordinator, Env, Protocol, echo, echo_d, raft}
use echod.Provisional.{handle_append_entries}
use echod.Replication.{handle_append_entries_response, try_advance_commit}
use echod.Sensors.{buffer_reading, handle_sensor_data}
use echod.Triggers.{flush_batch}

-- The states that a coordinator may pass to without a battery change or a nomination: a follower
-- campaigns, a candidate wins or campaigns again, a leader becomes a local leader, and each of
-- these may become a follower; an observer stays one.
abbrev pub may_move : NodeState → NodeState → Bool
may_move observer observer = true
may_move observer _ = false
may_move _ follower = true
may_move follower candidate = true
may_move candidate candidate = true
may_move candidate leader = true
may_move leader leader = true
may_move leader local_leader = true
may_move local_leader local_leader = true
may_move _ _ = false

-- An idle tick also makes a local leader campaign, in `RaftNode.on_idle`, which tests for `LEADER` only.
abbrev pub may_idle : NodeState → NodeState → Bool
may_idle local_leader candidate = true
may_idle s t = may_move s t

-- A nomination makes any coordinator that is no observer a candidate, a leader too.
abbrev pub may_receive : Payload → NodeState → NodeState → Bool
may_receive (Payload.leadership_handoff handoff) observer candidate = false
may_receive (Payload.leadership_handoff handoff) s candidate = true
may_receive p s t = may_move s t

module _ (env : Env) (sender : NodeId) where
  request_vote_moves :
      (rpc : RequestVoteRpc) (c : Coordinator)
      → may_move c.state (handle_request_vote env sender rpc c).state ≡ true
  unfolding handle_request_vote
  request_vote_moves rpc c = ground arith

  append_entries_moves :
      (rpc : AppendEntriesRpc) (c : Coordinator)
      → may_move c.state (handle_append_entries env sender rpc c).state ≡ true
  unfolding handle_append_entries
  append_entries_moves rpc c = ground arith

  append_response_moves :
      (resp : AppendEntriesResponse) (c : Coordinator)
      → may_move c.state (handle_append_entries_response env sender resp c).state ≡ true
  unfolding handle_append_entries_response try_advance_commit
  append_response_moves resp c = ground arith

  ping_moves :
      (ping : LivenessPing) (c : Coordinator)
      → may_move c.state (handle_liveness_ping env sender ping c).state ≡ true
  unfolding handle_liveness_ping
  ping_moves ping c = ground arith

  vote_response_moves :
      (resp : RequestVoteResponse) (c : Coordinator)
      → may_move c.state (handle_request_vote_response env sender resp c).state ≡ true
  unfolding handle_request_vote_response
  vote_response_moves resp c =
      let d = record c {
        votes_received = count_vote resp.vote_granted sender resp.voter_battery c.votes_received;
      } in
      ground (arith, become_leader-Promoted env d)

  handoff_moves :
      (handoff : LeadershipHandoff) (c : Coordinator)
      → may_receive
          (Payload.leadership_handoff handoff)
          c.state
          (handle_leadership_handoff env sender handoff c).state
        ≡ true
  unfolding handle_leadership_handoff
  handoff_moves handoff c = ground arith

  sensor_moves :
      (report : SensorDataReport) (c : Coordinator)
      → may_move c.state (handle_sensor_data env sender report c).state ≡ true
  unfolding handle_sensor_data buffer_reading flush_batch
  sensor_moves report c = ground arith

  leaf_register_moves :
      (req : LeafRegisterRequest) (c : Coordinator)
      → may_move c.state (handle_leaf_register env sender req c).state ≡ true
  unfolding handle_leaf_register
  leaf_register_moves req c = ground arith

  same_moves : (s : NodeState) → may_move s s ≡ true
  same_moves s = ground arith

  pub payload_moves :
      (p : Payload) (c : Coordinator)
      → may_receive p c.state (handle_payload env sender p c).state ≡ true
  unfolding handle_payload
  payload_moves (Payload.request_vote rpc) c = request_vote_moves rpc c
  payload_moves (Payload.request_vote_response resp) c = vote_response_moves resp c
  payload_moves (Payload.append_entries rpc) c = append_entries_moves rpc c
  payload_moves (Payload.append_entries_response resp) c = append_response_moves resp c
  payload_moves (Payload.liveness_ping ping) c = ping_moves ping c
  payload_moves (Payload.leadership_handoff handoff) c = handoff_moves handoff c
  payload_moves (Payload.leaf_register req) c = leaf_register_moves req c
  payload_moves (Payload.leaf_register_response resp) c = same_moves c.state
  payload_moves (Payload.sensor_data report) c = sensor_moves report c

module _ (env : Env) (c : Coordinator) where
  state-flush_if_due : (flush_if_due env c).state ≡ c.state
  unfolding flush_if_due
  state-flush_if_due = ground arith

  state-ping_if_due : (ping_if_due env c).state ≡ c.state
  unfolding ping_if_due
  state-ping_if_due = ground arith

  state-hand_off_if_low :
      ((hand_off_if_low env c).state ≡ c.state) ⊎ ((hand_off_if_low env c).state ≡ follower)
  unfolding hand_off_if_low
  state-hand_off_if_low = ground arith

  state-keepalive_if_due : (keepalive_if_due env c).state ≡ c.state
  unfolding keepalive_if_due
  state-keepalive_if_due = ground arith

  election_moves : is_leading c.state ≡ false → may_move c.state (start_election env c).state ≡ true
  unfolding start_election
  election_moves h = ground arith

echod_idle_moves :
    (env : Env) (c : Coordinator) → may_idle c.state (echod_on_idle env c).state ≡ true
unfolding echod_on_idle
echod_idle_moves env c =
    let flushed = flush_if_due env c in
    let pinged = ping_if_due env flushed in
    let handed = hand_off_if_low env pinged in
    let started = start_election env c in
    ground (
      arith,
      state-flush_if_due env c,
      state-ping_if_due env flushed,
      state-hand_off_if_low env pinged,
      state-keepalive_if_due env handed,
      state-keepalive_if_due env started,
      state-keepalive_if_due env c,
      election_moves env c,
    )

pub idle_moves :
    (env : Env) (p : Protocol) (c : Coordinator)
    → may_idle c.state (idle_method p env c).state ≡ true
unfolding raft_on_idle base_on_idle start_election
idle_moves env raft c = ground arith
idle_moves env echo c = ground arith
idle_moves env echo_d c = echod_idle_moves env c
