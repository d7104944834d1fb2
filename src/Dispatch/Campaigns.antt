-- ===== src/Dispatch/Campaigns.antt =====
-- How a campaign goes on, or begins, in one call.
use echod.Prelude.{[], arith, false, true, ◌∷◌, ◌≡◌, ◌⊎◌}
use echod.Dispatch.{
  base_on_idle, echod_on_idle, flush_if_due, hand_off_if_low, idle_method, keepalive_if_due,
  ping_if_due, raft_on_idle,
}
use echod.Dispatch.Invariant.{campaigns}
use echod.Election.{handle_request_vote, start_election}
use echod.Handoff.{handle_leadership_handoff}
use echod.Liveness.{handle_leaf_register, handle_liveness_ping}
use echod.Messages.{
  AppendEntriesResponse, AppendEntriesRpc, LeadershipHandoff, LeafRegisterRequest, LivenessPing,
  NodeId, RequestVoteRpc, SensorDataReport, candidate, follower, is_leading,
}
use echod.Node.{Coordinator, Env, Protocol, echo, echo_d, raft}
use echod.Prelude.Dict.{keys}
use echod.Provisional.{handle_append_entries}
use echod.Replication.{follow_leader, handle_append_entries_response, try_advance_commit}
use echod.Sensors.{buffer_reading, handle_sensor_data}
use echod.Triggers.{flush_batch}

-- In `d` the node does not campaign; or it goes on with the campaign of `c`, in the same term and with
-- the same voters, and leads only if it led; or it has just begun one, with its own vote.
abbrev pub GoesOn : Coordinator → Coordinator → Type 0
GoesOn c d =
    (campaigns c.state ≡ true)
    × (d.votes_received ≡ c.votes_received)
    × (d.current_term ≡ c.current_term)
    × ((is_leading d.state ≡ false) ⊎ (is_leading c.state ≡ true))

abbrev pub Begins : Coordinator → Coordinator → Type 0
Begins c d = (d.state ≡ candidate) × (keys d.votes_received ≡ c.node_id ∷ [])

abbrev pub Stands : Coordinator → Coordinator → Type 0
Stands c d = (campaigns d.state ≡ false) ⊎ GoesOn c d ⊎ Begins c d

-- The state, the term and the voters are the same.
pub record Steady (c d : Coordinator) : Type 0 where
  pub node_id : d.node_id ≡ c.node_id
  pub state : d.state ≡ c.state
  pub current_term : d.current_term ≡ c.current_term
  pub votes_received : d.votes_received ≡ c.votes_received

pub Steady-Stands : (c d : Coordinator) → Steady c d → Stands c d
Steady-Stands c d s = ground (arith, s)

module _ (env : Env) (sender : NodeId) where
  pub request_vote-Stands :
      (rpc : RequestVoteRpc) (c : Coordinator) → Stands c (handle_request_vote env sender rpc c)
  unfolding handle_request_vote
  request_vote-Stands rpc c = ground arith

  follow_leader-Stands :
      (rpc : AppendEntriesRpc) (c : Coordinator) → Stands c (follow_leader env sender rpc c)
  unfolding follow_leader
  follow_leader-Stands rpc c = ground arith

  pub append_entries-Stands :
      (rpc : AppendEntriesRpc) (c : Coordinator) → Stands c (handle_append_entries env sender rpc c)
  unfolding handle_append_entries
  append_entries-Stands rpc c = ground arith

  pub append_response-Stands :
      (resp : AppendEntriesResponse) (c : Coordinator)
      → Stands c (handle_append_entries_response env sender resp c)
  unfolding handle_append_entries_response try_advance_commit
  append_response-Stands resp c = ground arith

  pub ping-Stands :
      (ping : LivenessPing) (c : Coordinator) → Stands c (handle_liveness_ping env sender ping c)
  unfolding handle_liveness_ping
  ping-Stands ping c = ground arith

  pub handoff-Stands :
      (handoff : LeadershipHandoff) (c : Coordinator)
      → Stands c (handle_leadership_handoff env sender handoff c)
  unfolding handle_leadership_handoff
  handoff-Stands handoff c = ground arith

  pub sensor-Stands :
      (report : SensorDataReport) (c : Coordinator)
      → Stands c (handle_sensor_data env sender report c)
  unfolding handle_sensor_data buffer_reading flush_batch
  sensor-Stands report c = ground arith

  pub leaf_register-Stands :
      (req : LeafRegisterRequest) (c : Coordinator)
      → Stands c (handle_leaf_register env sender req c)
  unfolding handle_leaf_register
  leaf_register-Stands req c = ground arith

module _ (env : Env) where
  start_election-Stands : (c : Coordinator) → Stands c (start_election env c)
  unfolding start_election
  start_election-Stands c = ground arith

  flush-Steady : (c : Coordinator) → Steady c (flush_if_due env c)
  unfolding flush_if_due
  flush-Steady c = ground arith

  ping_if_due-Steady : (c : Coordinator) → Steady c (ping_if_due env c)
  unfolding ping_if_due
  ping_if_due-Steady c = ground arith

  keepalive-Steady : (c : Coordinator) → Steady c (keepalive_if_due env c)
  unfolding keepalive_if_due
  keepalive-Steady c = ground arith

  hand_off-Steady :
      (c : Coordinator)
      → Steady c (hand_off_if_low env c) ⊎ ((hand_off_if_low env c).state ≡ follower)
  unfolding hand_off_if_low
  hand_off-Steady c = ground arith

  echod_idle-Stands : (c : Coordinator) → Stands c (echod_on_idle env c)
  unfolding echod_on_idle
  echod_idle-Stands c =
      let flushed = flush_if_due env c in
      let pinged = ping_if_due env flushed in
      let handed = hand_off_if_low env pinged in
      let started = start_election env c in
      ground (
        arith,
        flush-Steady c,
        ping_if_due-Steady flushed,
        hand_off-Steady pinged,
        keepalive-Steady handed,
        keepalive-Steady started,
        keepalive-Steady c,
        start_election-Stands c,
      )

  pub idle-Stands : (p : Protocol) (c : Coordinator) → Stands c (idle_method p env c)
  unfolding raft_on_idle base_on_idle
  idle-Stands raft c = ground arith
  idle-Stands echo c = ground arith
  idle-Stands echo_d c = echod_idle-Stands c
