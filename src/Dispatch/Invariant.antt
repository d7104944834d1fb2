-- ===== src/Dispatch/Invariant.antt =====
-- What every call of a coordinator keeps.
use echod.Prelude.{
  Bool, Bool-cases, [], arith, eq_iff, false, inl, inr, leb, length, ltb, none, some, true, ℕ, ◌<◌,
  ◌≡◌,
}
use echod.Config.{max_batch_size}
use echod.Dispatch.{
  base_on_idle, echod_on_idle, flush_if_due, hand_off_if_low, handle_payload, idle_method,
  keepalive_if_due, ping_if_due, raft_on_idle,
}
use echod.Election.{count_vote, handle_request_vote, handle_request_vote_response, start_election}
use echod.Election.Promotion.{
  become_leader-PingInRange, become_leader-Promoted, count_vote-IsDistinct,
}
use echod.Handoff.{handle_leadership_handoff}
use echod.Liveness.{handle_leaf_register, handle_liveness_ping}
use echod.Liveness.Backoff.{PingInRange, send_liveness_ping-PingInRange}
use echod.Messages.{
  AppendEntriesResponse, AppendEntriesRpc, LeadershipHandoff, LeafRegisterRequest, LivenessPing,
  NodeId, NodeState, Payload, RequestVoteResponse, RequestVoteRpc, SensorDataReport, candidate,
  is_leading, is_observer, leader, local_leader,
}
use echod.Node.{Coordinator, Env, Protocol, echo, echo_d, raft, send, step_down}
use echod.Prelude.Dict.{IsDistinct, keys, member}
use echod.Provisional.{enter_provisional_mode, handle_append_entries, track_epoch}
use echod.Replication.{
  adopt_term, append_response, base_handle_append_entries, follow_leader,
  handle_append_entries_response, try_advance_commit,
}
use echod.Sensors.{buffer_reading, handle_sensor_data}
use echod.Triggers.{flush_batch}

-- candidate, leader or local leader
abbrev pub campaigns : NodeState → Bool
campaigns candidate = true
campaigns leader = true
campaigns local_leader = true
campaigns _ = false

pub record IsSound (c : Coordinator) : Type 0 where
  pub voters_distinct : IsDistinct (keys c.votes_received)
  pub own_vote : campaigns c.state ≡ true → c.voted_for ≡ some c.node_id
  pub ping_in_range : PingInRange c.ping_interval
  pub window_open : c.batch_deadline ≡ none → c.batch_buffer ≡ []
  pub window_shut : c.batch_buffer ≡ [] → c.batch_deadline ≡ none
  pub batch_bounded : length c.batch_buffer < max_batch_size

module _ (env : Env) (sender : NodeId) where
  request_vote-IsSound :
      (rpc : RequestVoteRpc) (c : Coordinator)
      → IsSound c
      → IsSound (handle_request_vote env sender rpc c)
  unfolding handle_request_vote
  request_vote-IsSound rpc c h = ground (arith, eq_iff c.node_id rpc.candidate_id)

  sent-IsSound :
      (success : Bool) (match_index : ℕ) (c : Coordinator)
      → IsSound c
      → IsSound (send env sender (append_response success match_index c) c)
  unfolding send
  sent-IsSound success match_index c h = record {
    voters_distinct = h.voters_distinct;
    own_vote = h.own_vote;
    ping_in_range = h.ping_in_range;
    window_open = h.window_open;
    window_shut = h.window_shut;
    batch_bounded = h.batch_bounded;
  }

  adopt_term-IsSound : (term : ℕ) (c : Coordinator) → IsSound c → IsSound (adopt_term term c)
  unfolding step_down
  adopt_term-IsSound term c h = ground arith

  follow_leader-IsSound :
      (rpc : AppendEntriesRpc) (c : Coordinator)
      → IsSound c
      → IsSound (follow_leader env sender rpc c)
  unfolding follow_leader
  follow_leader-IsSound rpc c h = ground arith

  base_append_entries-IsSound :
      (rpc : AppendEntriesRpc) (c : Coordinator)
      → IsSound c
      → IsSound (base_handle_append_entries env sender rpc c)
  unfolding base_handle_append_entries
  base_append_entries-IsSound rpc c h =
      let d = adopt_term rpc.term c in
      let adopted = adopt_term-IsSound rpc.term c h in
      elim (Bool-cases (ltb rpc.term d.current_term)) [
        | inl stale ↦ rw stale (sent-IsSound false 0 d adopted)
        | inr current ↦ rw current (follow_leader-IsSound rpc d adopted)
      ]

  track_epoch-IsSound :
      (p : Protocol) (epoch : ℕ) (c : Coordinator) → IsSound c → IsSound (track_epoch p env epoch c)
  unfolding enter_provisional_mode
  track_epoch-IsSound p epoch c h = ground arith

  append_entries-IsSound :
      (rpc : AppendEntriesRpc) (c : Coordinator)
      → IsSound c
      → IsSound (handle_append_entries env sender rpc c)
  unfolding handle_append_entries
  append_entries-IsSound rpc c h =
      track_epoch-IsSound c.protocol rpc.partition_epoch
        (base_handle_append_entries env sender rpc c) (base_append_entries-IsSound rpc c h)

  append_response-IsSound :
      (resp : AppendEntriesResponse) (c : Coordinator)
      → IsSound c
      → IsSound (handle_append_entries_response env sender resp c)
  unfolding handle_append_entries_response try_advance_commit
  append_response-IsSound resp c h = ground arith

  ping-IsSound :
      (ping : LivenessPing) (c : Coordinator)
      → IsSound c
      → IsSound (handle_liveness_ping env sender ping c)
  unfolding handle_liveness_ping
  ping-IsSound ping c h = ground arith

  vote_response-IsSound :
      (resp : RequestVoteResponse) (c : Coordinator)
      → IsSound c
      → IsSound (handle_request_vote_response env sender resp c)
  unfolding handle_request_vote_response
  vote_response-IsSound resp c h =
      let d = record c {
        votes_received = count_vote resp.vote_granted sender resp.voter_battery c.votes_received;
      } in
      ground (
        arith,
        become_leader-Promoted env d,
        become_leader-PingInRange env d h.ping_in_range,
        count_vote-IsDistinct resp.vote_granted sender resp.voter_battery c.votes_received
            h.voters_distinct,
      )

  handoff-IsSound :
      (handoff : LeadershipHandoff) (c : Coordinator)
      → IsSound c
      → IsSound (handle_leadership_handoff env sender handoff c)
  unfolding handle_leadership_handoff member
  handoff-IsSound handoff c h = ground arith

  sensor-IsSound :
      (report : SensorDataReport) (c : Coordinator)
      → IsSound c
      → IsSound (handle_sensor_data env sender report c)
  unfolding handle_sensor_data buffer_reading flush_batch
  sensor-IsSound report c h = ground arith

  leaf_register-IsSound :
      (req : LeafRegisterRequest) (c : Coordinator)
      → IsSound c
      → IsSound (handle_leaf_register env sender req c)
  unfolding handle_leaf_register
  leaf_register-IsSound req c h = ground arith

  pub payload-IsSound :
      (p : Payload) (c : Coordinator) → IsSound c → IsSound (handle_payload env sender p c)
  unfolding handle_payload
  payload-IsSound (Payload.request_vote rpc) c h = request_vote-IsSound rpc c h
  payload-IsSound (Payload.request_vote_response resp) c h = vote_response-IsSound resp c h
  payload-IsSound (Payload.append_entries rpc) c h = append_entries-IsSound rpc c h
  payload-IsSound (Payload.append_entries_response resp) c h = append_response-IsSound resp c h
  payload-IsSound (Payload.liveness_ping ping) c h = ping-IsSound ping c h
  payload-IsSound (Payload.leadership_handoff handoff) c h = handoff-IsSound handoff c h
  payload-IsSound (Payload.leaf_register req) c h = leaf_register-IsSound req c h
  payload-IsSound (Payload.leaf_register_response resp) c h = h
  payload-IsSound (Payload.sensor_data report) c h = sensor-IsSound report c h

module _ (env : Env) where
  start_election-IsSound : (c : Coordinator) → IsSound c → IsSound (start_election env c)
  unfolding start_election member
  start_election-IsSound c h = ground arith

  raft_idle-IsSound : (c : Coordinator) → IsSound c → IsSound (raft_on_idle env c)
  unfolding raft_on_idle member
  raft_idle-IsSound c h = ground arith

  base_idle-IsSound : (c : Coordinator) → IsSound c → IsSound (base_on_idle env c)
  unfolding base_on_idle member
  base_idle-IsSound c h = ground (arith, send_liveness_ping-PingInRange env c h.ping_in_range)

  flush-IsSound : (c : Coordinator) → IsSound c → IsSound (flush_if_due env c)
  unfolding flush_if_due
  flush-IsSound c h = ground arith

  ping_if_due-IsSound : (c : Coordinator) → IsSound c → IsSound (ping_if_due env c)
  unfolding ping_if_due
  ping_if_due-IsSound c h = ground (arith, send_liveness_ping-PingInRange env c h.ping_in_range)

  hand_off-IsSound : (c : Coordinator) → IsSound c → IsSound (hand_off_if_low env c)
  unfolding hand_off_if_low
  hand_off-IsSound c h = ground arith

  keepalive-IsSound : (c : Coordinator) → IsSound c → IsSound (keepalive_if_due env c)
  unfolding keepalive_if_due
  keepalive-IsSound c h = ground arith

  echod_idle-IsSound : (c : Coordinator) → IsSound c → IsSound (echod_on_idle env c)
  unfolding echod_on_idle
  echod_idle-IsSound c h =
      let flushed = flush-IsSound c h in
      let pinged = ping_if_due-IsSound (flush_if_due env c) flushed in
      let handed = hand_off-IsSound (ping_if_due env (flush_if_due env c)) pinged in
      let led =
        keepalive-IsSound (hand_off_if_low env (ping_if_due env (flush_if_due env c))) handed in
      let started = keepalive-IsSound (start_election env c) (start_election-IsSound c h) in
      let kept = keepalive-IsSound c h in
      elim (Bool-cases (is_observer c.state)) [
        | inl o ↦ rw o h
        | inr o ↦ rw o (elim (Bool-cases (is_leading c.state)) [
          | inl l ↦ rw l led
          | inr l ↦ rw l (elim (Bool-cases (leb c.election_deadline env.now)) [
            | inl d ↦ rw d started
            | inr d ↦ rw d kept
          ])
        ])
      ]

  pub idle-IsSound : (p : Protocol) (c : Coordinator) → IsSound c → IsSound (idle_method p env c)
  idle-IsSound raft c h = raft_idle-IsSound c h
  idle-IsSound echo c h = base_idle-IsSound c h
  idle-IsSound echo_d c h = echod_idle-IsSound c h
