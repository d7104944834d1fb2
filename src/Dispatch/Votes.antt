-- ===== src/Dispatch/Votes.antt =====
-- A node's vote within a term.
use echod.Prelude.{Bool-cases, arith, eq_iff, inl, inr, leb, ltb, some, ℕ, ◌≡◌, ◌≤◌}
use echod.Dispatch.{
  base_on_idle, echod_on_idle, flush_if_due, hand_off_if_low, handle_payload, idle_method,
  keepalive_if_due, ping_if_due, raft_on_idle,
}
use echod.Election.{count_vote, handle_request_vote, handle_request_vote_response, start_election}
use echod.Election.Promotion.{become_leader-Promoted}
use echod.Handoff.{handle_leadership_handoff}
use echod.Liveness.{handle_leaf_register, handle_liveness_ping}
use echod.Messages.{
  AppendEntriesResponse, AppendEntriesRpc, LeadershipHandoff, LeafRegisterRequest, LivenessPing,
  NodeId, Payload, RequestVoteResponse, RequestVoteRpc, SensorDataReport, is_leading, is_observer,
}
use echod.Node.{Coordinator, Env, Protocol, echo, echo_d, raft, step_down}
use echod.Provisional.{enter_provisional_mode, handle_append_entries, track_epoch}
use echod.Replication.{
  adopt_term, base_handle_append_entries, follow_leader, handle_append_entries_response,
  try_advance_commit,
}
use echod.Sensors.{buffer_reading, handle_sensor_data}
use echod.Triggers.{flush_batch}

-- From `c` to `d` the term does not fall, and a vote that was cast in a term stands for as long as
-- the term lasts.
pub record VoteStands (c d : Coordinator) : Type 0 where
  pub term_grows : c.current_term ≤ d.current_term
  pub vote_stands :
      (x : NodeId) → c.voted_for ≡ some x → c.current_term ≡ d.current_term → d.voted_for ≡ some x

pub VoteStands-refl : (c : Coordinator) → VoteStands c c
VoteStands-refl c = record { term_grows = omega arith; vote_stands = λ x h e. h }

pub VoteStands-trans : {c d e : Coordinator} → VoteStands c d → VoteStands d e → VoteStands c e
VoteStands-trans {c} {d} {e} p q = record {
  term_grows = omega arith;
  vote_stands = λ x h s.
      let same : c.current_term ≡ d.current_term = omega (arith, p.term_grows, q.term_grows) in
      q.vote_stands x (p.vote_stands x h same) (omega (arith, p.term_grows, q.term_grows));
}

module _ (env : Env) (sender : NodeId) where
  request_vote-VoteStands :
      (rpc : RequestVoteRpc) (c : Coordinator) → VoteStands c (handle_request_vote env sender rpc c)
  unfolding handle_request_vote
  request_vote-VoteStands rpc c = record {
    term_grows = ground arith;
    vote_stands = λ x h e. ground (arith, eq_iff x rpc.candidate_id);
  }

  adopt_term-VoteStands : (term : ℕ) (c : Coordinator) → VoteStands c (adopt_term term c)
  unfolding step_down
  adopt_term-VoteStands term c = record {
    term_grows = ground arith;
    vote_stands = λ x h e. ground arith;
  }

  follow_leader-VoteStands :
      (rpc : AppendEntriesRpc) (c : Coordinator) → VoteStands c (follow_leader env sender rpc c)
  unfolding follow_leader
  follow_leader-VoteStands rpc c = record {
    term_grows = ground arith;
    vote_stands = λ x h e. ground arith;
  }

  base_append_entries-VoteStands :
      (rpc : AppendEntriesRpc) (c : Coordinator)
      → VoteStands c (base_handle_append_entries env sender rpc c)
  unfolding base_handle_append_entries
  base_append_entries-VoteStands rpc c =
      let d = adopt_term rpc.term c in
      let adopted = adopt_term-VoteStands rpc.term c in
      elim (Bool-cases (ltb rpc.term d.current_term)) [
        | inl stale ↦
            rw stale (record { term_grows = adopted.term_grows; vote_stands = adopted.vote_stands })
        | inr current ↦ rw current (VoteStands-trans adopted (follow_leader-VoteStands rpc d))
      ]

  track_epoch-VoteStands :
      (p : Protocol) (epoch : ℕ) (c : Coordinator) → VoteStands c (track_epoch p env epoch c)
  unfolding enter_provisional_mode
  track_epoch-VoteStands p epoch c = record {
    term_grows = ground arith;
    vote_stands = λ x h e. ground arith;
  }

  append_entries-VoteStands :
      (rpc : AppendEntriesRpc) (c : Coordinator)
      → VoteStands c (handle_append_entries env sender rpc c)
  unfolding handle_append_entries
  append_entries-VoteStands rpc c = VoteStands-trans (base_append_entries-VoteStands rpc c) (
      track_epoch-VoteStands c.protocol rpc.partition_epoch
        (base_handle_append_entries env sender rpc c))

  append_response-VoteStands :
      (resp : AppendEntriesResponse) (c : Coordinator)
      → VoteStands c (handle_append_entries_response env sender resp c)
  unfolding handle_append_entries_response try_advance_commit
  append_response-VoteStands resp c = record {
    term_grows = ground arith;
    vote_stands = λ x h e. ground arith;
  }

  ping-VoteStands :
      (ping : LivenessPing) (c : Coordinator)
      → VoteStands c (handle_liveness_ping env sender ping c)
  unfolding handle_liveness_ping
  ping-VoteStands ping c = record { term_grows = ground arith; vote_stands = λ x h e. ground arith }

  vote_response-VoteStands :
      (resp : RequestVoteResponse) (c : Coordinator)
      → VoteStands c (handle_request_vote_response env sender resp c)
  unfolding handle_request_vote_response
  vote_response-VoteStands resp c =
      let d = record c {
        votes_received = count_vote resp.vote_granted sender resp.voter_battery c.votes_received;
      } in
      record {
        term_grows = ground (arith, become_leader-Promoted env d);
        vote_stands = λ x h e. ground (arith, become_leader-Promoted env d);
      }

  handoff-VoteStands :
      (handoff : LeadershipHandoff) (c : Coordinator)
      → VoteStands c (handle_leadership_handoff env sender handoff c)
  unfolding handle_leadership_handoff
  handoff-VoteStands handoff c = record {
    term_grows = ground arith;
    vote_stands = λ x h e. ground arith;
  }

  sensor-VoteStands :
      (report : SensorDataReport) (c : Coordinator)
      → VoteStands c (handle_sensor_data env sender report c)
  unfolding handle_sensor_data buffer_reading flush_batch
  sensor-VoteStands report c = record {
    term_grows = ground arith;
    vote_stands = λ x h e. ground arith;
  }

  leaf_register-VoteStands :
      (req : LeafRegisterRequest) (c : Coordinator)
      → VoteStands c (handle_leaf_register env sender req c)
  unfolding handle_leaf_register
  leaf_register-VoteStands req c = record {
    term_grows = ground arith;
    vote_stands = λ x h e. ground arith;
  }

  pub payload-VoteStands :
      (p : Payload) (c : Coordinator) → VoteStands c (handle_payload env sender p c)
  unfolding handle_payload
  payload-VoteStands (Payload.request_vote rpc) c = request_vote-VoteStands rpc c
  payload-VoteStands (Payload.request_vote_response resp) c = vote_response-VoteStands resp c
  payload-VoteStands (Payload.append_entries rpc) c = append_entries-VoteStands rpc c
  payload-VoteStands (Payload.append_entries_response resp) c = append_response-VoteStands resp c
  payload-VoteStands (Payload.liveness_ping ping) c = ping-VoteStands ping c
  payload-VoteStands (Payload.leadership_handoff handoff) c = handoff-VoteStands handoff c
  payload-VoteStands (Payload.leaf_register req) c = leaf_register-VoteStands req c
  payload-VoteStands (Payload.leaf_register_response resp) c = record {
    term_grows = omega arith;
    vote_stands = λ x h e. h;
  }
  payload-VoteStands (Payload.sensor_data report) c = sensor-VoteStands report c

module _ (env : Env) where
  start_election-VoteStands : (c : Coordinator) → VoteStands c (start_election env c)
  unfolding start_election
  start_election-VoteStands c = record {
    term_grows = ground arith;
    vote_stands = λ x h e. ground arith;
  }

  flush-VoteStands : (c : Coordinator) → VoteStands c (flush_if_due env c)
  unfolding flush_if_due
  flush-VoteStands c = record { term_grows = ground arith; vote_stands = λ x h e. ground arith }

  ping_if_due-VoteStands : (c : Coordinator) → VoteStands c (ping_if_due env c)
  unfolding ping_if_due
  ping_if_due-VoteStands c = record {
    term_grows = ground arith;
    vote_stands = λ x h e. ground arith;
  }

  hand_off-VoteStands : (c : Coordinator) → VoteStands c (hand_off_if_low env c)
  unfolding hand_off_if_low
  hand_off-VoteStands c = record { term_grows = ground arith; vote_stands = λ x h e. ground arith }

  keepalive-VoteStands : (c : Coordinator) → VoteStands c (keepalive_if_due env c)
  unfolding keepalive_if_due
  keepalive-VoteStands c = record { term_grows = ground arith; vote_stands = λ x h e. ground arith }

  raft_idle-VoteStands : (c : Coordinator) → VoteStands c (raft_on_idle env c)
  unfolding raft_on_idle
  raft_idle-VoteStands c = record { term_grows = ground arith; vote_stands = λ x h e. ground arith }

  base_idle-VoteStands : (c : Coordinator) → VoteStands c (base_on_idle env c)
  unfolding base_on_idle
  base_idle-VoteStands c = record { term_grows = ground arith; vote_stands = λ x h e. ground arith }

  echod_idle-VoteStands : (c : Coordinator) → VoteStands c (echod_on_idle env c)
  unfolding echod_on_idle
  echod_idle-VoteStands c =
      let flushed = flush_if_due env c in
      let pinged = ping_if_due env flushed in
      let handed = hand_off_if_low env pinged in
      let to_handed =
        VoteStands-trans (VoteStands-trans (flush-VoteStands c) (ping_if_due-VoteStands flushed))
          (hand_off-VoteStands pinged) in
      let led = VoteStands-trans to_handed (keepalive-VoteStands handed) in
      let started =
        VoteStands-trans (start_election-VoteStands c)
          (keepalive-VoteStands (start_election env c)) in
      let kept = keepalive-VoteStands c in
      elim (Bool-cases (is_observer c.state)) [
        | inl o ↦ rw o (VoteStands-refl c)
        | inr o ↦ rw o (elim (Bool-cases (is_leading c.state)) [
          | inl l ↦ rw l led
          | inr l ↦ rw l (elim (Bool-cases (leb c.election_deadline env.now)) [
            | inl d ↦ rw d started
            | inr d ↦ rw d kept
          ])
        ])
      ]

  pub idle-VoteStands : (p : Protocol) (c : Coordinator) → VoteStands c (idle_method p env c)
  idle-VoteStands raft c = raft_idle-VoteStands c
  idle-VoteStands echo c = base_idle-VoteStands c
  idle-VoteStands echo_d c = echod_idle-VoteStands c
