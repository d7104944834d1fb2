-- ===== src/Dispatch/Ticks.antt =====
-- Elections, handoffs and idle ticks send no votes, and requests for the node itself only.
use echod.Prelude.{
  Bool-cases, List, [], eq_refl, inl, inr, leb, ltb, not, refl, some, true, ℕ, ◌&&◌, ◌+◌, ◌∷◌,
}
use echod.Config.{leaf_keepalive_interval, liveness_ping_interval, t_handoff}
use echod.Dispatch.{
  base_on_idle, echod_on_idle, flush_if_due, hand_off_if_low, idle_method, is_due, is_empty,
  is_past, keepalive_if_due, mark_ping, ping_if_due, raft_on_idle,
}
use echod.Dispatch.Silence.{adopt_term-silent}
use echod.Election.{election_targets, start_election, vote_request}
use echod.Election.Silence.{
  either, flush_batch-silent, same, send-silent, send_heartbeats-silent,
  send_leaf_keepalives-silent, send_liveness_ping-silent, speechless,
}
use echod.Election.Speech.{SameSpeech, SameSpeech-trans, address-Quiet, post-Quiet}
use echod.Handoff.{
  candidates, echod_handle_leadership_handoff, hand_over, handle_leadership_handoff, handoff_method,
  initiate_handoff, sort,
}
use echod.Liveness.{send_heartbeats, send_leaf_keepalives, send_liveness_ping}
use echod.Messages.{
  LeadershipHandoff, NodeId, Payload, candidate, follower, is_leader, is_leading, is_observer,
}
use echod.Node.{Coordinator, Env, Protocol, address, echo, echo_d, members, ms, percent, raft, send}
use echod.Replication.{adopt_term}
use echod.Timers.{reset_election_timer}

module _ (env : Env) where
  pub start_election-silent : (c : Coordinator) → SameSpeech c (start_election env c)
  unfolding start_election
  start_election-silent c =
      let d = reset_election_timer env (record c {
        current_term = c.current_term + 1;
        state = candidate;
        voted_for = some c.node_id;
        votes_received = (c.node_id, percent c.battery) ∷ [];
      }) in
      let is = election_targets c.protocol c.node_id (members env.cluster) in
      elim (Bool-cases (is_observer c.state)) [
        | inl observes ↦ rw observes (same c)
        | inr votes ↦ rw votes (
            SameSpeech-trans (speechless c d refl refl) (
              post-Quiet env (address c.node_id is (vote_request d)) d
                (address-Quiet c.node_id is (vote_request d) (eq_refl c.node_id))))
      ]

  handoff_method-silent :
      (p : Protocol) (sender : NodeId) (handoff : LeadershipHandoff) (c : Coordinator)
      → SameSpeech c (handoff_method p env sender handoff c)
  unfolding echod_handle_leadership_handoff
  handoff_method-silent raft sender handoff c = same c
  handoff_method-silent echo sender handoff c = same c
  handoff_method-silent echo_d sender handoff c =
      let d = adopt_term handoff.term c in
      elim (Bool-cases (is_observer c.state)) [
        | inl observes ↦ rw observes (same c)
        | inr votes ↦ rw votes (elim (Bool-cases (ltb handoff.term c.current_term)) [
          | inl stale ↦ rw stale (same c)
          | inr current ↦ rw current (
              SameSpeech-trans (adopt_term-silent env sender handoff.term c)
                (start_election-silent d))
        ])
      ]

  pub handoff-silent :
      (sender : NodeId) (handoff : LeadershipHandoff) (c : Coordinator)
      → SameSpeech c (handle_leadership_handoff env sender handoff c)
  unfolding handle_leadership_handoff
  handoff-silent sender handoff c = handoff_method-silent c.protocol sender handoff c

  hand_over-silent : (l : List (NodeId × ℕ)) (c : Coordinator) → SameSpeech c (hand_over env l c)
  unfolding reset_election_timer
  hand_over-silent [] c = same c
  hand_over-silent ((s, b) ∷ rest) c =
      let nomination =
        Payload.leadership_handoff (record { term = c.current_term; leader_id = c.node_id }) in
      let sent = send env s nomination c in
      elim (Bool-cases (leb b (percent c.battery))) [
        | inl stays ↦ rw stays (same c)
        | inr leaves_ ↦ rw leaves_ (
            SameSpeech-trans (send-silent env s nomination c refl) (
              speechless sent (reset_election_timer env (record sent { state = follower })) refl
                refl))
      ]

  pub initiate_handoff-silent : (c : Coordinator) → SameSpeech c (initiate_handoff env c)
  unfolding initiate_handoff
  initiate_handoff-silent c =
      let d = record c { handoff_sent = true } in
      SameSpeech-trans (speechless c d refl refl)
        (hand_over-silent (sort (candidates c.node_id c.peer_batteries (members env.cluster))) d)

  marked-silent : (c d : Coordinator) → SameSpeech c d → SameSpeech c (mark_ping env d)
  marked-silent c d s = SameSpeech-trans s (speechless d (mark_ping env d) refl refl)

  base_idle-silent : (c : Coordinator) → SameSpeech c (base_on_idle env c)
  unfolding base_on_idle
  base_idle-silent c =
      let pinged = marked-silent c (send_liveness_ping env c) (send_liveness_ping-silent env c) in
      either (is_observer c.state) (same c) (
        either (is_leading c.state)
          (either (is_due env.now c.last_ping_time (ms liveness_ping_interval)) pinged (same c))
          (either (leb c.election_deadline env.now) (start_election-silent c) (same c)))

  raft_idle-silent : (c : Coordinator) → SameSpeech c (raft_on_idle env c)
  unfolding raft_on_idle
  raft_idle-silent c =
      let pinged = marked-silent c (send_heartbeats env c) (send_heartbeats-silent env c) in
      either (is_observer c.state) (same c) (
        either (is_leader c.state)
          (either (is_due env.now c.last_ping_time (ms liveness_ping_interval)) pinged (same c))
          (either (leb c.election_deadline env.now) (start_election-silent c) (same c)))

  flush-silent : (c : Coordinator) → SameSpeech c (flush_if_due env c)
  unfolding flush_if_due
  flush-silent c = elim (Bool-cases (is_past env.now c.batch_deadline)) [
    | inl t ↦ rw t (flush_batch-silent env c)
    | inr t ↦ rw t (same c)
  ]

  ping_if_due-silent : (c : Coordinator) → SameSpeech c (ping_if_due env c)
  unfolding ping_if_due
  ping_if_due-silent c = elim (Bool-cases (is_due env.now c.last_ping_time (ms c.ping_interval))) [
    | inl t ↦ rw t (marked-silent c (send_liveness_ping env c) (send_liveness_ping-silent env c))
    | inr t ↦ rw t (same c)
  ]

  hand_off-silent : (c : Coordinator) → SameSpeech c (hand_off_if_low env c)
  unfolding hand_off_if_low
  hand_off-silent c = elim (Bool-cases (ltb (percent c.battery) t_handoff && not c.handoff_sent)) [
    | inl t ↦ rw t (initiate_handoff-silent c)
    | inr t ↦ rw t (same c)
  ]

  keepalive-silent : (c : Coordinator) → SameSpeech c (keepalive_if_due env c)
  unfolding keepalive_if_due
  keepalive-silent c =
      let d = send_leaf_keepalives env c in
      elim (Bool-cases (
        not (is_empty c.leaves)
        && is_due env.now c.last_leaf_keepalive (ms leaf_keepalive_interval))) [
          | inl t ↦ rw t (
              SameSpeech-trans (send_leaf_keepalives-silent env c)
                (speechless d (record d { last_leaf_keepalive = env.now }) refl refl))
          | inr t ↦ rw t (same c)
        ]

  echod_idle-silent : (c : Coordinator) → SameSpeech c (echod_on_idle env c)
  unfolding echod_on_idle
  echod_idle-silent c =
      let flushed = flush_if_due env c in
      let pinged = ping_if_due env flushed in
      let handed = hand_off_if_low env pinged in
      let led = SameSpeech-trans (flush-silent c) (
        SameSpeech-trans (ping_if_due-silent flushed)
          (SameSpeech-trans (hand_off-silent pinged) (keepalive-silent handed))) in
      either (is_observer c.state) (same c) (
        either (is_leading c.state) led (
          either (leb c.election_deadline env.now)
            (SameSpeech-trans (start_election-silent c) (keepalive-silent (start_election env c)))
            (keepalive-silent c)))

  pub idle-silent : (p : Protocol) (c : Coordinator) → SameSpeech c (idle_method p env c)
  idle-silent raft c = raft_idle-silent c
  idle-silent echo c = base_idle-silent c
  idle-silent echo_d c = echod_idle-silent c
