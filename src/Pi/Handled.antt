-- ===== src/Pi/Handled.antt =====
-- Every handler of the hardware coordinator keeps the frame.
use echod.Prelude.{
  Bool-cases, List, Option, [], arith, drop, eq_iff, false, if◌then◌else◌, inl, inr, length, ltb,
  none, some, take, ℕ, ◌++◌, ◌+◌, ◌∷◌,
}
use echod.Messages.{
  Command, NodeId, RequestVoteResponse, RequestVoteRpc, candidate, is_observer, leader,
}
use echod.Node.{Protocol, echo, echo_d, raft}
use echod.Pi.{
  PiCoordinator, PiEnv, pi_adopt_term, pi_reset_election_timer, pi_send, pi_send_each, pi_step_down,
}
use echod.Pi.Append.{
  cut_at, finish, pi_append_reply, pi_follow, pi_follow_commit, pi_handle_append_entries,
  pi_is_consistent, pi_store_entries, pi_store_entry, provisional_commands, reject_append,
  replay_provisional, replay_target, replay_to,
}
use echod.Pi.Frame.{
  Framed, Framed-Stored, Framed-trans, Stored, Stored-trans, pi_adopt_term-Framed,
  pi_broadcast-Framed, pi_flush_pending_triggers-Framed, pi_send-Framed, pi_send_each-Framed,
  send_append_each-Framed,
}
use echod.Pi.Liveness.{
  pi_ping, pi_ping_interval, pi_ping_method, pi_send_heartbeats, pi_send_liveness_ping,
}
use echod.Pi.Rounds.{from_dict}
use echod.Pi.Votes.{
  assert_leadership, begin_indices, pi_become_leader, pi_count_vote, pi_grants,
  pi_handle_request_vote, pi_handle_vote_response, pi_start_election, pi_vote_request,
}
use echod.Replication.{to_follower}
use echod.Wire.{PiAppend, PiEntry, RawEntry}

pub pi_send_liveness_ping-Framed : (c : PiCoordinator) → Framed c (pi_send_liveness_ping c)
unfolding pi_send_liveness_ping
pi_send_liveness_ping-Framed c = by_protocol c.protocol
  where
    by_protocol : (p : Protocol) → Framed c (pi_ping_method p c)
    by_protocol raft = pi_broadcast-Framed (pi_ping c) c
    by_protocol echo = pi_broadcast-Framed (pi_ping c) c
    by_protocol echo_d =
        Framed-trans c (pi_send_each c.peers (pi_ping c) c) _
          (pi_send_each-Framed c.peers (pi_ping c) c) (ground arith)

assert_leadership-Framed : (p : Protocol) (c : PiCoordinator) → Framed c (assert_leadership p c)
unfolding pi_send_heartbeats
assert_leadership-Framed raft c = send_append_each-Framed c.peers c
assert_leadership-Framed echo c = pi_send_liveness_ping-Framed c
assert_leadership-Framed echo_d c = pi_send_liveness_ping-Framed c

pub pi_become_leader-Framed : (env : PiEnv) (c : PiCoordinator) → Framed c (pi_become_leader env c)
unfolding pi_become_leader
pi_become_leader-Framed env c =
    let d = record c {
      state = leader;
      leader_changes = c.leader_changes + 1;
      current_leader_id = some c.node_id;
      next_index = begin_indices c.peers (length c.log + 1) c.next_index;
      match_index = begin_indices c.peers 0 c.match_index;
      handoff_sent = false;
      ping_interval = pi_ping_interval;
      last_consensus_activity = env.now;
      last_ping_time = env.now_again;
    } in
    let e = assert_leadership c.protocol d in
    Framed-trans c d _ (ground arith) (
      Framed-trans d e _ (assert_leadership-Framed c.protocol d)
        (pi_flush_pending_triggers-Framed env e))

pub pi_start_election-Framed :
    (env : PiEnv) (c : PiCoordinator) → Framed c (pi_start_election env c)
unfolding pi_start_election pi_reset_election_timer
pi_start_election-Framed env c = elim (Bool-cases (is_observer c.state)) [
  | inl h ↦ rw h (ground arith)
  | inr h ↦ rw h (
      let d = pi_reset_election_timer env (record c {
        current_term = c.current_term + 1;
        state = candidate;
        voted_for = some c.node_id;
        current_leader_id = none;
        votes = (c.node_id, env.level) ∷ [];
      }) in
      Framed-trans c d _ (ground arith) (pi_send_each-Framed c.peers (pi_vote_request env d) d))
]

pub pi_handle_request_vote-Framed :
    (env : PiEnv) (sender : NodeId) (rpc : RequestVoteRpc) (c : PiCoordinator)
    → Framed c (pi_handle_request_vote env sender rpc c)
unfolding pi_handle_request_vote pi_send pi_reset_election_timer pi_grants
pi_handle_request_vote-Framed env sender rpc c =
    let d = pi_adopt_term env rpc.term c in
    Framed-trans c d _ (pi_adopt_term-Framed env rpc.term c) (record {
      protocol = ground arith;
      node_id = ground arith;
      peers = ground arith;
      inbox = ground arith;
      raised = ground arith;
      received = ground arith;
      current_term = ground arith;
      vote = λ x v same. ground (arith, eq_iff x rpc.candidate_id);
    })

pub pi_handle_vote_response-Framed :
    (env : PiEnv) (sender : NodeId) (resp : RequestVoteResponse) (c : PiCoordinator)
    → Framed c (pi_handle_vote_response env sender resp c)
unfolding pi_handle_vote_response pi_step_down pi_reset_election_timer
pi_handle_vote_response-Framed env sender resp c =
    let d = record c { votes = pi_count_vote sender resp c.votes } in
    let e = Framed-trans c d _ (ground arith) (pi_become_leader-Framed env d) in ground (arith, e)

replay_to-Framed :
    (target : Option NodeId) (commands : List Command) (c : PiCoordinator)
    → Framed c (replay_to target commands c)
replay_to-Framed none [] c = ground arith
replay_to-Framed (some l) [] c = ground arith
replay_to-Framed none (x ∷ rest) c = ground arith
replay_to-Framed (some l) (x ∷ rest) c = pi_send-Framed l _ c

pi_store_entry-Stored : (entry : PiEntry) (c : PiCoordinator) → Stored c (pi_store_entry entry c)
unfolding pi_store_entry replay_provisional
pi_store_entry-Stored entry c =
    let d = record c { log = take (cut_at c.log entry.index) c.log ++ entry ∷ [] } in
    let target = replay_target c.protocol c.node_id c.current_leader_id in
    let gone = provisional_commands (drop (cut_at c.log entry.index) c.log) in
    let e =
      Framed-trans c d (replay_to target gone d) (ground arith) (replay_to-Framed target gone d) in
    let f = Framed-Stored c (replay_to target gone d) e in ground (arith, f)

pi_store_entries-Stored :
    (now : ℕ) (raws : List RawEntry) (c : PiCoordinator) → Stored c (pi_store_entries now raws c)
unfolding pi_store_entries
pi_store_entries-Stored now [] c = ground arith
pi_store_entries-Stored now (raw ∷ raws) c =
    let d = pi_store_entry (from_dict now raw) c in
    let one = pi_store_entry-Stored (from_dict now raw) c in
    elim (Bool-cases d.raised) [
      | inl h ↦ rw h one
      | inr h ↦
          rw h (
            Stored-trans c d (pi_store_entries now raws d) one (pi_store_entries-Stored now raws d))
    ]

finish-Stored :
    (env : PiEnv) (sender : NodeId) (p : PiAppend) (c : PiCoordinator)
    → Stored c (finish env sender p c)
unfolding pi_follow_commit pi_send
finish-Stored env sender p c = ground arith

pi_follow-Stored :
    (env : PiEnv) (sender : NodeId) (p : PiAppend) (c : PiCoordinator)
    → Stored c (pi_follow env sender p c)
unfolding pi_follow reject_append pi_reset_election_timer pi_send
pi_follow-Stored env sender p c =
    let d = record (pi_reset_election_timer env c) {
      current_leader_id = some p.leader_id;
      state = to_follower c.state;
      raised = false;
    } in
    let e = pi_store_entries env.now p.entries d in
    let done =
      if pi_is_consistent p d.log then finish env sender p e else reject_append env sender d in
    Stored-trans c d done (ground arith) (elim (Bool-cases (pi_is_consistent p d.log)) [
      | inl h ↦ rw h (
          Stored-trans d e (finish env sender p e) (pi_store_entries-Stored env.now p.entries d)
            (finish-Stored env sender p e))
      | inr h ↦ rw h (ground arith)
    ])

pub pi_handle_append_entries-Stored :
    (env : PiEnv) (sender : NodeId) (p : PiAppend) (c : PiCoordinator)
    → Stored c (pi_handle_append_entries env sender p c)
unfolding pi_handle_append_entries reject_append
pi_handle_append_entries-Stored env sender p c =
    let d = pi_adopt_term env p.term c in
    let done =
      if ltb p.term d.current_term then reject_append env sender d else pi_follow env sender p d in
    Stored-trans c d done (Framed-Stored c d (pi_adopt_term-Framed env p.term c))
      (elim (Bool-cases (ltb p.term d.current_term)) [
        | inl h ↦
            let r = pi_send-Framed sender (pi_append_reply env false 0 d) d in
            rw h (Framed-Stored d (pi_send sender (pi_append_reply env false 0 d) d) r)
        | inr h ↦ rw h (pi_follow-Stored env sender p d)
      ])
