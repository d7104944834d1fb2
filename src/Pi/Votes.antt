-- ===== src/Pi/Votes.antt =====
-- Elections of the hardware coordinator, rpi/coordinator/echo_node.py.
use echod.Prelude.{
  Bool, List, [], eqb, false, if◌then◌else◌, leb, length, ltb, none, not, some, true, ℕ, ◌&&◌, ◌+◌,
  ◌/◌, ◌||◌, ◌∷◌,
}
use echod.Election.{may_vote, passes_gate}
use echod.Messages.{
  NodeId, RequestVoteResponse, RequestVoteRpc, candidate, is_candidate, is_observer, leader,
}
use echod.Node.{Protocol, raft}
use echod.Pi.{
  PiCoordinator, PiEnv, pi_adopt_term, pi_reset_election_timer, pi_send, pi_send_each, pi_step_down,
}
use echod.Pi.Liveness.{pi_ping_interval, pi_send_heartbeats, pi_send_liveness_ping}
use echod.Pi.Rounds.{pi_flush_pending_triggers}
use echod.Prelude.Dict.{Dict, put}
use echod.Wire.{PiEntry, PiPayload}

abbrev pub last_log_term : List PiEntry → ℕ
last_log_term [] = 0
last_log_term (e ∷ []) = e.term
last_log_term (e ∷ f ∷ es) = last_log_term (f ∷ es)

unfoldable pub log_is_up_to_date : List PiEntry → ℕ → ℕ → Bool
log_is_up_to_date log index term =
    if not (eqb term (last_log_term log))
    then ltb (last_log_term log) term
    else leb (length log) index

abbrev pub pi_vote_request : PiEnv → PiCoordinator → PiPayload
pi_vote_request env c = PiPayload.request_vote (record {
  term = c.current_term;
  candidate_id = c.node_id;
  last_log_index = length c.log;
  last_log_term = last_log_term c.log;
  battery_level = env.level;
})

unfoldable pub pi_start_election : PiEnv → PiCoordinator → PiCoordinator
unfolding pi_reset_election_timer pi_send_each
pi_start_election env c =
    if is_observer c.state
    then c
    else (let d = pi_reset_election_timer env (record c {
      current_term = c.current_term + 1;
      state = candidate;
      voted_for = some c.node_id;
      current_leader_id = none;
      votes = (c.node_id, env.level) ∷ [];
    }) in
        pi_send_each d.peers (pi_vote_request env d) d)

unfoldable pub pi_grants : RequestVoteRpc → PiCoordinator → Bool
unfolding log_is_up_to_date
pi_grants rpc c =
    eqb rpc.term c.current_term
    && (not (is_observer c.state)
        && (passes_gate c.protocol rpc.battery_level
            && (may_vote c.voted_for rpc.candidate_id
                && log_is_up_to_date c.log rpc.last_log_index rpc.last_log_term)))

abbrev pub pi_vote_reply : PiEnv → Bool → PiCoordinator → PiPayload
pi_vote_reply env grant c = PiPayload.vote_response (record {
  term = c.current_term;
  vote_granted = grant;
  voter_id = c.node_id;
  voter_battery = env.level;
})

unfoldable pub pi_handle_request_vote :
    PiEnv → NodeId → RequestVoteRpc → PiCoordinator → PiCoordinator
unfolding pi_grants pi_step_down pi_reset_election_timer pi_send
pi_handle_request_vote env sender rpc c =
    let d = pi_adopt_term env rpc.term c in
    if pi_grants rpc d
    then pi_send sender (pi_vote_reply env true d)
        (pi_reset_election_timer env (record d { voted_for = some rpc.candidate_id }))
    else pi_send sender (pi_vote_reply env false d) d

unfoldable pub begin_indices : List NodeId → ℕ → Dict ℕ → Dict ℕ
begin_indices [] n d = d
begin_indices (peer ∷ peers) n d = begin_indices peers n (put peer n d)

abbrev pub assert_leadership : Protocol → PiCoordinator → PiCoordinator
assert_leadership raft c = pi_send_heartbeats c
assert_leadership _ c = pi_send_liveness_ping c

unfoldable pub pi_become_leader : PiEnv → PiCoordinator → PiCoordinator
unfolding begin_indices pi_send_heartbeats pi_send_liveness_ping pi_flush_pending_triggers
pi_become_leader env c = pi_flush_pending_triggers env (
    assert_leadership c.protocol (record c {
      state = leader;
      leader_changes = c.leader_changes + 1;
      current_leader_id = some c.node_id;
      next_index = begin_indices c.peers (length c.log + 1) c.next_index;
      match_index = begin_indices c.peers 0 c.match_index;
      handoff_sent = false;
      ping_interval = pi_ping_interval;
      last_consensus_activity = env.now;
      last_ping_time = env.now_again;
    }))

abbrev pub pi_count_vote : NodeId → RequestVoteResponse → Dict ℕ → Dict ℕ
pi_count_vote sender resp votes =
    if resp.vote_granted then put sender resp.voter_battery votes else votes

unfoldable pub pi_has_majority : PiCoordinator → Bool
pi_has_majority c = ltb ((length c.peers + 1) / 2) (length c.votes)

unfoldable pub pi_handle_vote_response :
    PiEnv → NodeId → RequestVoteResponse → PiCoordinator → PiCoordinator
unfolding pi_step_down pi_become_leader pi_has_majority
pi_handle_vote_response env sender resp c =
    if ltb c.current_term resp.term
    then pi_step_down env resp.term c
    else if not (is_candidate c.state) || not (eqb resp.term c.current_term)
    then c
    else (let d = record c { votes = pi_count_vote sender resp c.votes } in
        if pi_has_majority d then pi_become_leader env d else d)
