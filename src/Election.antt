-- ===== src/Election.antt =====
-- Elections: simulation/core/coordinator.py, with the overrides of simulation/protocols/echo.py and
-- simulation/protocols/echod.py.
pub mod Promotion
pub mod Ballots
pub mod Speech
pub mod Silence
use echod.Log
use echod.Prelude.{
  Bool, List, Option, [], eqb, false, if◌then◌else◌, leb, length, ltb, none, not, some, suc, true,
  ℕ, ◌&&◌, ◌+◌, ◌/◌, ◌==◌, ◌∷◌,
}
use echod.Config.{liveness_ping_interval, t_low}
use echod.Liveness.{send_liveness_ping}
use echod.Messages.{
  NodeId, Payload, RequestVoteResponse, RequestVoteRpc, candidate, is_candidate, is_observer,
  leader,
}
use echod.Node.{
  Coordinator, Env, Peer, Protocol, address, all_except, coordinator, coordinators_except, echo,
  echo_d, leaf, members, percent, post, raft, send, step_down,
}
use echod.Prelude.Dict.{Dict, put}
use echod.Replication.{adopt_term}
use echod.Timers.{reset_election_timer}
use echod.Triggers.{flush_pending_triggers}

-- RequestVote goes to every node in the base class, and to coordinators only in echoD.
abbrev pub election_targets : Protocol → NodeId → List Peer → List NodeId
election_targets echo_d me ps = coordinators_except me ps
election_targets _ me ps = all_except me ps

abbrev pub vote_request : Coordinator → Payload
vote_request c = Payload.request_vote (record {
  term = c.current_term;
  candidate_id = c.node_id;
  last_log_index = Log.last_index c.log;
  last_log_term = Log.last_term c.log;
  battery_level = percent c.battery;
})

unfoldable pub start_election : Env → Coordinator → Coordinator
unfolding reset_election_timer post
start_election env c =
    if is_observer c.state
    then c
    else (let d = reset_election_timer env (record c {
      current_term = c.current_term + 1;
      state = candidate;
      voted_for = some c.node_id;
      votes_received = (c.node_id, percent c.battery) ∷ [];
    }) in
        post env
          (address c.node_id (election_targets c.protocol c.node_id (members env.cluster))
            (vote_request d))
          d)

-- The energy gate of EchoCoordinator, which the base class lacks.
abbrev pub passes_gate : Protocol → ℕ → Bool
passes_gate raft battery_level = true
passes_gate echo battery_level = leb t_low battery_level
passes_gate echo_d battery_level = leb t_low battery_level

-- self.voted_for is None or self.voted_for == rpc.candidate_id
abbrev pub may_vote : Option NodeId → NodeId → Bool
may_vote none candidate_id = true
may_vote (some v) candidate_id = v == candidate_id

-- The grant test, in the object that has taken over a higher term.
unfoldable pub grants : RequestVoteRpc → Coordinator → Bool
unfolding Log.is_up_to_date
grants rpc c =
    eqb rpc.term c.current_term
    && (not (is_observer c.state)
        && (passes_gate c.protocol rpc.battery_level
            && (may_vote c.voted_for rpc.candidate_id
                && Log.is_up_to_date c.log rpc.last_log_index rpc.last_log_term)))

abbrev pub vote_reply : Bool → Coordinator → Payload
vote_reply grant c = Payload.request_vote_response (record {
  term = c.current_term;
  vote_granted = grant;
  voter_id = c.node_id;
  voter_battery = percent c.battery;
})

unfoldable pub handle_request_vote : Env → NodeId → RequestVoteRpc → Coordinator → Coordinator
unfolding grants step_down reset_election_timer send
handle_request_vote env sender rpc c =
    let d = adopt_term rpc.term c in
    if grants rpc d
    then send env sender (vote_reply true d)
        (reset_election_timer env (record d { voted_for = some rpc.candidate_id }))
    else send env sender (vote_reply false d) d

abbrev pub coordinator_count : List Peer → ℕ
coordinator_count [] = 0
coordinator_count (coordinator i s ∷ ps) = suc (coordinator_count ps)
coordinator_count (leaf i ∷ ps) = coordinator_count ps

abbrev pub majority_in : Option (List Peer) → ℕ → Bool
majority_in none votes = false
majority_in (some ps) votes = ltb (coordinator_count ps / 2) votes

unfoldable pub has_majority : Env → Coordinator → Bool
has_majority env c = majority_in env.cluster (length c.votes_received)

-- d[nid] = v, for each nid
unfoldable pub put_each : List NodeId → ℕ → Dict ℕ → Dict ℕ
put_each [] v d = d
put_each (nid ∷ nids) v d = put_each nids v (put nid v d)

-- CoordinatorNode._become_leader
unfoldable pub base_become_leader : Env → Coordinator → Coordinator
unfolding send_liveness_ping
base_become_leader env c =
    let others = coordinators_except c.node_id (members env.cluster) in
    send_liveness_ping env (record c {
      state = leader;
      next_index = put_each others (Log.last_index c.log + 1) c.next_index;
      match_index = put_each others 0 c.match_index;
      last_ping_time = env.now;
    })

abbrev pub promotion : Protocol → Env → Coordinator → Coordinator
promotion raft env c = base_become_leader env c
promotion echo env c = flush_pending_triggers env (base_become_leader env c)
promotion echo_d env c = flush_pending_triggers env (
    base_become_leader env
      (record c { handoff_sent = false; ping_interval = liveness_ping_interval }))

unfoldable pub become_leader : Env → Coordinator → Coordinator
unfolding base_become_leader
become_leader env c = promotion c.protocol env c

abbrev pub count_vote : Bool → NodeId → ℕ → Dict ℕ → Dict ℕ
count_vote true voter level votes = put voter level votes
count_vote false voter level votes = votes

unfoldable pub handle_request_vote_response :
    Env → NodeId → RequestVoteResponse → Coordinator → Coordinator
unfolding step_down has_majority
handle_request_vote_response env sender resp c =
    if ltb c.current_term resp.term
    then step_down resp.term c
    else if is_candidate c.state && eqb resp.term c.current_term
    then (let d = record c {
      votes_received = count_vote resp.vote_granted sender resp.voter_battery c.votes_received;
    } in
        if has_majority env d then become_leader env d else d)
    else c
