-- ===== src/Machine/Votes.antt =====
-- One vote for each term.
use echod.Log
use echod.Prelude.{List, [], arith, eq_iff, some, true, ℕ, ◌++◌, ◌∷◌, ◌≡◌, ◌≤◌}
use echod.Dispatch.{handle_message, on_idle}
use echod.Dispatch.Votes.{
  VoteStands, VoteStands-refl, VoteStands-trans, idle-VoteStands, payload-VoteStands,
}
use echod.Election.{grants, handle_request_vote}
use echod.Election.Silence.{same}
use echod.Log.Commits.{change}
use echod.Machine.{
  Event, IsCalm, drains, heals, idles, is_calm, partitions, proposes, react, react_as, receives,
  reconciles, replicate, replicates, run,
}
use echod.Messages.{LogEntry, NodeId, RequestVoteRpc, TriggerType}
use echod.Node.{Coordinator, Env, Protocol, raft}
use echod.Provisional.{
  adopt_log, enter_provisional_mode, exit_provisional_mode, provisional, reconcile,
}
use echod.Replication.{adopt_term}
use echod.Triggers.{trigger_consensus}
use echod.Triggers.Frame.{flush_pending_triggers-OnlyLogChanges, replicate_entry-OnlyLogChanges}

reconcile-VoteStands :
    (env : Env) (entries : List LogEntry) (other_commit : ℕ) (c : Coordinator)
    → VoteStands c (reconcile env entries other_commit c)
unfolding reconcile
reconcile-VoteStands env entries other_commit c =
    let d = exit_provisional_mode (record c { log = adopt_log entries other_commit c.log }) in
    let f = flush_pending_triggers-OnlyLogChanges env (record d {
      pending_triggers = d.pending_triggers ++ provisional (Log.entries_from c.log 1);
    }) in
    record { term_grows = ground (arith, f); vote_stands = λ x v s. ground (arith, f) }

method-VoteStands :
    (p : Protocol) (env : Env) (event : Event) (c : Coordinator)
    → is_calm event ≡ true
    → VoteStands c (react_as p env event c)
unfolding react_as handle_message on_idle
method-VoteStands p env (receives msg) c h = payload-VoteStands env msg.sender_id msg.payload c
method-VoteStands p env idles c h = idle-VoteStands env c.protocol c
method-VoteStands p env (drains change) c h = cc
method-VoteStands raft env (replicates command) c h =
    let f = replicate_entry-OnlyLogChanges env command TriggerType.liveness c in
    unfold replicate in
    record { term_grows = ground (arith, f); vote_stands = λ x v s. ground (arith, f) }
method-VoteStands p env (replicates command) c h = VoteStands-refl c
method-VoteStands raft env event c h = VoteStands-refl c
method-VoteStands p env (proposes command trigger) c h =
    let f = replicate_entry-OnlyLogChanges env command trigger c in
    unfold trigger_consensus in
    record { term_grows = ground (arith, f); vote_stands = λ x v s. ground (arith, f) }
method-VoteStands p env partitions c h =
    unfold enter_provisional_mode in
    record { term_grows = ground arith; vote_stands = λ x v s. ground arith }
method-VoteStands p env heals c h =
    unfold exit_provisional_mode in
    record { term_grows = ground arith; vote_stands = λ x v s. ground arith }
method-VoteStands p env (reconciles entries other_commit) c h =
    reconcile-VoteStands env entries other_commit c

pub react-VoteStands :
    (env : Env) (event : Event) (c : Coordinator)
    → is_calm event ≡ true
    → VoteStands c (react env event c)
unfolding react
react-VoteStands env event c h = method-VoteStands c.protocol env event c h

run-VoteStands : (es : List (Env × Event)) (c : Coordinator) → IsCalm es → VoteStands c (run es c)
unfolding run react
run-VoteStands [] c h = VoteStands-refl c
run-VoteStands ((env, event) ∷ rest) c h =
    VoteStands-trans (method-VoteStands c.protocol env event c h.0)
      (run-VoteStands rest (react env event c) h.1)

-- What a granted vote leaves behind: the term of the request, and the candidate as the vote.
grant-records :
    (env : Env) (sender : NodeId) (rpc : RequestVoteRpc) (c : Coordinator)
    → grants rpc (adopt_term rpc.term c) ≡ true
    → ((handle_request_vote env sender rpc c).voted_for ≡ some rpc.candidate_id)
      × ((handle_request_vote env sender rpc c).current_term ≡ rpc.term)
unfolding handle_request_vote
grant-records env sender rpc c h = ground arith

-- A grant in a node that is not behind the request is in the node's own term.
grant-term :
    (rpc : RequestVoteRpc) (c : Coordinator)
    → grants rpc (adopt_term rpc.term c) ≡ true
    → rpc.term ≤ c.current_term
    → c.current_term ≡ rpc.term
unfolding grants
grant-term rpc c g h = ground arith

-- A grant in a later state for the term that the node is in goes to the vote that stands.
grant-respects :
    (rpc : RequestVoteRpc) (c : Coordinator) (x : NodeId)
    → grants rpc (adopt_term rpc.term c) ≡ true
    → c.voted_for ≡ some x
    → c.current_term ≡ rpc.term
    → x ≡ rpc.candidate_id
unfolding grants
grant-respects rpc c x g v e = ground (arith, eq_iff x rpc.candidate_id)

-- A node that grants a vote for a term, goes through any calls without battery changes, and then
-- grants another vote for the same term, has granted both to the same candidate.
pub one_vote_each_term :
    (env : Env) (sender : NodeId) (rpc rpc' : RequestVoteRpc) (c : Coordinator)
    (es : List (Env × Event))
    → IsCalm es
    → grants rpc (adopt_term rpc.term c) ≡ true
    → grants rpc' (adopt_term rpc'.term (run es (handle_request_vote env sender rpc c))) ≡ true
    → rpc.term ≡ rpc'.term
    → rpc.candidate_id ≡ rpc'.candidate_id
one_vote_each_term env sender rpc rpc' c es calm g g' same =
    let after = handle_request_vote env sender rpc c in
    let stands = run-VoteStands es after calm in
    let recorded = grant-records env sender rpc c g in
    let now = grant-term rpc' (run es after) g' (omega (arith, stands.term_grows, recorded.1)) in
    grant-respects rpc' (run es after) rpc.candidate_id g'
      (stands.vote_stands rpc.candidate_id recorded.0 (omega (arith, recorded.1))) now
