-- ===== src/Examples/Votes.antt =====
-- Votes, states and batteries.
use echod.Log
use echod.Prelude.{
  Bool, [], arith, if◌then◌else◌, ltb, max, negsuc, pos, refl, some, take, true, ◌*◌, ◌++◌, ◌<◌,
  ◌↔◌, ◌∷◌, ◌≡◌, ◌≢◌, ◌≤◌, ◌⊎◌,
}
use echod.Config.{full_charge, one_percent, t_low, t_restore}
use echod.Dispatch.Invariant.{IsSound}
use echod.Election.{grants, handle_request_vote, handle_request_vote_response, vote_reply}
use echod.Election.Ballots.{
  Deserves, IsMajority, handle_request_vote-answers, handle_request_vote_response-elects, has_voted,
  voter_count,
}
use echod.Examples.Data.{
  calls, campaigning, crc32, draining, entry, env, granted_vote, log, node, provisional_leader,
  request, request_again,
}
use echod.Handoff.{initiate_handoff}
use echod.Handoff.Choice.{Outcome, initiate_handoff-Outcome}
use echod.Machine.{partitions, react, react_as, run}
use echod.Machine.Invariant.{run-create-IsSound}
use echod.Machine.Revotes.{recharged, recharged-grants}
use echod.Machine.Votes.{one_vote_each_term}
use echod.Messages.{follower, leader, local_leader, observer}
use echod.Node.{
  Env, address, coordinator, echo_d, leaf, post, send, sendable, step_down, tick_battery,
}
use echod.Node.Battery.{tick_battery-hysteresis}
use echod.Prelude.Dict.{IsDistinct, keys, member}
use echod.Provisional.{demote_locally, enter_provisional_mode, reconcile}
use echod.Provisional.Reconcile.{reconcile-replays, replayed}
use echod.Replication.{adopt_term}
use echod.Timers.{create, new_election_deadline, reset_election_timer}
use echod.Triggers.Carried.{carried, singles}

one_vote_each_term_example : (request "c2").candidate_id ≡ (request_again "c2").candidate_id
unfolding grants handle_request_vote run react react_as enter_provisional_mode send post
    reset_election_timer new_election_deadline step_down Log.is_up_to_date
one_vote_each_term_example =
    one_vote_each_term env "c2" (request "c2") (request_again "c2") node ((env, partitions) ∷ [])
      (refl, tt) refl refl refl

run-create-IsSound_example : IsSound (run calls (create crc32 env echo_d "c0" 900_000))
run-create-IsSound_example = run-create-IsSound crc32 env echo_d "c0" 900_000 calls

handle_request_vote-answers_example :
    let t = adopt_term 3 node in
    let d = handle_request_vote env "c2" (request "c2") node in
    (granted : Bool) × (d.outbox
      ≡ [] ++ sendable env.cluster (address "c0" ("c2" ∷ []) (vote_reply granted t)))
    × ((granted ≡ true) ↔ Deserves (request "c2") t)
    × (d.voted_for ≡ (if granted then some "c2" else t.voted_for))
    × (d.current_term ≡ max 2 3)
    × (d.log ≡ log)
handle_request_vote-answers_example = handle_request_vote-answers env "c2" (request "c2") node

handle_request_vote_response-elects_example :
    let d = handle_request_vote_response env "c1" granted_vote campaigning in
    ((d.state ≡ leader) ↔ (
      (granted_vote.term ≡ campaigning.current_term)
      × IsMajority env.cluster (voter_count true "c1" ("c0" ∷ []))))
    × IsDistinct (keys d.votes_received)
    × (member "c1" (keys d.votes_received) ≡ has_voted true "c1" ("c0" ∷ []) "c1")
handle_request_vote_response-elects_example =
    handle_request_vote_response-elects env "c1" "c1" granted_vote campaigning refl
      (unfold member in (refl, tt))

reconcile-replays_example :
    let d = reconcile env (entry 2 2 ∷ entry 3 2 ∷ []) 3 provisional_leader in
    (carried d.log.entries
      ≡ carried (
          if ltb 1 3
          then take 1 provisional_leader.log.entries ++ entry 2 2 ∷ entry 3 2 ∷ []
          else provisional_leader.log.entries)
        ++ singles (replayed provisional_leader))
    × (d.pending_triggers ≡ [])
    × (d.partition_epoch ≡ 0)
    × (d.state ≡ demote_locally local_leader)
reconcile-replays_example =
    reconcile-replays env (entry 2 2 ∷ entry 3 2 ∷ []) 3 provisional_leader (λ e. ground arith)

abbrev with_observer : Env
with_observer = record env {
  cluster = some (
      coordinator "c0" leader
      ∷ coordinator "c1" observer
      ∷ coordinator "c2" follower
      ∷ leaf "l0"
      ∷ []);
}

initiate_handoff-Outcome_example :
    Outcome with_observer draining (initiate_handoff with_observer draining)
initiate_handoff-Outcome_example = initiate_handoff-Outcome with_observer draining

tick_battery-hysteresis_example :
    let d = tick_battery (pos 600_000) node in
    (d.battery ≤ full_charge)
    × ((d.state ≡ observer) ↔ (
        (d.battery < t_low * one_percent)
        ⊎ ((node.state ≡ observer) × (d.battery < t_restore * one_percent))))
    × ((d.state ≡ observer)
        ⊎ (d.state ≡ node.state)
        ⊎ ((node.state ≡ observer) × (d.state ≡ follower)))
    × (d.current_term ≡ node.current_term)
    × ((d.voted_for ≡ node.voted_for) ⊎ ((node.state ≢ observer) × (d.state ≡ observer)))
tick_battery-hysteresis_example = tick_battery-hysteresis (pos 600_000) node

recharged-grants_example :
    grants (request "c2") (
      adopt_term 3 (
        recharged
          (pos 600_000)
          (negsuc 400_000)
          (handle_request_vote env "c1" (request "c1") node)))
    ≡ true
recharged-grants_example =
    recharged-grants env "c1" (request "c1") (request "c2") node (pos 600_000) (negsuc 400_000)
      (λ e. ground arith) (omega arith) (omega arith) (omega arith) refl (omega arith)
      (unfold Log.is_up_to_date in refl)
