-- ===== src/Examples/Election.antt =====
-- An election in a cluster of three: "c0" times out, "c1" votes for it, and it leads.
use mathlib.Core.List.{Memᴰ}
use echod.Prelude.{List, [], inr, refl, true, ◌∷◌, ◌≡◌}
use echod.Cluster.{Reach, System, begin, later, moves, start, with_node}
use echod.Cluster.Safety.{election_safety}
use echod.Dispatch.{handle_message, handle_payload, on_idle, raft_on_idle}
use echod.Election.{
  base_become_leader, become_leader, grants, handle_request_vote, handle_request_vote_response,
  has_majority, start_election,
}
use echod.Examples.Data.{crc32, env, peers}
use echod.Liveness.{broadcast_ping, send_liveness_ping}
use echod.Machine.{idles, react, react_as, receives}
use echod.Messages.{Message, NodeId, Payload, is_leading}
use echod.Node.{broadcast, post, raft, send}
use echod.Prelude.Dict.{member, put}
use echod.Timers.{create, new_election_deadline, reset_election_timer}

abbrev cids : List NodeId
cids = "c0" ∷ "c1" ∷ "c2" ∷ []

abbrev fresh : System
fresh = begin crc32 (λ i. record env { now = 0 }) (λ i. raft) (λ i. 900_000)

abbrev ask : Message
ask = record {
  sender_id = "c0";
  recipient_id = "c1";
  payload = Payload.request_vote (record {
    term = 1;
    candidate_id = "c0";
    last_log_index = 0;
    last_log_term = 0;
    battery_level = 90;
  });
}

abbrev answer : Message
answer = record {
  sender_id = "c1";
  recipient_id = "c0";
  payload =
      Payload.request_vote_response
        (record { term = 1; vote_granted = true; voter_id = "c1"; voter_battery = 90 });
}

abbrev timed_out : System
timed_out = with_node fresh "c0" (react env idles (fresh "c0"))

abbrev voted : System
voted = with_node timed_out "c1" (react env (receives ask) (timed_out "c1"))

abbrev elected_ : System
elected_ = with_node voted "c0" (react env (receives answer) (voted "c0"))

reached : Reach cids fresh elected_
unfolding member react react_as on_idle handle_message handle_payload create new_election_deadline
    raft_on_idle start_election post reset_election_timer handle_request_vote send grants
reached =
    later
      (later (later start (moves "c0" env idles refl (peers, refl, refl) refl tt)) (
        moves "c1" env (receives ask) refl (peers, refl, refl) refl
          (inr (refl, ("c0", Memᴰ.head refl)))))
      (moves "c0" env (receives answer) refl (peers, refl, refl) refl
        (inr (refl, ("c1", Memᴰ.head refl))))

leads : is_leading (elected_ "c0").state ≡ true
unfolding member react react_as on_idle handle_message handle_payload create new_election_deadline
    raft_on_idle start_election post reset_election_timer handle_request_vote send grants
    handle_request_vote_response has_majority become_leader base_become_leader send_liveness_ping
    broadcast_ping broadcast put
leads = refl

election_safety_example : ask.sender_id ≡ answer.recipient_id
election_safety_example =
    election_safety cids crc32 (λ i. record env { now = 0 }) (λ i. raft) (λ i. 900_000) elected_
      "c0" "c0" reached leads leads refl
