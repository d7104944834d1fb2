-- ===== src/Pi/Handoff.antt =====
-- Directed handoff of the hardware coordinator, rpi/coordinator/echo_node.py.
use echod.Prelude.{List, [], if◌then◌else◌, leb, ltb, true, ℕ, ◌∷◌}
use echod.Handoff.{sort}
use echod.Messages.{LeadershipHandoff, NodeId, follower, is_observer}
use echod.Node.{Protocol, echo_d}
use echod.Pi.{PiCoordinator, PiEnv, pi_adopt_term, pi_reset_election_timer, pi_send, pi_step_down}
use echod.Pi.Votes.{pi_start_election}
use echod.Prelude.Dict.{Dict, get_or}
use echod.Wire.{PiPayload}

-- Every peer, with the battery last reported, or 100.
unfoldable pub pi_candidates : Dict ℕ → List NodeId → List (NodeId × ℕ)
pi_candidates batteries [] = []
pi_candidates batteries (peer ∷ peers) =
    (peer, get_or peer 100 batteries) ∷ pi_candidates batteries peers

abbrev pub nominate : PiEnv → List (NodeId × ℕ) → PiCoordinator → PiCoordinator
nominate env [] c = c
nominate env ((successor, battery) ∷ rest) c =
    if leb battery env.level
    then c
    else pi_reset_election_timer env
        (record (pi_send successor
          (PiPayload.leadership_handoff (record { term = c.current_term; leader_id = c.node_id }))
          c) { state = follower })

unfoldable pub pi_initiate_handoff : PiEnv → PiCoordinator → PiCoordinator
unfolding sort pi_candidates pi_send pi_reset_election_timer
pi_initiate_handoff env c =
    nominate env (sort (pi_candidates c.peer_batteries c.peers)) (record c { handoff_sent = true })

abbrev pub accept_nomination : Protocol → PiEnv → LeadershipHandoff → PiCoordinator → PiCoordinator
accept_nomination echo_d env p c =
    if is_observer c.state
    then c
    else if ltb p.term c.current_term
    then c
    else pi_start_election env (pi_adopt_term env p.term c)
accept_nomination q env p c = c

unfoldable pub pi_handle_leadership_handoff :
    PiEnv → LeadershipHandoff → PiCoordinator → PiCoordinator
unfolding pi_step_down pi_start_election
pi_handle_leadership_handoff env p c = accept_nomination c.protocol env p c
