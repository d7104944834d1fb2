-- ===== src/Handoff.antt =====
-- Directed leadership handoff: simulation/protocols/echod.py.
pub mod Choice
use Prim.Native.String.{compare as compare_text}
use Prim.Native.Nat.{Ordering}
-- key=lambda nb: (-nb[1], nb[0]): higher battery first, then the smaller identifier
use echod.Prelude.{Bool, List, [], false, if◌then◌else◌, leb, ltb, not, true, ℕ, ◌&&◌, ◌==◌, ◌∷◌}
use echod.Election.{start_election}
use echod.Messages.{LeadershipHandoff, NodeId, Payload, follower, is_observer}
use echod.Node.{
  Coordinator, Env, Peer, Protocol, coordinator, echo_d, leaf, members, percent, send, step_down,
}
use echod.Prelude.Dict.{Dict, get_or}
use echod.Replication.{adopt_term}
use echod.Timers.{reset_election_timer}

abbrev pub precedes : NodeId × ℕ → NodeId × ℕ → Bool
precedes (i, a) (j, b) =
    if ltb b a
    then true
    else if ltb a b
    then false
    else elim (compare_text i j) [ Ordering.gt ↦ false | _ ↦ true ]

-- a stable insertion sort: an element goes before those that it precedes or ties with
unfoldable pub insert : NodeId × ℕ → List (NodeId × ℕ) → List (NodeId × ℕ)
insert x [] = x ∷ []
insert x (y ∷ ys) = if precedes x y then x ∷ y ∷ ys else y ∷ insert x ys

unfoldable pub sort : List (NodeId × ℕ) → List (NodeId × ℕ)
unfolding insert
sort [] = []
sort (x ∷ xs) = insert x (sort xs)

-- The other coordinators that are not observers, with the battery last reported, or 100.
unfoldable pub candidates : NodeId → Dict ℕ → List Peer → List (NodeId × ℕ)
candidates me batteries [] = []
candidates me batteries (coordinator i s ∷ ps) =
    if not (i == me) && not (is_observer s)
    then (i, get_or i 100 batteries) ∷ candidates me batteries ps
    else candidates me batteries ps
candidates me batteries (leaf i ∷ ps) = candidates me batteries ps

abbrev pub hand_over : Env → List (NodeId × ℕ) → Coordinator → Coordinator
hand_over env [] c = c
hand_over env ((successor, successor_battery) ∷ rest) c =
    if leb successor_battery (percent c.battery)
    then c
    else reset_election_timer env
        (record (send env successor
          (Payload.leadership_handoff (record { term = c.current_term; leader_id = c.node_id }))
          c) { state = follower })

unfoldable pub initiate_handoff : Env → Coordinator → Coordinator
unfolding sort candidates send reset_election_timer
initiate_handoff env c =
    hand_over env (sort (candidates c.node_id c.peer_batteries (members env.cluster)))
      (record c { handoff_sent = true })

unfoldable pub echod_handle_leadership_handoff :
    Env → NodeId → LeadershipHandoff → Coordinator → Coordinator
unfolding step_down start_election
echod_handle_leadership_handoff env sender handoff c =
    if is_observer c.state
    then c
    else if ltb handoff.term c.current_term
    then c
    else start_election env (adopt_term handoff.term c)

-- The other classes have the empty method of `Node`.
abbrev pub handoff_method : Protocol → Env → NodeId → LeadershipHandoff → Coordinator → Coordinator
handoff_method echo_d env sender handoff c = echod_handle_leadership_handoff env sender handoff c
handoff_method _ env sender handoff c = c

unfoldable pub handle_leadership_handoff :
    Env → NodeId → LeadershipHandoff → Coordinator → Coordinator
unfolding echod_handle_leadership_handoff
handle_leadership_handoff env sender handoff c = handoff_method c.protocol env sender handoff c
