-- ===== src/Pi/Ballots.antt =====
-- One vote for each term of the hardware coordinator.
use echod.Prelude.{
  Bool, Bool-cases, List, String, [], arith, eq_iff, false, if◌then◌else◌, inl, inr, not, refl,
  some, sym, true, ◌+◌, ◌∙◌, ◌∷◌, ◌≡◌, ◌≤◌,
}
use echod.Messages.{Command, NodeId, RequestVoteRpc}
use echod.Pi.{PiCoordinator, PiEnv, counted, pi_adopt_term, pi_reset_election_timer, pi_send}
use echod.Pi.Inbox.{pi_receive}
use echod.Pi.Loop.{pi_tick}
use echod.Pi.Received.{is_demo, pi_handle-Stored}
use echod.Pi.Ticked.{pi_tick-Framed}
use echod.Pi.Votes.{pi_grants, pi_handle_request_vote}
use echod.Wire.{PiPayload, type_of}

-- A call of the main loop.
pub data PiEvent : Type 0 where
  arrives : NodeId → PiPayload → PiEvent
  ticks : PiEvent

module _ (dumps : Command → String) where
  abbrev pub pi_react : PiEnv → PiEvent → PiCoordinator → PiCoordinator
  pi_react env (arrives sender payload) c = pi_receive dumps env sender payload c
  pi_react env ticks c = pi_tick env c

  -- The calls, up to a handler that raises: that ends `run`.
  unfoldable pub pi_run : List (PiEnv × PiEvent) → PiCoordinator → PiCoordinator
  unfolding pi_receive pi_tick
  pi_run [] c = c
  pi_run ((env, event) ∷ rest) c =
      let d = pi_react env event c in let e = pi_run rest d in if d.raised then d else e

-- No demo command is among the calls.
abbrev pub is_plain : PiEvent → Bool
is_plain (arrives sender payload) = not (is_demo payload)
is_plain ticks = true

abbrev pub ArePlain : List (PiEnv × PiEvent) → Type 0
ArePlain [] = Unit
ArePlain ((env, event) ∷ rest) = (is_plain event ≡ true) × ArePlain rest

-- The votes and the term, which the count of a message leaves alone.
record VotePersists (c d : PiCoordinator) : Type 0 where
  term : c.current_term ≤ d.current_term
  vote :
      (x : NodeId) → c.voted_for ≡ some x → d.current_term ≡ c.current_term → d.voted_for ≡ some x

VotePersists-trans :
    (a b c : PiCoordinator) → VotePersists a b → VotePersists b c → VotePersists a c
VotePersists-trans a b c one more = record {
  term = omega (arith, one.term, more.term);
  vote = λ x v same.
      let first : b.current_term ≡ a.current_term = omega (arith, one.term, more.term, same) in
      more.vote x (one.vote x v first) (same ∙ sym first);
}

module _ (dumps : Command → String) where
  pi_react-VotePersists :
      (env : PiEnv) (event : PiEvent) (c : PiCoordinator)
      → is_plain event ≡ true
      → VotePersists c (pi_react dumps env event c)
  unfolding pi_receive
  pi_react-VotePersists env (arrives sender payload) c h =
      let d = record c {
        raised = false;
        total_messages_received = c.total_messages_received + 1;
        messages_recv_by_type = counted (type_of payload) c.messages_recv_by_type;
      } in
      let f = pi_handle-Stored dumps env sender payload d (ground arith) in
      record { term = f.current_term; vote = f.vote }
  pi_react-VotePersists env ticks c h =
      let f = pi_tick-Framed env c in record { term = f.current_term; vote = f.vote }

  pi_run-VotePersists :
      (es : List (PiEnv × PiEvent)) (c : PiCoordinator)
      → ArePlain es
      → VotePersists c (pi_run dumps es c)
  unfolding pi_run
  pi_run-VotePersists [] c h = record { term = omega arith; vote = λ x v same. v }
  pi_run-VotePersists ((env, event) ∷ rest) c h =
      let d = pi_react dumps env event c in
      let one = pi_react-VotePersists env event c h.0 in
      let more = pi_run-VotePersists rest d h.1 in
      elim (Bool-cases d.raised) [
        | inl raised ↦ rw raised one
        | inr going ↦ rw going (VotePersists-trans c d (pi_run dumps rest d) one more)
      ]

-- What a granted vote leaves behind.
pi_grant-records :
    (env : PiEnv) (sender : NodeId) (rpc : RequestVoteRpc) (c : PiCoordinator)
    → pi_grants rpc (pi_adopt_term env rpc.term c) ≡ true
    → let d = pi_handle_request_vote env sender rpc c in
      (d.voted_for ≡ some rpc.candidate_id) × (d.current_term ≡ rpc.term)
unfolding pi_handle_request_vote pi_send pi_reset_election_timer
pi_grant-records env sender rpc c h = rw h (refl, unfold pi_grants in ground arith)

-- A grant in a node that has voted in the request's term.
pi_grant-respects :
    (env : PiEnv) (rpc : RequestVoteRpc) (c : PiCoordinator) (x : NodeId)
    → pi_grants rpc (pi_adopt_term env rpc.term c) ≡ true
    → c.voted_for ≡ some x
    → c.current_term ≡ rpc.term
    → rpc.candidate_id ≡ x
unfolding pi_grants
pi_grant-respects env rpc c x g v e = ground (arith, eq_iff x rpc.candidate_id)

pi_grant-term :
    (env : PiEnv) (rpc : RequestVoteRpc) (c : PiCoordinator)
    → pi_grants rpc (pi_adopt_term env rpc.term c) ≡ true
    → rpc.term ≤ c.current_term
    → c.current_term ≡ rpc.term
unfolding pi_grants
pi_grant-term env rpc c g h = ground arith

-- If a hardware coordinator grants a vote request, and after any received messages and ticks, demo
-- commands left aside, would grant another request of the same term, both are of one candidate.
pub pi_one_vote_each_term :
    (dumps : Command → String) (env next : PiEnv) (sender : NodeId) (rpc again : RequestVoteRpc)
    (es : List (PiEnv × PiEvent)) (c : PiCoordinator)
    → pi_grants rpc (pi_adopt_term env rpc.term c) ≡ true
    → ArePlain es
    → again.term ≡ rpc.term
    → let d = pi_run dumps es (pi_handle_request_vote env sender rpc c) in
      pi_grants again (pi_adopt_term next again.term d) ≡ true
      → again.candidate_id ≡ rpc.candidate_id
pi_one_vote_each_term dumps env next sender rpc again es c granted plain same_term granted_again =
    let voted = pi_handle_request_vote env sender rpc c in
    let d = pi_run dumps es voted in
    let first = pi_grant-records env sender rpc c granted in
    let kept = pi_run-VotePersists dumps es voted plain in
    let now =
      pi_grant-term next again d granted_again (omega (arith, same_term, first.1, kept.term)) in
    pi_grant-respects next again d rpc.candidate_id granted_again
      (kept.vote rpc.candidate_id first.0 (now ∙ same_term ∙ sym first.1)) now
