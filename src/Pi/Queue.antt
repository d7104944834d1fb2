-- ===== src/Pi/Queue.antt =====
-- The loop over the queue of the hardware coordinator, `_drain_inbox` of
-- rpi/coordinator/echo_node.py.
use mathlib.Core.Bool.{true≢false}
use echod.Prelude.{
  Bool, Bool-cases, List, Option, String, [], ap, arith, false, if◌then◌else◌, inl, inr, length,
  refl, some, suc, sym, true, zero, ℕ, ◌++◌, ◌+◌, ◌<◌, ◌||◌, ◌∙◌, ◌∷◌, ◌≡◌, ◌≤◌, ◌⊎◌,
}
use echod.Messages.{Command, NodeId}
use echod.Pi.{PiCoordinator, PiEnv, counted}
use echod.Pi.Counted.{pi_handle-Counted}
use echod.Pi.Inbox.{drain_inbox, drain_loop, drain_queue, pi_receive, waiting}
use echod.Pi.Raised.{asks_for_zero, pi_handle-raised}
use echod.Wire.{PiPayload, type_of}

module _ (dumps : Command → String) (envs : ℕ → PiEnv) where
  -- One handler for each message, in order, up to the first that raises; behind each stands the rest
  -- of the queue.
  unfoldable pub receive_all : List (NodeId × PiPayload) → PiCoordinator → PiCoordinator
  unfolding pi_receive
  receive_all [] c = c
  receive_all ((sender, payload) ∷ rest) c =
      let d =
        pi_receive dumps (envs c.total_messages_received) sender payload
          (record c { inbox = some rest }) in
      let e = receive_all rest d in if d.raised then d else e

abbrev pub has_request_for_zero : List (NodeId × PiPayload) → Bool
has_request_for_zero [] = false
has_request_for_zero ((sender, payload) ∷ rest) = asks_for_zero payload || has_request_for_zero rest

-- Of the queue, a first part has been handled, message by message, and the rest still waits; that
-- is the whole queue, unless a handler has raised, and a request for an entry of index 0 is among
-- those that have been handled.
abbrev pub HandledPart : List (NodeId × PiPayload) → PiCoordinator → PiCoordinator → Type 0
HandledPart queue c d =
    (handled : List (NodeId × PiPayload)) × (rest : List (NodeId × PiPayload)) × (queue
      ≡ handled ++ rest)
    × (d.inbox ≡ some rest)
    × (d.total_messages_received ≡ c.total_messages_received + length handled)
    × (((d.raised ≡ true) × (has_request_for_zero handled ≡ true)) ⊎ (rest ≡ []))

-- One more message in front of those that have been handled.
more_handled :
    {raised : Bool} (sender : NodeId) (payload : PiPayload) (handled : List (NodeId × PiPayload))
    {rest : List (NodeId × PiPayload)}
    → (((raised ≡ true) × (has_request_for_zero handled ≡ true)) ⊎ (rest ≡ []))
    → (((raised ≡ true) × (has_request_for_zero ((sender, payload) ∷ handled) ≡ true))
        ⊎ (rest ≡ []))
more_handled sender payload handled (inl h) = inl (h.0, ground (arith, h.1))
more_handled sender payload handled (inr h) = inr h

module _ (dumps : Command → String) (envs : ℕ → PiEnv) where
  -- What a handler makes of the object, behind the bookkeeping of the message.
  Receives : List (NodeId × PiPayload) → PiCoordinator → PiCoordinator → Type 0
  Receives rest c d =
      (d.inbox ≡ some rest)
      × (d.total_messages_received ≡ c.total_messages_received + 1)
      × (c.current_term ≤ d.current_term)

  pi_receive-Receives :
      (sender : NodeId) (payload : PiPayload) (rest : List (NodeId × PiPayload)) (c : PiCoordinator)
      → Receives rest c (
          pi_receive dumps
            (envs c.total_messages_received)
            sender
            payload
            (record c { inbox = some rest }))
  unfolding pi_receive Receives
  pi_receive-Receives sender payload rest c =
      let h = pi_handle-Counted dumps (envs c.total_messages_received) sender payload (record c {
        inbox = some rest;
        raised = false;
        total_messages_received = c.total_messages_received + 1;
        messages_recv_by_type = counted (type_of payload) c.messages_recv_by_type;
      }) in
      (h.inbox, h.received, h.current_term)

  drain_loop-all :
      (fuel : ℕ) (queue : List (NodeId × PiPayload)) (c : PiCoordinator)
      → length queue < fuel
      → drain_loop dumps envs fuel queue c ≡ some (receive_all dumps envs queue c)
  unfolding drain_loop receive_all Receives
  drain_loop-all zero queue c h = absurd (omega arith)
  drain_loop-all (suc fuel) [] c h = refl
  drain_loop-all (suc fuel) ((sender, payload) ∷ rest) c h =
      let d =
        pi_receive dumps (envs c.total_messages_received) sender payload
          (record c { inbox = some rest }) in
      elim (Bool-cases d.raised) [
        | inl raised ↦ rw raised refl
        | inr going ↦ rw going (
            ap
              (λ (o : Option (List (NodeId × PiPayload))). drain_loop dumps envs fuel (waiting o) d)
              (pi_receive-Receives sender payload rest c).0
            ∙ drain_loop-all fuel rest d (omega arith))
      ]

  -- A handler that raises has got a request for an entry of index 0.
  only_zero_raises :
      (sender : NodeId) (payload : PiPayload) (rest : List (NodeId × PiPayload)) (c : PiCoordinator)
      → (pi_receive dumps
          (envs c.total_messages_received)
          sender
          payload
          (record c { inbox = some rest })).raised
        ≡ true
      → asks_for_zero payload ≡ true
  unfolding pi_receive
  only_zero_raises sender payload rest c raised = elim (Bool-cases (asks_for_zero payload)) [
    | inl asked ↦ asked
    | inr none_asked ↦
        let quiet =
          pi_handle-raised dumps (envs c.total_messages_received) sender payload
            (record c {
              inbox = some rest;
              raised = false;
              total_messages_received = c.total_messages_received + 1;
              messages_recv_by_type = counted (type_of payload) c.messages_recv_by_type;
            })
            refl none_asked in
        absurd (true≢false (sym raised ∙ quiet))
  ]

  receive_all-ends :
      (queue : List (NodeId × PiPayload)) (c : PiCoordinator)
      → c.inbox ≡ some queue
      → let d = receive_all dumps envs queue c in
        HandledPart queue c d × (c.current_term ≤ d.current_term)
  unfolding receive_all Receives
  receive_all-ends [] c h = (([], [], refl, h, omega arith, inr refl), omega arith)
  receive_all-ends ((sender, payload) ∷ rest) c h =
      let d =
        pi_receive dumps (envs c.total_messages_received) sender payload
          (record c { inbox = some rest }) in
      let k = pi_receive-Receives sender payload rest c in
      elim (Bool-cases d.raised) [
        | inl raised ↦
            let requested : has_request_for_zero ((sender, payload) ∷ []) ≡ true =
              (let asked = only_zero_raises sender payload rest c raised in
                ground (arith, asked)) in
            rw raised (((sender, payload) ∷ [], rest, refl, k.0, k.1, inl (raised, requested)), k.2)
        | inr going ↦
            let r = receive_all-ends rest d k.0 in
            let part = r.0 in
            rw going (
              (
                (sender, payload) ∷ part.0,
                part.1,
                ap (λ (l : List (NodeId × PiPayload)). (sender, payload) ∷ l) part.2,
                part.3,
                omega (arith, part.4, k.1),
                more_handled sender payload part.0 part.5,
              ),
              omega (arith, r.1, k.2),
            )
      ]

  -- With more fuel than messages wait, the loop over the queue ends, whatever the messages are: a
  -- first part of the queue is handled, each message once, in order and counted, and the rest still
  -- waits; the first part is the whole queue, unless a handler has raised an exception and an
  -- AppendEntries request with an entry of index 0 is in that part; and the term has not gone down.
  pub drain_inbox-ends :
      (fuel : ℕ) (queue : List (NodeId × PiPayload)) (c : PiCoordinator)
      → c.inbox ≡ some queue
      → length queue < fuel
      → let d = receive_all dumps envs queue c in
        (drain_inbox dumps envs fuel c ≡ some d)
        × HandledPart queue c d
        × (c.current_term ≤ d.current_term)
  unfolding drain_inbox
  drain_inbox-ends fuel queue c h enough =
      let r = receive_all-ends queue c h in
      (
        ap (λ (o : Option (List (NodeId × PiPayload))). drain_queue dumps envs fuel o c) h
            ∙ drain_loop-all fuel queue c enough,
        r.0,
        r.1,
      )
