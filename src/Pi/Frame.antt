-- ===== src/Pi/Frame.antt =====
-- What no handler of the hardware coordinator changes.
use echod.Prelude.{
  List, String, [], arith, length, none, refl, some, suc, sym, zero, ℕ, ◌++◌, ◌+◌, ◌∙◌, ◌∷◌, ◌≡◌,
  ◌≤◌,
}
use echod.Messages.{Command, NodeId}
use echod.Node.{Protocol, echo, echo_d, raft}
use echod.Pi.{
  PiCoordinator, PiEnv, pi_adopt_term, pi_broadcast, pi_reset_election_timer, pi_send, pi_send_each,
  pi_step_down,
}
use echod.Pi.Rounds.{
  commit_to, flush_pending, flush_readings, note_start, pi_advance_from, pi_commands_of,
  pi_flush_batch, pi_flush_pending_triggers, pi_new_entry, pi_replicate_each, pi_replicate_entry,
  pi_try_advance_commit, replay, send_append_each, send_append_entries,
}
use echod.Triggers.{batch_command, coalesce}
use echod.Wire.{PiPayload}

-- The nodes, the queue, the count of received messages and whether an exception is raised are the same
-- in `d` as in `c`, the term is no smaller, and a vote stands while the term does.
pub record Framed (c d : PiCoordinator) : Type 0 where
  pub protocol : d.protocol ≡ c.protocol
  pub node_id : d.node_id ≡ c.node_id
  pub peers : d.peers ≡ c.peers
  pub inbox : d.inbox ≡ c.inbox
  pub raised : d.raised ≡ c.raised
  pub received : d.total_messages_received ≡ c.total_messages_received
  pub current_term : c.current_term ≤ d.current_term
  pub vote :
      (x : NodeId) → c.voted_for ≡ some x → d.current_term ≡ c.current_term → d.voted_for ≡ some x

pub Framed-refl : (c : PiCoordinator) → Framed c c
Framed-refl c = ground arith

pub Framed-trans : (a b c : PiCoordinator) → Framed a b → Framed b c → Framed a c
Framed-trans a b c h k = record {
  protocol = k.protocol ∙ h.protocol;
  node_id = k.node_id ∙ h.node_id;
  peers = k.peers ∙ h.peers;
  inbox = k.inbox ∙ h.inbox;
  raised = k.raised ∙ h.raised;
  received = k.received ∙ h.received;
  current_term = omega (arith, h.current_term, k.current_term);
  vote = λ x v same.
      let first : b.current_term ≡ a.current_term =
        omega (arith, h.current_term, k.current_term, same) in
      k.vote x (h.vote x v first) (same ∙ sym first);
}

-- The same, but for a raised exception.
abbrev pub Stored : PiCoordinator → PiCoordinator → Type 0
Stored c d = Framed c (record d { raised = c.raised })

pub Framed-Stored : (c d : PiCoordinator) → Framed c d → Stored c d
Framed-Stored c d h = record {
  protocol = h.protocol;
  node_id = h.node_id;
  peers = h.peers;
  inbox = h.inbox;
  raised = refl;
  received = h.received;
  current_term = h.current_term;
  vote = h.vote;
}

pub Stored-trans : (a b c : PiCoordinator) → Stored a b → Stored b c → Stored a c
Stored-trans a b c h k =
    Framed-trans a (record b { raised = a.raised }) (record c { raised = a.raised }) h
      (record {
        protocol = k.protocol;
        node_id = k.node_id;
        peers = k.peers;
        inbox = k.inbox;
        raised = refl;
        received = k.received;
        current_term = k.current_term;
        vote = k.vote;
      })

pub pi_send-Framed :
    (recipient : NodeId) (payload : PiPayload) (c : PiCoordinator)
    → Framed c (pi_send recipient payload c)
unfolding pi_send
pi_send-Framed recipient payload c = ground arith

pub pi_broadcast-Framed :
    (payload : PiPayload) (c : PiCoordinator) → Framed c (pi_broadcast payload c)
unfolding pi_broadcast
pi_broadcast-Framed payload c = ground arith

pub pi_send_each-Framed :
    (nodes : List NodeId) (payload : PiPayload) (c : PiCoordinator)
    → Framed c (pi_send_each nodes payload c)
unfolding pi_send_each
pi_send_each-Framed [] payload c = ground arith
pi_send_each-Framed (n ∷ nodes) payload c =
    Framed-trans c (pi_send n payload c) _ (pi_send-Framed n payload c)
      (pi_send_each-Framed nodes payload (pi_send n payload c))

pub send_append_each-Framed :
    (nodes : List NodeId) (c : PiCoordinator) → Framed c (send_append_each nodes c)
unfolding send_append_each send_append_entries
send_append_each-Framed [] c = ground arith
send_append_each-Framed (n ∷ nodes) c =
    let d = send_append_entries n c in
    Framed-trans c d _ (pi_send-Framed n _ c) (send_append_each-Framed nodes d)

pub pi_replicate_entry-Framed :
    (env : PiEnv) (command : Command) (trigger : String) (c : PiCoordinator)
    → Framed c (pi_replicate_entry env command trigger c)
unfolding pi_replicate_entry
pi_replicate_entry-Framed env command trigger c =
    let d = record c {
      log = c.log ++ pi_new_entry env command trigger c ∷ [];
      pending_latency = note_start (length c.log + 1) env.now c.pending_latency;
    } in
    Framed-trans c d _ (ground arith) (send_append_each-Framed c.peers d)

pi_replicate_each-Framed :
    (env : PiEnv) (pending : List (Command × String)) (c : PiCoordinator)
    → Framed c (pi_replicate_each env pending c)
unfolding pi_replicate_each
pi_replicate_each-Framed env [] c = ground arith
pi_replicate_each-Framed env ((command, trigger) ∷ rest) c =
    let d = pi_replicate_entry env command trigger c in
    Framed-trans c d _ (pi_replicate_entry-Framed env command trigger c)
      (pi_replicate_each-Framed env rest d)

pub replay-Framed :
    (p : Protocol) (env : PiEnv) (pending : List (Command × String)) (c : PiCoordinator)
    → Framed c (replay p env pending c)
replay-Framed raft env pending c = pi_replicate_each-Framed env pending c
replay-Framed echo env pending c = pi_replicate_each-Framed env pending c
replay-Framed echo_d env [] c = pi_replicate_each-Framed env [] c
replay-Framed echo_d env (x ∷ []) c = pi_replicate_each-Framed env (x ∷ []) c
replay-Framed echo_d env ((command, trigger) ∷ next ∷ rest) c =
    pi_replicate_entry-Framed env (batch_command (command ∷ pi_commands_of (next ∷ rest))) trigger c

flush_pending-Framed :
    (env : PiEnv) (pending : List (Command × String)) (c : PiCoordinator)
    → Framed c (flush_pending env pending c)
flush_pending-Framed env [] c = ground arith
flush_pending-Framed env (x ∷ rest) c =
    let d = record c { pending_triggers = []; last_consensus_activity = env.now } in
    Framed-trans c d _ (ground arith) (replay-Framed c.protocol env (x ∷ rest) d)

pub pi_flush_pending_triggers-Framed :
    (env : PiEnv) (c : PiCoordinator) → Framed c (pi_flush_pending_triggers env c)
unfolding pi_flush_pending_triggers
pi_flush_pending_triggers-Framed env c = flush_pending-Framed env c.pending_triggers c

flush_readings-Framed :
    (env : PiEnv) (commands : List Command) (c : PiCoordinator)
    → Framed c (flush_readings env commands c)
flush_readings-Framed env [] c = ground arith
flush_readings-Framed env (x ∷ rest) c =
    let d = record c {
      batch_buffer = [];
      batch_deadline = none;
      last_consensus_activity = env.now;
    } in
    Framed-trans c d _ (ground arith)
      (pi_replicate_entry-Framed env (coalesce (x ∷ rest)) "delta" d)

pub pi_flush_batch-Framed : (env : PiEnv) (c : PiCoordinator) → Framed c (pi_flush_batch env c)
unfolding pi_flush_batch
pi_flush_batch-Framed env c = flush_readings-Framed env c.batch_buffer c

pub pi_try_advance_commit-Framed :
    (env : PiEnv) (c : PiCoordinator) → Framed c (pi_try_advance_commit env c)
unfolding pi_try_advance_commit pi_advance_from commit_to
pi_try_advance_commit-Framed env c = from (length c.log)
  where
    from : (n : ℕ) → Framed c (pi_advance_from env c n)
    from zero = ground arith
    from (suc n) = ground (arith, from n)

pub pi_adopt_term-Framed :
    (env : PiEnv) (term : ℕ) (c : PiCoordinator) → Framed c (pi_adopt_term env term c)
unfolding pi_step_down pi_reset_election_timer
pi_adopt_term-Framed env term c = ground arith
