-- ===== src/Pi/Replayed.antt =====
-- Which commands the log of a hardware coordinator carries after a replay.
use echod.Prelude.{
  List, String, [], ap, append-nil, append_assoc, arith, length, length-append, map, map-append,
  min, refl, sym, ℕ, ◌++◌, ◌+◌, ◌∙◌, ◌∷◌, ◌≡◌,
}
use echod.Messages.{Command, NodeId}
use echod.Node.{Protocol, echo, echo_d, raft}
use echod.Pi.{PiCoordinator, PiEnv, pi_send}
use echod.Pi.Rounds.{
  note_start, pi_commands_of, pi_new_entry, pi_replicate_each, pi_replicate_entry, replay,
  send_append_each, send_append_entries,
}
use echod.Pi.Simulated.{as_entry}
use echod.Triggers.{batch_command}
use echod.Triggers.Carried.{carried, carried-append, singles, singles-append, singles-batch_command}
use echod.Wire.{PiEntry}

-- Between `c` and `d` the log and the fields that the proofs on replays read are the same.
abbrev Same : PiCoordinator → PiCoordinator → Type 0
Same c d = (d.log ≡ c.log) × (d.state ≡ c.state) × (d.recent_reconciles ≡ c.recent_reconciles)

send_append_each-Same :
    (nodes : List NodeId) (c : PiCoordinator) → Same c (send_append_each nodes c)
unfolding send_append_each send_append_entries pi_send
send_append_each-Same [] c = (refl, refl, refl)
send_append_each-Same (n ∷ nodes) c = send_append_each-Same nodes (send_append_entries n c)

-- The single commands that a log carries.
abbrev pub commands_in : PiCoordinator → List Command
commands_in c = carried (map as_entry c.log)

-- What `n` more entries with the given commands make of an object.
abbrev pub Replayed : List Command → ℕ → PiCoordinator → PiCoordinator → Type 0
Replayed commands n c d =
    (commands_in d ≡ commands_in c ++ singles commands)
    × (length d.log ≡ length c.log + n)
    × (d.state ≡ c.state)
    × (d.recent_reconciles ≡ c.recent_reconciles)

pi_replicate_entry-Replayed :
    (env : PiEnv) (command : Command) (trigger : String) (c : PiCoordinator)
    → Replayed (command ∷ []) 1 c (pi_replicate_entry env command trigger c)
unfolding pi_replicate_entry
pi_replicate_entry-Replayed env command trigger c =
    let e = pi_new_entry env command trigger c in
    let h = send_append_each-Same c.peers (record c {
      log = c.log ++ e ∷ [];
      pending_latency = note_start (length c.log + 1) env.now c.pending_latency;
    }) in
    (
      ap (λ (l : List PiEntry). carried (map as_entry l)) h.0
          ∙ ap carried (map-append as_entry c.log (e ∷ []))
          ∙ carried-append (map as_entry c.log) (as_entry e ∷ [])
          ∙ ap (λ (l : List Command). commands_in c ++ l)
              (unfold carried singles pi_new_entry in refl),
      omega (arith, ap length h.0, length-append c.log (e ∷ [])),
      h.1,
      h.2,
    )

pi_replicate_each-Replayed :
    (env : PiEnv) (pending : List (Command × String)) (c : PiCoordinator)
    → Replayed (pi_commands_of pending) (length pending) c (pi_replicate_each env pending c)
unfolding pi_replicate_each
pi_replicate_each-Replayed env [] c =
    (unfold singles in sym (append-nil (commands_in c)), omega arith, refl, refl)
pi_replicate_each-Replayed env ((command, trigger) ∷ rest) c =
    let d = pi_replicate_entry env command trigger c in
    let one = pi_replicate_entry-Replayed env command trigger c in
    let later = pi_replicate_each-Replayed env rest d in
    let cs = pi_commands_of rest in
    (
      later.0
          ∙ ap (λ (l : List Command). l ++ singles cs) one.0
          ∙ append_assoc (commands_in c) (singles (command ∷ [])) (singles cs)
          ∙ ap (λ (l : List Command). commands_in c ++ l) (sym (singles-append (command ∷ []) cs)),
      omega (arith, one.1, later.1),
      later.2 ∙ one.2,
      later.3 ∙ one.3,
    )

-- How many entries a replay of n triggers takes: one in echoD, and one for each trigger elsewhere.
abbrev pub pi_rounds : Protocol → ℕ → ℕ
pi_rounds echo_d n = min 1 n
pi_rounds p n = n

pub replay-Replayed :
    (p : Protocol) (env : PiEnv) (pending : List (Command × String)) (c : PiCoordinator)
    → Replayed (pi_commands_of pending) (pi_rounds p (length pending)) c (replay p env pending c)
replay-Replayed raft env pending c = pi_replicate_each-Replayed env pending c
replay-Replayed echo env pending c = pi_replicate_each-Replayed env pending c
replay-Replayed echo_d env [] c = pi_replicate_each-Replayed env [] c
replay-Replayed echo_d env (x ∷ []) c = pi_replicate_each-Replayed env (x ∷ []) c
replay-Replayed echo_d env ((command, trigger) ∷ next ∷ rest) c =
    let cs = command ∷ pi_commands_of (next ∷ rest) in
    let h = pi_replicate_entry-Replayed env (batch_command cs) trigger c in
    (
      h.0 ∙ ap (λ (l : List Command). commands_in c ++ l) (singles-batch_command cs),
      omega (arith, h.1),
      h.2,
      h.3,
    )
