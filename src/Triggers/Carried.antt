-- ===== src/Triggers/Carried.antt =====
-- Which commands a log carries, with the batches taken apart.
use echod.Prelude.{
  List, [], ap, append-nil, append_assoc, arith, length, length-append, min, refl, sym, ℕ, ◌++◌,
  ◌+◌, ◌∙◌, ◌∷◌, ◌≡◌, ◌≢◌,
}
use echod.Messages.{
  Command, Commands, LogEntry, TriggerType, batch, client, cons, nil, reading, to_commands,
}
use echod.Node.{Coordinator, Env, Protocol, echo, echo_d, raft}
use echod.Replication.{new_entry, replicate_entry}
use echod.Triggers.{
  batch_command, coalesce, commands_of, flush_pending_triggers, replay_as_one, replay_method,
  replicate_each,
}

mutual
  unbatch : Command → List Command
  unbatch (reading r) = reading r ∷ []
  unbatch (client n) = client n ∷ []
  unbatch (batch cs n) = unbatch_all cs

  unbatch_all : Commands → List Command
  unbatch_all nil = []
  unbatch_all (cons c cs) = unbatch c ++ unbatch_all cs

-- The single commands of a list of commands, and of the entries of a log, in order.
unfoldable pub singles : List Command → List Command
unfolding unbatch unbatch_all
singles [] = []
singles (c ∷ cs) = unbatch c ++ singles cs

unfoldable pub carried : List LogEntry → List Command
unfolding unbatch unbatch_all
carried [] = []
carried (e ∷ es) = unbatch e.command ++ carried es

unbatch_all-to_commands : (cs : List Command) → unbatch_all (to_commands cs) ≡ singles cs
unfolding singles to_commands
unbatch_all-to_commands [] = refl
unbatch_all-to_commands (c ∷ cs) =
    ap (λ (l : List Command). unbatch c ++ l) (unbatch_all-to_commands cs)

pub carried-append : (es fs : List LogEntry) → carried (es ++ fs) ≡ carried es ++ carried fs
unfolding carried
carried-append [] fs = refl
carried-append (e ∷ es) fs =
    ap (λ (l : List Command). unbatch e.command ++ l) (carried-append es fs)
    ∙ sym (append_assoc (unbatch e.command) (carried es) (carried fs))

pub singles-append : (cs ds : List Command) → singles (cs ++ ds) ≡ singles cs ++ singles ds
unfolding singles
singles-append [] ds = refl
singles-append (c ∷ cs) ds =
    ap (λ (l : List Command). unbatch c ++ l) (singles-append cs ds)
    ∙ sym (append_assoc (unbatch c) (singles cs) (singles ds))

-- One more entry in the log of the leader.
pub carried-replicate_entry :
    (env : Env) (command : Command) (trigger : TriggerType) (c : Coordinator)
    → carried (replicate_entry env command trigger c).log.entries
      ≡ carried c.log.entries ++ singles (command ∷ [])
unfolding replicate_entry
carried-replicate_entry env command trigger c =
    carried-append c.log.entries (new_entry command trigger c ∷ [])
    ∙ ap (λ (l : List Command). carried c.log.entries ++ l) (unfold carried singles in refl)

pub singles-batch_command : (cs : List Command) → singles (batch_command cs ∷ []) ≡ singles cs
unfolding singles
singles-batch_command cs = append-nil (unbatch_all (to_commands cs)) ∙ unbatch_all-to_commands cs

pub singles-coalesce :
    (c : Command) (cs : List Command) → singles (coalesce (c ∷ cs) ∷ []) ≡ singles (c ∷ cs)
singles-coalesce c [] = refl
singles-coalesce c (d ∷ cs) = singles-batch_command (c ∷ d ∷ cs)

length-replicate_entry :
    (env : Env) (command : Command) (trigger : TriggerType) (c : Coordinator)
    → length (replicate_entry env command trigger c).log.entries ≡ length c.log.entries + 1
unfolding replicate_entry
length-replicate_entry env command trigger c =
    length-append c.log.entries (new_entry command trigger c ∷ [])

-- How many consensus rounds the replay of n triggers takes.
abbrev pub rounds : Protocol → ℕ → ℕ
rounds raft n = 0
rounds echo n = n
rounds echo_d n = min 1 n

-- What a replay of `pending` makes of `c`.
abbrev Replays : List (Command × TriggerType) → ℕ → Coordinator → Coordinator → Type 0
Replays pending n c d =
    (carried d.log.entries ≡ carried c.log.entries ++ singles (commands_of pending))
    × (length d.log.entries ≡ length c.log.entries + n)

replicate_each-Replays :
    (env : Env) (pending : List (Command × TriggerType)) (c : Coordinator)
    → Replays pending (length pending) c (replicate_each env pending c)
unfolding replicate_each
replicate_each-Replays env [] c =
    (unfold singles in sym (append-nil (carried c.log.entries)), omega arith)
replicate_each-Replays env ((command, trigger) ∷ rest) c =
    let d = replicate_entry env command trigger c in
    let after = replicate_each-Replays env rest d in
    (
      after.0
          ∙ ap (λ (l : List Command). l ++ singles (commands_of rest))
              (carried-replicate_entry env command trigger c)
          ∙ append_assoc (carried c.log.entries) (singles (command ∷ []))
              (singles (commands_of rest))
          ∙ ap (λ (l : List Command). carried c.log.entries ++ l)
              (sym (singles-append (command ∷ []) (commands_of rest))),
      omega (arith, after.1, length-replicate_entry env command trigger c),
    )

replay_as_one-Replays :
    (env : Env) (pending : List (Command × TriggerType)) (c : Coordinator)
    → Replays pending (min 1 (length pending)) c (replay_as_one env pending c)
unfolding replay_as_one
replay_as_one-Replays env [] c =
    (unfold singles in sym (append-nil (carried c.log.entries)), omega arith)
replay_as_one-Replays env ((command, trigger) ∷ []) c =
    let d = record c { last_consensus_activity = env.now } in
    (
      carried-replicate_entry env command trigger d,
      omega (arith, length-replicate_entry env command trigger d),
    )
replay_as_one-Replays env ((command, trigger) ∷ next ∷ rest) c =
    let d = record c { last_consensus_activity = env.now } in
    let cs = commands_of ((command, trigger) ∷ next ∷ rest) in
    (
      carried-replicate_entry env (batch_command cs) trigger d
          ∙ ap (λ (l : List Command). carried c.log.entries ++ l) (singles-batch_command cs),
      omega (arith, length-replicate_entry env (batch_command cs) trigger d),
    )

replay_method-Replays :
    (p : Protocol) (env : Env) (pending : List (Command × TriggerType)) (c : Coordinator)
    → p ≢ raft
    → Replays pending (rounds p (length pending)) c (replay_method p env pending c)
replay_method-Replays raft env pending c h = absurd (h refl)
replay_method-Replays echo env pending c h = replicate_each-Replays env pending c
replay_method-Replays echo_d env pending c h = replay_as_one-Replays env pending c

pending-replicate_each :
    (env : Env) (pending : List (Command × TriggerType)) (c : Coordinator)
    → (replicate_each env pending c).pending_triggers ≡ c.pending_triggers
unfolding replicate_each
pending-replicate_each env [] c = refl
pending-replicate_each env ((command, trigger) ∷ rest) c =
    pending-replicate_each env rest (replicate_entry env command trigger c)

pending-replay_method :
    (p : Protocol) (env : Env) (pending : List (Command × TriggerType)) (c : Coordinator)
    → (replay_method p env pending c).pending_triggers ≡ c.pending_triggers
pending-replay_method raft env pending c = refl
pending-replay_method echo env pending c = pending-replicate_each env pending c
pending-replay_method echo_d env [] c = unfold replay_as_one in refl
pending-replay_method echo_d env (x ∷ []) c = unfold replay_as_one in refl
pending-replay_method echo_d env (x ∷ y ∷ rest) c = unfold replay_as_one in refl

-- The replay of the buffered triggers in ECHO and echoD: the commands of the log, with batches
-- taken apart, grow by those of the buffer, none lost, doubled or out of order; ECHO takes an entry
-- for each trigger, and echoD one entry for them all, if there are any; and the buffer is empty.
pub flush_pending_triggers-replays :
    (env : Env) (c : Coordinator)
    → c.protocol ≢ raft
    → let d = flush_pending_triggers env c in
      (carried d.log.entries ≡ carried c.log.entries ++ singles (commands_of c.pending_triggers))
      × (length d.log.entries
          ≡ length c.log.entries + rounds c.protocol (length c.pending_triggers))
      × (d.pending_triggers ≡ [])
unfolding flush_pending_triggers
flush_pending_triggers-replays env c h =
    let d = record c { pending_triggers = [] } in
    let after = replay_method-Replays c.protocol env c.pending_triggers d h in
    (after.0, after.1, pending-replay_method c.protocol env c.pending_triggers d)
