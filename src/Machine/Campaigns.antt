-- ===== src/Machine/Campaigns.antt =====
-- Every call of a coordinator without battery changes is such a turn.
use echod.Log
use echod.Prelude.{Bool-cases, List, [], arith, inl, inr, refl, true, ℕ, ◌++◌, ◌∷◌, ◌≡◌}
use echod.Dispatch.{handle_message, on_idle}
use echod.Dispatch.Campaigns.{Steady, Steady-Stands, idle-Stands}
use echod.Dispatch.Ticks.{idle-silent}
use echod.Election.Silence.{flush_pending_triggers-silent, replicate_entry-silent, same, speechless}
use echod.Election.Speech.{SameSpeech, SameSpeech-trans}
use echod.Log.Commits.{change}
use echod.Machine.{
  Event, drains, heals, idles, is_calm, partitions, proposes, react, react_as, receives, reconciles,
  replicate, replicates,
}
use echod.Machine.Turns.{Turn, payload-Turn, quiet-Turn, same-Stands}
use echod.Messages.{Command, LogEntry, TriggerType, is_leading}
use echod.Node.{Coordinator, Env, Protocol, raft}
use echod.Provisional.{
  adopt_log, enter_provisional_mode, exit_provisional_mode, provisional, reconcile,
}
use echod.Replication.{replicate_entry}
use echod.Triggers.{flush_pending_triggers, trigger_consensus}
use echod.Triggers.Frame.{flush_pending_triggers-OnlyLogChanges, replicate_entry-OnlyLogChanges}

-- An object whose node, state, term, voters and sent messages are the same.
Steady-Turn :
    (env : Env) (event : Event) (c d : Coordinator)
    → SameSpeech c d
    → Steady c d
    → Turn env event c d
Steady-Turn env event c d s h = quiet-Turn env event c d s (Steady-Stands c d h)

replicate-Steady :
    (env : Env) (command : Command) (trigger : TriggerType) (c : Coordinator)
    → Steady c (replicate_entry env command trigger c)
replicate-Steady env command trigger c =
    let f = replicate_entry-OnlyLogChanges env command trigger c in
    record {
      node_id = f.node_id;
      state = f.state;
      current_term = f.current_term;
      votes_received = f.votes_received;
    }

trigger-Turn :
    (env : Env) (command : Command) (trigger : TriggerType) (event : Event) (c : Coordinator)
    → Turn env event c (trigger_consensus env command trigger c).0
unfolding trigger_consensus
trigger-Turn env command trigger event c =
    let d = record c { pending_triggers = c.pending_triggers ++ (command, trigger) ∷ [] } in
    elim (Bool-cases (is_leading c.state)) [
      | inl leads ↦ rw leads (
          Steady-Turn env event c (replicate_entry env command trigger c)
            (replicate_entry-silent env command trigger c) (replicate-Steady env command trigger c))
      | inr waits ↦ rw waits (
          quiet-Turn env event c d (speechless c d refl refl) (
            Steady-Stands c d (record {
              node_id = refl;
              state = refl;
              current_term = refl;
              votes_received = refl;
            })))
    ]

reconcile-Turn :
    (env : Env) (entries : List LogEntry) (other_commit : ℕ) (event : Event) (c : Coordinator)
    → Turn env event c (reconcile env entries other_commit c)
unfolding reconcile
reconcile-Turn env entries other_commit event c =
    let d = exit_provisional_mode (record c { log = adopt_log entries other_commit c.log }) in
    let e = record d {
      pending_triggers = d.pending_triggers ++ provisional (Log.entries_from c.log 1);
    } in
    let silent =
      SameSpeech-trans (speechless c e refl refl) (flush_pending_triggers-silent env e) in
    quiet-Turn env event c (flush_pending_triggers env e) silent
      (ground (arith, flush_pending_triggers-OnlyLogChanges env e))

method-Turn :
    (p : Protocol) (env : Env) (event : Event) (c : Coordinator)
    → is_calm event ≡ true
    → Turn env event c (react_as p env event c)
unfolding react_as handle_message on_idle
method-Turn p env (receives msg) c h = payload-Turn env msg.sender_id msg.recipient_id msg.payload c
method-Turn p env idles c h =
    quiet-Turn env idles c _ (idle-silent env c.protocol c) (idle-Stands env c.protocol c)
method-Turn p env (drains change) c h = cc
method-Turn raft env (replicates command) c h =
    unfold replicate in
    Steady-Turn env (replicates command) c _
      (replicate_entry-silent env command TriggerType.liveness c)
      (replicate-Steady env command TriggerType.liveness c)
method-Turn p env (replicates command) c h =
    quiet-Turn env (replicates command) c c (same c) (same-Stands c)
method-Turn raft env event c h = quiet-Turn env event c c (same c) (same-Stands c)
method-Turn p env (proposes command trigger) c h =
    trigger-Turn env command trigger (proposes command trigger) c
method-Turn p env partitions c h =
    unfold enter_provisional_mode in
    quiet-Turn env partitions c _ (speechless c _ refl refl) (ground arith)
method-Turn p env heals c h =
    unfold exit_provisional_mode in
    quiet-Turn env heals c _ (speechless c _ refl refl) (ground arith)
method-Turn p env (reconciles entries other_commit) c h =
    reconcile-Turn env entries other_commit (reconciles entries other_commit) c

pub react-Turn :
    (env : Env) (event : Event) (c : Coordinator)
    → is_calm event ≡ true
    → Turn env event c (react env event c)
unfolding react
react-Turn env event c h = method-Turn c.protocol env event c h
