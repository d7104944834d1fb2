-- ===== src/Provisional/Reconcile.antt =====
-- What reconciliation makes of a log.
use echod.Log
use echod.Prelude.{
  Bool, Bool-cases, List, [], ap, arith, false, if◌then◌else◌, inl, inr, length, ltb, map, min,
  refl, suc, take, true, zero, ℕ, ◌++◌, ◌+◌, ◌-◌, ◌∙◌, ◌∷◌, ◌≡◌, ◌≢◌,
}
use echod.Log.{ReplicatedLog}
use echod.Messages.{Command, LogEntry, TriggerType}
use echod.Node.{Coordinator, Env, raft}
use echod.Pi.{others}
use echod.Provisional.{adopt_log, demote_locally, exit_provisional_mode, provisional, reconcile}
use echod.Triggers.{commands_of}
use echod.Triggers.Carried.{carried, flush_pending_triggers-replays, singles}
use echod.Triggers.Frame.{flush_pending_triggers-OnlyLogChanges}

adopt_log_lem :
    (others : List LogEntry) (other_commit : ℕ) (log : ReplicatedLog)
    → let behind = ltb log.commit_index other_commit in
      ((adopt_log others other_commit log).entries
        ≡ (if behind then take log.commit_index log.entries ++ others else log.entries))
      × ((adopt_log others other_commit log).commit_index ≡ (
          if behind
          then min other_commit (length (take log.commit_index log.entries ++ others))
          else log.commit_index))
unfolding adopt_log
adopt_log_lem others other_commit log =
    let e : log.commit_index + 1 - 1 ≡ log.commit_index = omega arith in
    elim (Bool-cases (ltb log.commit_index other_commit)) [
      | inl behind ↦ rw behind (rw e (ground arith, ground arith))
      | inr ahead ↦ rw ahead (refl, refl)
    ]

-- The entries of a partition epoch above 0, by the constructors of their epochs.
abbrev pub in_partition : LogEntry → Bool
in_partition e = elim (e.partition_epoch) [ zero ↦ false | suc n ↦ true ]

unfoldable pub filter {ℓ} : {A : Type ℓ} → (A → Bool) → List A → List A
filter p [] = []
filter p (x ∷ xs) = let rest = filter p xs in if p x then x ∷ rest else rest

-- The commands that the losing side proposes again: those buffered before, and those of all its
-- entries of a partition epoch above 0.
abbrev pub replayed : Coordinator → List Command
replayed c =
    commands_of c.pending_triggers ++ map LogEntry.command (filter in_partition c.log.entries)

commands_of-provisional :
    (es : List LogEntry)
    → commands_of (provisional es) ≡ map LogEntry.command (filter in_partition es)
unfolding provisional filter
commands_of-provisional [] = refl
commands_of-provisional (e ∷ es) = ground (arith, commands_of-provisional es)

commands_of-append :
    (xs ys : List (Command × TriggerType))
    → commands_of (xs ++ ys) ≡ commands_of xs ++ commands_of ys
commands_of-append [] ys = refl
commands_of-append ((c, t) ∷ xs) ys = ap (λ (l : List Command). c ∷ l) (commands_of-append xs ys)

replayed-lem :
    (c : Coordinator) → commands_of (c.pending_triggers ++ provisional c.log.entries) ≡ replayed c
replayed-lem c =
    commands_of-append c.pending_triggers (provisional c.log.entries)
    ∙ ap (λ (l : List Command). commands_of c.pending_triggers ++ l)
        (commands_of-provisional c.log.entries)

-- Reconciliation in ECHO and echoD with a log that has more committed: what the node had committed
-- stays, the other side's entries follow, and then, in order, the commands that it had buffered and
-- those of its provisional entries, each once. If the other side has no more committed the node
-- keeps its log, and the same commands are added to it, so those of its provisional entries twice.
-- Either way the node has left provisional mode and has nothing buffered.
pub reconcile-replays :
    (env : Env) (others : List LogEntry) (other_commit : ℕ) (c : Coordinator)
    → c.protocol ≢ raft
    → let d = reconcile env others other_commit c in
      (carried d.log.entries
        ≡ carried (
            if ltb c.log.commit_index other_commit
            then take c.log.commit_index c.log.entries ++ others
            else c.log.entries)
          ++ singles (replayed c))
      × (d.pending_triggers ≡ [])
      × (d.partition_epoch ≡ 0)
      × (d.state ≡ demote_locally c.state)
unfolding reconcile Log.entries_from
reconcile-replays env others other_commit c h =
    let adopted = adopt_log others other_commit c.log in
    let left = exit_provisional_mode (record c { log = adopted }) in
    let ready = record left {
      pending_triggers = left.pending_triggers ++ provisional c.log.entries;
    } in
    let done = flush_pending_triggers-replays env ready h in
    let frame = flush_pending_triggers-OnlyLogChanges env ready in
    (
      done.0
          ∙ ap (λ (cs : List Command). carried adopted.entries ++ singles cs) (replayed-lem c)
          ∙ ap (λ (l : List LogEntry). carried l ++ singles (replayed c))
              (adopt_log_lem others other_commit c.log).0,
      done.2,
      frame.partition_epoch,
      frame.state,
    )
