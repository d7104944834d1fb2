-- ===== src/Machine/Invariant.antt =====
-- What holds of a coordinator after any calls.
use echod.Log
use echod.Prelude.{List, String, [], arith, ℕ, ◌++◌, ◌∷◌}
use echod.Dispatch.{handle_message, on_idle}
use echod.Dispatch.Invariant.{IsSound, idle-IsSound, payload-IsSound}
use echod.Log.Commits.{change}
use echod.Machine.{
  Event, drains, heals, idles, partitions, proposes, react, react_as, receives, reconciles,
  replicate, replicates, run,
}
use echod.Messages.{LogEntry, NodeId, TriggerType}
use echod.Node.{Coordinator, Env, Protocol, raft, tick_battery}
use echod.Provisional.{
  adopt_log, enter_provisional_mode, exit_provisional_mode, provisional, reconcile,
}
use echod.Timers.{create}
use echod.Triggers.{trigger_consensus}
use echod.Triggers.Frame.{flush_pending_triggers-OnlyLogChanges, replicate_entry-OnlyLogChanges}

pub create-IsSound :
    (crc32 : String → ℕ) (env : Env) (p : Protocol) (i : NodeId) (battery : ℕ)
    → IsSound (create crc32 env p i battery)
unfolding create
create-IsSound crc32 env p i battery = ground arith

reconcile-IsSound :
    (env : Env) (entries : List LogEntry) (other_commit : ℕ) (c : Coordinator)
    → IsSound c
    → IsSound (reconcile env entries other_commit c)
unfolding reconcile
reconcile-IsSound env entries other_commit c h =
    let d = exit_provisional_mode (record c { log = adopt_log entries other_commit c.log }) in
    ground (
      arith,
      flush_pending_triggers-OnlyLogChanges env (record d {
        pending_triggers = d.pending_triggers ++ provisional (Log.entries_from c.log 1);
      }),
    )

method-IsSound :
    (p : Protocol) (env : Env) (event : Event) (c : Coordinator)
    → IsSound c
    → IsSound (react_as p env event c)
unfolding react_as handle_message on_idle
method-IsSound p env (receives msg) c h = payload-IsSound env msg.sender_id msg.payload c h
method-IsSound p env idles c h = idle-IsSound env c.protocol c h
method-IsSound p env (drains change) c h = unfold tick_battery in ground arith
method-IsSound raft env (replicates command) c h =
    unfold replicate in
    ground (arith, replicate_entry-OnlyLogChanges env command TriggerType.liveness c)
method-IsSound p env (replicates command) c h = h
method-IsSound raft env event c h = h
method-IsSound p env (proposes command trigger) c h =
    unfold trigger_consensus in ground (arith, replicate_entry-OnlyLogChanges env command trigger c)
method-IsSound p env partitions c h = unfold enter_provisional_mode in ground arith
method-IsSound p env heals c h = unfold exit_provisional_mode in ground arith
method-IsSound p env (reconciles entries other_commit) c h =
    reconcile-IsSound env entries other_commit c h

pub react-IsSound :
    (env : Env) (event : Event) (c : Coordinator) → IsSound c → IsSound (react env event c)
unfolding react
react-IsSound env event c h = method-IsSound c.protocol env event c h

run-IsSound : (es : List (Env × Event)) (c : Coordinator) → IsSound c → IsSound (run es c)
unfolding run react
run-IsSound [] c h = h
run-IsSound ((env, event) ∷ rest) c h =
    run-IsSound rest (react env event c) (method-IsSound c.protocol env event c h)

-- A coordinator of any class, after any calls from its creation on, battery changes included: the
-- voters that it has counted are distinct; while it is a candidate, a leader or a local leader its
-- vote is its own; its ping interval is between 50 and 250 ms; readings wait in the batch buffer
-- exactly while a batch deadline is set, and there are fewer than `MAX_BATCH_SIZE` of them.
pub run-create-IsSound :
    (crc32 : String → ℕ) (env : Env) (p : Protocol) (i : NodeId) (battery : ℕ)
    (es : List (Env × Event))
    → IsSound (run es (create crc32 env p i battery))
run-create-IsSound crc32 env p i battery es =
    run-IsSound es (create crc32 env p i battery) (create-IsSound crc32 env p i battery)
