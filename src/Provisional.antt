-- ===== src/Provisional.antt =====
-- Provisional consensus under a partition, and reconciliation: simulation/protocols/echo.py.
pub mod Follower
pub mod Reconcile
use echod.Log
use echod.Prelude.{List, [], eqb, if◌then◌else◌, ltb, none, some, ℕ, ◌&&◌, ◌++◌, ◌+◌, ◌∷◌}
use echod.Log.{ReplicatedLog}
use echod.Messages.{
  AppendEntriesRpc, Command, LogEntry, NodeId, NodeState, TriggerType, follower, leader,
  local_leader,
}
use echod.Node.{Coordinator, Env, Protocol, raft}
use echod.Replication.{base_handle_append_entries}
use echod.Triggers.{flush_pending_triggers}

abbrev pub promote_locally : NodeState → NodeState
promote_locally leader = local_leader
promote_locally s = s

unfoldable pub enter_provisional_mode : Env → Coordinator → Coordinator
enter_provisional_mode env c = record c {
  partition_epoch = c.partition_epoch + 1;
  state = promote_locally c.state;
  partition_detect_time = some env.now;
}

abbrev pub demote_locally : NodeState → NodeState
demote_locally local_leader = follower
demote_locally s = s

unfoldable pub exit_provisional_mode : Coordinator → Coordinator
exit_provisional_mode c = record c {
  state = demote_locally c.state;
  partition_epoch = 0;
  partition_detect_time = none;
}

-- The (command, trigger) pairs of the entries with partition_epoch > 0.
unfoldable pub provisional : List LogEntry → List (Command × TriggerType)
provisional [] = []
provisional (e ∷ es) =
    if ltb 0 e.partition_epoch then (e.command, e.trigger_type) ∷ provisional es else provisional es

-- what the losing side's log becomes
unfoldable pub adopt_log : List LogEntry → ℕ → ReplicatedLog → ReplicatedLog
unfolding Log.truncate_from Log.append_entries Log.commit
adopt_log other_entries other_commit log =
    if ltb log.commit_index other_commit
    then (Log.commit other_commit
        (Log.append_entries other_entries (Log.truncate_from (log.commit_index + 1) log))).0
    else log

-- `self.log.append` of one entry after the other is `append_entries` of them all.
unfoldable pub reconcile : Env → List LogEntry → ℕ → Coordinator → Coordinator
unfolding adopt_log exit_provisional_mode provisional
reconcile env other_entries other_commit c =
    let d = exit_provisional_mode (record c { log = adopt_log other_entries other_commit c.log }) in
    flush_pending_triggers env
      (record d { pending_triggers = d.pending_triggers ++ provisional (Log.entries_from c.log 1) })

-- EchoCoordinator.handle_append_entries; a RaftNode has the base class's.
abbrev pub track_epoch : Protocol → Env → ℕ → Coordinator → Coordinator
track_epoch raft env epoch c = c
track_epoch _ env epoch c =
    if ltb 0 epoch && eqb c.partition_epoch 0 then enter_provisional_mode env c else c

unfoldable pub handle_append_entries : Env → NodeId → AppendEntriesRpc → Coordinator → Coordinator
unfolding base_handle_append_entries enter_provisional_mode
handle_append_entries env sender rpc c =
    track_epoch c.protocol env rpc.partition_epoch (base_handle_append_entries env sender rpc c)
