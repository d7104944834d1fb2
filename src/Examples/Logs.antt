-- ===== src/Examples/Logs.antt =====
-- Logs.
use echod.Log
use echod.Prelude.{
  [], arith, drop, false, inr, length, max, min, refl, some, take, true, ◌++◌, ◌+◌, ◌<◌, ◌∷◌, ◌≡◌,
  ◌≤◌, ◌⊎◌,
}
use echod.Examples.Data.{appends_two, changes, env, leading, log, node, peers}
use echod.Log.{commit}
use echod.Log.Commits.{IsWithin, change, change_all, change_all-delivers, committed}
use echod.Messages.{local_leader}
use echod.Node.{coordinators_except, echo_d, sendable}
use echod.Provisional.{handle_append_entries}
use echod.Provisional.Follower.{
  handle_append_entries-accepts, handle_append_entries-refuses, handle_append_entries-stale,
  handle_append_entries-stale_epoch, response_of,
}
use echod.Replication.{store_entries, try_advance_commit}
use echod.Replication.Commit.{IsReplicated, try_advance_commit-highest}
use echod.Replication.Merge.{merge, store_entries-take-merge}
use echod.Triggers.{commands_of, flush_pending_triggers}
use echod.Triggers.Carried.{carried, flush_pending_triggers-replays, rounds, singles}

handle_append_entries-accepts_example :
    let d = handle_append_entries env "c1" appends_two node in
    (d.log.entries ≡ take 2 log.entries ++ merge appends_two.entries (drop 2 log.entries))
    × (d.log.commit_index ≡ max 1 (min 3 (length d.log.entries)))
    × (d.current_term ≡ 3)
    × (d.current_leader_id ≡ some "c1")
    × (d.outbox
        ≡ [] ++ sendable env.cluster (response_of true (length d.log.entries) "c1" node 3 ∷ []))
handle_append_entries-accepts_example =
    handle_append_entries-accepts env "c1" appends_two node (omega arith)
      (omega arith, inr (unfold Log.term_at in refl)) (refl, (refl, tt))

handle_append_entries-refuses_example :
    let rpc = record appends_two { prev_log_term = 2 } in
    let d = handle_append_entries env "c1" rpc node in
    (d.log ≡ log)
    × (d.current_term ≡ 3)
    × (d.current_leader_id ≡ some "c1")
    × (d.outbox ≡ [] ++ sendable env.cluster (response_of false 0 "c1" node 3 ∷ []))
handle_append_entries-refuses_example =
    handle_append_entries-refuses env "c1" (record appends_two { prev_log_term = 2 }) node
      (omega arith) (omega arith) (unfold Log.term_at in λ e. omega (arith, e))

handle_append_entries-stale_example :
    handle_append_entries env "c1" (record appends_two { term = 1 }) node
    ≡ record node { outbox = [] ++ sendable env.cluster (response_of false 0 "c1" node 2 ∷ []) }
handle_append_entries-stale_example =
    handle_append_entries-stale env "c1" (record appends_two { term = 1 }) node (omega arith) refl

handle_append_entries-stale_epoch_example :
    let d =
      handle_append_entries env "c1"
        (record appends_two { term = 1; partition_epoch = 1 })
        leading in
    (d.state ≡ local_leader)
    × (d.partition_epoch ≡ 1)
    × (d.current_term ≡ 2)
    × (d.log ≡ log)
    × (d.outbox ≡ [] ++ sendable env.cluster (response_of false 0 "c1" leading 2 ∷ []))
handle_append_entries-stale_epoch_example =
    handle_append_entries-stale_epoch env "c1"
      (record appends_two { term = 1; partition_epoch = 1 }) leading (omega arith) (omega arith)
      (λ e. ground arith) refl refl

try_advance_commit-highest_example :
    let cids = coordinators_except "c0" peers in
    let l = (try_advance_commit env leading).log in
    (l.entries ≡ log.entries)
    × ((l.commit_index ≡ 1) ⊎ ((1 < l.commit_index) × IsReplicated cids leading l.commit_index))
    × ((3 ≤ l.commit_index) ⊎ (Log.last_index log < 3) ⊎ (¬ IsReplicated cids leading 3))
try_advance_commit-highest_example = try_advance_commit-highest env peers leading 3 refl

store_entries-take-merge_example :
    (store_entries appends_two.entries log).entries
    ≡ take 2 log.entries ++ merge appends_two.entries (drop 2 log.entries)
store_entries-take-merge_example =
    store_entries-take-merge appends_two.entries 2 log (omega arith) (refl, (refl, tt))

change_all-delivers_example :
    (committed (change_all changes log).0 ≡ committed log ++ (change_all changes log).1)
    × IsWithin (change_all changes log).0
unfolding change commit Log.truncate_from Log.append
change_all-delivers_example = change_all-delivers changes log (inr (omega arith), tt) (omega arith)

flush_pending_triggers-replays_example :
    let d = flush_pending_triggers env leading in
    (carried d.log.entries ≡ carried log.entries ++ singles (commands_of node.pending_triggers))
    × (length d.log.entries ≡ 3 + rounds echo_d 2)
    × (d.pending_triggers ≡ [])
flush_pending_triggers-replays_example =
    flush_pending_triggers-replays env leading (λ e. ground arith)
