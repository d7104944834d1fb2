-- ===== src/Provisional/Follower.antt =====
-- `handle_append_entries` on each of its branches.
use echod.Log
use echod.Prelude.{
  Bool, List, [], ap, arith, drop, false, length, max, min, refl, some, take, true, ℕ, ◌++◌, ◌<◌,
  ◌∙◌, ◌∷◌, ◌≡◌, ◌≢◌, ◌≤◌, ◌⊎◌,
}
use echod.Log.{ReplicatedLog}
use echod.Messages.{AppendEntriesRpc, LogEntry, Message, NodeId, Payload, leader, local_leader}
use echod.Node.{Coordinator, Env, percent, raft, sendable}
use echod.Provisional.{handle_append_entries}
use echod.Replication.{follow_commit, is_consistent, store_entries, store_entry}
use echod.Replication.Merge.{IsNumbered, merge, store_entries-take-merge}

follow_commit_lem :
    (lc : ℕ) (log : ReplicatedLog)
    → ((follow_commit lc log).entries ≡ log.entries)
      × ((follow_commit lc log).commit_index ≡ max log.commit_index (min lc (length log.entries)))
unfolding follow_commit
follow_commit_lem lc log = ground arith

commit_index-store_entry :
    (e : LogEntry) (log : ReplicatedLog) → (store_entry e log).commit_index ≡ log.commit_index
unfolding store_entry Log.append Log.truncate_from
commit_index-store_entry e log = ground arith

commit_index-store_entries :
    (es : List LogEntry) (log : ReplicatedLog)
    → (store_entries es log).commit_index ≡ log.commit_index
unfolding store_entries
commit_index-store_entries [] log = refl
commit_index-store_entries (e ∷ es) log =
    commit_index-store_entries es (store_entry e log) ∙ commit_index-store_entry e log

-- A request is accepted in a node whose log reaches `prev_log_index` and, unless that is 0, has
-- there the request's `prev_log_term`.
abbrev pub Matches : AppendEntriesRpc → ReplicatedLog → Type 0
Matches rpc log =
    (rpc.prev_log_index ≤ length log.entries)
    × ((rpc.prev_log_index ≡ 0) ⊎ (Log.term_at log rpc.prev_log_index ≡ rpc.prev_log_term))

abbrev pub response_of : Bool → ℕ → NodeId → Coordinator → ℕ → Message
response_of success match_index sender c term = record {
  sender_id = c.node_id;
  recipient_id = sender;
  payload = Payload.append_entries_response (record {
    term = term;
    success = success;
    responder_id = c.node_id;
    match_index = match_index;
    responder_battery = percent c.battery;
  });
}

module _ (env : Env) (sender : NodeId) (rpc : AppendEntriesRpc) (c : Coordinator) where
  accepted_log : ReplicatedLog
  accepted_log = follow_commit rpc.leader_commit (store_entries rpc.entries c.log)

  log-handle_append_entries :
      c.current_term ≤ rpc.term
      → is_consistent rpc c.log ≡ true
      → let d = handle_append_entries env sender rpc c in
        (d.log ≡ accepted_log)
        × (d.current_term ≡ rpc.term)
        × (d.current_leader_id ≡ some rpc.leader_id)
        × (d.outbox
            ≡ c.outbox
              ++ sendable env.cluster
                  (response_of true (length accepted_log.entries) sender c rpc.term ∷ []))
  unfolding handle_append_entries accepted_log
  log-handle_append_entries h k = ground arith

  -- A request of the node's term or a later one whose entries are numbered from `prev_log_index`
  -- on and that matches the log: the log keeps its first `prev_log_index` entries and then holds
  -- the merge of the request's entries with its own; the commit index becomes the leader's, but
  -- for the end of the log, and never goes back; the node is in the request's term and knows the
  -- leader; and it answers with success and its own last index as the match index.
  pub handle_append_entries-accepts :
      c.current_term ≤ rpc.term
      → Matches rpc c.log
      → IsNumbered rpc.prev_log_index rpc.entries
      → let d = handle_append_entries env sender rpc c in
        (d.log.entries
          ≡ take rpc.prev_log_index c.log.entries
            ++ merge rpc.entries (drop rpc.prev_log_index c.log.entries))
        × (d.log.commit_index
            ≡ max c.log.commit_index (min rpc.leader_commit (length d.log.entries)))
        × (d.current_term ≡ rpc.term)
        × (d.current_leader_id ≡ some rpc.leader_id)
        × (d.outbox
            ≡ c.outbox
              ++ sendable env.cluster
                  (response_of true (length d.log.entries) sender c rpc.term ∷ []))
  unfolding accepted_log
  handle_append_entries-accepts h m n =
      let consistent : is_consistent rpc c.log ≡ true = unfold is_consistent in ground arith in
      let done = log-handle_append_entries h consistent in
      let followed = follow_commit_lem rpc.leader_commit (store_entries rpc.entries c.log) in
      (
        ap ReplicatedLog.entries done.0
            ∙ followed.0
            ∙ store_entries-take-merge rpc.entries rpc.prev_log_index c.log m.0 n,
        rw (done.0) (
            omega (
              arith,
              followed.1,
              ap length followed.0,
              commit_index-store_entries rpc.entries c.log,
            )),
        done.1,
        done.2,
        rw (done.0) (done.3),
      )

  -- A request of an earlier term, outside provisional mode, changes nothing in the node but its
  -- outbox, to which a refusal in the node's own term is added.
  pub handle_append_entries-stale :
      rpc.term < c.current_term
      → rpc.partition_epoch ≡ 0
      → handle_append_entries env sender rpc c ≡ record c {
        outbox =
            c.outbox ++ sendable env.cluster (response_of false 0 sender c c.current_term ∷ []);
      }
  unfolding handle_append_entries
  handle_append_entries-stale h k = ground arith

  -- A request of the node's term or later that fails the consistency check leaves the log alone and
  -- is refused in its own term, and still makes its sender the known leader.
  pub handle_append_entries-refuses :
      c.current_term ≤ rpc.term
      → 0 < rpc.prev_log_index
      → Log.term_at c.log rpc.prev_log_index ≢ rpc.prev_log_term
      → let d = handle_append_entries env sender rpc c in
        (d.log ≡ c.log)
        × (d.current_term ≡ rpc.term)
        × (d.current_leader_id ≡ some rpc.leader_id)
        × (d.outbox ≡ c.outbox ++ sendable env.cluster (response_of false 0 sender c rpc.term ∷ []))
  unfolding handle_append_entries is_consistent
  handle_append_entries-refuses h k m = ground arith

  -- A request of an earlier term with a partition epoch is refused in the node's own term and leaves
  -- its log alone, and still puts a leader of ECHO or echoD that is in no partition into provisional
  -- mode.
  pub handle_append_entries-stale_epoch :
      rpc.term < c.current_term
      → 0 < rpc.partition_epoch
      → c.protocol ≢ raft
      → c.partition_epoch ≡ 0
      → c.state ≡ leader
      → let d = handle_append_entries env sender rpc c in
        (d.state ≡ local_leader)
        × (d.partition_epoch ≡ 1)
        × (d.current_term ≡ c.current_term)
        × (d.log ≡ c.log)
        × (d.outbox
            ≡ c.outbox ++ sendable env.cluster (response_of false 0 sender c c.current_term ∷ []))
  unfolding handle_append_entries
  handle_append_entries-stale_epoch h k p q l = ground arith
