-- ===== src/Replication.antt =====
-- Log replication: the AppendEntries methods of `CoordinatorNode` in simulation/core/coordinator.py.
pub mod Merge
pub mod Commit
use echod.Log
-- What `_send_append_entries` sends to a peer. An entry of `next_index` is never 0.
use echod.Prelude.{
  Bool, List, Option, [], eqb, false, if◌then◌else◌, leb, length, ltb, max, min, none, not, some,
  suc, true, zero, ℕ, ◌&&◌, ◌+◌, ◌-◌, ◌/◌, ◌∷◌,
}
use echod.Log.{ReplicatedLog}
use echod.Messages.{
  AppendEntriesResponse, AppendEntriesRpc, Command, LogEntry, Message, NodeId, NodeState, Payload,
  TriggerType, append_entries_response, candidate, delta, follower, is_leader,
}
use echod.Node.{Coordinator, Env, Peer, coordinators_except, percent, post, send, step_down}
use echod.Prelude.Dict.{Dict, get_or, keys, put}
use echod.Timers.{reset_election_timer}

unfoldable pub append_rpc : Coordinator → NodeId → AppendEntriesRpc
append_rpc c peer_id =
    let prev_idx = get_or peer_id 1 c.next_index - 1 in
    record {
      term = c.current_term;
      leader_id = c.node_id;
      prev_log_index = prev_idx;
      prev_log_term = Log.term_at c.log prev_idx;
      entries = Log.entries_from c.log (prev_idx + 1);
      leader_commit = c.log.commit_index;
      trigger_type = delta;
      partition_epoch = c.partition_epoch;
    }

unfoldable pub append_messages : Coordinator → List NodeId → List Message
append_messages c [] = []
append_messages c (peer ∷ peers) =
    record {
      sender_id = c.node_id;
      recipient_id = peer;
      payload = Payload.append_entries (append_rpc c peer);
    }
    ∷ append_messages c peers

unfoldable pub new_entry : Command → TriggerType → Coordinator → LogEntry
new_entry command trigger c = record {
  index = Log.last_index c.log + 1;
  term = c.current_term;
  command = command;
  trigger_type = trigger;
  partition_epoch = c.partition_epoch;
}

-- The object after the call; the entry that it returns is `new_entry`.
unfoldable pub replicate_entry : Env → Command → TriggerType → Coordinator → Coordinator
unfolding new_entry post Log.append
replicate_entry env command trigger c =
    let d = record c { log = Log.append (new_entry command trigger c) c.log } in
    post env (append_messages d (keys c.next_index)) d

unfoldable pub append_response : Bool → ℕ → Coordinator → Payload
append_response success match_index c = append_entries_response (record {
  term = c.current_term;
  success = success;
  responder_id = c.node_id;
  match_index = match_index;
  responder_battery = percent c.battery;
})

-- existing is not None and existing.term != entry.term
abbrev pub conflicts : Option LogEntry → LogEntry → Bool
conflicts none entry = false
conflicts (some existing) entry = not (eqb existing.term entry.term)

-- One round of the loop over the entries of the request.
unfoldable pub store_entry : LogEntry → ReplicatedLog → ReplicatedLog
store_entry entry log =
    let kept =
      (if conflicts (Log.get log entry.index) entry
        then Log.truncate_from entry.index log
        else log) in
    if ltb (Log.last_index kept) entry.index then Log.append entry kept else kept

unfoldable pub store_entries : List LogEntry → ReplicatedLog → ReplicatedLog
store_entries [] log = log
store_entries (e ∷ es) log = store_entries es (store_entry e log)

unfoldable pub follow_commit : ℕ → ReplicatedLog → ReplicatedLog
unfolding Log.commit
follow_commit leader_commit log =
    if ltb log.commit_index leader_commit
    then (Log.commit (min leader_commit (Log.last_index log)) log).0
    else log

-- The log consistency check.
unfoldable pub is_consistent : AppendEntriesRpc → ReplicatedLog → Bool
unfolding Log.term_at
is_consistent rpc log =
    if ltb 0 rpc.prev_log_index
    then eqb (Log.term_at log rpc.prev_log_index) rpc.prev_log_term
    else true

abbrev pub to_follower : NodeState → NodeState
to_follower candidate = follower
to_follower s = s

-- the part of `handle_append_entries` below its test of the term
unfoldable pub follow_leader : Env → NodeId → AppendEntriesRpc → Coordinator → Coordinator
unfolding reset_election_timer send append_response
follow_leader env sender rpc c =
    let d = record (reset_election_timer env c) {
      current_leader_id = some rpc.leader_id;
      state = to_follower c.state;
    } in
    if is_consistent rpc d.log
    then (let log = follow_commit rpc.leader_commit (store_entries rpc.entries d.log) in
        send env sender (append_response true (Log.last_index log) d) (record d { log = log }))
    else send env sender (append_response false 0 d) d

abbrev pub adopt_term : ℕ → Coordinator → Coordinator
adopt_term term c = if ltb c.current_term term then step_down term c else c

-- CoordinatorNode.handle_append_entries
unfoldable pub base_handle_append_entries :
    Env → NodeId → AppendEntriesRpc → Coordinator → Coordinator
unfolding follow_leader step_down
base_handle_append_entries env sender rpc c =
    let d = adopt_term rpc.term c in
    if ltb rpc.term d.current_term
    then send env sender (append_response false 0 d) d
    else follow_leader env sender rpc d

-- `repl_count`: the node itself and the peers whose match index is at least n
unfoldable pub repl_count : List NodeId → Dict ℕ → ℕ → ℕ
repl_count [] match_index n = 1
repl_count (cid ∷ cids) match_index n =
    let rest = repl_count cids match_index n in
    if leb n (get_or cid 0 match_index) then rest + 1 else rest

abbrev pub has_term : ℕ → Option LogEntry → Bool
has_term term none = false
has_term term (some e) = eqb e.term term

-- the test of the loop at n
unfoldable pub is_committable : List NodeId → Coordinator → ℕ → Bool
unfolding Log.get
is_committable cids c n =
    has_term c.current_term (Log.get c.log n)
    && ltb ((length cids + 1) / 2) (repl_count cids c.match_index n)

-- for n in range(n, commit_index, -1)
unfoldable pub advance_from : List NodeId → Coordinator → ℕ → ReplicatedLog
advance_from cids c zero = c.log
advance_from cids c (suc n) =
    let rest = advance_from cids c n in
    if leb (suc n) c.log.commit_index
    then c.log
    else if is_committable cids c (suc n)
    then (Log.commit (suc n) c.log).0
    else rest

abbrev pub advance_in : Option (List Peer) → Coordinator → ReplicatedLog
advance_in none c = c.log
advance_in (some ps) c = advance_from (coordinators_except c.node_id ps) c (Log.last_index c.log)

unfoldable pub try_advance_commit : Env → Coordinator → Coordinator
try_advance_commit env c = record c { log = advance_in env.cluster c }

-- `if resp.responder_battery: self._peer_batteries[sender] = ...`
abbrev pub note_battery : NodeId → ℕ → Dict ℕ → Dict ℕ
note_battery sender level batteries = if eqb level 0 then batteries else put sender level batteries

unfoldable pub handle_append_entries_response :
    Env → NodeId → AppendEntriesResponse → Coordinator → Coordinator
unfolding step_down
handle_append_entries_response env sender resp c =
    if ltb c.current_term resp.term
    then step_down resp.term c
    else (let d = record c {
      peer_batteries = note_battery sender resp.responder_battery c.peer_batteries;
    } in
        if is_leader d.state
        then (if resp.success
            then try_advance_commit env (record d {
              next_index = put sender (resp.match_index + 1) d.next_index;
              match_index = put sender resp.match_index d.match_index;
            })
            else record d {
              next_index = put sender (max 1 (get_or sender 1 d.next_index - 1)) d.next_index;
            })
        else d)
