-- ===== src/Pi/Rounds.antt =====
-- Consensus rounds of the hardware coordinator, rpi/coordinator/echo_node.py: the dictionaries of
-- entries, AppendEntries requests, the replay of buffered triggers, batches, and the commit of
-- entries with its latencies.
use echod.Prelude.{
  Bool, List, Option, String, [], drop, eqb, get_elem?, if◌then◌else◌, leb, length, ltb, map, none,
  some, suc, zero, ℕ, ◌&&◌, ◌++◌, ◌+◌, ◌-◌, ◌/◌, ◌∷◌,
}
use echod.Messages.{Command, NodeId, to_commands}
use echod.Node.{Protocol, echo_d}
use echod.Pi.{PiCoordinator, PiEnv, pi_send}
use echod.Prelude.Dict.{Dict, get_or}
use echod.Triggers.{batch_command, coalesce}
use echod.Wire.{PiAppend, PiEntry, PiPayload, RawEntry}

unfoldable pub to_dict : PiEntry → RawEntry
to_dict e = record {
  index = e.index;
  term = e.term;
  command = e.command;
  trigger_type = some e.trigger_type;
  partition_epoch = some e.partition_epoch;
  timestamp = some e.timestamp;
}

abbrev pub given {ℓ} : {A : Type ℓ} → A → Option A → A
given x none = x
given x (some y) = y

-- A key that is missing has the default of the class; that of the stamp is the clock.
unfoldable pub from_dict : ℕ → RawEntry → PiEntry
from_dict now d = record {
  index = d.index;
  term = d.term;
  command = d.command;
  trigger_type = given "delta" d.trigger_type;
  partition_epoch = given 0 d.partition_epoch;
  timestamp = given now d.timestamp;
}

abbrev pub term_of_entry : Option PiEntry → ℕ
term_of_entry none = 0
term_of_entry (some e) = e.term

-- The term of log[index - 1] where 0 < index <= len(log), and 0 elsewhere.
unfoldable pub entry_term : List PiEntry → ℕ → ℕ
entry_term log zero = 0
entry_term log (suc i) = term_of_entry (get_elem? log i)

-- What `_send_append_entries` sends to a peer. An entry of `next_index` is never 0.
unfoldable pub pi_append_request : NodeId → PiCoordinator → PiAppend
unfolding entry_term to_dict
pi_append_request peer c =
    let prev_idx = get_or peer 1 c.next_index - 1 in
    record {
      term = c.current_term;
      leader_id = c.node_id;
      prev_log_index = prev_idx;
      prev_log_term = entry_term c.log prev_idx;
      entries = map to_dict (drop prev_idx c.log);
      leader_commit = c.commit_index;
      partition_epoch = c.partition_epoch;
    }

unfoldable pub send_append_entries : NodeId → PiCoordinator → PiCoordinator
unfolding pi_append_request pi_send
send_append_entries peer c = pi_send peer (PiPayload.append_entries (pi_append_request peer c)) c

unfoldable pub send_append_each : List NodeId → PiCoordinator → PiCoordinator
unfolding send_append_entries
send_append_each [] c = c
send_append_each (peer ∷ peers) c = send_append_each peers (send_append_entries peer c)

-- self._pending_latency[index] = now
unfoldable pub note_start : ℕ → ℕ → List (ℕ × ℕ) → List (ℕ × ℕ)
note_start index now [] = (index, now) ∷ []
note_start index now ((i, t) ∷ d) =
    if eqb i index then (i, now) ∷ d else (i, t) ∷ note_start index now d

unfoldable pub pi_new_entry : PiEnv → Command → String → PiCoordinator → PiEntry
pi_new_entry env command trigger c = record {
  index = length c.log + 1;
  term = c.current_term;
  command = command;
  trigger_type = trigger;
  partition_epoch = c.partition_epoch;
  timestamp = env.now;
}

-- The object after the call; no caller uses the entry that it returns.
unfoldable pub pi_replicate_entry : PiEnv → Command → String → PiCoordinator → PiCoordinator
unfolding pi_new_entry note_start send_append_each
pi_replicate_entry env command trigger c = send_append_each c.peers (record c {
  log = c.log ++ pi_new_entry env command trigger c ∷ [];
  pending_latency = note_start (length c.log + 1) env.now c.pending_latency;
})

unfoldable pub pi_replicate_each : PiEnv → List (Command × String) → PiCoordinator → PiCoordinator
unfolding pi_replicate_entry
pi_replicate_each env [] c = c
pi_replicate_each env ((command, trigger) ∷ rest) c =
    pi_replicate_each env rest (pi_replicate_entry env command trigger c)

abbrev pub pi_commands_of : List (Command × String) → List Command
pi_commands_of [] = []
pi_commands_of ((command, trigger) ∷ rest) = command ∷ pi_commands_of rest

-- the replay of a list of triggers: as one entry in echoD, if there are several
abbrev pub replay : Protocol → PiEnv → List (Command × String) → PiCoordinator → PiCoordinator
replay echo_d env ((command, trigger) ∷ next ∷ rest) c =
    pi_replicate_entry env (batch_command (command ∷ pi_commands_of (next ∷ rest))) trigger c
replay p env pending c = pi_replicate_each env pending c

abbrev pub flush_pending : PiEnv → List (Command × String) → PiCoordinator → PiCoordinator
flush_pending env [] c = c
flush_pending env (first ∷ rest) c =
    replay c.protocol env (first ∷ rest)
      (record c { pending_triggers = []; last_consensus_activity = env.now })

unfoldable pub pi_flush_pending_triggers : PiEnv → PiCoordinator → PiCoordinator
unfolding pi_replicate_entry pi_replicate_each to_commands
pi_flush_pending_triggers env c = flush_pending env c.pending_triggers c

abbrev pub flush_readings : PiEnv → List Command → PiCoordinator → PiCoordinator
flush_readings env [] c = record c { batch_deadline = none }
flush_readings env (command ∷ rest) c =
    pi_replicate_entry env (coalesce (command ∷ rest)) "delta"
      (record c { batch_buffer = []; batch_deadline = none; last_consensus_activity = env.now })

unfoldable pub pi_flush_batch : PiEnv → PiCoordinator → PiCoordinator
unfolding pi_replicate_entry to_commands
pi_flush_batch env c = flush_readings env c.batch_buffer c

-- `repl`: the node itself and the peers whose match index is at least n
unfoldable pub replicas : List NodeId → Dict ℕ → ℕ → ℕ
replicas [] match_index n = 1
replicas (peer ∷ peers) match_index n =
    let rest = replicas peers match_index n in
    if leb n (get_or peer 0 match_index) then rest + 1 else rest

unfoldable pub pi_is_committable : PiCoordinator → ℕ → Bool
unfolding entry_term replicas
pi_is_committable c n =
    eqb (entry_term c.log n) c.current_term
    && ltb ((length c.peers + 1) / 2) (replicas c.peers c.match_index n)

-- sorted(self._pending_latency)
unfoldable pub insert_index : ℕ × ℕ → List (ℕ × ℕ) → List (ℕ × ℕ)
insert_index x [] = x ∷ []
insert_index (i, t) ((j, u) ∷ d) =
    if ltb i j then (i, t) ∷ (j, u) ∷ d else (j, u) ∷ insert_index (i, t) d

unfoldable pub by_index : List (ℕ × ℕ) → List (ℕ × ℕ)
unfolding insert_index
by_index [] = []
by_index (x ∷ d) = insert_index x (by_index d)

unfoldable pub latencies_to : ℕ → ℕ → List (ℕ × ℕ) → List ℕ
latencies_to n now [] = []
latencies_to n now ((i, t) ∷ d) =
    let rest = latencies_to n now d in if leb i n then (now - t) ∷ rest else rest

unfoldable pub pending_past : ℕ → List (ℕ × ℕ) → List (ℕ × ℕ)
pending_past n [] = []
pending_past n ((i, t) ∷ d) = let rest = pending_past n d in if leb i n then rest else (i, t) ∷ rest

unfoldable pub commit_to : PiEnv → ℕ → PiCoordinator → PiCoordinator
unfolding by_index latencies_to pending_past
commit_to env n c = record c {
  commit_index = n;
  latencies = c.latencies ++ latencies_to n env.now (by_index c.pending_latency);
  pending_latency = pending_past n c.pending_latency;
}

-- for n in range(n, commit_index, -1)
unfoldable pub pi_advance_from : PiEnv → PiCoordinator → ℕ → PiCoordinator
unfolding pi_is_committable commit_to
pi_advance_from env c zero = c
pi_advance_from env c (suc n) =
    let rest = pi_advance_from env c n in
    if leb (suc n) c.commit_index
    then c
    else if pi_is_committable c (suc n)
    then commit_to env (suc n) c
    else rest

unfoldable pub pi_try_advance_commit : PiEnv → PiCoordinator → PiCoordinator
unfolding pi_advance_from
pi_try_advance_commit env c = pi_advance_from env c (length c.log)
