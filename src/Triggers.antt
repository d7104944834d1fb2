-- ===== src/Triggers.antt =====
-- Consensus triggers: those buffered while there is no leader, and the batches of echoD
-- (simulation/protocols/echo.py and simulation/protocols/echod.py).
pub mod Frame
pub mod Carried
use echod.Prelude.{List, Option, [], if◌then◌else◌, length, none, some, ◌++◌, ◌∷◌}
use echod.Messages.{Command, LogEntry, TriggerType, batch, delta, is_leading, to_commands}
use echod.Node.{Coordinator, Env, Protocol, echo, echo_d, raft}
use echod.Replication.{new_entry, replicate_entry}

-- {"batch": [...], "count": len(...)}
abbrev pub batch_command : List Command → Command
batch_command cs = batch (to_commands cs) (length cs)

-- one `replicate_entry` for each trigger, in order
unfoldable pub replicate_each : Env → List (Command × TriggerType) → Coordinator → Coordinator
unfolding replicate_entry
replicate_each env [] c = c
replicate_each env ((command, trigger) ∷ rest) c =
    replicate_each env rest (replicate_entry env command trigger c)

abbrev pub commands_of : List (Command × TriggerType) → List Command
commands_of [] = []
commands_of ((command, trigger) ∷ rest) = command ∷ commands_of rest

-- EchoDCoordinator._flush_pending_triggers
unfoldable pub replay_as_one : Env → List (Command × TriggerType) → Coordinator → Coordinator
unfolding replicate_entry to_commands
replay_as_one env [] c = c
replay_as_one env ((command, trigger) ∷ []) c =
    replicate_entry env command trigger (record c { last_consensus_activity = env.now })
replay_as_one env ((command, trigger) ∷ next ∷ rest) c =
    replicate_entry env (batch_command (commands_of ((command, trigger) ∷ next ∷ rest))) trigger
      (record c { last_consensus_activity = env.now })

-- The method of each class; a RaftNode has none, and never buffers a trigger.
abbrev pub replay_method : Protocol → Env → List (Command × TriggerType) → Coordinator → Coordinator
replay_method raft env pending c = c
replay_method echo env pending c = replicate_each env pending c
replay_method echo_d env pending c = replay_as_one env pending c

unfoldable pub flush_pending_triggers : Env → Coordinator → Coordinator
unfolding replicate_each replay_as_one
flush_pending_triggers env c =
    replay_method c.protocol env c.pending_triggers (record c { pending_triggers = [] })

-- The object, and the entry that the call returns.
unfoldable pub trigger_consensus :
    Env → Command → TriggerType → Coordinator → Coordinator × Option LogEntry
unfolding replicate_entry
trigger_consensus env command trigger c =
    if is_leading c.state
    then (replicate_entry env command trigger c, some (new_entry command trigger c))
    else (record c { pending_triggers = c.pending_triggers ++ (command, trigger) ∷ [] }, none)

-- The command of a full batch: a reading by itself is sent bare.
abbrev pub coalesce : List Command → Command
coalesce (command ∷ []) = command
coalesce cs = batch_command cs

abbrev pub flush_commands : Env → List Command → Coordinator → Coordinator
flush_commands env [] c = record c { batch_deadline = none }
flush_commands env (command ∷ rest) c =
    replicate_entry env (coalesce (command ∷ rest)) delta
      (record c { batch_buffer = []; batch_deadline = none; last_consensus_activity = env.now })

unfoldable pub flush_batch : Env → Coordinator → Coordinator
unfolding replicate_entry to_commands
flush_batch env c = flush_commands env c.batch_buffer c
