-- ===== src/Machine.antt =====
-- A coordinator object under any sequence of calls: messages, idle ticks, battery changes, and the
-- public methods that the driver calls (simulation/core/node.py, simulation/protocols/*.py).
pub mod Votes
pub mod Turns
pub mod Campaigns
pub mod Revotes
pub mod States
pub mod Invariant
use echod.Prelude.{Bool, List, [], false, true, ℕ, ℤ, ◌∷◌, ◌≡◌}
use echod.Dispatch.{handle_message, on_idle}
use echod.Log.Commits.{change}
use echod.Messages.{Command, LogEntry, Message, TriggerType}
use echod.Node.{Coordinator, Env, Protocol, raft, tick_battery}
use echod.Provisional.{enter_provisional_mode, exit_provisional_mode, reconcile}
use echod.Replication.{replicate_entry}
use echod.Triggers.{trigger_consensus}

pub data Event : Type 0 where
  receives : Message → Event
  idles : Event
  drains : ℤ → Event
  replicates : Command → Event
  proposes : Command → TriggerType → Event
  partitions : Event
  heals : Event
  reconciles : List LogEntry → ℕ → Event

-- RaftNode.replicate
unfoldable pub replicate : Env → Command → Coordinator → Coordinator
unfolding replicate_entry
replicate env command c = replicate_entry env command TriggerType.liveness c

-- A RaftNode lacks the methods of EchoCoordinator, and the others lack `replicate`: no such call.
unfoldable pub react_as : Protocol → Env → Event → Coordinator → Coordinator
react_as p env (receives msg) c = handle_message env msg c
react_as p env idles c = on_idle env c
react_as p env (drains change) c = tick_battery change c
react_as raft env (replicates command) c = replicate env command c
react_as p env (replicates command) c = c
react_as raft env event c = c
react_as p env (proposes command trigger) c = (trigger_consensus env command trigger c).0
react_as p env partitions c = enter_provisional_mode env c
react_as p env heals c = exit_provisional_mode c
react_as p env (reconciles entries other_commit) c = reconcile env entries other_commit c

unfoldable pub react : Env → Event → Coordinator → Coordinator
unfolding react_as
react env event c = react_as c.protocol env event c

unfoldable pub run : List (Env × Event) → Coordinator → Coordinator
run [] c = c
run ((env, event) ∷ rest) c = run rest (react env event c)

-- Without battery changes, and the change of the observer state that they bring.
abbrev pub is_calm : Event → Bool
is_calm (drains change) = false
is_calm _ = true

abbrev pub IsCalm : List (Env × Event) → Type 0
IsCalm [] = Unit
IsCalm ((env, event) ∷ rest) = (is_calm event ≡ true) × IsCalm rest
