-- ===== src/Triggers/Frame.antt =====
-- What replicating and replaying leave alone.
use echod.Prelude.{List, [], arith, ◌∷◌, ◌≡◌}
use echod.Messages.{Command, TriggerType}
use echod.Node.{Coordinator, Env, Protocol, echo, echo_d, raft}
use echod.Replication.{replicate_entry}
use echod.Triggers.{flush_pending_triggers, replay_as_one, replay_method, replicate_each}

-- Between `c` and `d` at most the log, the outbox, the pending triggers and the time of the last
-- consensus activity differ, of the fields that the proofs read.
pub record OnlyLogChanges (c d : Coordinator) : Type 0 where
  pub protocol : d.protocol ≡ c.protocol
  pub node_id : d.node_id ≡ c.node_id
  pub battery : d.battery ≡ c.battery
  pub current_term : d.current_term ≡ c.current_term
  pub voted_for : d.voted_for ≡ c.voted_for
  pub state : d.state ≡ c.state
  pub votes_received : d.votes_received ≡ c.votes_received
  pub next_index : d.next_index ≡ c.next_index
  pub partition_epoch : d.partition_epoch ≡ c.partition_epoch
  pub batch_buffer : d.batch_buffer ≡ c.batch_buffer
  pub batch_deadline : d.batch_deadline ≡ c.batch_deadline
  pub ping_interval : d.ping_interval ≡ c.ping_interval
  pub commit_index : d.log.commit_index ≡ c.log.commit_index

pub replicate_entry-OnlyLogChanges :
    (env : Env) (command : Command) (trigger : TriggerType) (c : Coordinator)
    → OnlyLogChanges c (replicate_entry env command trigger c)
unfolding replicate_entry
replicate_entry-OnlyLogChanges env command trigger c = ground arith

replicate_each-OnlyLogChanges :
    (env : Env) (pending : List (Command × TriggerType)) (c : Coordinator)
    → OnlyLogChanges c (replicate_each env pending c)
unfolding replicate_each
replicate_each-OnlyLogChanges env [] c = ground arith
replicate_each-OnlyLogChanges env ((command, trigger) ∷ rest) c =
    ground (arith, replicate_each-OnlyLogChanges env rest (replicate_entry env command trigger c))

replay_as_one-OnlyLogChanges :
    (env : Env) (pending : List (Command × TriggerType)) (c : Coordinator)
    → OnlyLogChanges c (replay_as_one env pending c)
unfolding replay_as_one
replay_as_one-OnlyLogChanges env [] c = ground arith
replay_as_one-OnlyLogChanges env ((command, trigger) ∷ []) c = ground arith
replay_as_one-OnlyLogChanges env ((command, trigger) ∷ next ∷ rest) c = ground arith

replay_method-OnlyLogChanges :
    (p : Protocol) (env : Env) (pending : List (Command × TriggerType)) (c : Coordinator)
    → OnlyLogChanges c (replay_method p env pending c)
replay_method-OnlyLogChanges raft env pending c = ground arith
replay_method-OnlyLogChanges echo env pending c = replicate_each-OnlyLogChanges env pending c
replay_method-OnlyLogChanges echo_d env pending c = replay_as_one-OnlyLogChanges env pending c

pub flush_pending_triggers-OnlyLogChanges :
    (env : Env) (c : Coordinator) → OnlyLogChanges c (flush_pending_triggers env c)
unfolding flush_pending_triggers
flush_pending_triggers-OnlyLogChanges env c =
    let h =
      replay_method-OnlyLogChanges c.protocol env c.pending_triggers
        (record c { pending_triggers = [] }) in
    ground (arith, h)
