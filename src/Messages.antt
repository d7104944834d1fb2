-- ===== src/Messages.antt =====
-- simulation/core/messages.py: node states, log entries, the protocol messages and their envelope.
-- The wall-clock stamps and the empty signature, which no protocol code reads, are left out.
use echod.Prelude.{Bool, List, String, [], false, true, ℕ, ℤ, ◌∷◌}

abbrev pub NodeId : Type 0
NodeId = String

pub data NodeState : Type 0 where
  follower candidate leader observer local_leader : NodeState

pub data LeafState : Type 0 where
  unregistered active searching : LeafState

pub data TriggerType : Type 0 where
  delta join partition reconcile liveness : TriggerType

-- `state == NodeState.X`, and membership in the tuples of states that the code tests
abbrev pub is_observer : NodeState → Bool
is_observer observer = true
is_observer _ = false

abbrev pub is_candidate : NodeState → Bool
is_candidate candidate = true
is_candidate _ = false

abbrev pub is_leader : NodeState → Bool
is_leader leader = true
is_leader _ = false

abbrev pub is_local_leader : NodeState → Bool
is_local_leader local_leader = true
is_local_leader _ = false

-- in (LEADER, LOCAL_LEADER)
abbrev pub is_leading : NodeState → Bool
is_leading leader = true
is_leading local_leader = true
is_leading _ = false

-- A sensor report. `value` is a multiple of 1e-9.
pub record SensorDataReport : Type 0 where
  pub leaf_id : NodeId
  pub sensor_type : String
  pub value : ℤ

-- The commands of log entries: one reading, a batch with its count, or an opaque client command.
mutual
  pub data Command : Type 0 where
    reading : SensorDataReport → Command
    batch : Commands → ℕ → Command
    client : ℕ → Command

  pub data Commands : Type 0 where
    nil : Commands
    cons : Command → Commands → Commands

unfoldable pub to_commands : List Command → Commands
to_commands [] = nil
to_commands (c ∷ cs) = cons c (to_commands cs)

pub record LogEntry : Type 0 where
  pub index : ℕ
  pub term : ℕ
  pub command : Command
  pub trigger_type : TriggerType
  pub partition_epoch : ℕ

pub record RequestVoteRpc : Type 0 where
  pub term : ℕ
  pub candidate_id : NodeId
  pub last_log_index : ℕ
  pub last_log_term : ℕ
  pub battery_level : ℕ

pub record RequestVoteResponse : Type 0 where
  pub term : ℕ
  pub vote_granted : Bool
  pub voter_id : NodeId
  pub voter_battery : ℕ

pub record AppendEntriesRpc : Type 0 where
  pub term : ℕ
  pub leader_id : NodeId
  pub prev_log_index : ℕ
  pub prev_log_term : ℕ
  pub entries : List LogEntry
  pub leader_commit : ℕ
  pub trigger_type : TriggerType
  pub partition_epoch : ℕ

pub record AppendEntriesResponse : Type 0 where
  pub term : ℕ
  pub success : Bool
  pub responder_id : NodeId
  pub match_index : ℕ
  pub responder_battery : ℕ

pub record LivenessPing : Type 0 where
  pub term : ℕ
  pub leader_id : NodeId

pub record LeadershipHandoff : Type 0 where
  pub term : ℕ
  pub leader_id : NodeId

-- `capabilities` holds the one key "sensor"
pub record LeafRegisterRequest : Type 0 where
  pub leaf_id : NodeId
  pub sensor : String

pub record LeafRegisterResponse : Type 0 where
  pub accepted : Bool
  pub coordinator_id : NodeId
  pub term : ℕ

pub data Payload : Type 0 where
  request_vote : RequestVoteRpc → Payload
  request_vote_response : RequestVoteResponse → Payload
  append_entries : AppendEntriesRpc → Payload
  append_entries_response : AppendEntriesResponse → Payload
  liveness_ping : LivenessPing → Payload
  leadership_handoff : LeadershipHandoff → Payload
  leaf_register : LeafRegisterRequest → Payload
  leaf_register_response : LeafRegisterResponse → Payload
  sensor_data : SensorDataReport → Payload

pub record Message : Type 0 where
  pub sender_id : NodeId
  pub recipient_id : NodeId
  pub payload : Payload
