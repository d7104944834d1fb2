-- ===== src/Wire.antt =====
-- What hardware coordinators send each other: `LogEntry` and the payloads of
-- rpi/coordinator/echo_node.py. A payload stands for the pair of a message's type and its dictionary,
-- which has the keys of its type.
use echod.Prelude.{List, Option, String, ℕ}
use echod.Messages.{
  AppendEntriesResponse, Command, LeadershipHandoff, LeafRegisterRequest, LeafRegisterResponse,
  LivenessPing, NodeId, RequestVoteResponse, RequestVoteRpc, SensorDataReport,
}

-- An entry. `trigger_type` is a text here, and `timestamp` a clock.
pub record PiEntry : Type 0 where
  pub index : ℕ
  pub term : ℕ
  pub command : Command
  pub trigger_type : String
  pub partition_epoch : ℕ
  pub timestamp : ℕ

-- The dictionary of an entry. The last three keys may be missing; without one of the others
-- `from_dict` raises an exception.
pub record RawEntry : Type 0 where
  pub index : ℕ
  pub term : ℕ
  pub command : Command
  pub trigger_type : Option String
  pub partition_epoch : Option ℕ
  pub timestamp : Option ℕ

-- Its `trigger_type` is always "delta" and is left out.
pub record PiAppend : Type 0 where
  pub term : ℕ
  pub leader_id : NodeId
  pub prev_log_index : ℕ
  pub prev_log_term : ℕ
  pub entries : List RawEntry
  pub leader_commit : ℕ
  pub partition_epoch : ℕ

pub record ReconcileBatch : Type 0 where
  pub term : ℕ
  pub sender_node : NodeId
  pub commands : List Command

pub data PartitionControl : Type 0 where
  split : List (List NodeId) → PartitionControl
  blocked : List NodeId → PartitionControl
  heal unknown_action : PartitionControl

pub data DemoControl : Type 0 where
  set_battery set_drain_rate set_drain_paused unknown_demo : DemoControl

pub data PiPayload : Type 0 where
  request_vote : RequestVoteRpc → PiPayload
  vote_response : RequestVoteResponse → PiPayload
  append_entries : PiAppend → PiPayload
  append_response : AppendEntriesResponse → PiPayload
  liveness_ping : LivenessPing → PiPayload
  leaf_register : LeafRegisterRequest → PiPayload
  leaf_register_response : LeafRegisterResponse → PiPayload
  sensor_data : SensorDataReport → PiPayload
  leadership_handoff : LeadershipHandoff → PiPayload
  reconcile_batch : ReconcileBatch → PiPayload
  partition_control : PartitionControl → PiPayload
  demo_control : DemoControl → PiPayload
  other_type : String → PiPayload

-- msg_type
abbrev pub type_of : PiPayload → String
type_of (request_vote p) = "request_vote"
type_of (vote_response p) = "vote_response"
type_of (append_entries p) = "append_entries"
type_of (append_response p) = "append_response"
type_of (liveness_ping p) = "liveness_ping"
type_of (leaf_register p) = "leaf_register"
type_of (leaf_register_response p) = "leaf_register_response"
type_of (sensor_data p) = "sensor_data"
type_of (leadership_handoff p) = "leadership_handoff"
type_of (reconcile_batch p) = "reconcile_batch"
type_of (partition_control p) = "partition_control"
type_of (demo_control p) = "demo_control"
type_of (other_type t) = t

-- A broadcast has no recipient.
pub record PiMessage : Type 0 where
  pub recipient_id : Option NodeId
  pub payload : PiPayload
