-- ===== src/Metrics.antt =====
-- The metrics collector: simulation/metrics/collector.py. Clocks are in nanoseconds. A ratio is a
-- pair of its numerator and its denominator, before the division and the rounding of floats.
pub mod Tally
pub mod Calls
pub mod Recorded
use echod.Prelude.{
  Bool, List, Option, String, [], eqb, false, if◌then◌else◌, leb, length, negsuc, none, pos, some,
  ℕ, ℤ, ◌*◌, ◌++◌, ◌+◌, ◌-◌, ◌==◌, ◌∷◌,
}
use echod.Messages.{LogEntry, Message, NodeId, Payload, TriggerType}
use echod.Prelude.Dict.{Dict, get_or, put}

pub record ConsensusRound : Type 0 where
  pub trigger_time : ℕ
  pub commit_time : Option ℕ
  pub messages : ℕ
  pub trigger_type : TriggerType

pub record MetricsCollector : Type 0 where
  pub rounds : List ConsensusRound
  pub active_round : Option ConsensusRound
  pub total_messages : ℕ
  pub leader_changes : ℕ
  pub last_leader : Option NodeId
  pub messages_by_type : Dict ℕ
  pub energy_snapshots : Dict (List ℕ)
  pub cluster_up_time : ℕ
  pub cluster_down_time : ℕ
  pub last_check : ℕ

abbrev pub new_collector : ℕ → MetricsCollector
new_collector now = record {
  rounds = [];
  active_round = none;
  total_messages = 0;
  leader_changes = 0;
  last_leader = none;
  messages_by_type = [];
  energy_snapshots = [];
  cluster_up_time = 0;
  cluster_down_time = 0;
  last_check = now;
}

-- type(payload).__name__
abbrev pub type_name : Payload → String
type_name (Payload.request_vote p) = "RequestVoteRPC"
type_name (Payload.request_vote_response p) = "RequestVoteResponse"
type_name (Payload.append_entries p) = "AppendEntriesRPC"
type_name (Payload.append_entries_response p) = "AppendEntriesResponse"
type_name (Payload.liveness_ping p) = "LivenessPing"
type_name (Payload.leadership_handoff p) = "LeadershipHandoff"
type_name (Payload.leaf_register p) = "LeafRegisterRequest"
type_name (Payload.leaf_register_response p) = "LeafRegisterResponse"
type_name (Payload.sensor_data p) = "SensorDataReport"

abbrev pub one_more : Option ConsensusRound → Option ConsensusRound
one_more none = none
one_more (some r) = some (record r { messages = r.messages + 1 })

-- A request with entries begins a round, if there is none.
abbrev pub begin_round : ℕ → TriggerType → List LogEntry → Option ConsensusRound
begin_round now trigger [] = none
begin_round now trigger (e ∷ es) =
    some (record { trigger_time = now; commit_time = none; messages = 0; trigger_type = trigger })

abbrev pub open_round : ℕ → Payload → Option ConsensusRound → Option ConsensusRound
open_round now (Payload.append_entries rpc) none = begin_round now rpc.trigger_type rpc.entries
open_round now payload current = current

-- Whether a message confirms a round: an answer that reports success.
abbrev pub is_success : Payload → Bool
is_success (Payload.append_entries_response resp) = resp.success
is_success _ = false

abbrev pub close_at : ℕ → ConsensusRound → Option ℕ → MetricsCollector → MetricsCollector
close_at now r none m = record m {
  rounds = m.rounds ++ record r { commit_time = some now } ∷ [];
  active_round = none;
}
close_at now r (some t) m = m

abbrev pub close_round : ℕ → Option ConsensusRound → MetricsCollector → MetricsCollector
close_round now none m = m
close_round now (some r) m = close_at now r r.commit_time m

unfoldable pub on_message : ℕ → Message → MetricsCollector → MetricsCollector
on_message now msg m =
    let name = type_name msg.payload in
    let d = record m {
      total_messages = m.total_messages + 1;
      messages_by_type = put name (get_or name 0 m.messages_by_type + 1) m.messages_by_type;
      active_round = open_round now msg.payload (one_more m.active_round);
    } in
    if is_success msg.payload then close_round now d.active_round d else d

abbrev pub is_last : NodeId → Option NodeId → Bool
is_last leader_id none = false
is_last leader_id (some l) = leader_id == l

unfoldable pub record_leader_change : NodeId → MetricsCollector → MetricsCollector
record_leader_change leader_id m =
    if is_last leader_id m.last_leader
    then m
    else record m { leader_changes = m.leader_changes + 1; last_leader = some leader_id }

unfoldable pub snapshot_energy : NodeId → ℕ → MetricsCollector → MetricsCollector
snapshot_energy node_id battery m = record m {
  energy_snapshots =
      put node_id (get_or node_id [] m.energy_snapshots ++ battery ∷ []) m.energy_snapshots;
}

unfoldable pub record_availability : ℕ → Bool → MetricsCollector → MetricsCollector
record_availability now cluster_has_leader m =
    let dt = now - m.last_check in
    if cluster_has_leader
    then record m { cluster_up_time = m.cluster_up_time + dt; last_check = now }
    else record m { cluster_down_time = m.cluster_down_time + dt; last_check = now }

abbrev pub latency_of : ℕ → Option ℕ → List ℕ
latency_of began none = []
latency_of began (some t) = (t - began) ∷ []

-- consensus_latencies_ms, in nanoseconds
unfoldable pub consensus_latencies : List ConsensusRound → List ℕ
consensus_latencies [] = []
consensus_latencies (r ∷ rs) = latency_of r.trigger_time r.commit_time ++ consensus_latencies rs

abbrev pub sum : List ℕ → ℕ
sum [] = 0
sum (n ∷ ns) = n + sum ns

abbrev pub average : List ℕ → ℕ × ℕ
average [] = (0, 1)
average (n ∷ ns) = (sum (n ∷ ns), length (n ∷ ns))

unfoldable pub avg_consensus_latency : MetricsCollector → ℕ × ℕ
unfolding consensus_latencies
avg_consensus_latency m = average (consensus_latencies m.rounds)

abbrev pub messages_of : List ConsensusRound → List ℕ
messages_of [] = []
messages_of (r ∷ rs) = r.messages ∷ messages_of rs

unfoldable pub avg_messages_per_round : MetricsCollector → ℕ × ℕ
avg_messages_per_round m = average (messages_of m.rounds)

unfoldable pub availability_pct : MetricsCollector → ℕ × ℕ
availability_pct m =
    let total = m.cluster_up_time + m.cluster_down_time in
    if eqb total 0 then (100, 1) else (m.cluster_up_time * 100, total)

-- readings[0] - readings[-1]
abbrev pub last_reading : ℕ → List ℕ → ℕ
last_reading b [] = b
last_reading b (c ∷ cs) = last_reading c cs

abbrev pub energy_of : List ℕ → Option ℤ
energy_of [] = none
energy_of (b ∷ bs) =
    let rest = last_reading b bs in
    some (if leb rest b then pos (b - rest) else negsuc (rest - b - 1))

abbrev pub with_energy : NodeId → Option ℤ → Dict ℤ → Dict ℤ
with_energy node_id none d = d
with_energy node_id (some e) d = (node_id, e) ∷ d

unfoldable pub energy_per_node : Dict (List ℕ) → Dict ℤ
energy_per_node [] = []
energy_per_node ((node_id, readings) ∷ d) =
    with_energy node_id (energy_of readings) (energy_per_node d)
