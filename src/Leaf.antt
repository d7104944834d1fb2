-- ===== src/Leaf.antt =====
-- Leaf nodes: simulation/core/leaf.py, and the two subclasses, EchoLeaf of
-- simulation/protocols/echo.py, which adds nothing, and EchoDLeaf of simulation/protocols/echod.py,
-- which filters its readings. The tag `filters` says that a leaf is an EchoDLeaf.
pub mod Binding
pub mod Silence
use echod.Log
use echod.Prelude.{
  Bool, List, Option, String, [], drop, false, if◌then◌else◌, leb, length, ltb, none, pos, some, ℕ,
  ℤ, ◌%◌, ◌&&◌, ◌++◌, ◌+ℤ◌, ◌+◌, ◌==◌, ◌∷◌,
}
use echod.Config.{partition_timeout, sample_interval}
use echod.Log.{ReplicatedLog}
use echod.Log.Commits.{change}
use echod.Messages.{
  AppendEntriesRpc, LeafRegisterResponse, LeafState, Message, NodeId, Payload, SensorDataReport,
  active, searching, unregistered,
}
use echod.Node.{Env, Peer, address, coordinator, drained, leaf, members, ms, sendable}
use echod.Replication.{follow_commit}
use echod.Sensors.{is_suppressed}

-- The environment of a call: as for a coordinator, and what `random` draws for the change of the
-- sensor value and for the choice of a coordinator.
pub record LeafEnv : Type 0 where
  pub outside : Env
  pub jitter : ℤ
  pub draw : ℕ

pub record Leaf : Type 0 where
  pub filters : Bool
  pub node_id : NodeId
  pub battery : ℕ
  pub sensor_type : String
  pub state : LeafState
  pub coordinator_id : Option NodeId
  pub auto_report : Bool
  pub last_coordinator_contact : ℕ
  pub last_sample_time : ℕ
  pub sensor_value : ℤ
  pub log : ReplicatedLog
  pub last_transmitted : Option ℤ
  pub suppressed_count : ℕ
  pub outbox : List Message

-- A new leaf; its first sensor value is 20.0 and a drawn part.
unfoldable pub create_leaf : Env → Bool → NodeId → String → ℕ → Bool → ℤ → Leaf
create_leaf env filters node_id sensor_type battery auto_report drawn = record {
  filters = filters;
  node_id = node_id;
  battery = battery;
  sensor_type = sensor_type;
  state = unregistered;
  coordinator_id = none;
  auto_report = auto_report;
  last_coordinator_contact = env.now;
  last_sample_time = 0;
  sensor_value = pos 20_000_000_000 +ℤ drawn;
  log = Log.empty;
  last_transmitted = none;
  suppressed_count = 0;
  outbox = [];
}

abbrev pub post_leaf : Env → List Message → Leaf → Leaf
post_leaf env out l = record l { outbox = l.outbox ++ sendable env.cluster out }

-- the nodes with `tier == "coordinator"`
abbrev pub coordinator_ids : List Peer → List NodeId
coordinator_ids [] = []
coordinator_ids (coordinator i s ∷ ps) = i ∷ coordinator_ids ps
coordinator_ids (leaf i ∷ ps) = coordinator_ids ps

-- random.choice: the list from the drawn place on, of which `first` takes the head
abbrev pub choose : ℕ → List NodeId → List NodeId
choose draw [] = []
choose draw (i ∷ is) = drop (draw % length (i ∷ is)) (i ∷ is)

abbrev pub first : List NodeId → List NodeId
first [] = []
first (i ∷ is) = i ∷ []

abbrev pub registration : Leaf → Payload
registration l = Payload.leaf_register (record { leaf_id = l.node_id; sensor = l.sensor_type })

unfoldable pub try_register : LeafEnv → Leaf → Leaf
try_register env l =
    let target = first (choose env.draw (coordinator_ids (members env.outside.cluster))) in
    post_leaf env.outside (address l.node_id target (registration l)) l

abbrev pub bound_to : Option NodeId → List NodeId
bound_to none = []
bound_to (some i) = i ∷ []

abbrev pub report_of : Leaf → ℤ → SensorDataReport
report_of l value = record { leaf_id = l.node_id; sensor_type = l.sensor_type; value = value }

-- LeafNode._send_reading
unfoldable pub base_send_reading : Env → ℤ → Leaf → Leaf
base_send_reading env value l =
    post_leaf env
      (address l.node_id (bound_to l.coordinator_id) (Payload.sensor_data (report_of l value))) l

-- EchoDLeaf._send_reading
unfoldable pub filtered_send_reading : Env → ℤ → Leaf → Leaf
unfolding base_send_reading
filtered_send_reading env value l =
    if is_suppressed l.last_transmitted value
    then record l { suppressed_count = l.suppressed_count + 1 }
    else base_send_reading env value (record l { last_transmitted = some value })

unfoldable pub send_reading : Env → ℤ → Leaf → Leaf
unfolding filtered_send_reading
send_reading env value l =
    if l.filters then filtered_send_reading env value l else base_send_reading env value l

unfoldable pub report_sensor : LeafEnv → Leaf → Leaf
unfolding send_reading
report_sensor env l =
    let value = l.sensor_value +ℤ env.jitter in
    send_reading env.outside value (record l { sensor_value = value })

unfoldable pub inject_reading : Env → ℤ → Leaf → Leaf
unfolding send_reading
inject_reading env value l = send_reading env value (record l { sensor_value = value })

-- A tick of an active leaf.
unfoldable pub active_tick : LeafEnv → Leaf → Leaf
unfolding report_sensor
active_tick env l =
    let now = env.outside.now in
    if ltb (l.last_coordinator_contact + ms partition_timeout) now
    then record l { state = searching; coordinator_id = none }
    else if l.auto_report && leb (l.last_sample_time + ms sample_interval) now
    then record (report_sensor env l) { last_sample_time = now }
    else l

abbrev pub tick_in : LeafState → LeafEnv → Leaf → Leaf
tick_in unregistered env l = try_register env l
tick_in active env l = active_tick env l
tick_in searching env l = try_register env l

unfoldable pub leaf_on_idle : LeafEnv → Leaf → Leaf
unfolding active_tick try_register
leaf_on_idle env l = tick_in l.state env l

unfoldable pub handle_leaf_register_response : Env → LeafRegisterResponse → Leaf → Leaf
handle_leaf_register_response env resp l =
    if resp.accepted
    then record l {
      coordinator_id = some resp.coordinator_id;
      state = active;
      last_coordinator_contact = env.now;
    }
    else l

-- self.state == LeafState.ACTIVE and sender == self.coordinator_id
abbrev pub is_bound_to : LeafState → Option NodeId → NodeId → Bool
is_bound_to active (some i) sender = sender == i
is_bound_to _ _ sender = false

unfoldable pub leaf_append_entries : Env → NodeId → AppendEntriesRpc → Leaf → Leaf
unfolding follow_commit
leaf_append_entries env sender rpc l =
    if is_bound_to l.state l.coordinator_id sender
    then record l {
      last_coordinator_contact = env.now;
      log = follow_commit rpc.leader_commit (Log.append_entries rpc.entries l.log);
    }
    else l

unfoldable pub leaf_liveness_ping : Env → NodeId → Leaf → Leaf
leaf_liveness_ping env sender l =
    if is_bound_to l.state l.coordinator_id sender
    then record l { last_coordinator_contact = env.now }
    else l

-- The messages that a leaf has a method for; the others do nothing.
unfoldable pub leaf_payload : Env → NodeId → Payload → Leaf → Leaf
leaf_payload env sender (Payload.leaf_register_response resp) l =
    handle_leaf_register_response env resp l
leaf_payload env sender (Payload.append_entries rpc) l = leaf_append_entries env sender rpc l
leaf_payload env sender (Payload.liveness_ping ping) l = leaf_liveness_ping env sender l
leaf_payload env sender p l = l

pub data LeafEvent : Type 0 where
  hears : NodeId → Payload → LeafEvent
  ticks : LeafEvent
  injects : ℤ → LeafEvent
  loses : ℤ → LeafEvent

unfoldable pub leaf_react : LeafEnv → LeafEvent → Leaf → Leaf
leaf_react env (hears sender p) l = leaf_payload env.outside sender p l
leaf_react env ticks l = leaf_on_idle env l
leaf_react env (injects value) l = inject_reading env.outside value l
leaf_react env (loses change) l = record l { battery = drained l.battery change }

unfoldable pub leaf_run : List (LeafEnv × LeafEvent) → Leaf → Leaf
leaf_run [] l = l
leaf_run ((env, event) ∷ rest) l = leaf_run rest (leaf_react env event l)
