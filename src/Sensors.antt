-- ===== src/Sensors.antt =====
-- Sensor reports and the delta test: simulation/core/coordinator.py, simulation/protocols/echo.py
-- and simulation/protocols/echod.py.
pub mod Delta
pub mod Batch
use Prim.Native.String.{◌++◌ as append_text}
-- f"{report.leaf_id}:{report.sensor_type}"
use echod.Prelude.{
  Bool, List, Option, String, [], abs, distance, false, if◌then◌else◌, leb, length, ltb, max, none,
  not, some, ℕ, ℤ, ◌*◌, ◌++◌, ◌+◌, ◌==◌, ◌∷◌,
}
use echod.Config.{batch_window_ms, delta_threshold_inverse, max_batch_size}
use echod.Messages.{NodeId, Payload, SensorDataReport, delta, is_leader, is_leading, reading}
use echod.Node.{Coordinator, Env, Protocol, address, echo, echo_d, ms, post, raft}
use echod.Prelude.Dict.{get, put}
use echod.Replication.{replicate_entry}
use echod.Triggers.{flush_batch}

abbrev pub sensor_key : SensorDataReport → String
sensor_key report = append_text report.leaf_id (append_text ":" report.sensor_type)

-- abs(value - prev) / max(abs(prev), 1e-9) < 0.05, multiplied out
abbrev pub is_below_threshold : ℤ → ℤ → Bool
is_below_threshold prev value =
    ltb (delta_threshold_inverse * distance value prev) (max (abs prev) 1)

-- prev is not None and ...
unfoldable pub is_suppressed : Option ℤ → ℤ → Bool
is_suppressed none value = false
is_suppressed (some prev) value = is_below_threshold prev value

-- CoordinatorNode.handle_sensor_data
unfoldable pub base_handle_sensor_data : Env → NodeId → SensorDataReport → Coordinator → Coordinator
unfolding is_suppressed replicate_entry
base_handle_sensor_data env sender report c =
    if not (is_leader c.state)
    then c
    else if is_suppressed (get (sensor_key report) c.last_sensor) report.value
    then c
    else replicate_entry env (reading report) delta
        (record c { last_sensor = put (sensor_key report) report.value c.last_sensor })

-- A report is relayed to the leader that the node has seen last, unless that is the node itself.
abbrev pub relay_target : NodeId → Option NodeId → List NodeId
relay_target me none = []
relay_target me (some l) = if l == me then [] else l ∷ []

unfoldable pub relay : Env → SensorDataReport → Coordinator → Coordinator
unfolding post
relay env report c =
    post env
      (address c.node_id (relay_target c.node_id c.current_leader_id) (Payload.sensor_data report))
      c

-- EchoCoordinator.handle_sensor_data
unfoldable pub echo_handle_sensor_data : Env → NodeId → SensorDataReport → Coordinator → Coordinator
unfolding base_handle_sensor_data relay
echo_handle_sensor_data env sender report c =
    if is_leading c.state then base_handle_sensor_data env sender report c else relay env report c

abbrev pub open_window : ℕ → Option ℕ → Option ℕ
open_window now none = some (now + ms batch_window_ms)
open_window now (some deadline) = some deadline

unfoldable pub buffer_reading : Env → SensorDataReport → Coordinator → Coordinator
buffer_reading env report c = record c {
  last_sensor = put (sensor_key report) report.value c.last_sensor;
  batch_buffer = c.batch_buffer ++ reading report ∷ [];
  batch_deadline = open_window env.now c.batch_deadline;
}

-- EchoDCoordinator.handle_sensor_data
unfoldable pub echod_handle_sensor_data :
    Env → NodeId → SensorDataReport → Coordinator → Coordinator
unfolding relay
echod_handle_sensor_data env sender report c =
    if not (is_leading c.state)
    then relay env report c
    else if is_suppressed (get (sensor_key report) c.last_sensor) report.value
    then c
    else (let d = buffer_reading env report c in
        if leb max_batch_size (length d.batch_buffer) then flush_batch env d else d)

abbrev pub sensor_method : Protocol → Env → NodeId → SensorDataReport → Coordinator → Coordinator
sensor_method raft env sender report c = base_handle_sensor_data env sender report c
sensor_method echo env sender report c = echo_handle_sensor_data env sender report c
sensor_method echo_d env sender report c = echod_handle_sensor_data env sender report c

unfoldable pub handle_sensor_data : Env → NodeId → SensorDataReport → Coordinator → Coordinator
unfolding base_handle_sensor_data echo_handle_sensor_data echod_handle_sensor_data
handle_sensor_data env sender report c = sensor_method c.protocol env sender report c
