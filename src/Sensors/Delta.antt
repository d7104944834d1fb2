-- ===== src/Sensors/Delta.antt =====
-- The delta filter.
use echod.Prelude.{abs, arith, distance, false, max, some, ℤ, ◌*◌, ◌↔◌, ◌≡◌, ◌≤◌}
use echod.Config.{delta_threshold_inverse}
use echod.Messages.{NodeId, SensorDataReport, local_leader}
use echod.Node.{Coordinator, Env, echo}
use echod.Sensors.{handle_sensor_data, is_suppressed}

-- After an earlier reading, a reading is let through exactly if it differs from it by at least a
-- twentieth of the earlier one's size (of 1e-9, if that is 0).
pub is_suppressed_iff :
    (prev value : ℤ)
    → (is_suppressed (some prev) value ≡ false)
      ↔ (max (abs prev) 1 ≤ delta_threshold_inverse * distance value prev)
unfolding is_suppressed
is_suppressed_iff prev value = (λ h. ground arith, λ h. ground arith)

-- A local leader of ECHO drops every report: `EchoCoordinator` passes the report to the base class,
-- which serves a plain leader only.
pub echo_local_leader_drops :
    (env : Env) (sender : NodeId) (report : SensorDataReport) (c : Coordinator)
    → c.protocol ≡ echo
    → c.state ≡ local_leader
    → handle_sensor_data env sender report c ≡ c
unfolding handle_sensor_data
echo_local_leader_drops env sender report c p l = ground arith
