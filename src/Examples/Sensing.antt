-- ===== src/Examples/Sensing.antt =====
-- Sensor reports.
use echod.Prelude.{[], if◌then◌else◌, refl, some, ◌++◌, ◌∷◌, ◌≡◌}
use echod.Examples.Data.{buffering, env, provisional_leader, report}
use echod.Messages.{reading}
use echod.Node.{echo}
use echod.Prelude.Dict.{get}
use echod.Sensors.{handle_sensor_data, sensor_key}
use echod.Sensors.Batch.{echod_handle_sensor_data-keeps, held, suppresses}
use echod.Sensors.Delta.{echo_local_leader_drops}

echod_handle_sensor_data-keeps_example :
    let d = handle_sensor_data env "l0" report buffering in
    (held d ≡ held buffering ++ (if suppresses report buffering then [] else reading report ∷ []))
    × (get (sensor_key report) d.last_sensor ≡ (
        if suppresses report buffering
        then get (sensor_key report) buffering.last_sensor
        else some report.value))
echod_handle_sensor_data-keeps_example =
    echod_handle_sensor_data-keeps env "l0" report buffering refl refl

echo_local_leader_drops_example :
    handle_sensor_data env "l0" report (record provisional_leader { protocol = echo })
    ≡ record provisional_leader { protocol = echo }
echo_local_leader_drops_example =
    echo_local_leader_drops env "l0" report (record provisional_leader { protocol = echo }) refl
      refl
