-- ===== src/Pi/Sensors.antt =====
-- Sensor reports and reconciliation batches at the hardware coordinator,
-- rpi/coordinator/echo_node.py. The text that `json.dumps` makes of a command is a parameter.
use echod.Prelude.{
  List, Option, String, [], drop, if◌then◌else◌, leb, length, ltb, none, not, some, ℕ, ◌++◌, ◌+◌,
  ◌==◌, ◌∷◌,
}
use echod.Config.{max_batch_size}
use echod.Messages.{Command, NodeId, SensorDataReport, is_leading, reading, to_commands}
use echod.Node.{Protocol, echo_d, raft}
use echod.Pi.{PiCoordinator, PiEnv, pi_send}
use echod.Pi.Rounds.{pi_flush_batch, pi_replicate_each, pi_replicate_entry, replay}
use echod.Prelude.Dict.{get, member, put}
use echod.Sensors.{is_suppressed, sensor_key}
use echod.Wire.{PiPayload, ReconcileBatch}

-- A node that does not lead relays a report to the leader it knows, or buffers it.
abbrev pub relay_report : Option NodeId → SensorDataReport → PiCoordinator → PiCoordinator
relay_report none report c = record c {
  pending_triggers = c.pending_triggers ++ (reading report, "delta") ∷ [];
}
relay_report (some l) report c =
    if l == c.node_id
    then record c { pending_triggers = c.pending_triggers ++ (reading report, "delta") ∷ [] }
    else pi_send l (PiPayload.sensor_data report) c

-- BATCH_WINDOW_S is 50 ms.
abbrev pub window_end : ℕ → Option ℕ → Option ℕ
window_end now none = some (now + 50_000_000)
window_end now (some t) = some t

abbrev pub pi_buffer_reading : PiEnv → SensorDataReport → PiCoordinator → PiCoordinator
pi_buffer_reading env report c = record c {
  batch_buffer = c.batch_buffer ++ reading report ∷ [];
  batch_deadline = window_end env.now c.batch_deadline;
}

-- What a leader does with a report, by protocol.
abbrev pub lead_report : Protocol → PiEnv → SensorDataReport → PiCoordinator → PiCoordinator
lead_report raft env report c = pi_replicate_entry env (reading report) "event" c
lead_report p env report c =
    if is_suppressed (get (sensor_key report) c.last_sensor) report.value
    then c
    else accept_report p env report
        (record c { last_sensor = put (sensor_key report) report.value c.last_sensor })
  where
    accept_report : Protocol → PiEnv → SensorDataReport → PiCoordinator → PiCoordinator
    accept_report echo_d env report c =
        let d = pi_buffer_reading env report c in
        if leb max_batch_size (length d.batch_buffer) then pi_flush_batch env d else d
    accept_report q env report c = pi_replicate_entry env (reading report) "delta" c

unfoldable pub pi_handle_sensor_data : PiEnv → SensorDataReport → PiCoordinator → PiCoordinator
unfolding pi_send pi_replicate_entry is_suppressed pi_flush_batch
pi_handle_sensor_data env report c =
    if not (is_leading c.state)
    then relay_report c.current_leader_id report c
    else lead_report c.protocol env report c

module _ (dumps : Command → String) where
  -- The commands that are not among the recent ones, and the recent ones with theirs at the end.
  unfoldable pub fresh_commands : List Command → List String → List Command × List String
  fresh_commands [] recent = ([], recent)
  fresh_commands (command ∷ rest) recent =
      if member (dumps command) recent
      then fresh_commands rest recent
      else (let later = fresh_commands rest (recent ++ dumps command ∷ []) in
          (command ∷ later.0, later.1))

-- More than 200 recent keys lose the first 100.
abbrev pub trimmed : List String → List String
trimmed recent = if ltb 200 (length recent) then drop 100 recent else recent

abbrev pub reconcile_triggers : List Command → List (Command × String)
reconcile_triggers [] = []
reconcile_triggers (command ∷ rest) = (command, "reconcile") ∷ reconcile_triggers rest

abbrev pub repropose : PiEnv → List Command → PiCoordinator → PiCoordinator
repropose env [] c = c
repropose env (command ∷ rest) c =
    replay c.protocol env (reconcile_triggers (command ∷ rest))
      (record c { last_consensus_activity = env.now })

abbrev pub reconcile_commands :
    (Command → String) → PiEnv → List Command → PiCoordinator → PiCoordinator
reconcile_commands dumps env [] c = c
reconcile_commands dumps env (command ∷ rest) c =
    let found = fresh_commands dumps (command ∷ rest) c.recent_reconciles in
    repropose env found.0 (record c { recent_reconciles = trimmed found.1 })

unfoldable pub pi_handle_reconcile_batch :
    (Command → String) → PiEnv → ReconcileBatch → PiCoordinator → PiCoordinator
unfolding fresh_commands pi_replicate_entry pi_replicate_each to_commands
pi_handle_reconcile_batch dumps env p c =
    if not (is_leading c.state) then c else reconcile_commands dumps env p.commands c
