-- ===== src/Dispatch/Silence.antt =====
-- The handlers and ticks that send neither votes nor vote requests.
use echod.Log
use echod.Prelude.{Bool-cases, arith, false, inl, inr, leb, length, ltb, refl, some, true, ℕ}
use echod.Config.{max_batch_size}
use echod.Election.Silence.{
  flush_batch-silent, replicate_entry-silent, same, send-silent, speechless,
}
use echod.Election.Speech.{SameSpeech, SameSpeech-trans, address-Quiet, post-Quiet}
use echod.Liveness.{handle_leaf_register, handle_liveness_ping}
use echod.Messages.{
  AppendEntriesResponse, AppendEntriesRpc, LeafRegisterRequest, LivenessPing, NodeId, Payload,
  SensorDataReport, delta, is_leader, is_leading, reading,
}
use echod.Node.{Coordinator, Env, Protocol, address, echo, echo_d, raft, step_down}
use echod.Prelude.Dict.{add, get, put}
use echod.Provisional.{enter_provisional_mode, handle_append_entries, track_epoch}
use echod.Replication.{
  adopt_term, append_response, base_handle_append_entries, follow_commit, follow_leader,
  handle_append_entries_response, is_consistent, store_entries, to_follower, try_advance_commit,
}
use echod.Sensors.{
  base_handle_sensor_data, buffer_reading, echo_handle_sensor_data, echod_handle_sensor_data,
  handle_sensor_data, is_suppressed, relay, relay_target, sensor_key, sensor_method,
}
use echod.Timers.{reset_election_timer}

module _ (env : Env) (sender : NodeId) where
  follow_leader-silent :
      (rpc : AppendEntriesRpc) (c : Coordinator) → SameSpeech c (follow_leader env sender rpc c)
  unfolding follow_leader
  follow_leader-silent rpc c =
      let d = record (reset_election_timer env c) {
        current_leader_id = some rpc.leader_id;
        state = to_follower c.state;
      } in
      let log = follow_commit rpc.leader_commit (store_entries rpc.entries d.log) in
      elim (Bool-cases (is_consistent rpc d.log)) [
        | inl fits ↦ rw fits (
            SameSpeech-trans (speechless c (record d { log = log }) refl refl) (
              send-silent env sender (append_response true (Log.last_index log) d)
                (record d { log = log }) refl))
        | inr fails ↦ rw fails (
            SameSpeech-trans (speechless c d refl refl)
              (send-silent env sender (append_response false 0 d) d refl))
      ]

  pub adopt_term-silent : (term : ℕ) (c : Coordinator) → SameSpeech c (adopt_term term c)
  unfolding step_down
  adopt_term-silent term c = elim (Bool-cases (ltb c.current_term term)) [
    | inl newer ↦ rw newer (speechless c (step_down term c) refl refl)
    | inr not_newer ↦ rw not_newer (same c)
  ]

  base_append_entries-silent :
      (rpc : AppendEntriesRpc) (c : Coordinator)
      → SameSpeech c (base_handle_append_entries env sender rpc c)
  unfolding base_handle_append_entries
  base_append_entries-silent rpc c =
      let d = adopt_term rpc.term c in
      elim (Bool-cases (ltb rpc.term d.current_term)) [
        | inl stale ↦ rw stale (
            SameSpeech-trans (adopt_term-silent rpc.term c)
              (send-silent env sender (append_response false 0 d) d refl))
        | inr current ↦
            rw current
              (SameSpeech-trans (adopt_term-silent rpc.term c) (follow_leader-silent rpc d))
      ]

  track_epoch-silent :
      (p : Protocol) (epoch : ℕ) (c : Coordinator) → SameSpeech c (track_epoch p env epoch c)
  unfolding enter_provisional_mode
  track_epoch-silent p epoch c = ground (arith, same c)

  pub append_entries-silent :
      (rpc : AppendEntriesRpc) (c : Coordinator)
      → SameSpeech c (handle_append_entries env sender rpc c)
  unfolding handle_append_entries
  append_entries-silent rpc c = SameSpeech-trans (base_append_entries-silent rpc c) (
      track_epoch-silent c.protocol rpc.partition_epoch
        (base_handle_append_entries env sender rpc c))

  pub append_response-silent :
      (resp : AppendEntriesResponse) (c : Coordinator)
      → SameSpeech c (handle_append_entries_response env sender resp c)
  unfolding handle_append_entries_response try_advance_commit
  append_response-silent resp c = ground (arith, same c)

  pub ping-silent :
      (ping : LivenessPing) (c : Coordinator)
      → SameSpeech c (handle_liveness_ping env sender ping c)
  unfolding handle_liveness_ping
  ping-silent ping c = ground (arith, same c)

  pub leaf_register-silent :
      (req : LeafRegisterRequest) (c : Coordinator)
      → SameSpeech c (handle_leaf_register env sender req c)
  unfolding handle_leaf_register
  leaf_register-silent req c =
      let d = record c { leaves = add req.leaf_id c.leaves } in
      SameSpeech-trans (speechless c d refl refl) (
        send-silent env sender
          (Payload.leaf_register_response
            (record { accepted = true; coordinator_id = c.node_id; term = c.current_term }))
          d refl)

  relay-silent : (report : SensorDataReport) (c : Coordinator) → SameSpeech c (relay env report c)
  unfolding relay
  relay-silent report c =
      let is = relay_target c.node_id c.current_leader_id in
      post-Quiet env (address c.node_id is (Payload.sensor_data report)) c
        (address-Quiet c.node_id is (Payload.sensor_data report) refl)

  base_sensor-silent :
      (report : SensorDataReport) (c : Coordinator)
      → SameSpeech c (base_handle_sensor_data env sender report c)
  unfolding base_handle_sensor_data
  base_sensor-silent report c =
      let d = record c { last_sensor = put (sensor_key report) report.value c.last_sensor } in
      let replicated =
        SameSpeech-trans (speechless c d refl refl)
          (replicate_entry-silent env (reading report) delta d) in
      elim (Bool-cases (is_leader c.state)) [
        | inl leads ↦
            rw leads
              (elim (Bool-cases
                (is_suppressed (get (sensor_key report) c.last_sensor) report.value)) [
                  | inl quiet ↦ rw quiet (same c)
                  | inr loud ↦ rw loud replicated
                ])
        | inr follows ↦ rw follows (same c)
      ]

  echo_sensor-silent :
      (report : SensorDataReport) (c : Coordinator)
      → SameSpeech c (echo_handle_sensor_data env sender report c)
  unfolding echo_handle_sensor_data
  echo_sensor-silent report c = elim (Bool-cases (is_leading c.state)) [
    | inl leads ↦ rw leads (base_sensor-silent report c)
    | inr follows ↦ rw follows (relay-silent report c)
  ]

  echod_sensor-silent :
      (report : SensorDataReport) (c : Coordinator)
      → SameSpeech c (echod_handle_sensor_data env sender report c)
  unfolding echod_handle_sensor_data buffer_reading
  echod_sensor-silent report c =
      let d = buffer_reading env report c in
      let buffered : SameSpeech c d = speechless c d refl refl in
      elim (Bool-cases (is_leading c.state)) [
        | inl leads ↦
            rw leads
              (elim (Bool-cases
                (is_suppressed (get (sensor_key report) c.last_sensor) report.value)) [
                  | inl quiet ↦ rw quiet (same c)
                  | inr loud ↦
                      rw loud (elim (Bool-cases (leb max_batch_size (length d.batch_buffer))) [
                        | inl full ↦ rw full (SameSpeech-trans buffered (flush_batch-silent env d))
                        | inr more ↦ rw more buffered
                      ])
                ])
        | inr follows ↦ rw follows (relay-silent report c)
      ]

  sensor_method-silent :
      (p : Protocol) (report : SensorDataReport) (c : Coordinator)
      → SameSpeech c (sensor_method p env sender report c)
  sensor_method-silent raft report c = base_sensor-silent report c
  sensor_method-silent echo report c = echo_sensor-silent report c
  sensor_method-silent echo_d report c = echod_sensor-silent report c

  pub sensor-silent :
      (report : SensorDataReport) (c : Coordinator)
      → SameSpeech c (handle_sensor_data env sender report c)
  unfolding handle_sensor_data
  sensor-silent report c = sensor_method-silent c.protocol report c
