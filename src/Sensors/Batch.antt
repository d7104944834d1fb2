-- ===== src/Sensors/Batch.antt =====
-- The batches of echoD.
use echod.Prelude.{
  Bool, Bool-cases, List, [], ap, append-nil, append_assoc, arith, eq_refl, if◌then◌else◌, inl, inr,
  leb, length, none, refl, some, sym, true, ◌++◌, ◌∙◌, ◌∷◌, ◌≡◌,
}
use echod.Config.{max_batch_size}
use echod.Messages.{Command, NodeId, SensorDataReport, delta, is_leading, reading}
use echod.Node.{Coordinator, Env, echo_d}
use echod.Prelude.Dict.{get, get-put}
use echod.Replication.{replicate_entry}
use echod.Sensors.{buffer_reading, handle_sensor_data, is_suppressed, sensor_key}
use echod.Triggers.{coalesce, flush_batch, flush_commands}
use echod.Triggers.Carried.{
  carried, carried-replicate_entry, singles, singles-append, singles-coalesce,
}

-- The commands that an object holds: those of its log, and those that wait in the batch buffer.
abbrev pub held : Coordinator → List Command
held c = carried c.log.entries ++ singles c.batch_buffer

held-flush_commands :
    (env : Env) (cs : List Command) (c : Coordinator)
    → c.batch_buffer ≡ cs
    → held (flush_commands env cs c) ≡ held c
unfolding singles
held-flush_commands env [] c h = refl
held-flush_commands env (x ∷ xs) c h =
    let d = record c {
      batch_buffer = [];
      batch_deadline = none;
      last_consensus_activity = env.now;
    } in
    let e = replicate_entry env (coalesce (x ∷ xs)) delta d in
    let emptied : e.batch_buffer ≡ [] = unfold replicate_entry in refl in
    ap (λ (l : List Command). carried e.log.entries ++ singles l) emptied
    ∙ append-nil (carried e.log.entries)
    ∙ carried-replicate_entry env (coalesce (x ∷ xs)) delta d
    ∙ ap (λ (l : List Command). carried c.log.entries ++ l) (singles-coalesce x xs)
    ∙ ap (λ (l : List Command). carried c.log.entries ++ singles l) (sym h)

closed-flush_commands :
    (env : Env) (cs : List Command) (c : Coordinator)
    → c.batch_buffer ≡ cs
    → let d = flush_commands env cs c in
      (d.batch_buffer ≡ []) × (d.batch_deadline ≡ none) × (d.last_sensor ≡ c.last_sensor)
closed-flush_commands env [] c h = (h, refl, refl)
closed-flush_commands env (x ∷ xs) c h = unfold replicate_entry in (refl, refl, refl)

-- Flushing a batch loses, doubles and reorders no command, and leaves the buffer empty and its
-- window closed.
flush_batch-keeps :
    (env : Env) (c : Coordinator)
    → let d = flush_batch env c in
      (held d ≡ held c)
      × (d.batch_buffer ≡ [])
      × (d.batch_deadline ≡ none)
      × (d.last_sensor ≡ c.last_sensor)
unfolding flush_batch
flush_batch-keeps env c =
    let closed = closed-flush_commands env c.batch_buffer c refl in
    (held-flush_commands env c.batch_buffer c refl, closed.0, closed.1, closed.2)

held-buffer_reading :
    (env : Env) (report : SensorDataReport) (c : Coordinator)
    → held (buffer_reading env report c) ≡ held c ++ reading report ∷ []
unfolding buffer_reading singles
held-buffer_reading env report c =
    ap (λ (l : List Command). carried c.log.entries ++ l)
      (singles-append c.batch_buffer (reading report ∷ []))
    ∙ ap (λ (l : List Command). carried c.log.entries ++ (singles c.batch_buffer ++ l)) refl
    ∙ sym (append_assoc (carried c.log.entries) (singles c.batch_buffer) (reading report ∷ []))

noted :
    (env : Env) (report : SensorDataReport) (c : Coordinator)
    → get (sensor_key report) (buffer_reading env report c).last_sensor ≡ some report.value
unfolding buffer_reading
noted env report c = simp (get-put, eq_refl)

abbrev pub suppresses : SensorDataReport → Coordinator → Bool
suppresses report c = is_suppressed (get (sensor_key report) c.last_sensor) report.value

module _ (env : Env) (sender : NodeId) (report : SensorDataReport) (c : Coordinator)
    (p : c.protocol ≡ echo_d) (l : is_leading c.state ≡ true) where
  -- the branches of the method for a leader
  sensor_branches : handle_sensor_data env sender report c ≡ (
      if suppresses report c
      then c
      else let d = buffer_reading env report c in
        if leb max_batch_size (length d.batch_buffer) then flush_batch env d else d)
  unfolding handle_sensor_data
  sensor_branches = ground arith

  -- A leader of echoD that gets a report: the commands of its log followed by those of its batch
  -- buffer, batches taken apart, grow at the end by the reading, or not at all if the delta test
  -- suppresses it; and the value of a reading that is let through is the next one's reference.
  pub echod_handle_sensor_data-keeps :
      let d = handle_sensor_data env sender report c in
      (held d ≡ held c ++ (if suppresses report c then [] else reading report ∷ []))
      × (get (sensor_key report) d.last_sensor ≡ (
          if suppresses report c then get (sensor_key report) c.last_sensor else some report.value))
  echod_handle_sensor_data-keeps =
      let b = buffer_reading env report c in
      let flushed = flush_batch-keeps env b in
      let grown = held-buffer_reading env report c in
      let seen = noted env report c in
      rw (sensor_branches) (elim (Bool-cases (suppresses report c)) [
        | inl yes_ ↦ rw yes_ (sym (append-nil (held c)), refl)
        | inr no_ ↦ rw no_ (elim (Bool-cases (leb max_batch_size (length b.batch_buffer))) [
          | inl full ↦ rw full (flushed.0 ∙ grown, ap (get (sensor_key report)) flushed.3 ∙ seen)
          | inr more ↦ rw more (grown, seen)
        ])
      ])
