-- ===== src/Examples/Reports.antt =====
-- A run of the metrics collector.
use echod.Prelude.{List, [], arith, false, true, ◌∷◌}
use echod.Examples.Data.{entry}
use echod.Messages.{Message, Payload, delta}
use echod.Metrics.{new_collector}
use echod.Metrics.Calls.{call_all-new_collector-IsTallied}
use echod.Metrics.Recorded.{IsRecorded}
use echod.Metrics.Tally.{Hook, IsTallied, call_all, checked_up, elected, message, snapshot}

abbrev from_leader : Payload → Message
from_leader payload = record { sender_id = "c1"; recipient_id = "c0"; payload = payload }

abbrev round_request : Payload
round_request = Payload.append_entries (record {
  term = 2;
  leader_id = "c1";
  prev_log_index = 0;
  prev_log_term = 0;
  entries = entry 1 2 ∷ [];
  leader_commit = 0;
  trigger_type = delta;
  partition_epoch = 0;
})

abbrev round_answer : Payload
round_answer = Payload.append_entries_response (record {
  term = 2;
  success = true;
  responder_id = "c0";
  match_index = 1;
  responder_battery = 70;
})

abbrev day : List Hook
day =
    elected "c1"
    ∷ message 120 (from_leader round_request)
    ∷ message 150 (from_leader round_answer)
    ∷ snapshot "c1" 900_000
    ∷ checked_up 200 true
    ∷ message 230 (from_leader round_request)
    ∷ checked_up 260 false
    ∷ []

call_all-new_collector-IsTallied_example :
    let d = call_all day (new_collector 100) in
    IsRecorded day (new_collector 100) d × IsTallied 100 260 d
call_all-new_collector-IsTallied_example = call_all-new_collector-IsTallied 100 day (
  omega arith,
  (omega arith, (omega arith, (omega arith, (omega arith, (omega arith, (omega arith, tt)))))),
)
