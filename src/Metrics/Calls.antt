-- ===== src/Metrics/Calls.antt =====
-- Every call of the collector keeps its tallies.
use echod.Prelude.{
  Bool, Bool-cases, List, Option, [], ap, arith, false, inl, inr, none, refl, some, true, ℕ, ◌+◌,
  ◌∙◌, ◌∷◌, ◌≤◌,
}
use echod.Messages.{Message, NodeId}
use echod.Metrics.{
  ConsensusRound, MetricsCollector, is_last, is_success, new_collector, on_message, one_more,
  open_round, record_availability, record_leader_change, snapshot_energy, type_name,
}
use echod.Metrics.Recorded.{IsRecorded, call_all-IsRecorded}
use echod.Metrics.Tally.{
  Hook, IsOpen, IsOrdered, IsTallied, call, call_all, checked_up, clock, close_round-IsTallied,
  elected, message, one_more-IsOpen, one_more-messages, open_round-Opens, snapshot, sum_counts-put,
}
use echod.Prelude.Dict.{get_or, put}

on_message-IsTallied :
    (began now t : ℕ) (msg : Message) (m : MetricsCollector)
    → now ≤ t
    → IsTallied began now m
    → IsTallied began t (on_message t msg m)
unfolding on_message
on_message-IsTallied began now t msg m h k =
    let name = type_name msg.payload in
    let d = record m {
      total_messages = m.total_messages + 1;
      messages_by_type = put name (get_or name 0 m.messages_by_type + 1) m.messages_by_type;
      active_round = open_round t msg.payload (one_more m.active_round);
    } in
    let o =
      open_round-Opens t msg.payload (one_more m.active_round)
        (one_more-IsOpen now t m.active_round h k.opened) in
    let counted : IsTallied began t d = record {
      by_type = sum_counts-put name m.messages_by_type ∙ ap (λ (n : ℕ). n + 1) k.by_type;
      in_rounds = omega (arith, k.in_rounds, o.0, one_more-messages m.active_round);
      times = k.times;
      checked = omega (arith, k.checked, h);
      finished = k.finished;
      opened = o.1;
    } in
    elim (Bool-cases (is_success msg.payload)) [
      | inl s ↦ rw s (close_round-IsTallied began t d.active_round d refl counted)
      | inr s ↦ rw s counted
    ]

IsOpen-later : (now t : ℕ) (r : Option ConsensusRound) → now ≤ t → IsOpen now r → IsOpen t r
IsOpen-later now t none h k = tt
IsOpen-later now t (some r) h k = (k.0, omega (arith, k.1))

record_availability-IsTallied :
    (began now t : ℕ) (up : Bool) (m : MetricsCollector)
    → now ≤ t
    → IsTallied began now m
    → IsTallied began t (record_availability t up m)
unfolding record_availability
record_availability-IsTallied began now t true m h k = record {
  by_type = k.by_type;
  in_rounds = k.in_rounds;
  times = omega (arith, k.times, k.checked, h);
  checked = omega arith;
  finished = k.finished;
  opened = IsOpen-later now t m.active_round h k.opened;
}
record_availability-IsTallied began now t false m h k = record {
  by_type = k.by_type;
  in_rounds = k.in_rounds;
  times = omega (arith, k.times, k.checked, h);
  checked = omega arith;
  finished = k.finished;
  opened = IsOpen-later now t m.active_round h k.opened;
}

record_leader_change-IsTallied :
    (began now : ℕ) (i : NodeId) (m : MetricsCollector)
    → IsTallied began now m
    → IsTallied began now (record_leader_change i m)
unfolding record_leader_change
record_leader_change-IsTallied began now i m k = elim (Bool-cases (is_last i m.last_leader)) [
  | inl s ↦ rw s k
  | inr s ↦ rw s (record {
    by_type = k.by_type;
    in_rounds = k.in_rounds;
    times = k.times;
    checked = k.checked;
    finished = k.finished;
    opened = k.opened;
  })
]

call-IsTallied :
    (began now : ℕ) (h : Hook) (m : MetricsCollector)
    → now ≤ clock now h
    → IsTallied began now m
    → IsTallied began (clock now h) (call h m)
unfolding snapshot_energy
call-IsTallied began now (message t msg) m le k = on_message-IsTallied began now t msg m le k
call-IsTallied began now (elected i) m le k = record_leader_change-IsTallied began now i m k
call-IsTallied began now (snapshot i battery) m le k = record {
  by_type = k.by_type;
  in_rounds = k.in_rounds;
  times = k.times;
  checked = k.checked;
  finished = k.finished;
  opened = k.opened;
}
call-IsTallied began now (checked_up t up) m le k =
    record_availability-IsTallied began now t up m le k

abbrev pub last_clock : ℕ → List Hook → ℕ
last_clock now [] = now
last_clock now (h ∷ hs) = last_clock (clock now h) hs

call_all-IsTallied :
    (began now : ℕ) (hs : List Hook) (m : MetricsCollector)
    → IsOrdered now hs
    → IsTallied began now m
    → IsTallied began (last_clock now hs) (call_all hs m)
unfolding call_all
call_all-IsTallied began now [] m o k = k
call_all-IsTallied began now (h ∷ hs) m o k =
    call_all-IsTallied began (clock now h) hs (call h m) o.1 (call-IsTallied began now h m o.0 k)

-- Over any calls of a new collector whose clocks do not go back: it counts every message, by its
-- type too, and every report of a leader that differs from the one before it; the times with and
-- without a leader are those from each check to the one ahead of it, by the check's result; the counts by type add up to the
-- number of messages; the messages of the rounds, finished and active, are no more than that; the
-- times with and without a leader add up to the time from the start to the last check; every
-- finished round has a commit time, not before its trigger; and the active round has none.
pub call_all-new_collector-IsTallied :
    (began : ℕ) (hs : List Hook)
    → IsOrdered began hs
    → let d = call_all hs (new_collector began) in
      IsRecorded hs (new_collector began) d × IsTallied began (last_clock began hs) d
call_all-new_collector-IsTallied began hs o = (
  call_all-IsRecorded hs (new_collector began),
  call_all-IsTallied began began hs (new_collector began) o (record {
    by_type = refl;
    in_rounds = omega arith;
    times = omega arith;
    checked = omega arith;
    finished = tt;
    opened = tt;
  }),
)
