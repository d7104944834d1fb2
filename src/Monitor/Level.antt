-- ===== src/Monitor/Level.antt =====
-- The level that the monitor shows.
use echod.Prelude.{
  Bool, Bool-cases, List, [], arith, inl, inr, neg_part, negsuc, pos, pos_part, refl, suc, zero, ℕ,
  ℤ, ◌*◌, ◌+ℤ◌, ◌-◌, ◌∷◌, ◌≡◌, ◌≤◌,
}
use echod.Metrics.Tally.{call}
use echod.Monitor.{
  BatteryMonitor, Call, create_monitor, full_level, lost_charge, lowered_level, minus, monitor_call,
  monitor_calls, percent_steps, read_level, read_mock, read_real, reads, set_mock_drain_paused,
  set_mock_drain_rate, set_mock_level, sets_level, sets_paused, sets_rate, whole,
}

-- From 0 up to a bound.
abbrev pub IsBetween0 : ℕ → ℤ → Type 0
IsBetween0 bound z = (neg_part z ≡ 0) × (pos_part z ≤ bound)

-- The level is from 0 to 100 percent, and the drain rate is not negative.
abbrev IsMonitor : BatteryMonitor → Type 0
IsMonitor m = IsBetween0 full_level m.level × (neg_part m.drain_rate ≡ 0)

-- A rate that is not negative does not raise a level.
lost_charge-le :
    (level rate : ℤ) (elapsed : ℕ)
    → neg_part rate ≡ 0
    → pos_part (level +ℤ lost_charge rate elapsed) ≤ pos_part level
lost_charge-le level (negsuc n) elapsed h = absurd (omega (arith, h))
lost_charge-le level (pos r) elapsed h = by_minus level (r * elapsed)
  where
    by_minus : (z : ℤ) (n : ℕ) → pos_part (z +ℤ minus n) ≤ pos_part z
    by_minus (pos m) zero = omega arith
    by_minus (pos m) (suc n) = ground arith
    by_minus (negsuc m) zero = ground arith
    by_minus (negsuc m) (suc n) = ground arith

lowered_between :
    (now : ℕ) (m : BatteryMonitor) → IsMonitor m → IsBetween0 full_level (lowered_level now m)
lowered_between now m h = elim (Bool-cases m.mock_drain_paused) [
  | inl paused ↦ rw paused h.0
  | inr runs ↦
      rw runs
        (refl, omega (arith, lost_charge-le m.level m.drain_rate (now - m.last_read) h.1, h.0.1))
]

read_IsMonitor :
    (now : ℕ) (voltage : ℤ) (m : BatteryMonitor)
    → IsMonitor m
    → IsMonitor (read_level now voltage m).0
unfolding read_level read_mock
read_IsMonitor now voltage m h = elim (Bool-cases m.mock) [
  | inl mock ↦ rw mock (lowered_between now m h, h.1)
  | inr real ↦ rw real h
]

call_IsMonitor :
    (now : ℕ) (call : Call) (m : BatteryMonitor) → IsMonitor m → IsMonitor (monitor_call now call m)
unfolding monitor_call set_mock_level set_mock_drain_rate set_mock_drain_paused
call_IsMonitor now (reads voltage) m h = read_IsMonitor now voltage m h
call_IsMonitor now (sets_level level) m h = ground arith
call_IsMonitor now (sets_rate rate) m h = ground arith
call_IsMonitor now (sets_paused paused) m h = ground arith

calls_IsMonitor :
    (calls : List (ℕ × Call)) (m : BatteryMonitor) → IsMonitor m → IsMonitor (monitor_calls calls m)
unfolding monitor_calls
calls_IsMonitor [] m h = h
calls_IsMonitor ((now, call) ∷ rest) m h =
    calls_IsMonitor rest (monitor_call now call m) (call_IsMonitor now call m h)

whole_between : (z : ℤ) → IsBetween0 full_level z → IsBetween0 100 (whole percent_steps z)
whole_between (pos n) h = (refl, omega (arith, h.1))
whole_between (negsuc n) h = absurd (omega (arith, h.0))

shown_between :
    (now : ℕ) (voltage : ℤ) (m : BatteryMonitor)
    → IsMonitor m
    → IsBetween0 100 (read_level now voltage m).1
unfolding read_level read_mock read_real
shown_between now voltage m h = elim (Bool-cases m.mock) [
  | inl mock ↦ rw mock (whole_between (lowered_level now m) (lowered_between now m h))
  | inr real ↦ elim (Bool-cases m.adc) [
    | inl adc ↦ rw (real, adc) (refl, omega arith)
    | inr off ↦ rw (real, off) (refl, omega arith)
  ]
]

-- A monitor that is made with a level from 0 to 100 percent and a drain rate that is not negative
-- shows a level from 0 to 100 at any time and any voltage, with or without hardware, whatever levels
-- and rates have been set before.
pub read_level_bounds :
    (now_made : ℕ) (has_hardware mock : Bool) (initial rate : ℤ) (calls : List (ℕ × Call)) (now : ℕ)
    (voltage : ℤ)
    → IsBetween0 full_level initial
    → neg_part rate ≡ 0
    → IsBetween0 100
        (read_level now voltage
          (monitor_calls calls (create_monitor now_made has_hardware mock initial rate))).1
read_level_bounds now_made has_hardware mock initial rate calls now voltage h k =
    let m = create_monitor now_made has_hardware mock initial rate in
    shown_between now voltage (monitor_calls calls m)
      (calls_IsMonitor calls m (unfold create_monitor in (h, k)))
