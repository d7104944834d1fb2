-- ===== src/Monitor.antt =====
-- The battery monitor of the Raspberry Pi coordinators: rpi/coordinator/battery.py.
--
-- A drain rate is in millionths of a percent for each second and the clock in nanoseconds, so a level
-- is in steps of 1e-15 of a percent; both may be negative, as the constructor tests neither. Voltages
-- are in microvolts. The set-up of the hardware and the converter are outside: whether the one
-- succeeds, and the voltage that the other reads, are arguments. The lock makes each method atomic.
pub mod Level
use echod.Prelude.{
  Bool, List, [], false, if◌then◌else◌, min, negsuc, not, pos, pos_part, suc, zero, ℕ, ℤ, ◌&&◌, ◌*◌,
  ◌+ℤ◌, ◌-◌, ◌/◌, ◌||◌, ◌∷◌,
}
use echod.Metrics.Tally.{call}

-- One percent, and a hundred.
abbrev pub percent_steps : ℕ
percent_steps = 1_000_000_000_000_000

abbrev pub full_level : ℕ
full_level = 100 * percent_steps

pub record BatteryMonitor : Type 0 where
  pub mock : Bool
  pub level : ℤ
  pub drain_rate : ℤ
  pub mock_drain_paused : Bool
  pub last_read : ℕ
  pub adc : Bool

-- `BatteryMonitor(mock, initial_level, drain_rate)`; without hardware it falls back to mock mode.
unfoldable pub create_monitor : ℕ → Bool → Bool → ℤ → ℤ → BatteryMonitor
create_monitor now has_hardware mock initial_level drain_rate = record {
  mock = mock || not has_hardware;
  level = initial_level;
  drain_rate = drain_rate;
  mock_drain_paused = false;
  last_read = now;
  adc = not mock && has_hardware;
}

abbrev pub minus : ℕ → ℤ
minus zero = pos 0
minus (suc n) = negsuc n

-- int(x / step): the quotient, rounded toward 0
abbrev pub whole : ℕ → ℤ → ℤ
whole step (pos n) = pos (n / step)
whole step (negsuc n) = minus (suc n / step)

-- -(rate * elapsed)
abbrev pub lost_charge : ℤ → ℕ → ℤ
lost_charge (pos rate) elapsed = minus (rate * elapsed)
lost_charge (negsuc n) elapsed = pos (suc n * elapsed)

-- The level after the time since the last read.
abbrev pub lowered_level : ℕ → BatteryMonitor → ℤ
lowered_level now m =
    if m.mock_drain_paused
    then m.level
    else pos (pos_part (m.level +ℤ lost_charge m.drain_rate (now - m.last_read)))

unfoldable pub read_mock : ℕ → BatteryMonitor → BatteryMonitor × ℤ
read_mock now m =
    let level = lowered_level now m in
    (record m { level = level; last_read = now }, whole percent_steps level)

-- 3.0 V is empty and 4.2 V is full.
unfoldable pub read_real : ℤ → BatteryMonitor → ℤ
read_real voltage m =
    if m.adc then pos (min 100 (pos_part (whole 12_000 (voltage +ℤ minus 3_000_000)))) else pos 0

unfoldable pub read_level : ℕ → ℤ → BatteryMonitor → BatteryMonitor × ℤ
unfolding read_mock read_real
read_level now voltage m = if m.mock then read_mock now m else (m, read_real voltage m)

unfoldable pub set_mock_level : ℕ → ℤ → BatteryMonitor → BatteryMonitor
set_mock_level now level m =
    if not m.mock
    then m
    else record m { level = pos (min full_level (pos_part level)); last_read = now }

unfoldable pub set_mock_drain_rate : ℕ → ℤ → BatteryMonitor → BatteryMonitor
set_mock_drain_rate now rate m =
    if not m.mock then m else record m { drain_rate = pos (pos_part rate); last_read = now }

unfoldable pub set_mock_drain_paused : ℕ → Bool → BatteryMonitor → BatteryMonitor
set_mock_drain_paused now paused m =
    if not m.mock then m else record m { mock_drain_paused = paused; last_read = now }

-- A call at a time: a read, with the voltage at that time, or one of the setters.
pub data Call : Type 0 where
  reads : ℤ → Call
  sets_level : ℤ → Call
  sets_rate : ℤ → Call
  sets_paused : Bool → Call

unfoldable pub monitor_call : ℕ → Call → BatteryMonitor → BatteryMonitor
unfolding read_level set_mock_level set_mock_drain_rate set_mock_drain_paused
monitor_call now (reads voltage) m = (read_level now voltage m).0
monitor_call now (sets_level level) m = set_mock_level now level m
monitor_call now (sets_rate rate) m = set_mock_drain_rate now rate m
monitor_call now (sets_paused paused) m = set_mock_drain_paused now paused m

unfoldable pub monitor_calls : List (ℕ × Call) → BatteryMonitor → BatteryMonitor
unfolding monitor_call
monitor_calls [] m = m
monitor_calls ((now, call) ∷ rest) m = monitor_calls rest (monitor_call now call m)
