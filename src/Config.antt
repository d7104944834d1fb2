-- ===== src/Config.antt =====
-- simulation/core/config.py. Durations are kept in the milliseconds of the source, percentages and
-- counts as they stand. `DELTA_THRESHOLD` is written as the denominator of 1/20, and
-- `LIVENESS_BACKOFF_FACTOR` as a whole number.
--
-- Batteries are kept in millionths of a full charge, points of time in nanoseconds, and sensor
-- readings in multiples of 1e-9, which is the floor that the delta test divides by.
use echod.Prelude.{ℕ}

abbrev pub election_timeout_min : ℕ
election_timeout_min = 150

abbrev pub election_timeout_max : ℕ
election_timeout_max = 300

abbrev pub liveness_ping_interval : ℕ
liveness_ping_interval = 50

abbrev pub partition_timeout : ℕ
partition_timeout = 2000

abbrev pub t_low : ℕ
t_low = 15

abbrev pub t_restore : ℕ
t_restore = 25

abbrev pub delta_threshold_inverse : ℕ
delta_threshold_inverse = 20

abbrev pub sample_interval : ℕ
sample_interval = 100

abbrev pub batch_window_ms : ℕ
batch_window_ms = 50

abbrev pub max_batch_size : ℕ
max_batch_size = 10

abbrev pub echod_ping_max_interval : ℕ
echod_ping_max_interval = 250

abbrev pub liveness_backoff_factor : ℕ
liveness_backoff_factor = 2

abbrev pub leaf_keepalive_interval : ℕ
leaf_keepalive_interval = 1000

abbrev pub echod_election_timeout_min : ℕ
echod_election_timeout_min = 300

abbrev pub echod_election_timeout_max : ℕ
echod_election_timeout_max = 600

abbrev pub election_tie_break_ms : ℕ
election_tie_break_ms = 30

abbrev pub t_handoff : ℕ
t_handoff = 20

-- 1.0 and 0.01 of a battery
abbrev pub full_charge : ℕ
full_charge = 1_000_000

abbrev pub one_percent : ℕ
one_percent = 10_000
