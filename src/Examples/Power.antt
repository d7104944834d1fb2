-- ===== src/Examples/Power.antt =====
-- A battery monitor.
use echod.Prelude.{List, [], arith, false, negsuc, pos, refl, ℕ, ◌*◌, ◌∷◌}
use echod.Monitor.{
  Call, create_monitor, monitor_calls, percent_steps, read_level, reads, sets_level, sets_rate,
}
use echod.Monitor.Level.{IsBetween0, read_level_bounds}

abbrev set_up : List (ℕ × Call)
set_up =
    (2_000_000_000, reads (pos 3_700_000))
    ∷ (3_000_000_000, sets_level (pos 7))
    ∷ (4_000_000_000, sets_rate (negsuc 5))
    ∷ []

read_level_bounds_example :
    IsBetween0 100
      (read_level 9_000_000_000 (pos 3_700_000) (
        monitor_calls set_up
          (create_monitor 1_000 false false (pos (90 * percent_steps)) (pos 20_000)))).1
read_level_bounds_example =
    read_level_bounds 1_000 false false (pos (90 * percent_steps)) (pos 20_000) set_up 9_000_000_000
      (pos 3_700_000) (refl, omega arith) refl
