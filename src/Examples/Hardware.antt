-- ===== src/Examples/Hardware.antt =====
-- A Raspberry Pi coordinator.
use echod.Prelude.{List, [], false, map, some, ℕ, ◌++◌, ◌∷◌, ◌≡◌}
use echod.Election.{grants, handle_request_vote}
use echod.Examples.Data.{crc32, env, log, node, request}
use echod.Messages.{client}
use echod.Node.{echo_d}
use echod.Pi.{PiCoordinator, PiEnv, pi_create}
use echod.Pi.Simulated.{as_entry, as_simulated, pi_handle_request_vote-refines}
use echod.Pi.Votes.{pi_handle_request_vote, pi_vote_reply}
use echod.Replication.{adopt_term}
use echod.Wire.{PiEntry}

abbrev board_env : PiEnv
board_env = record {
  now = 5_000_000_000;
  level = 12;
  timeout = 2_500_000_000;
  demo = false;
  now_again = 5_000_000_100;
}

abbrev board_entry : ℕ → ℕ → ℕ → PiEntry
board_entry index term value = record {
  index = index;
  term = term;
  command = client value;
  trigger_type = "delta";
  partition_epoch = 0;
  timestamp = 1;
}

abbrev board_log : List PiEntry
board_log = board_entry 1 1 10 ∷ board_entry 2 1 20 ∷ board_entry 3 2 30 ∷ []

abbrev board : PiCoordinator
board = record (pi_create crc32 board_env echo_d "c0" ("c0" ∷ "c1" ∷ "c2" ∷ [])) {
  current_term = 2;
  log = board_log;
}

pi_handle_request_vote-refines_example :
    let d = pi_handle_request_vote board_env "c2" (request "c2") board in
    let s = as_simulated log node board in
    let e = handle_request_vote env "c2" (request "c2") s in
    (d.current_term ≡ e.current_term)
    × (d.voted_for ≡ e.voted_for)
    × (d.state ≡ e.state)
    × (map as_entry d.log ≡ e.log.entries)
    × (d.sent
        ≡ []
          ++ record {
            recipient_id = some "c2";
            payload = pi_vote_reply board_env (grants (request "c2") (adopt_term 3 s)) d;
          }
            ∷ [])
unfolding pi_create
pi_handle_request_vote-refines_example =
    pi_handle_request_vote-refines board_env env "c2" (request "c2") log node board
