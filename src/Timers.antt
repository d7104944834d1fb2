-- ===== src/Timers.antt =====
-- Election deadlines and wake-up times: the timer methods of simulation/core/node.py,
-- simulation/core/coordinator.py and simulation/protocols/echod.py.
pub mod Order
use echod.Log
use echod.Prelude.{
  Option, String, [], false, if◌then◌else◌, max, min, none, some, ℕ, ◌%◌, ◌*◌, ◌+◌, ◌-◌,
}
use echod.Config.{
  echod_election_timeout_max, echod_election_timeout_min, election_tie_break_ms, full_charge,
  liveness_ping_interval,
}
use echod.Messages.{NodeId, follower, is_leading, is_observer}
use echod.Node.{Coordinator, Env, Protocol, echo, echo_d, ms, raft}

-- MIN + (1.0 - battery) * spread + tie-break, in nanoseconds. A millionth of `spread` milliseconds
-- is `spread` nanoseconds.
unfoldable pub battery_timeout : ℕ → ℕ → ℕ
battery_timeout battery tie_break_ms =
    ms echod_election_timeout_min
    + (full_charge - battery) * (echod_election_timeout_max - echod_election_timeout_min)
    + ms tie_break_ms

unfoldable pub new_election_deadline : Protocol → Env → ℕ → ℕ → ℕ
unfolding battery_timeout
new_election_deadline raft env battery tie_break_ms = env.now + ms env.timeout_ms
new_election_deadline echo env battery tie_break_ms = env.now + ms env.timeout_ms
new_election_deadline echo_d env battery tie_break_ms =
    env.now + battery_timeout battery tie_break_ms

unfoldable pub reset_election_timer : Env → Coordinator → Coordinator
reset_election_timer env c = record c {
  election_deadline = new_election_deadline c.protocol env c.battery c.tie_break_ms;
}

-- A new object of each class. `crc32` is zlib's, of the encoded name.
unfoldable pub create : (String → ℕ) → Env → Protocol → NodeId → ℕ → Coordinator
create crc32 env protocol node_id battery =
    let tie_break = crc32 node_id % election_tie_break_ms in
    record {
      protocol = protocol;
      node_id = node_id;
      battery = battery;
      current_term = 0;
      voted_for = none;
      log = Log.empty;
      state = follower;
      election_deadline = new_election_deadline protocol env battery tie_break;
      votes_received = [];
      next_index = [];
      match_index = [];
      last_ping_time = 0;
      leaves = [];
      last_sensor = [];
      partition_epoch = 0;
      current_leader_id = none;
      peer_batteries = [];
      partition_detect_time = none;
      pending_triggers = [];
      tie_break_ms = tie_break;
      batch_buffer = [];
      batch_deadline = none;
      ping_interval = liveness_ping_interval;
      last_consensus_activity = env.now;
      last_leaf_keepalive = 0;
      handoff_sent = false;
      outbox = [];
    }

-- The poll quantum of 50 ms, and the least wait of 1 ms.
abbrev pub poll_quantum : ℕ
poll_quantum = ms 50

abbrev pub least_wait : ℕ
least_wait = ms 1

-- min(wake, max(0.001, deadline - now)); a deadline that is past gives the least wait
abbrev pub wake_by : ℕ → ℕ → ℕ → ℕ
wake_by deadline now wake = min wake (max least_wait (deadline - now))

abbrev pub wake_by? : Option ℕ → ℕ → ℕ → ℕ
wake_by? none now wake = wake
wake_by? (some deadline) now wake = wake_by deadline now wake

-- CoordinatorNode._wakeup_interval
unfoldable pub election_wakeup : Env → Coordinator → ℕ
election_wakeup env c =
    if is_leading c.state
    then poll_quantum
    else if is_observer c.state
    then poll_quantum
    else max least_wait (min poll_quantum (c.election_deadline - env.now))

abbrev pub wakeup_of : Protocol → Env → Coordinator → ℕ
wakeup_of echo_d env c =
    if is_leading c.state
    then wake_by (c.last_ping_time + ms c.ping_interval) env.now
        (wake_by? c.batch_deadline env.now (election_wakeup env c))
    else election_wakeup env c
wakeup_of _ env c = election_wakeup env c

unfoldable pub wakeup_interval : Env → Coordinator → ℕ
unfolding election_wakeup
wakeup_interval env c = wakeup_of c.protocol env c
