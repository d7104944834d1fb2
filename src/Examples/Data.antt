-- ===== src/Examples/Data.antt =====
-- A cluster of three coordinators and a leaf, its nodes and their messages.
use echod.Prelude.{List, String, [], false, none, pos, some, true, ℕ, ◌∷◌}
use echod.Log.{ReplicatedLog}
use echod.Log.Commits.{Change, appends, commits, truncates}
use echod.Machine.{Event, idles, receives}
use echod.Messages.{
  AppendEntriesRpc, Command, LogEntry, Payload, RequestVoteResponse, RequestVoteRpc,
  SensorDataReport, candidate, delta, follower, join, leader, local_leader, reading,
}
use echod.Node.{Coordinator, Env, Peer, coordinator, echo_d, leaf}

abbrev pub peers : List Peer
peers =
    coordinator "c0" follower
    ∷ coordinator "c1" follower
    ∷ coordinator "c2" candidate
    ∷ leaf "l0"
    ∷ []

abbrev pub env : Env
env = record { now = 5_000_000_000; timeout_ms = 200; cluster = some peers }

abbrev pub crc32 : String → ℕ
crc32 name = 7

abbrev pub entry : ℕ → ℕ → LogEntry
entry i t = record {
  index = i;
  term = t;
  command = Command.client i;
  trigger_type = delta;
  partition_epoch = 0;
}

abbrev pub log : ReplicatedLog
log = record {
  entries = entry 1 1 ∷ entry 2 1 ∷ entry 3 2 ∷ [];
  commit_index = 1;
  last_applied = 1;
}

-- An echoD follower in term 2.
abbrev pub node : Coordinator
node = record {
  protocol = echo_d;
  node_id = "c0";
  battery = 700_000;
  current_term = 2;
  voted_for = none;
  log = log;
  state = follower;
  election_deadline = 6_000_000_000;
  votes_received = [];
  next_index = [];
  match_index = ("c1", 3) ∷ ("c2", 1) ∷ [];
  last_ping_time = 4_900_000_000;
  leaves = "l0" ∷ [];
  last_sensor = [];
  partition_epoch = 0;
  current_leader_id = none;
  peer_batteries = ("c1", 90) ∷ ("c2", 40) ∷ [];
  partition_detect_time = none;
  pending_triggers = (Command.client 8, delta) ∷ (Command.client 9, join) ∷ [];
  tie_break_ms = 7;
  batch_buffer = [];
  batch_deadline = none;
  ping_interval = 50;
  last_consensus_activity = 4_800_000_000;
  last_leaf_keepalive = 0;
  handoff_sent = false;
  outbox = [];
}

abbrev pub leading : Coordinator
leading = record node { state = leader }

abbrev pub request : String → RequestVoteRpc
request who = record {
  term = 3;
  candidate_id = who;
  last_log_index = 3;
  last_log_term = 2;
  battery_level = 60;
}

abbrev pub request_again : String → RequestVoteRpc
request_again who = record (request who) { battery_level = 59 }

abbrev pub calls : List (Env × Event)
calls =
    (
      env,
      receives (record {
        sender_id = "c1";
        recipient_id = "c0";
        payload = Payload.request_vote (request "c1");
      }),
    )
    ∷ (env, idles)
    ∷ []

-- Entry 3 of the log is replaced, and entry 4 added.
abbrev pub appends_two : AppendEntriesRpc
appends_two = record {
  term = 3;
  leader_id = "c1";
  prev_log_index = 2;
  prev_log_term = 1;
  entries = entry 3 3 ∷ entry 4 3 ∷ [];
  leader_commit = 3;
  trigger_type = delta;
  partition_epoch = 0;
}

abbrev pub campaigning : Coordinator
campaigning = record node { state = candidate; votes_received = ("c0", 70) ∷ [] }

abbrev pub granted_vote : RequestVoteResponse
granted_vote = record { term = 2; vote_granted = true; voter_id = "c1"; voter_battery = 90 }

abbrev pub changes : List Change
changes = commits 2 ∷ truncates 3 ∷ appends (entry 3 3) ∷ commits 9 ∷ []

-- A leader of echoD that has one reading in its batch buffer.
abbrev pub report : SensorDataReport
report = record { leaf_id = "l0"; sensor_type = "temp"; value = pos 21_500_000_000 }

abbrev pub buffering : Coordinator
buffering = record leading {
  last_sensor = ("l0:temp", pos 21_000_000_000) ∷ [];
  batch_buffer = reading (record report { value = pos 21_000_000_000 }) ∷ [];
  batch_deadline = some 5_040_000_000;
}

-- A local leader whose last entry is provisional.
abbrev pub provisional_leader : Coordinator
provisional_leader = record node {
  state = local_leader;
  partition_epoch = 1;
  log = record log { entries = entry 1 1 ∷ record (entry 2 1) { partition_epoch = 1 } ∷ [] };
}

abbrev pub draining : Coordinator
draining = record leading { battery = 160_000 }

abbrev pub weaker : Coordinator
weaker = record node { battery = 600_000; tie_break_ms = 0 }
