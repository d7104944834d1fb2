-- ===== src/Pi.antt =====
-- State, sends, timers and the battery gate of the Raspberry Pi coordinator: `EchoCoordinator` of
-- rpi/coordinator/echo_node.py, with the parameters of rpi/config.py that it reads. One class runs
-- all three protocols, by its `protocol`; the children hold its handlers.
--
-- A record holds the fields, but for the transport, the battery monitor and the event loop. What is
-- sent is added to `sent`, in order, and the queue between the two threads is a list. The
-- environment of a call has the clock in nanoseconds, the level that the battery monitor shows, the
-- timeout that `random.uniform` draws, whether a demo may set the mock battery, and what the clock
-- shows at the second reading in `_become_leader`. `T_LOW` and `T_RESTORE` are those of
-- simulation/core/config.py. The field `raised` says that the handler at work has raised an
-- IndexError, which nothing catches: the callers above it go no further.
pub mod Rounds
pub mod Liveness
pub mod Votes
pub mod Append
pub mod Sensors
pub mod Handoff
pub mod Partition
pub mod Inbox
pub mod Loop
pub mod Frame
pub mod Handled
pub mod Received
pub mod Raised
pub mod Counted
pub mod Ticked
pub mod Queue
pub mod Ballots
pub mod Commit
pub mod Following
pub mod Accepting
pub mod CatchUp
pub mod Delivered
pub mod Split
pub mod Replayed
pub mod Fresh
pub mod Reconciled
pub mod Simulated
use echod.Prelude.{
  Bool, List, Option, String, [], false, if◌then◌else◌, leb, ltb, none, not, some, ℕ, ℤ, ◌%◌, ◌&&◌,
  ◌*◌, ◌++◌, ◌+◌, ◌-◌, ◌==◌, ◌∷◌,
}
use echod.Config.{t_low, t_restore}
use echod.Messages.{Command, NodeId, NodeState, follower, is_observer, observer}
use echod.Node.{Protocol, demote, echo_d, ms, raft}
use echod.Prelude.Dict.{Dict, get_or, put}
use echod.Wire.{PiEntry, PiMessage, PiPayload, type_of}

pub record PiEnv : Type 0 where
  pub now : ℕ
  pub level : ℕ
  pub timeout : ℕ
  pub demo : Bool
  pub now_again : ℕ

pub record PiCoordinator : Type 0 where
  pub protocol : Protocol
  pub node_id : NodeId
  pub peers : List NodeId
  pub tie_break_ms : ℕ
  pub state : NodeState
  pub current_term : ℕ
  pub voted_for : Option NodeId
  pub log : List PiEntry
  pub commit_index : ℕ
  pub votes : Dict ℕ
  pub election_deadline : ℕ
  pub next_index : Dict ℕ
  pub match_index : Dict ℕ
  pub last_ping_time : ℕ
  pub leaves : List NodeId
  pub last_sensor : Dict ℤ
  pub current_leader_id : Option NodeId
  pub pending_triggers : List (Command × String)
  pub partition_epoch : ℕ
  pub batch_buffer : List Command
  pub batch_deadline : Option ℕ
  pub ping_interval : ℕ
  pub last_consensus_activity : ℕ
  pub last_leaf_keepalive : ℕ
  pub peer_batteries : Dict ℕ
  pub handoff_sent : Bool
  pub total_messages_sent : ℕ
  pub total_messages_received : ℕ
  pub messages_sent_by_type : Dict ℕ
  pub messages_recv_by_type : Dict ℕ
  pub leader_changes : ℕ
  pub pending_latency : List (ℕ × ℕ)
  pub latencies : List ℕ
  pub blocked_senders : List NodeId
  pub recent_reconciles : List String
  pub running : Bool
  pub inbox : Option (List (NodeId × PiPayload))
  pub sent : List PiMessage
  pub raised : Bool

abbrev pub counted : String → Dict ℕ → Dict ℕ
counted msg_type d = put msg_type (get_or msg_type 0 d + 1) d

abbrev pub transmit : Option NodeId → PiPayload → PiCoordinator → PiCoordinator
transmit recipient payload c = record c {
  sent = c.sent ++ record { recipient_id = recipient; payload = payload } ∷ [];
  total_messages_sent = c.total_messages_sent + 1;
  messages_sent_by_type = counted (type_of payload) c.messages_sent_by_type;
}

-- _send and _broadcast
unfoldable pub pi_send : NodeId → PiPayload → PiCoordinator → PiCoordinator
pi_send recipient payload c = transmit (some recipient) payload c

unfoldable pub pi_broadcast : PiPayload → PiCoordinator → PiCoordinator
pi_broadcast payload c = transmit none payload c

-- ECHOD_ELECTION_TIMEOUT_MIN is 2.4 s, and MAX 4.8 s.
abbrev pub pi_timeout : Protocol → PiEnv → ℕ → ℕ
pi_timeout echo_d env tie_break_ms =
    2_400_000_000 + (100 - env.level) * 24_000_000 + ms tie_break_ms
pi_timeout _ env tie_break_ms = env.timeout

-- [p for p in peers if p != node_id]
abbrev pub others : NodeId → List NodeId → List NodeId
others me [] = []
others me (p ∷ ps) = if p == me then others me ps else p ∷ others me ps

-- A new object; `crc32` is zlib's, of the encoded name. The ping interval is in nanoseconds.
unfoldable pub pi_create : (String → ℕ) → PiEnv → Protocol → NodeId → List NodeId → PiCoordinator
pi_create crc32 env protocol node_id peers =
    let tie_break = crc32 node_id % 150 in
    record {
      protocol = protocol;
      node_id = node_id;
      peers = others node_id peers;
      tie_break_ms = tie_break;
      state = follower;
      current_term = 0;
      voted_for = none;
      log = [];
      commit_index = 0;
      votes = [];
      election_deadline = env.now + pi_timeout protocol env tie_break;
      next_index = [];
      match_index = [];
      last_ping_time = 0;
      leaves = [];
      last_sensor = [];
      current_leader_id = none;
      pending_triggers = [];
      partition_epoch = 0;
      batch_buffer = [];
      batch_deadline = none;
      ping_interval = 250_000_000;
      last_consensus_activity = env.now;
      last_leaf_keepalive = 0;
      peer_batteries = [];
      handoff_sent = false;
      total_messages_sent = 0;
      total_messages_received = 0;
      messages_sent_by_type = [];
      messages_recv_by_type = [];
      leader_changes = 0;
      pending_latency = [];
      latencies = [];
      blocked_senders = [];
      recent_reconciles = [];
      running = false;
      inbox = none;
      sent = [];
      raised = false;
    }

unfoldable pub pi_reset_election_timer : PiEnv → PiCoordinator → PiCoordinator
pi_reset_election_timer env c = record c {
  election_deadline = env.now + pi_timeout c.protocol env c.tie_break_ms;
}

abbrev pub gated : PiEnv → PiCoordinator → PiCoordinator
gated env c =
    if ltb env.level t_low && not (is_observer c.state)
    then record c { state = observer; voted_for = none }
    else if leb t_restore env.level && is_observer c.state
    then record c { state = follower }
    else c

unfoldable pub check_battery : PiEnv → Protocol → PiCoordinator → PiCoordinator
check_battery env raft c = c
check_battery env p c = gated env c

unfoldable pub pi_step_down : PiEnv → ℕ → PiCoordinator → PiCoordinator
unfolding pi_reset_election_timer
pi_step_down env new_term c =
    let d = record c { current_term = new_term; voted_for = none; state = demote c.state } in
    if not (is_observer d.state) then pi_reset_election_timer env d else d

-- `_send` of one payload to each node of a list
unfoldable pub pi_send_each : List NodeId → PiPayload → PiCoordinator → PiCoordinator
unfolding pi_send
pi_send_each [] payload c = c
pi_send_each (peer ∷ peers) payload c = pi_send_each peers payload (pi_send peer payload c)

abbrev pub pi_adopt_term : PiEnv → ℕ → PiCoordinator → PiCoordinator
pi_adopt_term env term c = if ltb c.current_term term then pi_step_down env term c else c
