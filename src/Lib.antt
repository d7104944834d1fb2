-- ===== src/Lib.antt =====
-- The consensus core of echod: the simulation of Raft, ECHO and echoD, three leader-based consensus
-- protocols for battery-powered coordinators that collect the sensor readings of leaf nodes.
--
-- A coordinator (simulation/core/coordinator.py on simulation/core/node.py) keeps a replicated log
-- (simulation/core/log.py) and exchanges the messages of simulation/core/messages.py. RaftNode
-- (simulation/protocols/raft.py) adds heartbeats and client commands; EchoCoordinator
-- (simulation/protocols/echo.py) an energy gate on votes, rounds that are triggered by readings, and a
-- provisional mode under partitions; EchoDCoordinator (simulation/protocols/echod.py) batches,
-- battery-ordered timeouts, adaptive pings and a directed handoff. The message bus calls a node's
-- `handle_message`, its event loop `_on_idle`, and the driver its public methods.
--
-- Which file models which part:
--   Config: simulation/core/config.py. Messages: simulation/core/messages.py.
--   Log: ReplicatedLog; Log/Shape, Log/Order, Log/Commits prove.
--   Node: Node and the fields of all coordinator classes; Node/Battery proves.
--   Timers: `__init__`, `_new_election_deadline`, `reset_election_timer` and `_wakeup_interval` of
--     every class; Timers/Order proves.
--   Replication: `handle_append_entries` of CoordinatorNode, `handle_append_entries_response`,
--     `_try_advance_commit`, `replicate_entry`, `_send_append_entries`; Replication/Merge and
--     Replication/Commit prove.
--   Liveness: the pings, the keepalives and the registration of leaves; Liveness/Backoff proves.
--   Triggers: `trigger_consensus`, `_flush_pending_triggers`, `_flush_batch`; Triggers/Frame and
--     Triggers/Carried prove.
--   Election: `start_election`, the two vote handlers, `_has_majority`, `_become_leader`;
--     Election/Promotion, Ballots, Speech and Silence prove.
--   Sensors: `handle_sensor_data` of every class; Sensors/Delta and Sensors/Batch prove.
--   Provisional: `enter_provisional_mode`, `exit_provisional_mode`, `reconcile`, and the
--     `handle_append_entries` of EchoCoordinator; Provisional/Follower, Provisional/Reconcile prove.
--   Handoff: `_initiate_handoff`, `handle_leadership_handoff`; Handoff/Choice proves.
--   Dispatch: `handle_message` and `_on_idle` of every class; Dispatch/Votes, States, Invariant,
--     Silence, Ticks and Campaigns have the lemmas on one call.
--   Leaf: simulation/core/leaf.py and EchoDLeaf; Leaf/Binding and Leaf/Silence prove.
--   Bus: MessageBus, the partitions and the weighted battery ticks of simulation/core/cluster.py;
--     Bus/Routes proves.
--   Metrics: MetricsCollector of simulation/metrics/collector.py; Metrics/Tally, Recorded and Calls
--     prove.
--   Monitor: BatteryMonitor of rpi/coordinator/battery.py, with its own units; Monitor/Level proves.
--   Cluster: several coordinators together: a step is a call of one of them, among the messages that
--     have been sent; Cluster/Quorum, Ballots, Added, Steps, Counts and Safety prove.
--   Wire: the entries and payloads of rpi/coordinator/echo_node.py.
--   Pi: EchoCoordinator of rpi/coordinator/echo_node.py: its fields, sends, timers and battery gate;
--     Pi/Rounds: entries, `_replicate_entry`, `_flush_batch`, `_flush_pending_triggers` and
--     `_try_advance_commit`; Pi/Liveness: heartbeats, pings, keepalives and registrations; Pi/Votes:
--     elections; Pi/Append: `_handle_append_entries`, its answer and `_replay_provisional`; Pi/Sensors:
--     reports and `_handle_reconcile_batch`; Pi/Handoff; Pi/Partition: partition and demo commands;
--     Pi/Inbox: `_dispatch` and `_drain_inbox`; Pi/Loop: `_tick` and a round of `run`. Pi/Frame,
--     Handled, Received, Raised, Counted, Ticked, Ballots, Queue, Commit, Following, Accepting,
--     CatchUp, Delivered, Split, Replayed, Fresh, Reconciled and Simulated prove.
--   Machine: runs of calls; Machine/Votes, Revotes, States, Invariant, Turns and Campaigns prove.
--   Prelude: numbers, lists, tests and dictionaries. Examples: concrete nodes and runs.
--
-- How the state corresponds. One record has the fields of all three coordinator classes, and a tag
-- that says of which class the object is; a method that is overridden branches on the tag. A method
-- that a class lacks leaves the object as it is. A handler takes the environment of its call: the
-- clock, the number that `random.randint` draws, and the nodes of the cluster as the code looks at
-- them. It returns the new object, with what it has sent at the end of `outbox`, in order. Handlers
-- are atomic: the sends that they await never suspend. The hook of the bus, `on_message`, is taken to
-- leave the sender as it is, as the default does.
--
-- Exceptions. The one IndexError that a message can cause in the hardware coordinator, at an
-- AppendEntries entry of index 0, is the field `raised`: what follows it in the handlers and the loops
-- is not run.
--
-- Numbers. A battery of 1.0 is 1_000_000, so `int(battery * 100)` is a division by 10_000. Clocks are
-- in nanoseconds, ping intervals in milliseconds. Sensor values are integers in steps of 1e-9, and the
-- test of the relative difference is multiplied out. The rounding of floating-point numbers is not
-- modelled. `zlib.crc32` is a parameter of `create`. Wall-clock stamps and the empty signatures of the
-- messages are left out, as no protocol code reads them. In the hardware coordinator a message has the
-- keys of its type, and a set the order of its insertions; what `json.dumps` makes of a command is a
-- parameter. The averages of the metrics are ratios before the division.
--
-- Loops. Only the loop of `_drain_inbox` runs on fuel, and more fuel than messages wait is enough. The
-- others run along lists, and those of `_try_advance_commit` along the index that they count down.
--
-- In a cluster messages may be lost, repeated, delayed and reordered: a step hands a coordinator any
-- message that has been sent, or an idle call, with any environment. The batteries do not change
-- there, as a pass through the observer state frees a vote.
--
-- Not modelled: the event loop itself, the tasks and the failure injection of Cluster, the workload,
-- the command line, the status that a hardware coordinator publishes, its transport, and the other
-- programs of rpi, which are input and output.
mod Prelude
pub mod Config
pub mod Messages
pub mod Log
pub mod Node
pub mod Timers
pub mod Replication
pub mod Liveness
pub mod Triggers
pub mod Election
pub mod Sensors
pub mod Provisional
pub mod Handoff
pub mod Dispatch
pub mod Machine
pub mod Leaf
pub mod Bus
pub mod Metrics
pub mod Cluster
pub mod Monitor
pub mod Wire
pub mod Pi
mod Examples
