-- ===== src/Node.antt =====
-- simulation/core/node.py and the fields of the coordinator classes (simulation/core/coordinator.py,
-- simulation/protocols/*.py). One record holds the fields of all three classes; the tag `protocol`
-- says which class an object is of, and the overridden methods branch on it.
--
-- A handler takes the environment of the call and returns the new object. What it sends is added to
-- `outbox`, in the order of the calls of the message bus.
pub mod Battery
use echod.Log
use echod.Prelude.{
  Bool, List, Option, [], if◌then◌else◌, leb, ltb, min, neg_part, none, not, pos_part, some, ℕ, ℤ,
  ◌&&◌, ◌*◌, ◌++◌, ◌+◌, ◌-◌, ◌/◌, ◌==◌, ◌∷◌,
}
use echod.Config.{full_charge, one_percent, t_low, t_restore}
use echod.Log.{ReplicatedLog}
use echod.Messages.{
  Command, Message, NodeId, NodeState, Payload, TriggerType, candidate, follower, is_observer,
  leader, local_leader, observer,
}
use echod.Prelude.Dict.{Dict}

-- RaftNode, EchoCoordinator and EchoDCoordinator
pub data Protocol : Type 0 where
  raft echo echo_d : Protocol

-- A node of `cluster.nodes`, as the handlers look at it.
pub data Peer : Type 0 where
  coordinator : NodeId → NodeState → Peer
  leaf : NodeId → Peer

-- What a handler reads from outside: the clock in nanoseconds (a handler never waits, so it runs at
-- one reading of the clock), the number that `random.randint` draws, and `self.cluster`.
pub record Env : Type 0 where
  pub now : ℕ
  pub timeout_ms : ℕ
  pub cluster : Option (List Peer)

abbrev pub ms : ℕ → ℕ
ms n = n * 1_000_000

pub record Coordinator : Type 0 where
  pub protocol : Protocol
  pub node_id : NodeId
  pub battery : ℕ
  pub current_term : ℕ
  pub voted_for : Option NodeId
  pub log : ReplicatedLog
  pub state : NodeState
  pub election_deadline : ℕ
  pub votes_received : Dict ℕ
  pub next_index : Dict ℕ
  pub match_index : Dict ℕ
  pub last_ping_time : ℕ
  pub leaves : List NodeId
  pub last_sensor : Dict ℤ
  pub partition_epoch : ℕ
  pub current_leader_id : Option NodeId
  pub peer_batteries : Dict ℕ
  pub partition_detect_time : Option ℕ
  pub pending_triggers : List (Command × TriggerType)
  pub tie_break_ms : ℕ
  pub batch_buffer : List Command
  pub batch_deadline : Option ℕ
  pub ping_interval : ℕ
  pub last_consensus_activity : ℕ
  pub last_leaf_keepalive : ℕ
  pub handoff_sent : Bool
  pub outbox : List Message

-- int(self.battery * 100)
abbrev pub percent : ℕ → ℕ
percent battery = battery / one_percent

-- The nodes of the cluster; none, if the node is in no cluster.
abbrev pub members : Option (List Peer) → List Peer
members none = []
members (some ps) = ps

abbrev pub all_except : NodeId → List Peer → List NodeId
all_except me [] = []
all_except me (coordinator i s ∷ ps) = if i == me then all_except me ps else i ∷ all_except me ps
all_except me (leaf i ∷ ps) = if i == me then all_except me ps else i ∷ all_except me ps

-- the nodes with `tier == "coordinator"`, but for the node itself
abbrev pub coordinators_except : NodeId → List Peer → List NodeId
coordinators_except me [] = []
coordinators_except me (coordinator i s ∷ ps) =
    if i == me then coordinators_except me ps else i ∷ coordinators_except me ps
coordinators_except me (leaf i ∷ ps) = coordinators_except me ps

abbrev pub address : NodeId → List NodeId → Payload → List Message
address me [] p = []
address me (i ∷ is) p = record { sender_id = me; recipient_id = i; payload = p } ∷ address me is p

-- `send` does nothing while the node has no cluster.
abbrev pub sendable : Option (List Peer) → List Message → List Message
sendable none out = []
sendable (some ps) out = out

-- A run of `send` calls.
unfoldable pub post : Env → List Message → Coordinator → Coordinator
post env out c = record c { outbox = c.outbox ++ sendable env.cluster out }

unfoldable pub send : Env → NodeId → Payload → Coordinator → Coordinator
unfolding post
send env recipient p c = post env (address c.node_id (recipient ∷ []) p) c

unfoldable pub broadcast : Env → Payload → Coordinator → Coordinator
unfolding post
broadcast env p c = post env (address c.node_id (all_except c.node_id (members env.cluster)) p) c

-- self.battery - delta, held between 0.0 and 1.0
abbrev pub drained : ℕ → ℤ → ℕ
drained battery change = min full_charge (battery + neg_part change - pos_part change)

unfoldable pub tick_battery : ℤ → Coordinator → Coordinator
tick_battery change c =
    let b = drained c.battery change in
    if ltb b (t_low * one_percent) && not (is_observer c.state)
    then record c { battery = b; state = observer; voted_for = none }
    else if leb (t_restore * one_percent) b && is_observer c.state
    then record c { battery = b; state = follower }
    else record c { battery = b }

abbrev pub demote : NodeState → NodeState
demote candidate = follower
demote leader = follower
demote local_leader = follower
demote s = s

unfoldable pub step_down : ℕ → Coordinator → Coordinator
step_down new_term c = record c {
  current_term = new_term;
  voted_for = none;
  state = demote c.state;
}
