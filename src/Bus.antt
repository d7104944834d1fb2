-- ===== src/Bus.antt =====
-- The message bus, and what the cluster does to it and to batteries: simulation/core/cluster.py.
-- A bus holds the inboxes of the registered nodes. The hook `on_message` is not set.
pub mod Routes
use echod.Prelude.{
  Bool, List, Option, [], false, if◌then◌else◌, none, not, pos, some, true, ℕ, ◌&&◌, ◌*◌, ◌++◌, ◌+◌,
  ◌∷◌,
}
use echod.Machine.{partitions}
use echod.Messages.{Message, NodeId, NodeState, candidate, follower, leader, local_leader, observer}
use echod.Node.{Coordinator, tick_battery}
use echod.Prelude.Dict.{Dict, get, member, put}

pub record Bus : Type 0 where
  pub inboxes : Dict (List Message)
  pub partitions : List (List NodeId)
  pub total_messages : ℕ

abbrev pub new_bus : Bus
new_bus = record { inboxes = []; partitions = []; total_messages = 0 }

-- A node is registered with the inbox that it has.
unfoldable pub register : NodeId → List Message → Bus → Bus
register i inbox bus = record bus { inboxes = put i inbox bus.inboxes }

unfoldable pub set_partitions : List (List NodeId) → Bus → Bus
set_partitions groups bus = record bus { partitions = groups }

unfoldable pub clear_partitions : Bus → Bus
clear_partitions bus = record bus { partitions = [] }

unfoldable pub in_one_group : List (List NodeId) → NodeId → NodeId → Bool
in_one_group [] src dst = false
in_one_group (group ∷ groups) src dst =
    let rest = in_one_group groups src dst in
    if member src group && member dst group then true else rest

-- Without partitions every node reaches every node.
abbrev pub reaches : List (List NodeId) → NodeId → NodeId → Bool
reaches [] src dst = true
reaches (group ∷ groups) src dst = in_one_group (group ∷ groups) src dst

unfoldable pub can_reach : Bus → NodeId → NodeId → Bool
unfolding in_one_group
can_reach bus src dst = reaches bus.partitions src dst

abbrev pub route_to : Option (List Message) → Message → Bus → Bus × Bool
route_to none msg bus = (bus, false)
route_to (some inbox) msg bus =
    if not (can_reach bus msg.sender_id msg.recipient_id) then (bus, false) else (
      record bus {
        inboxes = put msg.recipient_id (inbox ++ msg ∷ []) bus.inboxes;
        total_messages = bus.total_messages + 1;
      },
      true,
    )

-- MessageBus.route: the new bus, and whether the message was delivered.
unfoldable pub route : Message → Bus → Bus × Bool
unfolding can_reach
route msg bus = route_to (get msg.recipient_id bus.inboxes) msg bus

-- The messages of an outbox, in order.
unfoldable pub route_all : List Message → Bus → Bus
unfolding route
route_all [] bus = bus
route_all (msg ∷ msgs) bus = route_all msgs (route msg bus).0

-- Cluster.inject_partition and Cluster.heal_partition
unfoldable pub inject_partition : List NodeId → List NodeId → Bus → Bus
unfolding set_partitions
inject_partition group_a group_b bus = set_partitions (group_a ∷ group_b ∷ []) bus

unfoldable pub heal_partition : Bus → Bus
unfolding clear_partitions
heal_partition bus = clear_partitions bus

-- The DRAIN_MULT_* factors of a coordinator, in tenths.
abbrev pub drain_tenths : NodeState → ℕ
drain_tenths leader = 30
drain_tenths local_leader = 30
drain_tenths candidate = 20
drain_tenths observer = 2
drain_tenths follower = 10

-- One round of Cluster.tick_batteries_weighted for a coordinator. `base` is the drain in steps of ten
-- millionths of a full charge, so that a tenth of it is a whole number of millionths.
unfoldable pub tick_weighted : ℕ → Coordinator → Coordinator
unfolding tick_battery
tick_weighted base c = tick_battery (pos (base * drain_tenths c.state)) c

unfoldable pub tick_all_weighted : ℕ → List Coordinator → List Coordinator
unfolding tick_weighted
tick_all_weighted base [] = []
tick_all_weighted base (c ∷ cs) = tick_weighted base c ∷ tick_all_weighted base cs
