-- ===== src/Pi/Partition.antt =====
-- Partitions, provisional mode and the demo commands at the hardware coordinator,
-- rpi/coordinator/echo_node.py.
use echod.Prelude.{Bool, List, Option, [], false, if◌then◌else◌, none, some, true, ◌&&◌, ◌+◌, ◌∷◌}
use echod.Messages.{NodeId, follower, is_leader, is_local_leader, local_leader}
use echod.Node.{Protocol, raft}
use echod.Pi.{PiCoordinator, PiEnv, check_battery, others}
use echod.Prelude.Dict.{add, member}
use echod.Wire.{DemoControl, PartitionControl, blocked, heal, split, unknown_action, unknown_demo}

unfoldable pub pi_enter_provisional_mode : PiCoordinator → PiCoordinator
pi_enter_provisional_mode c = record c {
  partition_epoch = c.partition_epoch + 1;
  state = if is_leader c.state then local_leader else c.state;
}

unfoldable pub pi_exit_provisional_mode : PiCoordinator → PiCoordinator
pi_exit_provisional_mode c = record c {
  partition_epoch = 0;
  state = if is_local_leader c.state then follower else c.state;
}

abbrev pub unless_raft : Protocol → (PiCoordinator → PiCoordinator) → PiCoordinator → PiCoordinator
unless_raft raft f c = c
unless_raft p f c = f c

unfoldable pub includes : List NodeId → List NodeId → Bool
includes [] l = true
includes (k ∷ ks) l = let rest = includes ks l in if member k l then rest else false

-- set(group) == mine; a set is never equal to None
abbrev pub same_set : List NodeId → Option (List NodeId) → Bool
same_set group none = false
same_set group (some mine) = includes group mine && includes mine group

-- the last group that has the node
unfoldable pub own_group : NodeId → List (List NodeId) → Option (List NodeId)
own_group me [] = none
own_group me (group ∷ groups) = later (own_group me groups)
  where
    later : Option (List NodeId) → Option (List NodeId)
    later none = if member me group then some group else none
    later (some g) = some g

unfoldable pub add_all : List NodeId → List NodeId → List NodeId
add_all [] s = s
add_all (k ∷ ks) s = add_all ks (add k s)

unfoldable pub block_groups : Option (List NodeId) → List (List NodeId) → List NodeId → List NodeId
unfolding includes add_all
block_groups mine [] s = s
block_groups mine (group ∷ groups) s =
    block_groups mine groups (if same_set group mine then s else add_all group s)

abbrev pub discard_own : NodeId → Option (List NodeId) → List NodeId → List NodeId
discard_own me none s = s
discard_own me (some mine) s = others me s

-- Whom a node blocks when the cluster is split into groups.
unfoldable pub blocked_by : NodeId → List (List NodeId) → List NodeId
unfolding own_group block_groups
blocked_by me groups =
    let mine = own_group me groups in discard_own me mine (block_groups mine groups [])

unfoldable pub pi_handle_partition_control : PartitionControl → PiCoordinator → PiCoordinator
unfolding blocked_by add_all pi_enter_provisional_mode pi_exit_provisional_mode
pi_handle_partition_control (split gs) c =
    unless_raft c.protocol pi_enter_provisional_mode
      (record c { blocked_senders = blocked_by c.node_id gs })
pi_handle_partition_control (blocked nodes) c =
    unless_raft c.protocol pi_enter_provisional_mode
      (record c { blocked_senders = add_all nodes [] })
pi_handle_partition_control heal c =
    unless_raft c.protocol pi_exit_provisional_mode (record c { blocked_senders = [] })
pi_handle_partition_control unknown_action c = c

-- The command changes the battery monitor alone, so the level of the environment is the one after
-- it.
unfoldable pub pi_handle_demo_control : PiEnv → DemoControl → PiCoordinator → PiCoordinator
unfolding check_battery
pi_handle_demo_control env unknown_demo c = c
pi_handle_demo_control env p c = if env.demo then check_battery env c.protocol c else c
