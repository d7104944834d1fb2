-- ===== src/Pi/Counted.antt =====
-- What every message of the hardware coordinator leaves alone, demo commands too.
use echod.Prelude.{String, arith, if◌then◌else◌, refl, ◌≡◌, ◌≤◌}
use echod.Messages.{Command, NodeId}
use echod.Node.{Protocol, echo, echo_d, raft}
use echod.Pi.{PiCoordinator, PiEnv, check_battery}
use echod.Pi.Frame.{Stored}
use echod.Pi.Inbox.{pi_handle}
use echod.Pi.Partition.{pi_handle_demo_control}
use echod.Pi.Received.{pi_handle-Stored}
use echod.Wire.{DemoControl, PiPayload, set_battery, set_drain_paused, set_drain_rate, unknown_demo}

-- What every message, a demo command too, leaves alone.
pub record Counted (c d : PiCoordinator) : Type 0 where
  pub inbox : d.inbox ≡ c.inbox
  pub received : d.total_messages_received ≡ c.total_messages_received
  pub current_term : c.current_term ≤ d.current_term

Stored-Counted : (c d : PiCoordinator) → Stored c d → Counted c d
Stored-Counted c d h = record {
  inbox = h.inbox;
  received = h.received;
  current_term = h.current_term;
}

check_battery-Counted :
    (env : PiEnv) (p : Protocol) (c : PiCoordinator) → Counted c (check_battery env p c)
unfolding check_battery
check_battery-Counted env raft c = ground arith
check_battery-Counted env echo c = ground arith
check_battery-Counted env echo_d c = ground arith

demo-Counted :
    (env : PiEnv) (c : PiCoordinator)
    → Counted c (if env.demo then check_battery env c.protocol c else c)
demo-Counted env c = ground (arith, check_battery-Counted env c.protocol c)

pi_handle_demo_control-Counted :
    (env : PiEnv) (p : DemoControl) (c : PiCoordinator) → Counted c (pi_handle_demo_control env p c)
unfolding pi_handle_demo_control
pi_handle_demo_control-Counted env set_battery c = demo-Counted env c
pi_handle_demo_control-Counted env set_drain_rate c = demo-Counted env c
pi_handle_demo_control-Counted env set_drain_paused c = demo-Counted env c
pi_handle_demo_control-Counted env unknown_demo c = ground arith

pub pi_handle-Counted :
    (dumps : Command → String) (env : PiEnv) (sender : NodeId) (payload : PiPayload)
    (c : PiCoordinator)
    → Counted c (pi_handle dumps env sender payload c)
pi_handle-Counted dumps env sender (PiPayload.demo_control p) c =
    unfold pi_handle in pi_handle_demo_control-Counted env p c
pi_handle-Counted dumps env sender (PiPayload.request_vote p) c =
    Stored-Counted c _ (pi_handle-Stored dumps env sender (PiPayload.request_vote p) c refl)
pi_handle-Counted dumps env sender (PiPayload.vote_response p) c =
    Stored-Counted c _ (pi_handle-Stored dumps env sender (PiPayload.vote_response p) c refl)
pi_handle-Counted dumps env sender (PiPayload.append_entries p) c =
    Stored-Counted c _ (pi_handle-Stored dumps env sender (PiPayload.append_entries p) c refl)
pi_handle-Counted dumps env sender (PiPayload.append_response p) c =
    Stored-Counted c _ (pi_handle-Stored dumps env sender (PiPayload.append_response p) c refl)
pi_handle-Counted dumps env sender (PiPayload.liveness_ping p) c =
    Stored-Counted c _ (pi_handle-Stored dumps env sender (PiPayload.liveness_ping p) c refl)
pi_handle-Counted dumps env sender (PiPayload.leaf_register p) c =
    Stored-Counted c _ (pi_handle-Stored dumps env sender (PiPayload.leaf_register p) c refl)
pi_handle-Counted dumps env sender (PiPayload.leaf_register_response p) c =
    Stored-Counted c _
      (pi_handle-Stored dumps env sender (PiPayload.leaf_register_response p) c refl)
pi_handle-Counted dumps env sender (PiPayload.sensor_data p) c =
    Stored-Counted c _ (pi_handle-Stored dumps env sender (PiPayload.sensor_data p) c refl)
pi_handle-Counted dumps env sender (PiPayload.leadership_handoff p) c =
    Stored-Counted c _ (pi_handle-Stored dumps env sender (PiPayload.leadership_handoff p) c refl)
pi_handle-Counted dumps env sender (PiPayload.reconcile_batch p) c =
    Stored-Counted c _ (pi_handle-Stored dumps env sender (PiPayload.reconcile_batch p) c refl)
pi_handle-Counted dumps env sender (PiPayload.partition_control p) c =
    Stored-Counted c _ (pi_handle-Stored dumps env sender (PiPayload.partition_control p) c refl)
pi_handle-Counted dumps env sender (PiPayload.other_type p) c =
    Stored-Counted c _ (pi_handle-Stored dumps env sender (PiPayload.other_type p) c refl)
