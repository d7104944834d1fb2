-- ===== src/Pi/Inbox.antt =====
-- The inbound queue and the main loop of the hardware coordinator, rpi/coordinator/echo_node.py.
use echod.Prelude.{
  List, Option, String, [], false, if◌then◌else◌, none, not, some, suc, zero, ℕ, ◌&&◌, ◌++◌, ◌+◌,
  ◌==◌, ◌∷◌,
}
use echod.Messages.{Command, NodeId}
use echod.Pi.{PiCoordinator, PiEnv, counted}
use echod.Pi.Append.{pi_handle_append_entries, pi_handle_append_response}
use echod.Pi.Handoff.{pi_handle_leadership_handoff}
use echod.Pi.Liveness.{pi_handle_leaf_register, pi_handle_liveness_ping}
use echod.Pi.Partition.{pi_handle_demo_control, pi_handle_partition_control}
use echod.Pi.Sensors.{pi_handle_reconcile_batch, pi_handle_sensor_data}
use echod.Pi.Votes.{pi_handle_request_vote, pi_handle_vote_response}
use echod.Prelude.Dict.{member}
use echod.Wire.{PiPayload, type_of}

abbrev pub queued :
    Option (List (NodeId × PiPayload)) → (NodeId × PiPayload) → Option (List (NodeId × PiPayload))
queued none msg = none
queued (some inbox) msg = some (inbox ++ msg ∷ [])

abbrev pub waiting : Option (List (NodeId × PiPayload)) → List (NodeId × PiPayload)
waiting none = []
waiting (some queue) = queue

-- _dispatch: the queue exists once the event loop runs.
unfoldable pub dispatch : NodeId → PiPayload → PiCoordinator → PiCoordinator
dispatch sender payload c =
    if not (type_of payload == "partition_control") && member sender c.blocked_senders
    then c
    else record c { inbox = queued c.inbox (sender, payload) }

-- The handler of a message, by its type.
unfoldable pub pi_handle :
    (Command → String) → PiEnv → NodeId → PiPayload → PiCoordinator → PiCoordinator
unfolding pi_handle_request_vote pi_handle_vote_response pi_handle_append_entries
    pi_handle_append_response pi_handle_liveness_ping pi_handle_leaf_register pi_handle_sensor_data
    pi_handle_leadership_handoff pi_handle_reconcile_batch pi_handle_partition_control
    pi_handle_demo_control
pi_handle dumps env sender (PiPayload.request_vote p) c = pi_handle_request_vote env sender p c
pi_handle dumps env sender (PiPayload.vote_response p) c = pi_handle_vote_response env sender p c
pi_handle dumps env sender (PiPayload.append_entries p) c = pi_handle_append_entries env sender p c
pi_handle dumps env sender (PiPayload.append_response p) c =
    pi_handle_append_response env sender p c
pi_handle dumps env sender (PiPayload.liveness_ping p) c = pi_handle_liveness_ping env p c
pi_handle dumps env sender (PiPayload.leaf_register p) c = pi_handle_leaf_register sender p c
pi_handle dumps env sender (PiPayload.sensor_data p) c = pi_handle_sensor_data env p c
pi_handle dumps env sender (PiPayload.leadership_handoff p) c = pi_handle_leadership_handoff env p c
pi_handle dumps env sender (PiPayload.reconcile_batch p) c = pi_handle_reconcile_batch dumps env p c
pi_handle dumps env sender (PiPayload.partition_control p) c = pi_handle_partition_control p c
pi_handle dumps env sender (PiPayload.demo_control p) c = pi_handle_demo_control env p c
pi_handle dumps env sender (PiPayload.leaf_register_response p) c = c
pi_handle dumps env sender (PiPayload.other_type t) c = c

unfoldable pub pi_receive :
    (Command → String) → PiEnv → NodeId → PiPayload → PiCoordinator → PiCoordinator
unfolding pi_handle
pi_receive dumps env sender payload c = pi_handle dumps env sender payload (record c {
  total_messages_received = c.total_messages_received + 1;
  messages_recv_by_type = counted (type_of payload) c.messages_recv_by_type;
  raised = false;
})

-- `while True` over `get_nowait`, on fuel; `none` says that the fuel has run out. Where a handler
-- raises, the loop stops. `envs n` is the
-- environment in which the message is handled that follows n others.
unfoldable pub drain_loop :
    (Command → String)
    → (ℕ → PiEnv)
    → ℕ
    → List (NodeId × PiPayload)
    → PiCoordinator
    → Option PiCoordinator
unfolding pi_receive
drain_loop dumps envs zero queue c = none
drain_loop dumps envs (suc fuel) [] c = some c
drain_loop dumps envs (suc fuel) ((sender, payload) ∷ rest) c =
    let d =
      pi_receive dumps (envs c.total_messages_received) sender payload
        (record c { inbox = some rest }) in
    let next = drain_loop dumps envs fuel (waiting d.inbox) d in if d.raised then some d else next

abbrev pub drain_queue :
    (Command → String)
    → (ℕ → PiEnv)
    → ℕ
    → Option (List (NodeId × PiPayload))
    → PiCoordinator
    → Option PiCoordinator
drain_queue dumps envs fuel none c = some c
drain_queue dumps envs fuel (some queue) c = drain_loop dumps envs fuel queue c

unfoldable pub drain_inbox :
    (Command → String) → (ℕ → PiEnv) → ℕ → PiCoordinator → Option PiCoordinator
unfolding drain_loop
drain_inbox dumps envs fuel c = drain_queue dumps envs fuel c.inbox c
