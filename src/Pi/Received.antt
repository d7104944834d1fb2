-- ===== src/Pi/Received.antt =====
-- Every message of the hardware coordinator keeps the frame, but for demo commands.
use mathlib.Core.Bool.{true≢false}
use echod.Prelude.{
  Bool, Bool-cases, List, Option, String, [], arith, false, if◌then◌else◌, inl, inr, leb, length,
  none, refl, some, true, ◌+◌, ◌∷◌, ◌≡◌,
}
use echod.Config.{max_batch_size}
use echod.Messages.{
  AppendEntriesResponse, Command, LeadershipHandoff, LeafRegisterRequest, LivenessPing, NodeId,
  SensorDataReport, is_leading, reading,
}
use echod.Node.{Protocol, echo, echo_d, raft}
use echod.Pi.{PiCoordinator, PiEnv, pi_adopt_term, pi_reset_election_timer, pi_send, pi_step_down}
use echod.Pi.Append.{pi_handle_append_response}
use echod.Pi.Frame.{
  Framed, Framed-Stored, Framed-refl, Framed-trans, Stored, pi_adopt_term-Framed,
  pi_flush_batch-Framed, pi_replicate_entry-Framed, pi_try_advance_commit-Framed, replay-Framed,
}
use echod.Pi.Handled.{
  pi_handle_append_entries-Stored, pi_handle_request_vote-Framed, pi_handle_vote_response-Framed,
  pi_start_election-Framed,
}
use echod.Pi.Handoff.{accept_nomination, pi_handle_leadership_handoff}
use echod.Pi.Inbox.{pi_handle}
use echod.Pi.Liveness.{pi_handle_leaf_register, pi_handle_liveness_ping}
use echod.Pi.Partition.{
  add_all, blocked_by, pi_enter_provisional_mode, pi_exit_provisional_mode,
  pi_handle_partition_control, unless_raft,
}
use echod.Pi.Rounds.{pi_flush_batch}
use echod.Pi.Sensors.{
  fresh_commands, lead_report, pi_buffer_reading, pi_handle_reconcile_batch, pi_handle_sensor_data,
  reconcile_commands, reconcile_triggers, relay_report, repropose, trimmed,
}
use echod.Prelude.Dict.{put}
use echod.Sensors.{sensor_key}
use echod.Wire.{PartitionControl, PiPayload, ReconcileBatch, blocked, heal, split, unknown_action}

pi_handle_append_response-Framed :
    (env : PiEnv) (sender : NodeId) (resp : AppendEntriesResponse) (c : PiCoordinator)
    → Framed c (pi_handle_append_response env sender resp c)
unfolding pi_handle_append_response pi_step_down pi_reset_election_timer
pi_handle_append_response-Framed env sender resp c =
    let d = record c {
      peer_batteries = put sender resp.responder_battery c.peer_batteries;
      next_index = put sender (resp.match_index + 1) c.next_index;
      match_index = put sender resp.match_index c.match_index;
    } in
    let e = Framed-trans c d _ (ground arith) (pi_try_advance_commit-Framed env d) in
    ground (arith, e)

pi_handle_liveness_ping-Framed :
    (env : PiEnv) (ping : LivenessPing) (c : PiCoordinator)
    → Framed c (pi_handle_liveness_ping env ping c)
unfolding pi_handle_liveness_ping pi_step_down pi_reset_election_timer
pi_handle_liveness_ping-Framed env ping c = ground arith

pi_handle_leaf_register-Framed :
    (sender : NodeId) (req : LeafRegisterRequest) (c : PiCoordinator)
    → Framed c (pi_handle_leaf_register sender req c)
unfolding pi_handle_leaf_register pi_send
pi_handle_leaf_register-Framed sender req c = ground arith

relay_report-Framed :
    (known : Option NodeId) (report : SensorDataReport) (c : PiCoordinator)
    → Framed c (relay_report known report c)
unfolding pi_send
relay_report-Framed none report c = ground arith
relay_report-Framed (some l) report c = ground arith

buffered-Framed :
    (env : PiEnv) (report : SensorDataReport) (c : PiCoordinator)
    → let d = pi_buffer_reading env report c in
      Framed c (if leb max_batch_size (length d.batch_buffer) then pi_flush_batch env d else d)
buffered-Framed env report c =
    let d = pi_buffer_reading env report c in
    let e = Framed-trans c d _ (ground arith) (pi_flush_batch-Framed env d) in ground (arith, e)

lead_report-Framed :
    (p : Protocol) (env : PiEnv) (report : SensorDataReport) (c : PiCoordinator)
    → Framed c (lead_report p env report c)
lead_report-Framed raft env report c = pi_replicate_entry-Framed env (reading report) "event" c
lead_report-Framed echo env report c =
    let d = record c { last_sensor = put (sensor_key report) report.value c.last_sensor } in
    let e =
      Framed-trans c d _ (ground arith)
        (pi_replicate_entry-Framed env (reading report) "delta" d) in
    ground (arith, e)
lead_report-Framed echo_d env report c =
    let d = record c { last_sensor = put (sensor_key report) report.value c.last_sensor } in
    let e = Framed-trans c d _ (ground arith) (buffered-Framed env report d) in ground (arith, e)

pi_handle_sensor_data-Framed :
    (env : PiEnv) (report : SensorDataReport) (c : PiCoordinator)
    → Framed c (pi_handle_sensor_data env report c)
unfolding pi_handle_sensor_data
pi_handle_sensor_data-Framed env report c = ground (
  arith,
  relay_report-Framed c.current_leader_id report c,
  lead_report-Framed c.protocol env report c,
)

repropose-Framed :
    (env : PiEnv) (commands : List Command) (c : PiCoordinator)
    → Framed c (repropose env commands c)
repropose-Framed env [] c = ground arith
repropose-Framed env (x ∷ rest) c =
    let d = record c { last_consensus_activity = env.now } in
    Framed-trans c d _ (ground arith)
      (replay-Framed c.protocol env (reconcile_triggers (x ∷ rest)) d)

reconcile_commands-Framed :
    (dumps : Command → String) (env : PiEnv) (commands : List Command) (c : PiCoordinator)
    → Framed c (reconcile_commands dumps env commands c)
reconcile_commands-Framed dumps env [] c = ground arith
reconcile_commands-Framed dumps env (x ∷ rest) c =
    let found = fresh_commands dumps (x ∷ rest) c.recent_reconciles in
    let d = record c { recent_reconciles = trimmed found.1 } in
    Framed-trans c d _ (ground arith) (repropose-Framed env found.0 d)

pi_handle_reconcile_batch-Framed :
    (dumps : Command → String) (env : PiEnv) (p : ReconcileBatch) (c : PiCoordinator)
    → Framed c (pi_handle_reconcile_batch dumps env p c)
unfolding pi_handle_reconcile_batch
pi_handle_reconcile_batch-Framed dumps env p c = elim (Bool-cases (is_leading c.state)) [
  | inl h ↦ rw h (reconcile_commands-Framed dumps env p.commands c)
  | inr h ↦ rw h (Framed-refl c)
]

accept_nomination-Framed :
    (p : Protocol) (env : PiEnv) (handoff : LeadershipHandoff) (c : PiCoordinator)
    → Framed c (accept_nomination p env handoff c)
accept_nomination-Framed raft env handoff c = ground arith
accept_nomination-Framed echo env handoff c = ground arith
accept_nomination-Framed echo_d env handoff c =
    let d = pi_adopt_term env handoff.term c in
    let e =
      Framed-trans c d _ (pi_adopt_term-Framed env handoff.term c)
        (pi_start_election-Framed env d) in
    ground (arith, e)

unless_raft-Framed :
    (p : Protocol) (f : PiCoordinator → PiCoordinator) (c : PiCoordinator)
    → Framed c (f c)
    → Framed c (unless_raft p f c)
unless_raft-Framed raft f c h = ground arith
unless_raft-Framed echo f c h = h
unless_raft-Framed echo_d f c h = h

pi_handle_partition_control-Framed :
    (p : PartitionControl) (c : PiCoordinator) → Framed c (pi_handle_partition_control p c)
unfolding pi_handle_partition_control pi_enter_provisional_mode pi_exit_provisional_mode
pi_handle_partition_control-Framed (split gs) c =
    let d = record c { blocked_senders = blocked_by c.node_id gs } in
    Framed-trans c d _ (ground arith)
      (unless_raft-Framed c.protocol pi_enter_provisional_mode d (ground arith))
pi_handle_partition_control-Framed (blocked nodes) c =
    let d = record c { blocked_senders = add_all nodes [] } in
    Framed-trans c d _ (ground arith)
      (unless_raft-Framed c.protocol pi_enter_provisional_mode d (ground arith))
pi_handle_partition_control-Framed heal c =
    let d = record c { blocked_senders = [] } in
    Framed-trans c d _ (ground arith)
      (unless_raft-Framed c.protocol pi_exit_provisional_mode d (ground arith))
pi_handle_partition_control-Framed unknown_action c = ground arith

-- Whether a message is a demo command, which may turn a node into an observer without a vote.
abbrev pub is_demo : PiPayload → Bool
is_demo (PiPayload.demo_control p) = true
is_demo _ = false

-- Whether a message is an AppendEntries request, whose handler may raise an exception.
abbrev pub is_append : PiPayload → Bool
is_append (PiPayload.append_entries p) = true
is_append _ = false

pub pi_handle-Framed :
    (dumps : Command → String) (env : PiEnv) (sender : NodeId) (payload : PiPayload)
    (c : PiCoordinator)
    → is_demo payload ≡ false
    → is_append payload ≡ false
    → Framed c (pi_handle dumps env sender payload c)
unfolding pi_handle pi_handle_leadership_handoff
pi_handle-Framed dumps env sender (PiPayload.request_vote p) c h k =
    pi_handle_request_vote-Framed env sender p c
pi_handle-Framed dumps env sender (PiPayload.vote_response p) c h k =
    pi_handle_vote_response-Framed env sender p c
pi_handle-Framed dumps env sender (PiPayload.append_response p) c h k =
    pi_handle_append_response-Framed env sender p c
pi_handle-Framed dumps env sender (PiPayload.liveness_ping p) c h k =
    pi_handle_liveness_ping-Framed env p c
pi_handle-Framed dumps env sender (PiPayload.leaf_register p) c h k =
    pi_handle_leaf_register-Framed sender p c
pi_handle-Framed dumps env sender (PiPayload.leaf_register_response p) c h k = Framed-refl c
pi_handle-Framed dumps env sender (PiPayload.sensor_data p) c h k =
    pi_handle_sensor_data-Framed env p c
pi_handle-Framed dumps env sender (PiPayload.leadership_handoff p) c h k =
    accept_nomination-Framed c.protocol env p c
pi_handle-Framed dumps env sender (PiPayload.reconcile_batch p) c h k =
    pi_handle_reconcile_batch-Framed dumps env p c
pi_handle-Framed dumps env sender (PiPayload.partition_control p) c h k =
    pi_handle_partition_control-Framed p c
pi_handle-Framed dumps env sender (PiPayload.other_type t) c h k = Framed-refl c
pi_handle-Framed dumps env sender (PiPayload.append_entries p) c h k = absurd (true≢false k)
pi_handle-Framed dumps env sender (PiPayload.demo_control p) c h k = absurd (true≢false h)

pub pi_handle-Stored :
    (dumps : Command → String) (env : PiEnv) (sender : NodeId) (payload : PiPayload)
    (c : PiCoordinator)
    → is_demo payload ≡ false
    → Stored c (pi_handle dumps env sender payload c)
pi_handle-Stored dumps env sender (PiPayload.append_entries p) c h =
    unfold pi_handle in pi_handle_append_entries-Stored env sender p c
pi_handle-Stored dumps env sender (PiPayload.demo_control p) c h = absurd (true≢false h)
pi_handle-Stored dumps env sender (PiPayload.request_vote p) c h =
    Framed-Stored c _ (pi_handle-Framed dumps env sender (PiPayload.request_vote p) c refl refl)
pi_handle-Stored dumps env sender (PiPayload.vote_response p) c h =
    Framed-Stored c _ (pi_handle-Framed dumps env sender (PiPayload.vote_response p) c refl refl)
pi_handle-Stored dumps env sender (PiPayload.append_response p) c h =
    Framed-Stored c _ (pi_handle-Framed dumps env sender (PiPayload.append_response p) c refl refl)
pi_handle-Stored dumps env sender (PiPayload.liveness_ping p) c h =
    Framed-Stored c _ (pi_handle-Framed dumps env sender (PiPayload.liveness_ping p) c refl refl)
pi_handle-Stored dumps env sender (PiPayload.leaf_register p) c h =
    Framed-Stored c _ (pi_handle-Framed dumps env sender (PiPayload.leaf_register p) c refl refl)
pi_handle-Stored dumps env sender (PiPayload.leaf_register_response p) c h =
    Framed-Stored c _
      (pi_handle-Framed dumps env sender (PiPayload.leaf_register_response p) c refl refl)
pi_handle-Stored dumps env sender (PiPayload.sensor_data p) c h =
    Framed-Stored c _ (pi_handle-Framed dumps env sender (PiPayload.sensor_data p) c refl refl)
pi_handle-Stored dumps env sender (PiPayload.leadership_handoff p) c h =
    Framed-Stored c _
      (pi_handle-Framed dumps env sender (PiPayload.leadership_handoff p) c refl refl)
pi_handle-Stored dumps env sender (PiPayload.reconcile_batch p) c h =
    Framed-Stored c _ (pi_handle-Framed dumps env sender (PiPayload.reconcile_batch p) c refl refl)
pi_handle-Stored dumps env sender (PiPayload.partition_control p) c h =
    Framed-Stored c _
      (pi_handle-Framed dumps env sender (PiPayload.partition_control p) c refl refl)
pi_handle-Stored dumps env sender (PiPayload.other_type t) c h =
    Framed-Stored c _ (pi_handle-Framed dumps env sender (PiPayload.other_type t) c refl refl)
