-- ===== src/Pi/Raised.antt =====
-- When a handler of the hardware coordinator raises an exception.
use echod.Prelude.{
  Bool, Bool-cases, List, String, [], arith, eqb, false, inl, inr, ltb, refl, some, ℕ, ◌-◌, ◌||◌,
  ◌∙◌, ◌∷◌, ◌≡◌,
}
use echod.Cluster.Steps.{new, old}
use echod.Messages.{Command, NodeId}
use echod.Node.{Protocol, echo, echo_d, raft}
use echod.Pi.{PiCoordinator, PiEnv, check_battery, pi_adopt_term, pi_reset_election_timer, pi_send}
use echod.Pi.Append.{
  finish, pi_follow, pi_follow_commit, pi_handle_append_entries, pi_is_consistent, pi_store_entries,
  pi_store_entry, reject_append,
}
use echod.Pi.Following.{pi_store_entry-raised}
use echod.Pi.Frame.{pi_adopt_term-Framed}
use echod.Pi.Inbox.{pi_handle}
use echod.Pi.Partition.{pi_handle_demo_control}
use echod.Pi.Received.{pi_handle-Framed}
use echod.Pi.Rounds.{from_dict}
use echod.Replication.{to_follower}
use echod.Wire.{
  DemoControl, PiAppend, PiPayload, RawEntry, set_battery, set_drain_paused, set_drain_rate,
  unknown_demo,
}

-- Whether an entry of a request has index 0.
abbrev pub has_zero : List RawEntry → Bool
has_zero [] = false
has_zero (raw ∷ raws) = eqb raw.index 0 || has_zero raws

-- Whether a message is an AppendEntries request with such an entry.
abbrev pub asks_for_zero : PiPayload → Bool
asks_for_zero (PiPayload.append_entries p) = has_zero p.entries
asks_for_zero _ = false

store_raised :
    (now : ℕ) (raws : List RawEntry) (c : PiCoordinator)
    → c.raised ≡ false
    → has_zero raws ≡ false
    → (pi_store_entries now raws c).raised ≡ false
unfolding pi_store_entries
store_raised now [] c going h = going
store_raised now (raw ∷ raws) c going h =
    let d = pi_store_entry (from_dict now raw) c in
    let kept : d.raised ≡ false =
      pi_store_entry-raised (from_dict now raw) (raw.index - 1)
        (unfold from_dict in ground (arith, h)) c going in
    rw kept (store_raised now raws d kept (ground (arith, h)))

finish_raised :
    (env : PiEnv) (sender : NodeId) (p : PiAppend) (c : PiCoordinator)
    → (finish env sender p c).raised ≡ c.raised
unfolding pi_follow_commit pi_send
finish_raised env sender p c = ground arith

follow_raised :
    (env : PiEnv) (sender : NodeId) (p : PiAppend) (c : PiCoordinator)
    → has_zero p.entries ≡ false
    → (pi_follow env sender p c).raised ≡ false
unfolding pi_follow reject_append pi_send
follow_raised env sender p c h =
    let d = record (pi_reset_election_timer env c) {
      current_leader_id = some p.leader_id;
      state = to_follower c.state;
      raised = false;
    } in
    let e = pi_store_entries env.now p.entries d in
    elim (Bool-cases (pi_is_consistent p d.log)) [
      | inl fits ↦ rw fits (finish_raised env sender p e ∙ store_raised env.now p.entries d refl h)
      | inr other ↦ rw other refl
    ]

append_raised :
    (env : PiEnv) (sender : NodeId) (p : PiAppend) (c : PiCoordinator)
    → c.raised ≡ false
    → has_zero p.entries ≡ false
    → (pi_handle_append_entries env sender p c).raised ≡ false
unfolding pi_handle_append_entries reject_append pi_send
append_raised env sender p c going h =
    let d = pi_adopt_term env p.term c in
    let kept : d.raised ≡ false = (pi_adopt_term-Framed env p.term c).raised ∙ going in
    elim (Bool-cases (ltb p.term d.current_term)) [
      | inl old ↦ rw old kept
      | inr new ↦ rw new (follow_raised env sender p d h)
    ]

demo_raised :
    (env : PiEnv) (p : DemoControl) (c : PiCoordinator)
    → (pi_handle_demo_control env p c).raised ≡ c.raised
unfolding pi_handle_demo_control
demo_raised env p c = by_action p
  where
    gate : (protocol : Protocol) → (check_battery env protocol c).raised ≡ c.raised
    gate raft = unfold check_battery in refl
    gate echo = unfold check_battery in ground arith
    gate echo_d = unfold check_battery in ground arith

    by_action : (p : DemoControl) → (pi_handle_demo_control env p c).raised ≡ c.raised
    by_action set_battery = ground (arith, gate c.protocol)
    by_action set_drain_rate = ground (arith, gate c.protocol)
    by_action set_drain_paused = ground (arith, gate c.protocol)
    by_action unknown_demo = refl

-- Only a request with an entry of index 0 makes a handler raise.
pub pi_handle-raised :
    (dumps : Command → String) (env : PiEnv) (sender : NodeId) (payload : PiPayload)
    (c : PiCoordinator)
    → c.raised ≡ false
    → asks_for_zero payload ≡ false
    → (pi_handle dumps env sender payload c).raised ≡ false
pi_handle-raised dumps env sender (PiPayload.append_entries p) c going h =
    unfold pi_handle in append_raised env sender p c going h
pi_handle-raised dumps env sender (PiPayload.demo_control p) c going h =
    let same : (pi_handle dumps env sender (PiPayload.demo_control p) c).raised ≡ c.raised =
      unfold pi_handle in demo_raised env p c in
    same ∙ going
pi_handle-raised dumps env sender (PiPayload.request_vote p) c going h =
    (pi_handle-Framed dumps env sender (PiPayload.request_vote p) c refl refl).raised ∙ going
pi_handle-raised dumps env sender (PiPayload.vote_response p) c going h =
    (pi_handle-Framed dumps env sender (PiPayload.vote_response p) c refl refl).raised ∙ going
pi_handle-raised dumps env sender (PiPayload.append_response p) c going h =
    (pi_handle-Framed dumps env sender (PiPayload.append_response p) c refl refl).raised ∙ going
pi_handle-raised dumps env sender (PiPayload.liveness_ping p) c going h =
    (pi_handle-Framed dumps env sender (PiPayload.liveness_ping p) c refl refl).raised ∙ going
pi_handle-raised dumps env sender (PiPayload.leaf_register p) c going h =
    (pi_handle-Framed dumps env sender (PiPayload.leaf_register p) c refl refl).raised ∙ going
pi_handle-raised dumps env sender (PiPayload.leaf_register_response p) c going h =
    (pi_handle-Framed dumps env sender (PiPayload.leaf_register_response p) c refl refl).raised
    ∙ going
pi_handle-raised dumps env sender (PiPayload.sensor_data p) c going h =
    (pi_handle-Framed dumps env sender (PiPayload.sensor_data p) c refl refl).raised ∙ going
pi_handle-raised dumps env sender (PiPayload.leadership_handoff p) c going h =
    (pi_handle-Framed dumps env sender (PiPayload.leadership_handoff p) c refl refl).raised ∙ going
pi_handle-raised dumps env sender (PiPayload.reconcile_batch p) c going h =
    (pi_handle-Framed dumps env sender (PiPayload.reconcile_batch p) c refl refl).raised ∙ going
pi_handle-raised dumps env sender (PiPayload.partition_control p) c going h =
    (pi_handle-Framed dumps env sender (PiPayload.partition_control p) c refl refl).raised ∙ going
pi_handle-raised dumps env sender (PiPayload.other_type t) c going h =
    (pi_handle-Framed dumps env sender (PiPayload.other_type t) c refl refl).raised ∙ going
