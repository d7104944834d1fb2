-- ===== src/Pi/Ticked.antt =====
-- A tick of the hardware coordinator keeps the frame.
use echod.Prelude.{
  Bool, Bool-cases, List, [], arith, false, if◌then◌else◌, inl, inr, leb, length, ltb, not, true, ℕ,
  ◌&&◌, ◌+◌, ◌∷◌,
}
use echod.Config.{t_handoff}
use echod.Handoff.{sort}
use echod.Messages.{NodeId, is_leading, is_observer}
use echod.Node.{Protocol, echo, echo_d, raft}
use echod.Pi.{PiCoordinator, PiEnv, pi_reset_election_timer, pi_send, pi_send_each}
use echod.Pi.Frame.{
  Framed, Framed-refl, Framed-trans, pi_flush_batch-Framed, pi_send_each-Framed,
  send_append_each-Framed,
}
use echod.Pi.Handled.{pi_send_liveness_ping-Framed, pi_start_election-Framed}
use echod.Pi.Handoff.{nominate, pi_candidates, pi_initiate_handoff}
use echod.Pi.Liveness.{
  pi_ping, pi_ping_interval, pi_send_heartbeats, pi_send_leaf_keepalives, pi_send_liveness_ping,
}
use echod.Pi.Loop.{
  keep_leaves, lead, pi_act, pi_flush_if_due, pi_handoff_if_low, pi_heartbeat_if_due, pi_is_past,
  pi_keepalive_interval, pi_ping_if_due, pi_tick,
}
use echod.Pi.Rounds.{send_append_each}

pi_flush_if_due-Framed : (env : PiEnv) (c : PiCoordinator) → Framed c (pi_flush_if_due env c)
unfolding pi_flush_if_due
pi_flush_if_due-Framed env c = elim (Bool-cases (pi_is_past env.now c.batch_deadline)) [
  | inl h ↦ rw h (pi_flush_batch-Framed env c)
  | inr h ↦ rw h (Framed-refl c)
]

pi_ping_if_due-Framed :
    (env : PiEnv) (interval : ℕ) (c : PiCoordinator) → Framed c (pi_ping_if_due env interval c)
unfolding pi_ping_if_due
pi_ping_if_due-Framed env interval c =
    elim (Bool-cases (leb (c.last_ping_time + interval) env.now)) [
      | inl h ↦ rw h (
          Framed-trans c (pi_send_liveness_ping c) _ (pi_send_liveness_ping-Framed c)
            (ground arith))
      | inr h ↦ rw h (Framed-refl c)
    ]

pi_heartbeat_if_due-Framed :
    (env : PiEnv) (c : PiCoordinator) → Framed c (pi_heartbeat_if_due env c)
unfolding pi_heartbeat_if_due pi_send_heartbeats
pi_heartbeat_if_due-Framed env c =
    elim (Bool-cases (leb (c.last_ping_time + pi_ping_interval) env.now)) [
      | inl h ↦ rw h (
          Framed-trans c (send_append_each c.peers c) _ (send_append_each-Framed c.peers c)
            (ground arith))
      | inr h ↦ rw h (Framed-refl c)
    ]

nominate-Framed :
    (env : PiEnv) (sorted : List (NodeId × ℕ)) (c : PiCoordinator)
    → Framed c (nominate env sorted c)
unfolding pi_send pi_reset_election_timer
nominate-Framed env [] c = Framed-refl c
nominate-Framed env ((successor, battery) ∷ rest) c = ground arith

pi_handoff_if_low-Framed : (env : PiEnv) (c : PiCoordinator) → Framed c (pi_handoff_if_low env c)
unfolding pi_handoff_if_low pi_initiate_handoff
pi_handoff_if_low-Framed env c =
    let d = record c { handoff_sent = true } in
    let best = sort (pi_candidates c.peer_batteries c.peers) in
    let h = Framed-trans c d (nominate env best d) (ground arith) (nominate-Framed env best d) in
    elim (Bool-cases (ltb env.level t_handoff && not c.handoff_sent)) [
      | inl low ↦ rw low h
      | inr high ↦ rw high (Framed-refl c)
    ]

lead-Framed : (p : Protocol) (env : PiEnv) (c : PiCoordinator) → Framed c (lead p env c)
lead-Framed raft env c = pi_heartbeat_if_due-Framed env c
lead-Framed echo env c = pi_ping_if_due-Framed env pi_ping_interval c
lead-Framed echo_d env c =
    let d = pi_flush_if_due env c in
    let e = pi_ping_if_due env d.ping_interval d in
    Framed-trans c d _ (pi_flush_if_due-Framed env c) (
      Framed-trans d e _ (pi_ping_if_due-Framed env d.ping_interval d)
        (pi_handoff_if_low-Framed env e))

keep_leaves-Framed :
    (p : Protocol) (env : PiEnv) (c : PiCoordinator) → Framed c (keep_leaves p env c)
unfolding pi_send_leaf_keepalives
keep_leaves-Framed raft env c = Framed-refl c
keep_leaves-Framed echo env c = Framed-refl c
keep_leaves-Framed echo_d env c =
    let d = pi_send_each c.leaves (pi_ping c) c in
    let h =
      Framed-trans c d (record d { last_leaf_keepalive = env.now })
        (pi_send_each-Framed c.leaves (pi_ping c) c) (ground arith) in
    elim (Bool-cases
      (ltb 0 (length c.leaves) && leb (c.last_leaf_keepalive + pi_keepalive_interval) env.now)) [
        | inl due ↦ rw due h
        | inr early ↦ rw early (Framed-refl c)
      ]

pi_act-Framed : (env : PiEnv) (c : PiCoordinator) → Framed c (pi_act env c)
unfolding pi_act
pi_act-Framed env c = elim (Bool-cases (is_leading c.state)) [
  | inl leads ↦ rw leads (lead-Framed c.protocol env c)
  | inr follows ↦ rw follows (elim (Bool-cases (leb c.election_deadline env.now)) [
    | inl due ↦ rw due (pi_start_election-Framed env c)
    | inr early ↦ rw early (Framed-refl c)
  ])
]

either-Framed :
    (b : Bool) (c d e : PiCoordinator) → Framed c d → Framed c e → Framed c (if b then d else e)
either-Framed true c d e h k = h
either-Framed false c d e h k = k

pub pi_tick-Framed : (env : PiEnv) (c : PiCoordinator) → Framed c (pi_tick env c)
unfolding pi_tick
pi_tick-Framed env c =
    let d = pi_act env c in
    either-Framed (is_observer c.state) c c (keep_leaves c.protocol env d) (Framed-refl c)
      (Framed-trans c d _ (pi_act-Framed env c) (keep_leaves-Framed c.protocol env d))
