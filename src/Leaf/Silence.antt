-- ===== src/Leaf/Silence.antt =====
-- What a leaf does without a coordinator.
use native.Mathlib.Nat.{mod-lt}
use echod.Prelude.{
  Bool, List, Option, [], ap, append-nil, arith, distance_self, drop, eq_iff, false, if◌then◌else◌,
  length, none, refl, some, suc, sym, true, zero, ℕ, ℤ, ◌%◌, ◌++◌, ◌+◌, ◌<◌, ◌==◌, ◌∙◌, ◌∷◌, ◌≡◌,
  ◌≤◌,
}
use echod.Config.{partition_timeout}
use echod.Leaf.{
  Leaf, LeafEnv, base_send_reading, choose, coordinator_ids, first, handle_leaf_register_response,
  inject_reading, leaf_on_idle, registration,
}
use echod.Messages.{LeafRegisterResponse, NodeId, active, searching}
use echod.Node.{Env, Peer, address, coordinator, leaf, ms, sendable}
use echod.Prelude.Dict.{member}
use echod.Sensors.{is_suppressed}

-- Whether a node is a coordinator of the cluster.
abbrev pub is_coordinator_in : NodeId → List Peer → Bool
is_coordinator_in i [] = false
is_coordinator_in i (coordinator j s ∷ ps) = if j == i then true else is_coordinator_in i ps
is_coordinator_in i (leaf j ∷ ps) = is_coordinator_in i ps

member-coordinator_ids :
    (i : NodeId) (ps : List Peer) → member i (coordinator_ids ps) ≡ is_coordinator_in i ps
unfolding member
member-coordinator_ids i [] = refl
member-coordinator_ids i (coordinator j s ∷ ps) = ground (arith, member-coordinator_ids i ps)
member-coordinator_ids i (leaf j ∷ ps) = member-coordinator_ids i ps

-- The node at a place of a list.
nth_member :
    (n : ℕ) (is : List NodeId)
    → n < length is
    → (i : NodeId) × (member i is ≡ true) × (first (drop n is) ≡ i ∷ [])
unfolding member
nth_member n [] h = absurd (omega arith)
nth_member zero (i ∷ is) h = (i, ground (arith, eq_iff i i), refl)
nth_member (suc n) (i ∷ is) h =
    let r = nth_member n is (omega arith) in (r.0, ground (arith, r.1), r.2)

-- A draw from a list that is not empty.
drawn_member :
    (draw : ℕ) (is : List NodeId) (j : NodeId)
    → member j is ≡ true
    → (i : NodeId) × (member i is ≡ true) × (first (choose draw is) ≡ i ∷ [])
unfolding member
drawn_member draw [] j h = absurd (ground (arith, h))
drawn_member draw (i ∷ is) j h =
    nth_member (draw % length (i ∷ is)) (i ∷ is) (mod-lt draw (omega arith))

dropped :
    (env : LeafEnv) (l : Leaf)
    → l.state ≡ active
    → l.last_coordinator_contact + ms partition_timeout < env.outside.now
    → leaf_on_idle env l ≡ record l { state = searching; coordinator_id = none }
unfolding leaf_on_idle
dropped env l a silent = ground arith

asks :
    (env : LeafEnv) (l : Leaf) (ps : List Peer) (i : NodeId)
    → l.state ≡ searching
    → env.outside.cluster ≡ some ps
    → first (choose env.draw (coordinator_ids ps)) ≡ i ∷ []
    → (leaf_on_idle env l).outbox ≡ l.outbox ++ address l.node_id (i ∷ []) (registration l)
unfolding leaf_on_idle
asks env l ps i s c t = ground (arith, t)

stays :
    (env : LeafEnv) (answered : Env) (resp : LeafRegisterResponse) (l : Leaf)
    → resp.accepted ≡ true
    → env.outside.now ≤ answered.now + ms partition_timeout
    → let d = leaf_on_idle env (handle_leaf_register_response answered resp l) in
      (d.state ≡ active) × (d.coordinator_id ≡ some resp.coordinator_id)
unfolding leaf_on_idle handle_leaf_register_response
stays env answered resp l accepted soon = (ground arith, ground arith)

-- Where an active leaf has not heard from its coordinator for more than `PARTITION_TIMEOUT` and the
-- cluster has a coordinator, the leaf's next tick drops its coordinator and sends nothing; the tick
-- after that, whatever is drawn, asks exactly one node to register the leaf, and that is a
-- coordinator of the cluster; and an answer that accepts makes the leaf active again, bound to the
-- coordinator that the answer names, and it stays so at a tick within `PARTITION_TIMEOUT` of it.
pub leaf_on_idle-searches :
    (env env' env'' : LeafEnv) (answered : Env) (resp : LeafRegisterResponse) (l : Leaf)
    (ps : List Peer) (j : NodeId)
    → l.state ≡ active
    → l.last_coordinator_contact + ms partition_timeout < env.outside.now
    → env'.outside.cluster ≡ some ps
    → is_coordinator_in j ps ≡ true
    → resp.accepted ≡ true
    → env''.outside.now ≤ answered.now + ms partition_timeout
    → let d = leaf_on_idle env l in
      let asked = leaf_on_idle env' d in
      let bound = leaf_on_idle env'' (handle_leaf_register_response answered resp asked) in
      (d.state ≡ searching)
      × (d.coordinator_id ≡ none)
      × (d.outbox ≡ l.outbox)
      × ((i : NodeId) × (is_coordinator_in i ps ≡ true)
          × (asked.outbox ≡ l.outbox ++ address l.node_id (i ∷ []) (registration l)))
      × (bound.state ≡ active)
      × (bound.coordinator_id ≡ some resp.coordinator_id)
leaf_on_idle-searches env env' env'' answered resp l ps j a silent c known accepted soon =
    let drawn =
      drawn_member env'.draw (coordinator_ids ps) j (member-coordinator_ids j ps ∙ known) in
    let d = leaf_on_idle env l in
    let gone = dropped env l a silent in
    let asked : (leaf_on_idle env' d).outbox
        ≡ d.outbox ++ address d.node_id (drawn.0 ∷ []) (registration d) =
      asks env' d ps drawn.0 (ap Leaf.state gone) c drawn.2 in
    let kept = stays env'' answered resp (leaf_on_idle env' d) accepted soon in
    (
      ap Leaf.state gone,
      ap Leaf.coordinator_id gone,
      ap Leaf.outbox gone,
      (
        drawn.0,
        sym (member-coordinator_ids drawn.0 ps) ∙ drawn.1,
        asked
            ∙ ap (λ (e : Leaf). e.outbox ++ address e.node_id (drawn.0 ∷ []) (registration e)) gone,
      ),
      kept.0,
      kept.1,
    )

-- The filter suppresses a reading that it has just seen.
is_suppressed-again : (value : ℤ) → is_suppressed (some value) value ≡ true
unfolding is_suppressed
is_suppressed-again value = ground (arith, distance_self value)

sendable-nil : (cluster : Option (List Peer)) → sendable cluster [] ≡ []
sendable-nil none = refl
sendable-nil (some ps) = refl

-- A leaf without a coordinator sends its readings to no one.
unbound_quiet :
    (env : Env) (value : ℤ) (l : Leaf)
    → l.coordinator_id ≡ none
    → (base_send_reading env value l).outbox ≡ l.outbox
unfolding base_send_reading
unbound_quiet env value l n = rw (n, sendable-nil env.cluster, append-nil) refl

-- What an EchoDLeaf without a coordinator makes of a reading.
remembers :
    (env : Env) (value : ℤ) (l : Leaf)
    → l.filters ≡ true
    → l.coordinator_id ≡ none
    → let d = inject_reading env value l in
      (d.filters ≡ true) × (is_suppressed d.last_transmitted value ≡ true) × (d.outbox ≡ l.outbox)
unfolding inject_reading
remembers env value l f n = ground (
  arith,
  is_suppressed-again value,
  unbound_quiet env value (record l { sensor_value = value; last_transmitted = some value }) n,
)

-- A reading that the filter suppresses is not sent.
suppressed_quiet :
    (env : Env) (value : ℤ) (l : Leaf)
    → l.filters ≡ true
    → is_suppressed l.last_transmitted value ≡ true
    → (inject_reading env value l).outbox ≡ l.outbox
unfolding inject_reading
suppressed_quiet env value l f s = ground arith

-- An answer to a registration leaves the filter and the sent messages alone.
register_keeps :
    (env : Env) (resp : LeafRegisterResponse) (l : Leaf)
    → let d = handle_leaf_register_response env resp l in
      (d.filters ≡ l.filters) × (d.last_transmitted ≡ l.last_transmitted) × (d.outbox ≡ l.outbox)
unfolding handle_leaf_register_response
register_keeps env resp l = ground arith

-- A reading that is injected into an EchoDLeaf without a coordinator is sent to no one, then or
-- when the same value is injected again after the leaf has registered, as the filter takes it for
-- transmitted, or for close to what was.
pub inject_reading-loses :
    (env env' env'' : Env) (value : ℤ) (resp : LeafRegisterResponse) (l : Leaf)
    → l.filters ≡ true
    → l.coordinator_id ≡ none
    → let registered = handle_leaf_register_response env' resp (inject_reading env value l) in
      (inject_reading env'' value registered).outbox ≡ l.outbox
inject_reading-loses env env' env'' value resp l f n =
    let d = inject_reading env value l in
    let r = remembers env value l f n in
    let k = register_keeps env' resp d in
    suppressed_quiet env'' value (handle_leaf_register_response env' resp d) (k.0 ∙ r.0)
      (ap (λ p. is_suppressed p value) k.1 ∙ r.1)
    ∙ k.2
    ∙ r.2
