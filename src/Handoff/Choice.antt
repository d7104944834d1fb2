-- ===== src/Handoff/Choice.antt =====
-- Which successor a draining leader nominates.
use mathlib.Core.List.{Memᴰ}
use echod.Prelude.{
  Bool, Bool-cases, List, [], ap, arith, eq_iff, false, if◌then◌else◌, inl, inr, leb, leb→le, not,
  refl, subst, sym, true, ℕ, ◌&&◌, ◌++◌, ◌<◌, ◌==◌, ◌∙◌, ◌∷◌, ◌≡◌, ◌≢◌, ◌≤◌, ◌⊎◌,
}
use echod.Handoff.{candidates, hand_over, initiate_handoff, insert, precedes, sort}
use echod.Messages.{NodeId, NodeState, Payload, follower, is_observer, observer}
use echod.Node.{
  Coordinator, Env, Peer, address, coordinator, leaf, members, percent, send, sendable,
}
use echod.Prelude.Dict.{Dict, get_or}
use echod.Timers.{reset_election_timer}

abbrev pub AllAtMost : ℕ → List (NodeId × ℕ) → Type 0
AllAtMost level [] = Unit
AllAtMost level ((i, b) ∷ l) = (b ≤ level) × AllAtMost level l

AllAtMost-mono : (a b : ℕ) (l : List (NodeId × ℕ)) → a ≤ b → AllAtMost a l → AllAtMost b l
AllAtMost-mono a b [] h k = tt
AllAtMost-mono a b ((i, x) ∷ l) h k = (omega (arith, k.0), AllAtMost-mono a b l h k.1)

-- The head of a sorted list is one of the list, and none has more battery.
abbrev pub IsBest : List (NodeId × ℕ) → List (NodeId × ℕ) → Type 0
IsBest [] l = l ≡ []
IsBest ((s, b) ∷ rest) l = Memᴰ (s, b) l × AllAtMost b l

insert-IsBest :
    (x : NodeId × ℕ) (ys l : List (NodeId × ℕ)) → IsBest ys l → IsBest (insert x ys) (x ∷ l)
unfolding insert
insert-IsBest (i, a) [] l h = (Memᴰ.head refl, (omega arith, subst (AllAtMost a) (sym h) tt))
insert-IsBest (i, a) ((j, b) ∷ ys) l h = elim (Bool-cases (precedes (i, a) (j, b))) [
  | inl before ↦ rw before (Memᴰ.head refl, (omega arith, AllAtMost-mono b a l (ground arith) h.1))
  | inr after ↦ rw after (Memᴰ.tail h.0, (ground arith, h.1))
]

sort-IsBest : (l : List (NodeId × ℕ)) → IsBest (sort l) l
unfolding sort
sort-IsBest [] = refl
sort-IsBest (x ∷ xs) = insert-IsBest x (sort xs) xs (sort-IsBest xs)

-- A node that may succeed: another coordinator of the cluster, in a state that is not observer; its
-- battery is the one last reported, or 100.
abbrev pub IsEligible : NodeId → Dict ℕ → List Peer → NodeId → ℕ → Type 0
IsEligible me batteries ps s b =
    (state : NodeState) × Memᴰ (coordinator s state) ps
    × (s ≢ me)
    × (state ≢ observer)
    × (b ≡ get_or s 100 batteries)

-- Every node that may succeed has at most the given battery.
abbrev pub NoneAbove : ℕ → NodeId → Dict ℕ → List Peer → Type 0
NoneAbove level me batteries [] = Unit
NoneAbove level me batteries (leaf i ∷ ps) = NoneAbove level me batteries ps
NoneAbove level me batteries (coordinator i s ∷ ps) =
    ((i ≡ me) ⊎ (s ≡ observer) ⊎ (get_or i 100 batteries ≤ level)) × NoneAbove level me batteries ps

module _ (me : NodeId) (batteries : Dict ℕ) (ps : List Peer) (s : NodeId) (b : ℕ) where
  -- One more peer does no harm.
  IsEligible-more :
      (p : Peer) → IsEligible me batteries ps s b → IsEligible me batteries (p ∷ ps) s b
  IsEligible-more p (state, place, other, awake, charge) =
      (state, Memᴰ.tail place, other, awake, charge)

  IsEligible-here :
      (i : NodeId) (state : NodeState)
      → (not (i == me) && not (is_observer state)) ≡ true
      → s ≡ i
      → b ≡ get_or i 100 batteries
      → IsEligible me batteries (coordinator i state ∷ ps) s b
  IsEligible-here i state fits name charge = (
    state,
    Memᴰ.head (ap (λ (n : NodeId). coordinator n state) name),
    λ own. ground (arith, name, own, eq_iff i me),
    ground arith,
    charge ∙ ap (λ (n : NodeId). get_or n 100 batteries) (sym name),
  )

  IsEligible-or :
      (i : NodeId) (state : NodeState) (rest : List (NodeId × ℕ)) (fits : Bool)
      → (not (i == me) && not (is_observer state)) ≡ fits
      → (Memᴰ (s, b) rest → IsEligible me batteries ps s b)
      → Memᴰ (s, b) (if fits then (i, get_or i 100 batteries) ∷ rest else rest)
      → IsEligible me batteries (coordinator i state ∷ ps) s b
  IsEligible-or i state rest true e more (Memᴰ.head p) =
      IsEligible-here i state e (ap (λ (x : NodeId × ℕ). x.0) p) (ap (λ (x : NodeId × ℕ). x.1) p)
  IsEligible-or i state rest true e more (Memᴰ.tail p) =
      IsEligible-more (coordinator i state) (more p)
  IsEligible-or i state rest false e more p = IsEligible-more (coordinator i state) (more p)

candidates-IsEligible :
    (me : NodeId) (batteries : Dict ℕ) (ps : List Peer) (s : NodeId) (b : ℕ)
    → Memᴰ (s, b) (candidates me batteries ps)
    → IsEligible me batteries ps s b
unfolding candidates
candidates-IsEligible me batteries [] s b h = elim h [ ]
candidates-IsEligible me batteries (leaf i ∷ ps) s b h =
    IsEligible-more me batteries ps s b (leaf i) (candidates-IsEligible me batteries ps s b h)
candidates-IsEligible me batteries (coordinator i state ∷ ps) s b h =
    IsEligible-or me batteries ps s b i state (candidates me batteries ps)
      (not (i == me) && not (is_observer state)) refl (candidates-IsEligible me batteries ps s b) h

candidates-NoneAbove :
    (level : ℕ) (me : NodeId) (batteries : Dict ℕ) (ps : List Peer)
    → AllAtMost level (candidates me batteries ps)
    → NoneAbove level me batteries ps
unfolding candidates
candidates-NoneAbove level me batteries [] h = tt
candidates-NoneAbove level me batteries (leaf i ∷ ps) h =
    candidates-NoneAbove level me batteries ps h
candidates-NoneAbove level me batteries (coordinator i s ∷ ps) h =
    ground (arith, eq_iff i me, candidates-NoneAbove level me batteries ps)

-- What a leader does about a successor.
pub data Outcome (env : Env) (c d : Coordinator) : Type 0 where
  remains :
      NoneAbove (percent c.battery) c.node_id c.peer_batteries (members env.cluster)
      → d ≡ record c { handoff_sent = true }
      → Outcome env c d
  hands_over :
      (s : NodeId) (b : ℕ)
      → IsEligible c.node_id c.peer_batteries (members env.cluster) s b
      → NoneAbove b c.node_id c.peer_batteries (members env.cluster)
      → percent c.battery < b
      → d.state ≡ follower
      → d.handoff_sent ≡ true
      → d.outbox
        ≡ c.outbox
          ++ sendable env.cluster (
              address c.node_id (s ∷ []) (
                Payload.leadership_handoff
                  (record { term = c.current_term; leader_id = c.node_id })))
      → Outcome env c d

hand_over-Outcome :
    (env : Env) (sorted : List (NodeId × ℕ)) (c : Coordinator)
    → IsBest sorted (candidates c.node_id c.peer_batteries (members env.cluster))
    → Outcome env c (hand_over env sorted (record c { handoff_sent = true }))
hand_over-Outcome env [] c h =
    remains (none_above (percent c.battery) (subst (AllAtMost (percent c.battery)) (sym h) tt)) refl
  where
    none_above :
        (level : ℕ)
        → AllAtMost level (candidates c.node_id c.peer_batteries (members env.cluster))
        → NoneAbove level c.node_id c.peer_batteries (members env.cluster)
    none_above level = candidates-NoneAbove level c.node_id c.peer_batteries (members env.cluster)
hand_over-Outcome env ((s, b) ∷ rest) c h = elim (Bool-cases (leb b (percent c.battery))) [
  | inl enough ↦
      let l = candidates c.node_id c.peer_batteries (members env.cluster) in
      rw enough (
        remains
          (candidates-NoneAbove (percent c.battery) c.node_id c.peer_batteries (members env.cluster)
            (AllAtMost-mono b (percent c.battery) l (leb→le b _ enough) h.1))
          refl)
  | inr less ↦ rw less (
      unfold send reset_election_timer in
      hands_over s b
        (candidates-IsEligible c.node_id c.peer_batteries (members env.cluster) s b h.0)
        (candidates-NoneAbove b c.node_id c.peer_batteries (members env.cluster) h.1) (ground arith)
        refl refl refl)
]

-- A draining leader names a successor only with more battery than its own, and then one of the
-- coordinators with the most battery, itself and the observers left aside: it sends that node one
-- nomination in its term, and follows. If no such coordinator has more battery than the leader it
-- stays as it is, but for the mark that it has tried. The batteries of the others are those last
-- reported, or 100.
pub initiate_handoff-Outcome :
    (env : Env) (c : Coordinator) → Outcome env c (initiate_handoff env c)
unfolding initiate_handoff
initiate_handoff-Outcome env c =
    let l = candidates c.node_id c.peer_batteries (members env.cluster) in
    hand_over-Outcome env (sort l) c (sort-IsBest l)
