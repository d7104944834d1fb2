-- ===== src/Cluster/Steps.antt =====
-- One step keeps the record of the votes, with the vote that the node now has.
use mathlib.Core.List.{Memᴰ}
use echod.Prelude.{List, ap, arith, inl, inr, some, subst, sym, true, ℕ, ◌∙◌, ◌≡◌, ◌≢◌, ◌≤◌}
use echod.Cluster.{Arrives, Knows, System}
use echod.Cluster.Added.{added, added-cases, added-new, added-old}
use echod.Cluster.Ballots.{Recorded, Vote}
use echod.Dispatch.Invariant.{IsSound}
use echod.Dispatch.Votes.{VoteStands}
use echod.Machine.{Event}
use echod.Machine.Turns.{Turn}
use echod.Messages.{NodeId}
use echod.Node.{Coordinator, Env}
use echod.Prelude.Dict.{member}

-- Node `i` makes the step to `d`, in a system of which `votes` is the record.
pub record Move (cids : List NodeId) (s : System) (votes : List Vote) (i : NodeId) (env : Env)
    (event : Event) (d : Coordinator) : Type 0 where
  pub recorded : Recorded cids s votes
  pub turn : Turn env event (s i) d
  pub stands : VoteStands (s i) d
  pub sound : IsSound d
  pub here : member i cids ≡ true
  pub knows : Knows cids env
  pub arrives : Arrives s i event

module _ (cids : List NodeId) (s : System) (votes : List Vote) (i : NodeId) (env : Env)
    (event : Event) (d : Coordinator) (move : Move cids s votes i env event d) where
  open move use {recorded, turn, stands, here}
  open recorded use {ids, unique, voters_known, terms_past, current}

  abbrev pub grown : List Vote
  grown = added d.voted_for i d.current_term votes

  pub old : (b : Vote) → Memᴰ b votes → Memᴰ b grown
  old b m = added-old d.voted_for i d.current_term votes b m

  pub new : (x : NodeId) → d.voted_for ≡ some x → Memᴰ (i, d.current_term, x) grown
  new x e = added-new d.voted_for i d.current_term votes x e

  pub same_id : d.node_id ≡ i
  same_id = turn.node_id ∙ ids i

  -- A vote of the node from the term that it is in still stands.
  keeps : (t : ℕ) (y : NodeId) → Memᴰ (i, t, y) votes → t ≡ d.current_term → d.voted_for ≡ some y
  keeps t y m e =
      let past = terms_past i t y m in
      let same_term : (s i).current_term ≡ d.current_term =
        omega (arith, past, stands.term_grows, e) in
      stands.vote_stands y (current i t y m (e ∙ sym same_term)) same_term

  pub grown_unique :
      (v : NodeId) (t : ℕ) (x y : NodeId) → Memᴰ (v, t, x) grown → Memᴰ (v, t, y) grown → x ≡ y
  grown_unique v t x y m n = elim (added-cases d.voted_for i d.current_term votes v t x m) [
    | inl (vi, td, ex) ↦ elim (added-cases d.voted_for i d.current_term votes v t y n) [
      | inl (vi', td', ey) ↦ ground (arith, ex, ey)
      | inr n' ↦
          let ey = keeps t y (subst (λ w. Memᴰ (w, t, y) votes) vi n') td in ground (arith, ex, ey)
    ]
    | inr m' ↦ elim (added-cases d.voted_for i d.current_term votes v t y n) [
      | inl (vi, td, ey) ↦
          let ex = keeps t x (subst (λ w. Memᴰ (w, t, x) votes) vi m') td in ground (arith, ex, ey)
      | inr n' ↦ unique v t x y m' n'
    ]
  ]

  pub grown_known : (v : NodeId) (t : ℕ) (x : NodeId) → Memᴰ (v, t, x) grown → member v cids ≡ true
  grown_known v t x m = elim (added-cases d.voted_for i d.current_term votes v t x m) [
    | inl (vi, td, ex) ↦ ap (λ w. member w cids) vi ∙ here
    | inr m' ↦ voters_known v t x m'
  ]

  -- Of a node that did not move only the old votes are recorded.
  pub unmoved :
      (j : NodeId) (t : ℕ) (x : NodeId) → i ≢ j → Memᴰ (j, t, x) grown → Memᴰ (j, t, x) votes
  unmoved j t x n m = elim (added-cases d.voted_for i d.current_term votes j t x m) [
    | inl (ji, td, ex) ↦ absurd (n (sym ji))
    | inr m' ↦ m'
  ]

  pub own_past : (t : ℕ) (x : NodeId) → Memᴰ (i, t, x) grown → t ≤ d.current_term
  own_past t x m = elim (added-cases d.voted_for i d.current_term votes i t x m) [
    | inl (ii, td, ex) ↦ omega (arith, td)
    | inr m' ↦ omega (arith, terms_past i t x m', stands.term_grows)
  ]

  pub own_current :
      (t : ℕ) (x : NodeId) → Memᴰ (i, t, x) grown → t ≡ d.current_term → d.voted_for ≡ some x
  own_current t x m e = elim (added-cases d.voted_for i d.current_term votes i t x m) [
    | inl (ii, td, ex) ↦ ex
    | inr m' ↦ keeps t x m' e
  ]
