-- ===== src/Cluster/Added.antt =====
-- The votes with one more recorded.
use mathlib.Core.List.{Memᴰ}
use echod.Prelude.{
  List, Option, [], ap, arith, inl, inr, length, none, refl, some, suc, sym, ℕ, ◌++◌, ◌∷◌, ◌≡◌, ◌⊎◌,
}
use echod.Cluster.Ballots.{Vote}
use echod.Election.{coordinator_count}
use echod.Leaf.{coordinator_ids}
use echod.Messages.{NodeId}
use echod.Node.{Peer, coordinator, leaf}

abbrev pub added : Option NodeId → NodeId → ℕ → List Vote → List Vote
added none v t votes = votes
added (some x) v t votes = (v, t, x) ∷ votes

pub added-old :
    (o : Option NodeId) (v : NodeId) (t : ℕ) (votes : List Vote) (b : Vote)
    → Memᴰ b votes
    → Memᴰ b (added o v t votes)
added-old none v t votes b m = m
added-old (some x) v t votes b m = Memᴰ.tail m

pub added-new :
    (o : Option NodeId) (v : NodeId) (t : ℕ) (votes : List Vote) (x : NodeId)
    → o ≡ some x
    → Memᴰ (v, t, x) (added o v t votes)
added-new none v t votes x e = cc
added-new (some y) v t votes x e = Memᴰ.head (ground (arith, e))

-- A recorded vote is the new one, or was recorded before.
pub added-cases :
    (o : Option NodeId) (v : NodeId) (t : ℕ) (votes : List Vote) (w : NodeId) (u : ℕ) (y : NodeId)
    → Memᴰ (w, u, y) (added o v t votes)
    → ((w ≡ v) × (u ≡ t) × (o ≡ some y)) ⊎ Memᴰ (w, u, y) votes
added-cases none v t votes w u y m = inr m
added-cases (some x) v t votes w u y (Memᴰ.head e) =
    inl (ap (λ (b : Vote). b.0) e, ap (λ (b : Vote). b.1) e, ap (λ (b : Vote). some b.2) (sym e))
added-cases (some x) v t votes w u y (Memᴰ.tail m) = inr m

pub mem-split {ℓ} :
    {A : Type ℓ} {a : A} (xs ys : List A) → Memᴰ a (xs ++ ys) → Memᴰ a xs ⊎ Memᴰ a ys
mem-split [] ys m = inr m
mem-split (x ∷ xs) ys (Memᴰ.head e) = inl (Memᴰ.head e)
mem-split (x ∷ xs) ys (Memᴰ.tail m) = elim (mem-split xs ys m) [
  | inl l ↦ inl (Memᴰ.tail l)
  | inr r ↦ inr r
]

pub length-coordinator_ids : (ps : List Peer) → coordinator_count ps ≡ length (coordinator_ids ps)
length-coordinator_ids [] = refl
length-coordinator_ids (coordinator i s ∷ ps) = ap suc (length-coordinator_ids ps)
length-coordinator_ids (leaf i ∷ ps) = length-coordinator_ids ps
