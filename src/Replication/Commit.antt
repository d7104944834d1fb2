-- ===== src/Replication/Commit.antt =====
-- How a leader advances its commit index.
use echod.Log
use mathlib.Core.Bool.{false≢true}
-- The peers that are known to hold entry n.
use echod.Prelude.{
  Bool-cases, List, [], ap, arith, false, if◌then◌else◌, inl, inr, leb, leb→le, length, none, refl,
  some, suc, sym, true, zero, ℕ, ◌*◌, ◌<◌, ◌↔◌, ◌∙◌, ◌∷◌, ◌≡◌, ◌≢◌, ◌≤◌, ◌⊎◌,
}
use echod.Log.{ReplicatedLog}
use echod.Messages.{NodeId}
use echod.Node.{Coordinator, Env, Peer, coordinators_except}
use echod.Prelude.Dict.{Dict, get_or}
use echod.Replication.{advance_from, is_committable, repl_count, try_advance_commit}

abbrev pub holders : List NodeId → Dict ℕ → ℕ → List NodeId
holders [] match_index n = []
holders (cid ∷ cids) match_index n =
    if leb n (get_or cid 0 match_index)
    then cid ∷ holders cids match_index n
    else holders cids match_index n

repl_count-holders :
    (cids : List NodeId) (m : Dict ℕ) (n : ℕ)
    → repl_count cids m n ≡ suc (length (holders cids m n))
unfolding repl_count
repl_count-holders [] m n = refl
repl_count-holders (cid ∷ cids) m n = ground (arith, repl_count-holders cids m n)

-- Entry n is of the leader's own term, and the leader and the peers that hold it are more than half
-- of the leader and all its peers.
abbrev pub IsReplicated : List NodeId → Coordinator → ℕ → Type 0
IsReplicated cids c n =
    (Log.term_of (Log.get c.log n) ≡ c.current_term)
    × (Log.get c.log n ≢ none)
    × (suc (length cids) < 2 * suc (length (holders cids c.match_index n)))

is_committable_iff :
    (cids : List NodeId) (c : Coordinator) (n : ℕ)
    → (is_committable cids c n ≡ true) ↔ IsReplicated cids c n
unfolding is_committable
is_committable_iff cids c n = (
  λ h. ground (arith, repl_count-holders cids c.match_index n),
  λ h. ground (arith, repl_count-holders cids c.match_index n),
)

-- What the loop from n down gives: the log as it was, with no committable index up to n, or the log
-- committed up to the highest such index.
data Advanced (cids : List NodeId) (c : Coordinator) (n : ℕ) (log : ReplicatedLog) : Type 0 where
  stays :
      log ≡ c.log
      → ((k : ℕ) → c.log.commit_index < k → k ≤ n → is_committable cids c k ≡ false)
      → Advanced cids c n log
  advances :
      (k : ℕ)
      → c.log.commit_index < k
      → k ≤ n
      → is_committable cids c k ≡ true
      → ((j : ℕ) → k < j → j ≤ n → is_committable cids c j ≡ false)
      → log ≡ (Log.commit k c.log).0
      → Advanced cids c n log

split_last : (k n : ℕ) → k ≤ suc n → (k ≤ n) ⊎ (k ≡ suc n)
split_last k n h = grind arith

below_last :
    (cids : List NodeId) (c : Coordinator) (n k : ℕ)
    → is_committable cids c (suc n) ≡ false
    → ((j : ℕ) → k < j → j ≤ n → is_committable cids c j ≡ false)
    → (j : ℕ) → k < j
    → j ≤ suc n
    → is_committable cids c j ≡ false
below_last cids c n k last_fails fails j p q = elim (split_last j n q) [
  | inl r ↦ fails j p r
  | inr e ↦ rw e last_fails
]

Advanced-suc :
    {cids : List NodeId} {c : Coordinator} {n : ℕ} {log : ReplicatedLog}
    → is_committable cids c (suc n) ≡ false
    → Advanced cids c n log
    → Advanced cids c (suc n) log
Advanced-suc {cids} {c} {n} h (stays e fails) =
    stays e (below_last cids c n c.log.commit_index h fails)
Advanced-suc {cids} {c} {n} h (advances k p q yes_k fails e) =
    advances k p (omega arith) yes_k (below_last cids c n k h fails) e

advance_from-Advanced :
    (cids : List NodeId) (c : Coordinator) (n : ℕ) → Advanced cids c n (advance_from cids c n)
unfolding advance_from
advance_from-Advanced cids c zero = stays refl (λ k p q. absurd (omega arith))
advance_from-Advanced cids c (suc n) = elim (Bool-cases (leb (suc n) c.log.commit_index)) [
  | inl done ↦ rw done (stays refl (λ k p q. absurd (omega (arith, leb→le (suc n) _ done))))
  | inr more ↦ rw more (elim (Bool-cases (is_committable cids c (suc n))) [
    | inl found ↦
        rw found
          (advances (suc n) (ground arith) (omega arith) found (λ j p q. absurd (omega arith)) refl)
    | inr next ↦ rw next (Advanced-suc next (advance_from-Advanced cids c n))
  ])
]

fails_or :
    (cids : List NodeId) (c : Coordinator) (low k : ℕ)
    → ((j : ℕ) → low < j → j ≤ Log.last_index c.log → is_committable cids c j ≡ false)
    → (k ≤ low) ⊎ (Log.last_index c.log < k) ⊎ (¬ IsReplicated cids c k)
fails_or cids c low k fails = elim (Bool-cases (leb k low)) [
  | inl p ↦ inl (leb→le k low p)
  | inr p ↦ elim (Bool-cases (leb k (Log.last_index c.log))) [
    | inl q ↦ inr (
        inr λ r.
          false≢true
            (sym (fails k (ground arith) (leb→le k _ q)) ∙ (is_committable_iff cids c k).1 r))
    | inr q ↦ inr (inl (ground arith))
  ]
]

Advanced-outcome :
    {cids : List NodeId} {c : Coordinator} {log : ReplicatedLog} (k : ℕ)
    → Advanced cids c (Log.last_index c.log) log
    → (log.entries ≡ c.log.entries)
      × ((log.commit_index ≡ c.log.commit_index)
          ⊎ ((c.log.commit_index < log.commit_index) × IsReplicated cids c log.commit_index))
      × ((k ≤ log.commit_index) ⊎ (Log.last_index c.log < k) ⊎ (¬ IsReplicated cids c k))
unfolding Log.commit
Advanced-outcome {cids} {c} {log} k (stays e fails) = (
  ap ReplicatedLog.entries e,
  inl (ap ReplicatedLog.commit_index e),
  rw (ap ReplicatedLog.commit_index e) (fails_or cids c c.log.commit_index k fails),
)
Advanced-outcome {cids} {c} {log} k (advances n p q found fails e) =
    let reached : log.commit_index ≡ n = ground arith in
    (
      ground arith,
      inr (rw reached (p, (is_committable_iff cids c n).0 found)),
      rw reached (fails_or cids c n k fails),
    )

-- A leader's commit index after the counting loop, for any index k: no entry is changed; the commit
-- index is unchanged, or it has grown to an entry of the leader's own term, of any partition epoch,
-- that is held by more than half of the coordinators; and k is committed, lies past the log, or is no such entry.
pub try_advance_commit-highest :
    (env : Env) (ps : List Peer) (c : Coordinator) (k : ℕ)
    → env.cluster ≡ some ps
    → let cids = coordinators_except c.node_id ps in
      let log = (try_advance_commit env c).log in
      (log.entries ≡ c.log.entries)
      × ((log.commit_index ≡ c.log.commit_index)
          ⊎ ((c.log.commit_index < log.commit_index) × IsReplicated cids c log.commit_index))
      × ((k ≤ log.commit_index) ⊎ (Log.last_index c.log < k) ⊎ (¬ IsReplicated cids c k))
unfolding try_advance_commit
try_advance_commit-highest env ps c k h =
    let cids = coordinators_except c.node_id ps in
    rw h (
      Advanced-outcome {log = advance_from cids c (Log.last_index c.log)} k
        (advance_from-Advanced cids c (Log.last_index c.log)))
