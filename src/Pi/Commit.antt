-- ===== src/Pi/Commit.antt =====
-- What the hardware coordinator commits.
use echod.Prelude.{List, [], false, length, suc, true, ℕ, ◌*◌, ◌+◌, ◌<◌, ◌∷◌, ◌≡◌, ◌≤◌}
use echod.Pi.{PiCoordinator, PiEnv}
use echod.Pi.Rounds.{commit_to, entry_term, pi_is_committable}
use echod.Prelude.Dict.{Dict}
use echod.Replication.Commit.{holders}

-- An entry of the own term that the node itself and the peers known to hold it, one for each place
-- among the peers, make more than half of the coordinators.
abbrev pub IsOnMajority : PiCoordinator → ℕ → Type 0
IsOnMajority c n =
    (entry_term c.log n ≡ c.current_term)
    × (suc (length c.peers) < 2 * suc (length (holders c.peers c.match_index n)))

-- What the loop from n down gives: the same object, with no replicated index up to n above the
-- commit index, or the object committed up to the highest such index.
data Advanced (env : PiEnv) (c : PiCoordinator) (n : ℕ) (d : PiCoordinator) : Type 0 where
  stays :
      d ≡ c
      → ((k : ℕ) → c.commit_index < k → k ≤ n → pi_is_committable c k ≡ false)
      → Advanced env c n d
  advances :
      (k : ℕ)
      → c.commit_index < k
      → k ≤ n
      → pi_is_committable c k ≡ true
      → ((j : ℕ) → k < j → j ≤ n → pi_is_committable c j ≡ false)
      → d ≡ commit_to env k c
      → Advanced env c n d

-- No entry that waits for its commit has an index up to n.
abbrev pub AllPast : ℕ → List (ℕ × ℕ) → Type 0
AllPast n [] = Unit
AllPast n ((i, t) ∷ d) = (n < i) × AllPast n d

-- What a commit may make of an object.
abbrev pub Committed : PiEnv → PiCoordinator → PiCoordinator → Type 0
Committed env c d =
    (c.commit_index < d.commit_index)
    × IsOnMajority c d.commit_index
    × AllPast d.commit_index d.pending_latency
    × (length d.latencies + length d.pending_latency
        ≡ length c.latencies + length c.pending_latency)
