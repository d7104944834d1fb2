-- ===== src/Log/Order.antt =====
-- The up-to-date test of log.py as an order on logs.
use echod.Prelude.{arith, true, ℕ, ◌<◌, ◌↔◌, ◌≡◌, ◌≤◌, ◌⊎◌}
use echod.Log.{ReplicatedLog, is_up_to_date, last_index, last_term}

-- Candidate log `c` is at least as up to date as `l`, by the test that a voter makes.
abbrev pub UpToDate : ReplicatedLog → ReplicatedLog → Type 0
UpToDate l c = is_up_to_date l (last_index c) (last_term c) ≡ true

-- A claimed position passes a log's test exactly when its term is higher than the log's last term,
-- or the terms are equal and its index is at least the log's last index.
pub is_up_to_date_iff :
    (l : ReplicatedLog) (i t : ℕ)
    → (is_up_to_date l i t ≡ true) ↔ ((last_term l < t) ⊎ ((t ≡ last_term l) × (last_index l ≤ i)))
unfolding is_up_to_date
is_up_to_date_iff l i t = ground arith

pub UpToDate-trans : (a b c : ReplicatedLog) → UpToDate a b → UpToDate b c → UpToDate a c
unfolding is_up_to_date
UpToDate-trans a b c p q = ground arith

-- Of two logs, one passes the other's test; and if both do, they end in the same term at the same
-- index.
pub UpToDate-total :
    (a b : ReplicatedLog)
    → (UpToDate a b ⊎ UpToDate b a)
      × ((UpToDate a b × UpToDate b a)
          ↔ ((last_term a ≡ last_term b) × (last_index a ≡ last_index b)))
unfolding is_up_to_date
UpToDate-total a b = (ground arith, (λ p. ground arith, λ p. ground arith))
