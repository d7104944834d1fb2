-- ===== src/Log/Shape.antt =====
-- Reading and truncating a log at a 1-based index.
use echod.Log
use echod.Prelude.{
  List, ap, arith, get_elem?, get_elem?-append_end, length, length-append, none, some, suc, take, ℕ,
  ◌++◌, ◌+◌, ◌-◌, ◌<◌, ◌∙◌, ◌∷◌, ◌≡◌, ◌≤◌,
}
use echod.Log.{ReplicatedLog}
use echod.Messages.{LogEntry}

pub get-suc :
    (log : ReplicatedLog) (i : ℕ)
    → i < length log.entries
    → Log.get log (suc i) ≡ get_elem? log.entries i
unfolding Log.get
get-suc log i h = let e : suc i - 1 ≡ i = omega arith in rw e (ground arith)

pub get-past : (log : ReplicatedLog) (i : ℕ) → length log.entries ≤ i → Log.get log (suc i) ≡ none
unfolding Log.get
get-past log i h = ground arith

pub get-middle :
    (log : ReplicatedLog) (pre : List LogEntry) (x : LogEntry) (xs : List LogEntry)
    → log.entries ≡ pre ++ x ∷ xs
    → Log.get log (suc (length pre)) ≡ some x
get-middle log pre x xs h =
    let n : length log.entries ≡ length pre + suc (length xs) =
      ap length h ∙ length-append pre (x ∷ xs) in
    get-suc log (length pre) (omega (arith, n))
    ∙ ap (λ (l : List LogEntry). get_elem? l (length pre)) h
    ∙ get_elem?-append_end pre x xs

pub truncate-suc :
    (log : ReplicatedLog) (i : ℕ)
    → Log.truncate_from (suc i) log ≡ record log { entries = take i log.entries }
unfolding Log.truncate_from
truncate-suc log i = let e : suc i - 1 ≡ i = omega arith in rw e (ground arith)
