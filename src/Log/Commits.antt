-- ===== src/Log/Commits.antt =====
-- What `commit` returns, over one call and over a run of calls.
use echod.Prelude.{
  Bool-cases, List, [], ap, append-nil, append_assoc, arith, drop, inl, inr, leb, length,
  length-append, length-take, min, refl, suc, sym, take, zero, ℕ, ◌++◌, ◌<◌, ◌∙◌, ◌∷◌, ◌≡◌, ◌≤◌,
  ◌⊎◌,
}
use echod.Log.{ReplicatedLog, append, append_entries, commit, last_index, truncate_from}
use echod.Log.Shape.{truncate-suc}
use echod.Messages.{LogEntry}

-- The committed prefix.
abbrev pub committed : ReplicatedLog → List LogEntry
committed l = take l.commit_index l.entries

abbrev pub IsWithin : ReplicatedLog → Type 0
IsWithin l = l.commit_index ≤ last_index l

take-append-window {ℓ} :
    {A : Type ℓ} (m n : ℕ) (xs : List A) → m ≤ n → take n xs ≡ take m xs ++ drop m (take n xs)
take-append-window zero n xs h = refl
take-append-window (suc m) zero xs h = absurd (omega arith)
take-append-window (suc m) (suc n) [] h = refl
take-append-window (suc m) (suc n) (x ∷ xs) h =
    ap (λ (l : List _). x ∷ l) (take-append-window m n xs (omega arith))

-- `commit` on a log whose commit index is within the log: the committed prefix grows by exactly the
-- returned entries, the commit index never goes back and stays within the log, it reaches the
-- requested index or the end of the log, whichever is first, and the entries are unchanged.
pub commit-delivers :
    (n : ℕ) (l : ReplicatedLog)
    → IsWithin l
    → (committed (commit n l).0 ≡ committed l ++ (commit n l).1)
      × (l.commit_index ≤ (commit n l).0.commit_index)
      × IsWithin (commit n l).0
      × (min n (last_index l) ≤ (commit n l).0.commit_index)
      × ((commit n l).0.entries ≡ l.entries)
unfolding commit
commit-delivers n l h = elim (Bool-cases (leb n l.commit_index)) [
  | inl old ↦ (rw (old, append-nil), ground arith, ground arith, ground arith, ground arith)
  | inr new ↦ (
    rw new (take-append-window l.commit_index (min n (last_index l)) l.entries (ground arith)),
    ground arith,
    ground arith,
    ground arith,
    ground arith,
  )
]

-- The calls by which the protocols change a log.
pub data Change : Type 0 where
  appends : LogEntry → Change
  extends : List LogEntry → Change
  truncates : ℕ → Change
  commits : ℕ → Change

-- The new log, and what the call returns for the state machine.
unfoldable pub change : Change → ReplicatedLog → ReplicatedLog × List LogEntry
change (appends e) l = (append e l, [])
change (extends es) l = (append_entries es l, [])
change (truncates i) l = (truncate_from i l, [])
change (commits n) l = commit n l

pub change_all : List Change → ReplicatedLog → ReplicatedLog × List LogEntry
change_all [] l = (l, [])
change_all (x ∷ xs) l =
    let (m, out) = change x l in let (k, rest) = change_all xs m in (k, out ++ rest)

-- No truncation reaches into the committed prefix.
abbrev pub IsCautious : List Change → ReplicatedLog → Type 0
IsCautious [] l = Unit
IsCautious (truncates i ∷ xs) l =
    ((i ≡ 0) ⊎ (l.commit_index < i)) × IsCautious xs (change (truncates i) l).0
IsCautious (x ∷ xs) l = IsCautious xs (change x l).0

take-append_left {ℓ} :
    {A : Type ℓ} (n : ℕ) (xs ys : List A) → n ≤ length xs → take n (xs ++ ys) ≡ take n xs
take-append_left zero xs ys h = refl
take-append_left (suc n) [] ys h = absurd (omega arith)
take-append_left (suc n) (x ∷ xs) ys h =
    ap (λ (l : List _). x ∷ l) (take-append_left n xs ys (omega arith))

take-take {ℓ} : {A : Type ℓ} (n m : ℕ) (xs : List A) → n ≤ m → take n (take m xs) ≡ take n xs
take-take zero m xs h = refl
take-take (suc n) zero xs h = absurd (omega arith)
take-take (suc n) (suc m) [] h = refl
take-take (suc n) (suc m) (x ∷ xs) h = ap (λ (l : List _). x ∷ l) (take-take n m xs (omega arith))

-- One call delivers what it adds to the committed prefix, and keeps the commit index in the log.
abbrev Delivers : ReplicatedLog → ReplicatedLog × List LogEntry → Type 0
Delivers l r = (committed r.0 ≡ committed l ++ r.1) × IsWithin r.0

extends-Delivers :
    (es : List LogEntry) (l : ReplicatedLog)
    → IsWithin l
    → Delivers l (record l { entries = l.entries ++ es }, [])
extends-Delivers es l h = (
  take-append_left l.commit_index l.entries es h ∙ sym (append-nil (committed l)),
  omega (arith, length-append l.entries es),
)

truncates-Delivers :
    (i : ℕ) (l : ReplicatedLog)
    → (i ≡ 0) ⊎ (l.commit_index < i)
    → IsWithin l
    → Delivers l (truncate_from i l, [])
truncates-Delivers zero l c h = unfold truncate_from in (sym (append-nil (committed l)), h)
truncates-Delivers (suc i) l c h =
    let within : l.commit_index ≤ i = omega arith in
    rw (truncate-suc l i) (
      take-take l.commit_index i l.entries within ∙ sym (append-nil (committed l)),
      omega (arith, length-take i l.entries),
    )

change-Delivers :
    (x : Change) (xs : List Change) (l : ReplicatedLog)
    → IsCautious (x ∷ xs) l
    → IsWithin l
    → Delivers l (change x l)
unfolding change append append_entries
change-Delivers (appends e) xs l c h = extends-Delivers (e ∷ []) l h
change-Delivers (extends es) xs l c h = extends-Delivers es l h
change-Delivers (truncates i) xs l c h = truncates-Delivers i l c.0 h
change-Delivers (commits n) xs l c h = let d = commit-delivers n l h in (d.0, d.2)

IsCautious-rest :
    (x : Change) (xs : List Change) (l : ReplicatedLog)
    → IsCautious (x ∷ xs) l
    → IsCautious xs (change x l).0
IsCautious-rest (appends e) xs l c = c
IsCautious-rest (extends es) xs l c = c
IsCautious-rest (truncates i) xs l c = c.1
IsCautious-rest (commits n) xs l c = c

-- Whatever is appended, truncated and committed, in any order, from a log whose commit index is
-- within it: as long as no truncation reaches into the committed prefix, the entries that the
-- calls of `commit` return are, one after the other, exactly what the committed prefix grows by.
-- So the state machine gets every committed entry once, and in log order.
pub change_all-delivers :
    (xs : List Change) (l : ReplicatedLog)
    → IsCautious xs l
    → IsWithin l
    → (committed (change_all xs l).0 ≡ committed l ++ (change_all xs l).1)
      × IsWithin (change_all xs l).0
unfolding change_all
change_all-delivers [] l c h = (sym (append-nil (committed l)), h)
change_all-delivers (x ∷ xs) l c h =
    let d = change-Delivers x xs l c h in
    let rest = change_all-delivers xs (change x l).0 (IsCautious-rest x xs l c) d.1 in
    (
      rest.0
          ∙ ap (λ (p : List LogEntry). p ++ (change_all xs (change x l).0).1) d.0
          ∙ append_assoc (committed l) (change x l).1 (change_all xs (change x l).0).1,
      rest.1,
    )
