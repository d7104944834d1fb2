-- ===== src/Replication/Merge.antt =====
-- The loop over the entries of an AppendEntries request, against a merge of two lists.
use echod.Log
-- The entries carry the indices n + 1, n + 2, ...
use echod.Prelude.{
  Bool-cases, List, [], ap, append-nil, append_assoc, arith, drop, eqb, eqb_iff, false,
  if◌then◌else◌, inl, inr, length, length-append, length-take, refl, subst, suc, sym, take,
  take-append, take-append-drop, take_all, true, ℕ, ◌++◌, ◌+◌, ◌∙◌, ◌∷◌, ◌≡◌, ◌≤◌,
}
use echod.Log.{ReplicatedLog}
use echod.Log.Shape.{get-middle, get-past, truncate-suc}
use echod.Messages.{LogEntry}
use echod.Replication.{store_entries, store_entry}

abbrev pub IsNumbered : ℕ → List LogEntry → Type 0
IsNumbered n [] = Unit
IsNumbered n (e ∷ es) = (e.index ≡ suc n) × IsNumbered (suc n) es

-- What a follower keeps of its entries behind `prev_log_index`: its own, as long as the terms
-- agree; from the first difference on, or past its own end, the leader's.
unfoldable pub merge : List LogEntry → List LogEntry → List LogEntry
merge [] own = own
merge (e ∷ es) [] = e ∷ es
merge (e ∷ es) (x ∷ xs) = let rest = merge es xs in if eqb x.term e.term then x ∷ rest else e ∷ es

merge-nil : (es : List LogEntry) → merge es [] ≡ es
unfolding merge
merge-nil [] = refl
merge-nil (e ∷ es) = refl

module _ (e : LogEntry) (log : ReplicatedLog) (pre : List LogEntry)
    (numbered : e.index ≡ suc (length pre)) where
  store_entry-end : log.entries ≡ pre → (store_entry e log).entries ≡ pre ++ e ∷ []
  unfolding store_entry Log.append
  store_entry-end h = ground (arith, get-past log (length pre), ap length h)

  module _ (x : LogEntry) (xs : List LogEntry) (split : log.entries ≡ pre ++ x ∷ xs) where
    store_entry-agrees : eqb x.term e.term ≡ true → store_entry e log ≡ log
    unfolding store_entry
    store_entry-agrees h =
        let n : length log.entries ≡ length pre + suc (length xs) =
          ap length split ∙ length-append pre (x ∷ xs) in
        ground (arith, get-middle log pre x xs split)

    store_entry-conflict : eqb x.term e.term ≡ false → (store_entry e log).entries ≡ pre ++ e ∷ []
    unfolding store_entry Log.append
    store_entry-conflict h =
        let cut : take (length pre) log.entries ≡ pre =
          ap (take (length pre)) split ∙ take-append pre (x ∷ xs) in
        ground (arith, get-middle log pre x xs split, truncate-suc log (length pre), ap length cut)

regroup :
    (pre : List LogEntry) (e : LogEntry) (l : List LogEntry) → (pre ++ e ∷ []) ++ l ≡ pre ++ e ∷ l
regroup pre e l = append_assoc pre (e ∷ []) l

length-snoc : (pre : List LogEntry) (e : LogEntry) → length (pre ++ e ∷ []) ≡ suc (length pre)
length-snoc pre e = omega (arith, length-append pre (e ∷ []))

-- The loop, one index at a time, is the merge.
store_entries-merge :
    (es : List LogEntry) (pre own : List LogEntry) (log : ReplicatedLog)
    → log.entries ≡ pre ++ own
    → IsNumbered (length pre) es
    → (store_entries es log).entries ≡ pre ++ merge es own
unfolding store_entries merge
store_entries-merge [] pre own log h n = h
store_entries-merge (e ∷ es) pre [] log h n =
    store_entries-merge es (pre ++ e ∷ []) [] (store_entry e log)
      (store_entry-end e log pre n.0 (h ∙ append-nil pre) ∙ sym (append-nil (pre ++ e ∷ [])))
      (subst (λ k. IsNumbered k es) (sym (length-snoc pre e)) n.1)
    ∙ ap (λ (l : List LogEntry). (pre ++ e ∷ []) ++ l) (merge-nil es)
    ∙ regroup pre e es
store_entries-merge (e ∷ es) pre (x ∷ xs) log h n = elim (Bool-cases (eqb x.term e.term)) [
  | inl same ↦ rw same (
      ap (λ (l : ReplicatedLog). (store_entries es l).entries)
        (store_entry-agrees e log pre n.0 x xs h same)
      ∙ store_entries-merge es (pre ++ x ∷ []) xs log (h ∙ sym (regroup pre x xs))
          (subst (λ k. IsNumbered k es) (sym (length-snoc pre x)) n.1)
      ∙ regroup pre x (merge es xs))
  | inr other ↦ rw other (
      store_entries-merge es (pre ++ e ∷ []) [] (store_entry e log)
        (store_entry-conflict e log pre n.0 x xs h other ∙ sym (append-nil (pre ++ e ∷ [])))
        (subst (λ k. IsNumbered k es) (sym (length-snoc pre e)) n.1)
      ∙ ap (λ (l : List LogEntry). (pre ++ e ∷ []) ++ l) (merge-nil es)
      ∙ regroup pre e es)
]

abbrev pub terms : List LogEntry → List ℕ
terms [] = []
terms (e ∷ es) = e.term ∷ terms es

-- The merged list has the leader's terms where the leader has entries.
pub merge-terms : (es own : List LogEntry) → terms (take (length es) (merge es own)) ≡ terms es
unfolding merge
merge-terms [] own = refl
merge-terms (e ∷ es) [] = ap terms (take_all (length (e ∷ es)) (e ∷ es) (omega arith))
merge-terms (e ∷ es) (x ∷ xs) = elim (Bool-cases (eqb x.term e.term)) [
  | inl same ↦ rw same (
      ap (λ (l : List ℕ). x.term ∷ l) (merge-terms es xs)
      ∙ ap (λ (t : ℕ). t ∷ terms es) ((eqb_iff x.term e.term).0 same))
  | inr other ↦ rw other (ap terms (take_all (length (e ∷ es)) (e ∷ es) (omega arith)))
]

-- A follower whose entries have the leader's terms as far as both go keeps all of its entries.
abbrev pub Agrees : List LogEntry → List LogEntry → Type 0
Agrees [] own = Unit
Agrees (e ∷ es) [] = Unit
Agrees (e ∷ es) (x ∷ xs) = (x.term ≡ e.term) × Agrees es xs

pub merge-keeps : (es own : List LogEntry) → Agrees es own → take (length own) (merge es own) ≡ own
unfolding merge
merge-keeps [] own h = take_all (length own) own (omega arith)
merge-keeps (e ∷ es) [] h = refl
merge-keeps (e ∷ es) (x ∷ xs) h =
    rw ((eqb_iff x.term e.term).1 h.0) (ap (λ (l : List LogEntry). x ∷ l) (merge-keeps es xs h.1))

-- The loop over the entries of a request, where they are numbered from `prev` + 1 on and the log
-- reaches `prev`: the log keeps its first `prev` entries, and behind them stands the merge of the
-- request's entries with the log's own.
pub store_entries-take-merge :
    (es : List LogEntry) (prev : ℕ) (log : ReplicatedLog)
    → prev ≤ length log.entries
    → IsNumbered prev es
    → (store_entries es log).entries ≡ take prev log.entries ++ merge es (drop prev log.entries)
store_entries-take-merge es prev log h n =
    let size : length (take prev log.entries) ≡ prev =
      omega (arith, length-take prev log.entries) in
    store_entries-merge es (take prev log.entries) (drop prev log.entries) log
      (sym (take-append-drop prev log.entries)) (subst (λ k. IsNumbered k es) (sym size) n)
