-- ===== src/Log.antt =====
-- simulation/core/log.py: the replicated log, indexed from 1.
pub mod Commits
pub mod Order
pub mod Shape
use echod.Prelude.{
  Bool, List, Option, [], drop, eqb, get_elem?, if◌then◌else◌, leb, length, ltb, min, none, not,
  some, take, ℕ, ◌++◌, ◌-◌, ◌∷◌,
}
use echod.Messages.{LogEntry}

pub record ReplicatedLog : Type 0 where
  pub entries : List LogEntry
  pub commit_index : ℕ
  pub last_applied : ℕ

abbrev pub empty : ReplicatedLog
empty = record { entries = []; commit_index = 0; last_applied = 0 }

abbrev pub last_index : ReplicatedLog → ℕ
last_index l = length l.entries

-- entries[-1].term, and 0 for the empty list
abbrev pub term_of_last : List LogEntry → ℕ
term_of_last [] = 0
term_of_last (e ∷ []) = e.term
term_of_last (e ∷ f ∷ es) = term_of_last (f ∷ es)

abbrev pub last_term : ReplicatedLog → ℕ
last_term l = term_of_last l.entries

unfoldable pub get : ReplicatedLog → ℕ → Option LogEntry
get l index =
    if leb 1 index
    then (if leb index (length l.entries) then get_elem? l.entries (index - 1) else none)
    else none

-- entries[start_index - 1:], with a start below 1 raised to 1
unfoldable pub entries_from : ReplicatedLog → ℕ → List LogEntry
entries_from l start_index =
    let start = (if ltb start_index 1 then 1 else start_index) in drop (start - 1) l.entries

abbrev pub term_of : Option LogEntry → ℕ
term_of none = 0
term_of (some e) = e.term

unfoldable pub term_at : ReplicatedLog → ℕ → ℕ
unfolding get
term_at l index = term_of (get l index)

unfoldable pub append : LogEntry → ReplicatedLog → ReplicatedLog
append e l = record l { entries = l.entries ++ e ∷ [] }

unfoldable pub append_entries : List LogEntry → ReplicatedLog → ReplicatedLog
append_entries es l = record l { entries = l.entries ++ es }

unfoldable pub truncate_from : ℕ → ReplicatedLog → ReplicatedLog
truncate_from index l = if leb 1 index then record l { entries = take (index - 1) l.entries } else l

-- The new log, and the entries that the call returns: entries[old:commit_index].
unfoldable pub commit : ℕ → ReplicatedLog → ReplicatedLog × List LogEntry
commit new_commit_index l =
    if leb new_commit_index l.commit_index
    then (l, [])
    else (let index = min new_commit_index (last_index l) in
        (record l { commit_index = index }, drop l.commit_index (take index l.entries)))

unfoldable pub is_up_to_date : ReplicatedLog → ℕ → ℕ → Bool
is_up_to_date l last_log_index last_log_term =
    if not (eqb last_log_term (last_term l))
    then ltb (last_term l) last_log_term
    else leb (last_index l) last_log_index
