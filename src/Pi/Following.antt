-- ===== src/Pi/Following.antt =====
-- The AppendEntries loop of the hardware coordinator against the simulated one.
use echod.Log
use echod.Prelude.{
  Bool-cases, List, Option, [], ap, arith, drop, eqb, false, get_elem?, get_elem?-none, inl, inr,
  leb, leb→le, length, length-map, length-take, map, map-append, none, not, refl, some, suc, take,
  take-map, true, zero, ℕ, ◌++◌, ◌<◌, ◌∙◌, ◌∷◌, ◌≡◌, ◌≤◌,
}
use echod.Log.{ReplicatedLog}
use echod.Log.Shape.{truncate-suc}
use echod.Messages.{Command, LogEntry, NodeId}
use echod.Pi.{PiCoordinator, pi_send}
use echod.Pi.Append.{
  pi_store_entries, pi_store_entry, provisional_commands, replay_provisional, replay_target,
  replay_to, stored_term,
}
use echod.Pi.Rounds.{from_dict}
use echod.Pi.Simulated.{as_entry, as_log}
use echod.Replication.{conflicts, store_entries, store_entry}
use echod.Replication.Merge.{IsNumbered}
use echod.Wire.{PiEntry, RawEntry}

log-replay_provisional :
    (gone : List PiEntry) (c : PiCoordinator) → (replay_provisional gone c).log ≡ c.log
unfolding replay_provisional pi_send
log-replay_provisional gone c =
    to (replay_target c.protocol c.node_id c.current_leader_id) (provisional_commands gone)
  where
    to :
        (target : Option NodeId) (commands : List Command)
        → (replay_to target commands c).log ≡ c.log
    to none [] = refl
    to (some l) [] = refl
    to none (x ∷ rest) = refl
    to (some l) (x ∷ rest) = refl

-- What the simulated log has at an index.
get-as_log :
    (log : ReplicatedLog) (es : List PiEntry) (i : ℕ)
    → Log.get (as_log log es) (suc i) ≡ get_elem? (map as_entry es) i
unfolding Log.get
get-as_log log es i = elim (Bool-cases (leb (suc i) (length (map as_entry es)))) [
  | inl h ↦ ground arith
  | inr h ↦ ground (arith, get_elem?-none i (map as_entry es) (ground arith))
]

conflicts-stored :
    (es : List PiEntry) (i : ℕ) (e : PiEntry)
    → i < length es
    → conflicts (get_elem? (map as_entry es) i) (as_entry e)
      ≡ not (eqb (stored_term es (suc i)) e.term)
conflicts-stored [] i e h = absurd (omega arith)
conflicts-stored (x ∷ es) zero e h = refl
conflicts-stored (x ∷ es) (suc i) e h = conflicts-stored es i e (omega arith)

module _ (log : ReplicatedLog) (e : PiEntry) (i : ℕ) (numbered : e.index ≡ suc i)
    (c : PiCoordinator) where
  stored_past :
      length c.log ≤ i
      → as_log log (pi_store_entry e c).log ≡ store_entry (as_entry e) (as_log log c.log)
  unfolding pi_store_entry store_entry Log.append
  stored_past h =
      let gone : Log.get (as_log log c.log) (suc i) ≡ none =
        get-as_log log c.log i
        ∙ get_elem?-none i (map as_entry c.log) (omega (arith, length-map c.log as_entry, h)) in
      ground (arith, gone, length-map c.log as_entry, map-append as_entry c.log (e ∷ []))

  module _ (within : i < length c.log) where
    found : Log.get (as_log log c.log) (suc i) ≡ get_elem? (map as_entry c.log) i
    found = get-as_log log c.log i

    stored_same :
        eqb (stored_term c.log (suc i)) e.term ≡ true
        → as_log log (pi_store_entry e c).log ≡ store_entry (as_entry e) (as_log log c.log)
    unfolding pi_store_entry store_entry
    stored_same h =
        ground (arith, found, conflicts-stored c.log i e within, length-map c.log as_entry)

    stored_conflict :
        eqb (stored_term c.log (suc i)) e.term ≡ false
        → as_log log (pi_store_entry e c).log ≡ store_entry (as_entry e) (as_log log c.log)
    unfolding pi_store_entry store_entry Log.append
    stored_conflict h =
        let cut : length (take i (map as_entry c.log)) ≡ i =
          omega (arith, length-take i (map as_entry c.log), length-map c.log as_entry) in
        let d = record c { log = take i c.log ++ e ∷ [] } in
        ground (
          arith,
          found,
          conflicts-stored c.log i e within,
          length-map c.log as_entry,
          truncate-suc (as_log log c.log) i,
          cut,
          take-map as_entry i c.log,
          map-append as_entry (take i c.log) (e ∷ []),
          log-replay_provisional (drop i c.log) d,
        )

  pi_store_entry-refines :
      as_log log (pi_store_entry e c).log ≡ store_entry (as_entry e) (as_log log c.log)
  pi_store_entry-refines = elim (Bool-cases (leb (suc i) (length c.log))) [
    | inl h ↦ elim (Bool-cases (eqb (stored_term c.log (suc i)) e.term)) [
      | inl same ↦ stored_same (leb→le (suc i) (length c.log) h) same
      | inr other ↦ stored_conflict (leb→le (suc i) (length c.log) h) other
    ]
    | inr h ↦ stored_past (ground arith)
  ]

raised-replay_provisional :
    (gone : List PiEntry) (c : PiCoordinator) → (replay_provisional gone c).raised ≡ c.raised
unfolding replay_provisional pi_send
raised-replay_provisional gone c =
    to (replay_target c.protocol c.node_id c.current_leader_id) (provisional_commands gone)
  where
    to :
        (target : Option NodeId) (commands : List Command)
        → (replay_to target commands c).raised ≡ c.raised
    to none [] = refl
    to (some l) [] = refl
    to none (x ∷ rest) = refl
    to (some l) (x ∷ rest) = refl

-- An entry with an index from 1 on raises nothing.
pub pi_store_entry-raised :
    (e : PiEntry) (i : ℕ)
    → e.index ≡ suc i
    → (c : PiCoordinator) → c.raised ≡ false
    → (pi_store_entry e c).raised ≡ false
unfolding pi_store_entry
pi_store_entry-raised e i numbered c going =
    let d = record c { log = take i c.log ++ e ∷ [] } in
    ground (arith, raised-replay_provisional (drop i c.log) d)

-- The entries of a request as a follower reads them.
abbrev pub read_entries : ℕ → List RawEntry → List LogEntry
read_entries now [] = []
read_entries now (raw ∷ raws) = as_entry (from_dict now raw) ∷ read_entries now raws

pub pi_store_entries-raised :
    (now : ℕ) (raws : List RawEntry) (n : ℕ) (c : PiCoordinator)
    → c.raised ≡ false
    → IsNumbered n (read_entries now raws)
    → (pi_store_entries now raws c).raised ≡ false
unfolding pi_store_entries
pi_store_entries-raised now [] n c going h = going
pi_store_entries-raised now (raw ∷ raws) n c going h =
    let e = from_dict now raw in
    let kept = pi_store_entry-raised e n (unfold from_dict in h.0) c going in
    rw kept
      (pi_store_entries-raised now raws (suc n) (pi_store_entry e c) kept (unfold from_dict in h.1))

-- The loop over a request's entries, numbered from n + 1 on, does to the log what the simulated one
-- does.
pub pi_store_entries-refines :
    (now : ℕ) (raws : List RawEntry) (n : ℕ) (log : ReplicatedLog) (c : PiCoordinator)
    → c.raised ≡ false
    → IsNumbered n (read_entries now raws)
    → as_log log (pi_store_entries now raws c).log
      ≡ store_entries (read_entries now raws) (as_log log c.log)
unfolding pi_store_entries store_entries
pi_store_entries-refines now [] n log c going h = refl
pi_store_entries-refines now (raw ∷ raws) n log c going h =
    let e = from_dict now raw in
    let d = pi_store_entry e c in
    rw (pi_store_entry-raised e n (unfold from_dict in h.0) c going) (
      pi_store_entries-refines now raws (suc n) log d
        (pi_store_entry-raised e n (unfold from_dict in h.0) c going) (unfold from_dict in h.1)
      ∙ ap (store_entries (read_entries now raws))
          (pi_store_entry-refines log e n (unfold from_dict in h.0) c))
