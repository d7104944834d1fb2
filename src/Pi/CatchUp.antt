-- ===== src/Pi/CatchUp.antt =====
-- From a leader's log through its AppendEntries request to the log of a hardware follower.
use echod.Log
use echod.Prelude.{
  List, [], ap, arith, drop, drop-map, false, if◌then◌else◌, length, length-map, ltb, map, min,
  refl, some, subst, suc, sym, take, zero, ℕ, ◌++◌, ◌+◌, ◌-◌, ◌∙◌, ◌∷◌, ◌≡◌, ◌≤◌,
}
use echod.Log.{ReplicatedLog}
use echod.Messages.{LogEntry, NodeId}
use echod.Pi.{PiCoordinator, PiEnv}
use echod.Pi.Accepting.{
  EndsWithReply, accept-Accepted, accepts, following, following-lem, pi_store_entries-Kept,
}
use echod.Pi.Append.{accept, finish, pi_follow_commit, pi_handle_append_entries, pi_store_entries}
use echod.Pi.Following.{pi_store_entries-raised, pi_store_entries-refines, read_entries}
use echod.Pi.Rounds.{entry_term, from_dict, pi_append_request, to_dict}
use echod.Pi.Simulated.{as_entry, as_log}
use echod.Prelude.Dict.{get_or}
use echod.Replication.{store_entries}
use echod.Replication.Merge.{IsNumbered, merge, store_entries-take-merge}
use echod.Wire.{PiEntry}

-- What a follower reads is what the leader has written.
read_entries-to_dict :
    (now : ℕ) (es : List PiEntry) → read_entries now (map to_dict es) ≡ map as_entry es
unfolding to_dict from_dict
read_entries-to_dict now [] = refl
read_entries-to_dict now (e ∷ es) =
    ap (λ (l : List LogEntry). as_entry e ∷ l) (read_entries-to_dict now es)

IsNumbered-drop : (n k : ℕ) (es : List LogEntry) → IsNumbered k es → IsNumbered (k + n) (drop n es)
IsNumbered-drop zero k es h = subst (λ m. IsNumbered m es) (omega arith) h
IsNumbered-drop (suc n) k [] h = tt
IsNumbered-drop (suc n) k (e ∷ es) h =
    subst (λ m. IsNumbered m (drop n es)) (omega arith) (IsNumbered-drop n (suc k) es h.1)

-- What the follower has after an accepted request, for the log that `merged` gives.
abbrev pub CaughtUp : PiEnv → PiCoordinator → PiCoordinator → PiCoordinator → List LogEntry → Type 0
CaughtUp env l c d merged =
    (map as_entry d.log ≡ merged)
    × (d.current_term ≡ l.current_term)
    × (d.current_leader_id ≡ some l.node_id)
    × (d.commit_index ≡ (
        if ltb c.commit_index l.commit_index
        then min l.commit_index (length d.log)
        else c.commit_index))
    × EndsWithReply env l.node_id d

-- The index before the first entry that a leader sends to a node.
abbrev pub sent_from : PiCoordinator → NodeId → ℕ
sent_from l peer = get_or peer 1 l.next_index - 1

stored_entries :
    (now n : ℕ) (es : List PiEntry) (c : PiCoordinator)
    → c.raised ≡ false
    → n ≤ length c.log
    → IsNumbered n (map as_entry es)
    → map as_entry (pi_store_entries now (map to_dict es) c).log
      ≡ take n (map as_entry c.log) ++ merge (map as_entry es) (drop n (map as_entry c.log))
stored_entries now n es c going reach numbered =
    let read = read_entries-to_dict now es in
    ap ReplicatedLog.entries (
      pi_store_entries-refines now (map to_dict es) n Log.empty c going
        (subst (IsNumbered n) (sym read) numbered))
    ∙ ap (λ (fs : List LogEntry). (store_entries fs (as_log Log.empty c.log)).entries) read
    ∙ store_entries-take-merge (map as_entry es) n (as_log Log.empty c.log)
        (omega (arith, length-map c.log as_entry, reach)) numbered

-- A follower whose term is not newer, that reaches the entry before those that the leader sends it
-- and agrees with the leader on that entry's term, handles the leader's request: of its log it
-- keeps what stands before the entries sent, and behind that stands the merge of these with its
-- own; it has the leader's term and follows it; its commit index is the leader's if that is
-- higher, cut at the end of the log, and otherwise its own; and its last message is a positive
-- answer with the length of its log.
pub append_request-CaughtUp :
    (env : PiEnv) (l c : PiCoordinator)
    → IsNumbered 0 (map as_entry l.log)
    → sent_from l c.node_id ≤ length c.log
    → entry_term c.log (sent_from l c.node_id) ≡ entry_term l.log (sent_from l c.node_id)
    → c.current_term ≤ l.current_term
    → CaughtUp env l c (pi_handle_append_entries env l.node_id (pi_append_request c.node_id l) c) (
        take (sent_from l c.node_id) (map as_entry c.log)
        ++ merge
            (map as_entry (drop (sent_from l c.node_id) l.log))
            (drop (sent_from l c.node_id) (map as_entry c.log)))
unfolding pi_append_request
append_request-CaughtUp env l c numbered reach agree older =
    let n = sent_from l c.node_id in
    let es = drop n l.log in
    let p = pi_append_request c.node_id l in
    let f = following env p c in
    let start = following-lem env p c older in
    let stored = pi_store_entries env.now (map to_dict es) f in
    let kept = pi_store_entries-Kept env.now (map to_dict es) f in
    let from_n : IsNumbered n (map as_entry es) = subst (IsNumbered n) (drop-map as_entry n l.log) (
      subst (λ m. IsNumbered m (drop n (map as_entry l.log))) (omega arith)
        (IsNumbered-drop n 0 (map as_entry l.log) numbered)) in
    let going : stored.raised ≡ false =
      pi_store_entries-raised env.now (map to_dict es) n f refl
        (subst (IsNumbered n) (sym (read_entries-to_dict env.now es)) from_n) in
    let finished : finish env l.node_id p stored
        ≡ accept env l.node_id (pi_follow_commit p.leader_commit stored) =
      rw going refl in
    let done = accept-Accepted env l.node_id p stored in
    let merged =
      stored_entries env.now n es f refl (omega (arith, reach, ap length start.0)) from_n in
    subst
      (λ d.
        CaughtUp env l c d
          (take n (map as_entry c.log) ++ merge (map as_entry es) (drop n (map as_entry c.log))))
      (sym (accepts env l.node_id p c older reach agree ∙ finished))
      (
        ap (map as_entry) done.0
            ∙ merged
            ∙ ap
                (λ (own : List PiEntry).
                  take n (map as_entry own) ++ merge (map as_entry es) (drop n (map as_entry own)))
                start.0,
        done.1 ∙ kept.0 ∙ start.1,
        done.2 ∙ kept.1,
        ground (arith, done.3, done.0, kept.2, start.2),
        done.4,
      )
