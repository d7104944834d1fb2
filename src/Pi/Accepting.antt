-- ===== src/Pi/Accepting.antt =====
-- A hardware follower that accepts a request.
use echod.Prelude.{
  Bool-cases, List, Option, [], ap, arith, drop, false, if◌then◌else◌, inl, inr, length, ltb, min,
  none, refl, some, take, true, ℕ, ◌++◌, ◌∙◌, ◌∷◌, ◌≡◌, ◌≤◌,
}
use echod.Messages.{Command, NodeId}
use echod.Pi.{PiCoordinator, PiEnv, pi_adopt_term, pi_reset_election_timer, pi_send, pi_step_down}
use echod.Pi.Append.{
  accept, cut_at, finish, pi_append_reply, pi_follow, pi_follow_commit, pi_handle_append_entries,
  pi_is_consistent, pi_store_entries, pi_store_entry, provisional_commands, replay_provisional,
  replay_target, replay_to,
}
use echod.Pi.Rounds.{entry_term, from_dict}
use echod.Replication.{to_follower}
use echod.Wire.{PiAppend, PiEntry, PiMessage, RawEntry}

-- The last message is a positive answer for a log of the given length.
abbrev pub EndsWithReply : PiEnv → NodeId → PiCoordinator → Type 0
EndsWithReply env sender d =
    (earlier : List PiMessage) × (d.sent
      ≡ earlier
        ++ record {
          recipient_id = some sender;
          payload = pi_append_reply env true (length d.log) d;
        }
          ∷ [])

-- What stands in a follower behind an accepted request.
abbrev pub Accepted : PiEnv → NodeId → PiAppend → PiCoordinator → PiCoordinator → Type 0
Accepted env sender p c d =
    (d.log ≡ c.log)
    × (d.current_term ≡ c.current_term)
    × (d.current_leader_id ≡ c.current_leader_id)
    × (d.commit_index ≡ (
        if ltb c.commit_index p.leader_commit
        then min p.leader_commit (length c.log)
        else c.commit_index))
    × EndsWithReply env sender d

pub accept-Accepted :
    (env : PiEnv) (sender : NodeId) (p : PiAppend) (c : PiCoordinator)
    → Accepted env sender p c (accept env sender (pi_follow_commit p.leader_commit c))
unfolding pi_follow_commit pi_send
accept-Accepted env sender p c = elim (Bool-cases (ltb c.commit_index p.leader_commit)) [
  | inl h ↦ rw h (refl, refl, refl, refl, (c.sent, refl))
  | inr h ↦ rw h (refl, refl, refl, refl, (c.sent, refl))
]

-- The loop over the entries leaves the term, the known leader and the commit index.
abbrev pub Kept : PiCoordinator → PiCoordinator → Type 0
Kept c d =
    (d.current_term ≡ c.current_term)
    × (d.current_leader_id ≡ c.current_leader_id)
    × (d.commit_index ≡ c.commit_index)

replay_to-Kept :
    (target : Option NodeId) (commands : List Command) (c : PiCoordinator)
    → Kept c (replay_to target commands c)
unfolding pi_send
replay_to-Kept none [] c = (refl, refl, refl)
replay_to-Kept (some l) [] c = (refl, refl, refl)
replay_to-Kept none (x ∷ rest) c = (refl, refl, refl)
replay_to-Kept (some l) (x ∷ rest) c = (refl, refl, refl)

pi_store_entry-Kept : (e : PiEntry) (c : PiCoordinator) → Kept c (pi_store_entry e c)
unfolding pi_store_entry replay_provisional
pi_store_entry-Kept e c =
    let d = record c { log = take (cut_at c.log e.index) c.log ++ e ∷ [] } in
    let h =
      replay_to-Kept (replay_target c.protocol c.node_id c.current_leader_id)
        (provisional_commands (drop (cut_at c.log e.index) c.log)) d in
    ground (arith, h.0, h.1, h.2)

pub pi_store_entries-Kept :
    (now : ℕ) (raws : List RawEntry) (c : PiCoordinator) → Kept c (pi_store_entries now raws c)
unfolding pi_store_entries
pi_store_entries-Kept now [] c = (refl, refl, refl)
pi_store_entries-Kept now (raw ∷ raws) c =
    let h = pi_store_entry-Kept (from_dict now raw) c in
    let k = pi_store_entries-Kept now raws (pi_store_entry (from_dict now raw) c) in
    elim (Bool-cases (pi_store_entry (from_dict now raw) c).raised) [
      | inl raised ↦ rw raised h
      | inr going ↦ rw going (k.0 ∙ h.0, k.1 ∙ h.1, k.2 ∙ h.2)
    ]

-- A request that fits the follower is accepted.
consistent :
    (p : PiAppend) (log : List PiEntry)
    → p.prev_log_index ≤ length log
    → entry_term log p.prev_log_index ≡ p.prev_log_term
    → pi_is_consistent p log ≡ true
unfolding pi_is_consistent
consistent p log h e = ground (arith, h, e)

-- The follower at the start of the loop over the entries.
abbrev pub following : PiEnv → PiAppend → PiCoordinator → PiCoordinator
following env p c = record (pi_reset_election_timer env (pi_adopt_term env p.term c)) {
  current_leader_id = some p.leader_id;
  state = to_follower (pi_adopt_term env p.term c).state;
  raised = false;
}

pub following-lem :
    (env : PiEnv) (p : PiAppend) (c : PiCoordinator)
    → c.current_term ≤ p.term
    → let d = following env p c in
      (d.log ≡ c.log) × (d.current_term ≡ p.term) × (d.commit_index ≡ c.commit_index)
unfolding pi_reset_election_timer pi_step_down
following-lem env p c h = (ground arith, ground arith, ground arith)

pub accepts :
    (env : PiEnv) (sender : NodeId) (p : PiAppend) (c : PiCoordinator)
    → c.current_term ≤ p.term
    → p.prev_log_index ≤ length c.log
    → entry_term c.log p.prev_log_index ≡ p.prev_log_term
    → pi_handle_append_entries env sender p c
      ≡ finish env sender p (pi_store_entries env.now p.entries (following env p c))
unfolding pi_handle_append_entries pi_follow
accepts env sender p c h reach agree =
    let f = following-lem env p c h in
    let fits = consistent p c.log reach agree in
    let fits_here : pi_is_consistent p (following env p c).log ≡ true =
      ap (pi_is_consistent p) f.0 ∙ fits in
    let newer : ltb p.term (pi_adopt_term env p.term c).current_term ≡ false =
      (unfold pi_step_down pi_reset_election_timer in ground arith) in
    rw newer (rw fits_here refl)
