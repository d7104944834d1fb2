-- ===== src/Pi/Delivered.antt =====
-- A leader's log on a hardware follower.
use echod.Prelude.{
  List, [], ap, arith, drop, drop-map, length, length-drop, length-map, length-take, map, refl, suc,
  sym, take, take-append-drop, take-append_more, zero, ℕ, ◌++◌, ◌+◌, ◌∙◌, ◌∷◌, ◌≡◌, ◌≤◌,
}
use echod.Messages.{LogEntry}
use echod.Pi.{PiCoordinator, PiEnv}
use echod.Pi.Accepting.{EndsWithReply}
use echod.Pi.Append.{pi_handle_append_entries}
use echod.Pi.CatchUp.{append_request-CaughtUp, sent_from}
use echod.Pi.Rounds.{entry_term, pi_append_request}
use echod.Pi.Simulated.{as_entry}
use echod.Replication.Merge.{IsNumbered, merge, merge-terms, terms}
use echod.Wire.{PiEntry}

terms-append : (es fs : List LogEntry) → terms (es ++ fs) ≡ terms es ++ terms fs
terms-append [] fs = refl
terms-append (e ∷ es) fs = ap (λ (l : List ℕ). e.term ∷ l) (terms-append es fs)

last_or : ℕ → List ℕ → ℕ
last_or t [] = t
last_or t (u ∷ us) = last_or u us

-- The term of an entry, from the terms up to it.
entry_term-take :
    (es : List PiEntry) (n t : ℕ)
    → suc n ≤ length es
    → entry_term es (suc n) ≡ last_or t (terms (take (suc n) (map as_entry es)))
unfolding entry_term last_or
entry_term-take [] n t h = absurd (omega arith)
entry_term-take (e ∷ es) zero t h = refl
entry_term-take (e ∷ es) (suc n) t h = entry_term-take es n e.term (omega arith)

agrees_at :
    (es fs : List PiEntry) (n : ℕ)
    → n ≤ length es
    → n ≤ length fs
    → terms (take n (map as_entry es)) ≡ terms (take n (map as_entry fs))
    → entry_term es n ≡ entry_term fs n
agrees_at es fs zero h k same = unfold entry_term in refl
agrees_at es fs (suc n) h k same =
    entry_term-take es n 0 h ∙ ap (last_or 0) same ∙ sym (entry_term-take fs n 0 k)

-- The terms of a log that starts as the leader's and goes on with the merge.
merged-terms :
    (n : ℕ) (ls own rest : List LogEntry)
    → n ≤ length own
    → n ≤ length ls
    → terms (take n own) ≡ terms (take n ls)
    → terms (take (length ls) (take n own ++ merge (drop n ls) rest)) ≡ terms ls
merged-terms n ls own rest h k same =
    let size : length (take n own) ≡ n = omega (arith, length-take n own, h) in
    let whole : length ls ≡ length (take n own) + length (drop n ls) =
      omega (arith, size, length-drop n ls, k) in
    let l = merge (drop n ls) rest in
    ap (λ (m : ℕ). terms (take m (take n own ++ l))) whole
    ∙ ap terms (take-append_more (take n own) l (length (drop n ls)))
    ∙ terms-append (take n own) (take (length (drop n ls)) l)
    ∙ ap (λ (t : List ℕ). terms (take n own) ++ t) (merge-terms (drop n ls) rest)
    ∙ ap (λ (t : List ℕ). t ++ terms (drop n ls)) same
    ∙ sym (terms-append (take n ls) (drop n ls))
    ∙ ap terms (take-append-drop n ls)

-- The round trip of a log through the leader's request and the follower's handler: where the
-- leader's entries carry their indices, the leader sends them from an index up to which both logs
-- reach and have the same terms, and the follower's term is not newer, the follower's log has the
-- leader's terms at every index of the leader's log afterwards; and the follower's last message is
-- a positive answer with the length of its log.
pub append_request-terms :
    (env : PiEnv) (l c : PiCoordinator)
    → IsNumbered 0 (map as_entry l.log)
    → sent_from l c.node_id ≤ length c.log
    → sent_from l c.node_id ≤ length l.log
    → terms (take (sent_from l c.node_id) (map as_entry c.log))
      ≡ terms (take (sent_from l c.node_id) (map as_entry l.log))
    → c.current_term ≤ l.current_term
    → let d = pi_handle_append_entries env l.node_id (pi_append_request c.node_id l) c in
      (terms (take (length l.log) (map as_entry d.log)) ≡ terms (map as_entry l.log))
      × EndsWithReply env l.node_id d
append_request-terms env l c numbered reach within same older =
    let n = sent_from l c.node_id in
    let r =
      append_request-CaughtUp env l c numbered reach (agrees_at c.log l.log n reach within same)
        older in
    let own = map as_entry c.log in
    (
      ap (λ (fs : List LogEntry). terms (take (length l.log) fs)) r.0
          ∙ ap
              (λ (fs : List LogEntry).
                terms (take (length l.log) (take n own ++ merge fs (drop n own))))
              (sym (drop-map as_entry n l.log))
          ∙ ap
              (λ (m : ℕ).
                terms (take m (take n own ++ merge (drop n (map as_entry l.log)) (drop n own))))
              (sym (length-map l.log as_entry))
          ∙ merged-terms n (map as_entry l.log) own (drop n own)
              (omega (arith, length-map c.log as_entry, reach))
              (omega (arith, length-map l.log as_entry, within)) same,
      r.4,
    )
