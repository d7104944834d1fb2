-- ===== src/Pi/Reconciled.antt =====
-- Reconciliation at the hardware coordinator: each command is proposed once.
use echod.Prelude.{
  List, String, [], ap, arith, length, map, refl, subst, suc, sym, true, ℕ, ◌++◌, ◌+◌, ◌∙◌, ◌∷◌,
  ◌≡◌, ◌≤◌,
}
use echod.Election.Silence.{same}
use echod.Messages.{Command, is_leading}
use echod.Node.{Protocol, echo, echo_d, raft}
use echod.Pi.{PiCoordinator, PiEnv}
use echod.Pi.Fresh.{
  AllKnown, fresh_commands-AllKnown, fresh_commands-IsDistinct, fresh_commands-append,
  nothing_fresh,
}
use echod.Pi.Replayed.{Replayed, commands_in, pi_rounds, replay-Replayed}
use echod.Pi.Rounds.{pi_commands_of, pi_replicate_each}
use echod.Pi.Sensors.{
  fresh_commands, pi_handle_reconcile_batch, reconcile_commands, reconcile_triggers, repropose,
  trimmed,
}
use echod.Prelude.Dict.{IsDistinct}
use echod.Triggers.Carried.{singles}
use echod.Wire.{ReconcileBatch}

commands_of-reconcile : (cs : List Command) → pi_commands_of (reconcile_triggers cs) ≡ cs
commands_of-reconcile [] = refl
commands_of-reconcile (c ∷ cs) = ap (λ (l : List Command). c ∷ l) (commands_of-reconcile cs)

length-reconcile : (cs : List Command) → length (reconcile_triggers cs) ≡ length cs
length-reconcile [] = refl
length-reconcile (c ∷ cs) = ap suc (length-reconcile cs)

repropose-Replayed :
    (env : PiEnv) (cs : List Command) (c : PiCoordinator)
    → Replayed cs (pi_rounds c.protocol (length cs)) c (repropose env cs c)
unfolding pi_replicate_each
repropose-Replayed env [] c = no_rounds c.protocol
  where
    no_rounds : (p : Protocol) → Replayed [] (pi_rounds p 0) c c
    no_rounds raft = replay-Replayed raft env [] c
    no_rounds echo = replay-Replayed echo env [] c
    no_rounds echo_d = replay-Replayed echo_d env [] c
repropose-Replayed env (x ∷ cs) c =
    let d = record c { last_consensus_activity = env.now } in
    let h = replay-Replayed c.protocol env (reconcile_triggers (x ∷ cs)) d in
    (
      h.0 ∙ ap (λ (l : List Command). commands_in c ++ singles l) (commands_of-reconcile (x ∷ cs)),
      h.1 ∙ ap (λ (n : ℕ). length c.log + pi_rounds c.protocol n) (length-reconcile (x ∷ cs)),
      h.2,
      h.3,
    )

module _ (dumps : Command → String) (env : PiEnv) where
  -- The commands of a batch that a leader has not seen lately.
  abbrev pub fresh_of : ReconcileBatch → PiCoordinator → List Command
  fresh_of p c = (fresh_commands dumps p.commands c.recent_reconciles).0

  reconcile_commands-Replayed :
      (cs : List Command) (c : PiCoordinator)
      → let fresh = (fresh_commands dumps cs c.recent_reconciles).0 in
        let d = reconcile_commands dumps env cs c in
        (commands_in d ≡ commands_in c ++ singles fresh)
        × (length d.log ≡ length c.log + pi_rounds c.protocol (length fresh))
        × (d.state ≡ c.state)
  unfolding fresh_commands
  reconcile_commands-Replayed [] c = let h = repropose-Replayed env [] c in (h.0, h.1, h.2)
  reconcile_commands-Replayed (x ∷ rest) c =
      let found = fresh_commands dumps (x ∷ rest) c.recent_reconciles in
      let h = repropose-Replayed env found.0 (record c { recent_reconciles = trimmed found.1 }) in
      (h.0, h.1, h.2)

  recent-reconcile_commands :
      (x : Command) (rest : List Command) (c : PiCoordinator)
      → (reconcile_commands dumps env (x ∷ rest) c).recent_reconciles
        ≡ trimmed (fresh_commands dumps (x ∷ rest) c.recent_reconciles).1
  recent-reconcile_commands x rest c =
      let found = fresh_commands dumps (x ∷ rest) c.recent_reconciles in
      (repropose-Replayed env found.0 (record c { recent_reconciles = trimmed found.1 })).3

  -- A leader that handles a reconciliation batch appends exactly the commands of the batch that are
  -- fresh, in order and with batches taken apart: each in an entry of its own, or in echoD all in
  -- one. Where no key stands twice among those it remembers, the fresh commands have keys that
  -- differ from these and from each other, and every command of the batch has its key among the
  -- remembered and the fresh ones.
  pub reconcile_batch-proposes :
      (p : ReconcileBatch) (c : PiCoordinator)
      → is_leading c.state ≡ true
      → IsDistinct c.recent_reconciles
      → let d = pi_handle_reconcile_batch dumps env p c in
        let seen = c.recent_reconciles ++ map dumps (fresh_of p c) in
        (commands_in d ≡ commands_in c ++ singles (fresh_of p c))
        × (length d.log ≡ length c.log + pi_rounds c.protocol (length (fresh_of p c)))
        × (d.state ≡ c.state)
        × IsDistinct seen
        × AllKnown dumps p.commands seen
  unfolding pi_handle_reconcile_batch
  reconcile_batch-proposes p c leads distinct =
      let recent = c.recent_reconciles in
      let h = reconcile_commands-Replayed p.commands c in
      let all = fresh_commands-append dumps p.commands recent in
      rw leads (
        h.0,
        h.1,
        h.2,
        subst IsDistinct all (fresh_commands-IsDistinct dumps p.commands recent distinct),
        subst (AllKnown dumps p.commands) all (fresh_commands-AllKnown dumps p.commands recent),
      )

trimmed-short : (s : List String) → length s ≤ 200 → trimmed s ≡ s
trimmed-short s h = ground (arith, h)

module _ (dumps : Command → String) (env later : PiEnv) where
  known_again :
      (x : Command) (rest : List Command) (d : PiCoordinator)
      → AllKnown dumps (x ∷ rest) d.recent_reconciles
      → length d.recent_reconciles ≤ 200
      → reconcile_commands dumps later (x ∷ rest) d ≡ d
  known_again x rest d known short =
      ap
        (λ (found : List Command × List String).
          repropose later found.0 (record d { recent_reconciles = trimmed found.1 }))
        (nothing_fresh dumps (x ∷ rest) d.recent_reconciles known)
      ∙ ap (λ (s : List String). record d { recent_reconciles = s })
          (trimmed-short d.recent_reconciles short)

  repeated :
      (cs : List Command) (c : PiCoordinator)
      → length (fresh_commands dumps cs c.recent_reconciles).1 ≤ 200
      → let d = reconcile_commands dumps env cs c in reconcile_commands dumps later cs d ≡ d
  repeated [] c h = refl
  repeated (x ∷ rest) c h =
      let d = reconcile_commands dumps env (x ∷ rest) c in
      let seen = (fresh_commands dumps (x ∷ rest) c.recent_reconciles).1 in
      let recent : d.recent_reconciles ≡ seen =
        recent-reconcile_commands dumps env x rest c ∙ trimmed-short seen h in
      known_again x rest d
        (subst (AllKnown dumps (x ∷ rest)) (sym recent)
          (fresh_commands-AllKnown dumps (x ∷ rest) c.recent_reconciles))
        (subst (λ s. length s ≤ 200) (sym recent) h)

  -- A leader to which a second node sends the same commands again changes nothing, as long as it
  -- remembers at most 200 keys with those of the first batch.
  pub reconcile_batch-once :
      (p q : ReconcileBatch) (c : PiCoordinator)
      → is_leading c.state ≡ true
      → q.commands ≡ p.commands
      → length (c.recent_reconciles ++ map dumps (fresh_of dumps env p c)) ≤ 200
      → let d = pi_handle_reconcile_batch dumps env p c in
        pi_handle_reconcile_batch dumps later q d ≡ d
  unfolding pi_handle_reconcile_batch
  reconcile_batch-once p q c leads same short =
      let d = reconcile_commands dumps env p.commands c in
      let all = fresh_commands-append dumps p.commands c.recent_reconciles in
      let still : is_leading d.state ≡ true =
        ap is_leading (reconcile_commands-Replayed dumps env p.commands c).2 ∙ leads in
      rw leads (
        rw still (
          ap (λ (cs : List Command). reconcile_commands dumps later cs d) same
          ∙ repeated p.commands c (subst (λ s. length s ≤ 200) (sym all) short)))
