-- ===== src/Pi/Fresh.antt =====
-- Which commands of a batch are fresh, and which keys are remembered.
use echod.Prelude.{
  All, Bool-cases, List, String, [], ap, append-nil, append_assoc, arith, eq_iff, eq_refl, false,
  if◌then◌else◌, inl, inr, map, refl, subst, sym, true, ◌++◌, ◌∙◌, ◌∷◌, ◌≡◌,
}
use echod.Messages.{Command}
use echod.Pi.Sensors.{fresh_commands}
use echod.Prelude.Dict.{IsDistinct, member}

module _ (dumps : Command → String) where
  -- The recent keys after a batch: those before, and the keys of the fresh commands.
  pub fresh_commands-append :
      (cs : List Command) (recent : List String)
      → (fresh_commands dumps cs recent).1 ≡ recent ++ map dumps (fresh_commands dumps cs recent).0
  unfolding fresh_commands
  fresh_commands-append [] recent = sym (append-nil recent)
  fresh_commands-append (c ∷ cs) recent = elim (Bool-cases (member (dumps c) recent)) [
    | inl h ↦ rw h (fresh_commands-append cs recent)
    | inr h ↦ rw h (
        fresh_commands-append cs (recent ++ dumps c ∷ [])
        ∙ append_assoc recent (dumps c ∷ [])
            (map dumps (fresh_commands dumps cs (recent ++ dumps c ∷ [])).0))
  ]

member-append :
    (k : String) (s t : List String) → member k (s ++ t) ≡ (if member k s then true else member k t)
unfolding member
member-append k [] t = refl
member-append k (j ∷ s) t = ground (arith, member-append k s t)

IsDistinct-snoc :
    (k : String) (s : List String) → member k s ≡ false → IsDistinct s → IsDistinct (s ++ k ∷ [])
unfolding member
IsDistinct-snoc k [] h d = (refl, tt)
IsDistinct-snoc k (j ∷ s) h d =
    ground
      (arith, member-append j s (k ∷ []), eq_iff k j, eq_iff j k, IsDistinct-snoc k s, d.0, d.1)

module _ (dumps : Command → String) where
  pub fresh_commands-IsDistinct :
      (cs : List Command) (recent : List String)
      → IsDistinct recent
      → IsDistinct (fresh_commands dumps cs recent).1
  unfolding fresh_commands
  fresh_commands-IsDistinct [] recent d = d
  fresh_commands-IsDistinct (c ∷ cs) recent d = elim (Bool-cases (member (dumps c) recent)) [
    | inl h ↦ rw h (fresh_commands-IsDistinct cs recent d)
    | inr h ↦ rw h (
        fresh_commands-IsDistinct cs (recent ++ dumps c ∷ [])
          (IsDistinct-snoc (dumps c) recent h d))
  ]

  -- Each command has its key among the given ones.
  abbrev pub AllKnown : List Command → List String → Type 0
  AllKnown cs recent = All (λ c. member (dumps c) recent ≡ true) cs

module _ (dumps : Command → String) where
  stays_known :
      (k : String) (cs : List Command) (recent : List String)
      → member k recent ≡ true
      → member k (fresh_commands dumps cs recent).1 ≡ true
  stays_known k cs recent h =
      ap (member k) (fresh_commands-append dumps cs recent)
      ∙ member-append k recent (map dumps (fresh_commands dumps cs recent).0)
      ∙ rw h refl

  known_first :
      (c : Command) (cs : List Command) (recent : List String)
      → member (dumps c) recent ≡ true
      → fresh_commands dumps (c ∷ cs) recent ≡ fresh_commands dumps cs recent
  unfolding fresh_commands
  known_first c cs recent h = rw h refl

  fresh_first :
      (c : Command) (cs : List Command) (recent : List String)
      → member (dumps c) recent ≡ false
      → (fresh_commands dumps (c ∷ cs) recent).1
        ≡ (fresh_commands dumps cs (recent ++ dumps c ∷ [])).1
  unfolding fresh_commands
  fresh_first c cs recent h = rw h refl

  member_last : (k : String) (s : List String) → member k (s ++ k ∷ []) ≡ true
  unfolding member
  member_last k s = ground (arith, member-append k s (k ∷ []), eq_refl k)

  pub fresh_commands-AllKnown :
      (cs : List Command) (recent : List String)
      → AllKnown dumps cs (fresh_commands dumps cs recent).1
  fresh_commands-AllKnown [] recent = tt
  fresh_commands-AllKnown (c ∷ cs) recent = elim (Bool-cases (member (dumps c) recent)) [
    | inl h ↦
        subst (λ found. AllKnown dumps (c ∷ cs) found.1) (sym (known_first c cs recent h))
          (stays_known (dumps c) cs recent h, fresh_commands-AllKnown cs recent)
    | inr h ↦
        let more = recent ++ dumps c ∷ [] in
        subst (AllKnown dumps (c ∷ cs)) (sym (fresh_first c cs recent h)) (
          stays_known (dumps c) cs more (member_last (dumps c) recent),
          fresh_commands-AllKnown cs more,
        )
  ]

  pub nothing_fresh :
      (cs : List Command) (recent : List String)
      → AllKnown dumps cs recent
      → fresh_commands dumps cs recent ≡ ([], recent)
  unfolding fresh_commands
  nothing_fresh [] recent h = refl
  nothing_fresh (c ∷ cs) recent h = rw h.0 (nothing_fresh cs recent h.1)
