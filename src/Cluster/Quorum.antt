-- ===== src/Cluster/Quorum.antt =====
-- Two majorities of one list have a member in common.
use echod.Prelude.{
  Bool-cases, List, String, [], arith, eq_iff, eq_refl, false, if◌then◌else◌, inl, inr, length, suc,
  true, ◌+◌, ◌<◌, ◌==◌, ◌∷◌, ◌≡◌, ◌≢◌, ◌≤◌,
}
use echod.Prelude.Dict.{IsDistinct, member}

remove : String → List String → List String
remove x [] = []
remove x (y ∷ l) = if y == x then l else y ∷ remove x l

length-remove :
    (x : String) (l : List String) → member x l ≡ true → suc (length (remove x l)) ≡ length l
unfolding remove member
length-remove x [] h = cc
length-remove x (y ∷ l) h = ground (arith, length-remove x l)

member-remove :
    (x v : String) (l : List String) → x ≢ v → member v l ≡ true → member v (remove x l) ≡ true
unfolding remove member
member-remove x v [] n h = h
member-remove x v (y ∷ l) n h = ground (arith, eq_iff y x, eq_iff y v, member-remove x v l n)

-- Every text of the first list is in the second.
abbrev pub IsWithin : List String → List String → Type 0
IsWithin xs l = (v : String) → member v xs ≡ true → member v l ≡ true

not_head : (x v : String) (xs : List String) → member x xs ≡ false → member v xs ≡ true → x ≢ v
not_head x v xs out in_ e = cc

-- Without its first text a distinct list is within the rest.
tail-IsWithin :
    (x : String) (xs l : List String)
    → member x xs ≡ false
    → IsWithin xs l
    → IsWithin xs (remove x l)
tail-IsWithin x xs l out h v in_ = member-remove x v l (not_head x v xs out in_) (h v in_)

head-member : (x : String) (xs : List String) → member x (x ∷ xs) ≡ true
unfolding member
head-member x xs = ground (arith, eq_refl x)

tail-member : (x v : String) (xs : List String) → member v xs ≡ true → member v (x ∷ xs) ≡ true
unfolding member
tail-member x v xs h = ground arith

length-IsWithin : (xs l : List String) → IsDistinct xs → IsWithin xs l → length xs ≤ length l
length-IsWithin [] l d h = omega arith
length-IsWithin (x ∷ xs) l d h =
    let rest =
      length-IsWithin xs (remove x l) d.1
        (tail-IsWithin x xs l d.0 (λ v m. h v (tail-member x v xs m))) in
    omega (arith, rest, length-remove x l (h x (head-member x xs)))

pub common :
    (xs ys l : List String)
    → IsDistinct xs
    → IsDistinct ys
    → IsWithin xs l
    → IsWithin ys l
    → length l < length xs + length ys
    → (v : String) × (member v xs ≡ true) × (member v ys ≡ true)
common [] ys l dx dy hx hy long = absurd (omega (arith, length-IsWithin ys l dy hy))
common (x ∷ xs) ys l dx dy hx hy long = elim (Bool-cases (member x ys)) [
  | inl both ↦ (x, head-member x xs, both)
  | inr only ↦
      let shorter = length-remove x l (hx x (head-member x xs)) in
      let inner = tail-IsWithin x xs l dx.0 (λ v m. hx v (tail-member x v xs m)) in
      let (v, in_xs, in_ys) =
        common xs ys (remove x l) dx.1 dy inner (tail-IsWithin x ys l only hy)
          (omega (arith, shorter)) in
      (v, tail-member x v xs in_xs, in_ys)
]
