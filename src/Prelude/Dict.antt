-- ===== src/Prelude/Dict.antt =====
-- Python's `dict` with text keys: `d[k] = v` keeps the place of a key that is there, and a new key
-- goes to the end. The order is kept because the program iterates over such dictionaries.

use Prim.Native.String.{String}
use mathlib.Core.Path.{◌≡◌, refl}
use mathlib.Core.Bool.{Bool, true, false}
use mathlib.Core.Option.{Option, none, some}
use mathlib.Core.List.{List, [], ◌∷◌}
use native.Mathlib.Omega.{arith}
use text.Mathlib.Text.{◌==◌}
use text.Mathlib.TextEquality.{eq_iff}
use echod.Prelude.Tests.{if◌then◌else◌}
use echod.Prelude.Lists.{length}

abbrev pub Dict {ℓ} : Type ℓ → Type ℓ
Dict V = List (String × V)

-- `k in l` for a list or set of texts
unfoldable pub member : String → List String → Bool
member k [] = false
member k (j ∷ l) = if j == k then true else member k l

-- `s.add(k)`
unfoldable pub add : String → List String → List String
unfolding member
add k [] = k ∷ []
add k (j ∷ l) = if j == k then j ∷ l else j ∷ add k l

-- No key stands twice.
abbrev pub IsDistinct : List String → Type 0
IsDistinct [] = Unit
IsDistinct (k ∷ l) = (member k l ≡ false) × IsDistinct l

module _ {ℓ} {V : Type ℓ} where
  -- d.get(k)
  unfoldable pub get : String → Dict V → Option V
  get k [] = none
  get k ((j, v) ∷ d) = if j == k then some v else get k d

  -- d.get(k, default)
  unfoldable pub get_or : String → V → Dict V → V
  get_or k x [] = x
  get_or k x ((j, v) ∷ d) = if j == k then v else get_or k x d

  -- d[k] = v
  unfoldable pub put : String → V → Dict V → Dict V
  put k v [] = (k, v) ∷ []
  put k v ((j, w) ∷ d) = if j == k then (j, v) ∷ d else (j, w) ∷ put k v d

  abbrev pub keys : Dict V → List String
  keys [] = []
  keys ((k, v) ∷ d) = k ∷ keys d

module _ {ℓ} {V : Type ℓ} where
  pub get-put :
      (k j : String) (v : V) (d : Dict V) → get j (put k v d) ≡ (if k == j then some v else get j d)
  unfolding get put
  get-put k j v [] = refl
  get-put k j v ((i, w) ∷ d) = ground (arith, eq_iff k j, eq_iff i k, eq_iff i j, get-put k j v d)

  pub get_or-put :
      (k j : String) (x v : V) (d : Dict V)
      → get_or j x (put k v d) ≡ (if k == j then v else get_or j x d)
  unfolding get_or put
  get_or-put k j x v [] = refl
  get_or-put k j x v ((i, w) ∷ d) =
      ground (arith, eq_iff k j, eq_iff i k, eq_iff i j, get_or-put k j x v d)

  -- the keys after a write are those of the set with the key added
  pub keys-put : (k : String) (v : V) (d : Dict V) → keys (put k v d) ≡ add k (keys d)
  unfolding put add
  keys-put k v [] = refl
  keys-put k v ((j, w) ∷ d) = ground (arith, keys-put k v d)

  pub length-keys : (d : Dict V) → length (keys d) ≡ length d
  length-keys [] = refl
  length-keys ((k, v) ∷ d) = omega (arith, length-keys d)

pub member-add :
    (k j : String) (l : List String) → member j (add k l) ≡ (if k == j then true else member j l)
unfolding member add
member-add k j [] = refl
member-add k j (i ∷ l) = ground (arith, eq_iff k j, eq_iff i k, eq_iff i j, member-add k j l)

pub add-IsDistinct : (k : String) (l : List String) → IsDistinct l → IsDistinct (add k l)
unfolding member add
add-IsDistinct k [] h = (refl, tt)
add-IsDistinct k (j ∷ l) h =
    ground (arith, eq_iff j k, eq_iff k j, member-add k j l, add-IsDistinct k l h.1)

pub put-IsDistinct {ℓ} :
    {V : Type ℓ} (k : String) (v : V) (d : Dict V)
    → IsDistinct (keys d)
    → IsDistinct (keys (put k v d))
put-IsDistinct k v d h = rw keys-put (add-IsDistinct k (keys d) h)
