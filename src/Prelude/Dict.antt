-- ===== src/Prelude/Dict.antt =====
-- Go's maps keyed by comparable values (a hash, an identity or a position, each one number):
-- an association list that holds a key at most once when it is built by these operations.
use Prim.Native.Nat.{ℕ}
use mathlib.Core.Path.{◌≡◌, refl, subst}
use mathlib.Core.Logic.{inl, inr}
use mathlib.Core.Bool.{Bool, true, false}
use mathlib.Core.List.{List, [], ◌∷◌}
use mathlib.Core.Option.{Option, none, some}
use native.Mathlib.Omega.{arith}
use scat.Prelude.Lists.{All}
use scat.Prelude.Tests.{==_refl, ==_iff, ◌==◌, if◌then◌else◌, Bool-cases}

abbrev pub Dict {ℓ} : Type ℓ → Type ℓ
Dict V = List (ℕ × V)

module _ {ℓ} {V : Type ℓ} where
  -- `v, ok := m[k]`
  unfoldable pub lookup : ℕ → Dict V → Option V
  lookup k [] = none
  lookup k ((j, v) ∷ m) = if j == k then some v else lookup k m

  -- `m[k] = v`
  unfoldable pub insert : ℕ → V → Dict V → Dict V
  insert k new [] = (k, new) ∷ []
  insert k new ((j, old) ∷ rest) = if j == k then (k, new) ∷ rest else (j, old) ∷ insert k new rest

  -- `delete(m, k)`
  unfoldable pub remove : ℕ → Dict V → Dict V
  remove k [] = []
  remove k ((j, w) ∷ m) = if j == k then remove k m else (j, w) ∷ remove k m

  -- `_, ok := m[k]`
  unfoldable pub has : ℕ → Dict V → Bool
  has k [] = false
  has k ((j, v) ∷ m) = if j == k then true else has k m

  pub lookup-insert :
      (k j : ℕ) (v : V) (m : Dict V)
      → lookup j (insert k v m) ≡ (if k == j then some v else lookup j m)
  unfolding lookup insert
  lookup-insert at j new [] = refl
  lookup-insert at j new (entry ∷ rest) = ground (arith, lookup-insert at j new rest)

  pub lookup-remove :
      (k j : ℕ) (m : Dict V) → lookup j (remove k m) ≡ (if k == j then none else lookup j m)
  unfolding lookup remove
  lookup-remove k j [] = ground arith
  lookup-remove k j ((i, w) ∷ m) = ground (arith, lookup-remove k j m)

  pub has-insert :
      (k j : ℕ) (v : V) (m : Dict V) → has j (insert k v m) ≡ (if k == j then true else has j m)
  unfolding has insert
  has-insert k j v [] = refl
  has-insert k j v ((i, w) ∷ m) = ground (arith, has-insert k j v m)

  pub has-remove : (k j : ℕ) (m : Dict V) → has j (remove k m) ≡ (if k == j then false else has j m)
  unfolding has remove
  has-remove k j [] = ground arith
  has-remove k j ((i, w) ∷ m) = ground (arith, has-remove k j m)

  pub has-lookup :
      (k : ℕ) (m : Dict V) → has k m ≡ elim (lookup k m) [ none ↦ false | some _ ↦ true ]
  unfolding has lookup
  has-lookup k [] = refl
  has-lookup k ((j, v) ∷ m) = ground (arith, has-lookup k m)

  abbrev pub keys : Dict V → List ℕ
  keys [] = []
  keys ((k, v) ∷ m) = k ∷ keys m

-- A set of locations: `map[loc]struct{}`.
abbrev pub Locs : Type 0
Locs = Dict (Unit {0})

-- Membership among numbers, as a test.
unfoldable pub elem : ℕ → List ℕ → Bool
elem k [] = false
elem k (j ∷ js) = if j == k then true else elem k js

-- No key stands in two entries: what every map built by the operations above satisfies.
abbrev pub IsUnique {ℓ} : {V : Type ℓ} → Dict V → Type 0
IsUnique [] = Unit
IsUnique ((k, v) ∷ m) = (has k m ≡ false) × IsUnique m

module _ {V : Type 0} where
  pub insert-IsUnique : (k : ℕ) (v : V) (m : Dict V) → IsUnique m → IsUnique (insert k v m)
  unfolding insert has
  insert-IsUnique k v [] u = (refl, tt)
  insert-IsUnique k v ((j, w) ∷ m) u = elim (Bool-cases (j == k)) [
    | inl own ↦ rw own (ground arith, u.1)
    | inr other ↦ rw other (ground (arith, has-insert k j v m), insert-IsUnique k v m u.1)
  ]

  pub remove-IsUnique : (k : ℕ) (m : Dict V) → IsUnique m → IsUnique (remove k m)
  unfolding remove has
  remove-IsUnique k [] u = tt
  remove-IsUnique k ((j, w) ∷ m) u = elim (Bool-cases (j == k)) [
    | inl own ↦ rw own (remove-IsUnique k m u.1)
    | inr other ↦ rw other (ground (arith, has-remove k j m), remove-IsUnique k m u.1)
  ]

  pub elem-keys : (k : ℕ) (m : Dict V) → elem k (keys m) ≡ has k m
  unfolding elem has
  elem-keys k [] = refl
  elem-keys k ((j, v) ∷ m) = ground (arith, elem-keys k m)

  pub lookup-none_of_has : (k : ℕ) (m : Dict V) → has k m ≡ false → lookup k m ≡ none
  unfolding has lookup
  lookup-none_of_has k [] h = refl
  lookup-none_of_has k ((j, v) ∷ m) h = ground (arith, lookup-none_of_has k m)

  pub has_of_lookup : (k : ℕ) (m : Dict V) {v : V} → lookup k m ≡ some v → has k m ≡ true
  has_of_lookup k m e = ground (arith, has-lookup k m)

  -- What holds of the value at each key holds of each entry.
  pub All-lookup :
      (P : ℕ → V → Type 0) (m : Dict V)
      → IsUnique m
      → ((k : ℕ) (v : V) → lookup k m ≡ some v → P k v)
      → All (λ (e : ℕ × V). P e.0 e.1) m
  unfolding lookup
  All-lookup P [] u h = tt
  All-lookup P ((k, v) ∷ m) u h =
      (h k v (rw (==_refl k) refl), All-lookup P m u.1 (λ j w e. h j w (later j w e)))
    where
      later :
          (j : ℕ) (w : V) → lookup j m ≡ some w → (if k == j then some v else lookup j m) ≡ some w
      later j w e = elim (Bool-cases (k == j)) [
        | inl own ↦
            let gone : has j m ≡ false = subst (λ i. has i m ≡ false) ((==_iff k j).0 own) u.0 in
            absurd (ground (arith, has_of_lookup j m e))
        | inr other ↦ rw other e
      ]
