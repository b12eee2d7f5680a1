-- ===== src/Prelude/Table.antt =====
-- A Go map as an association list: the list is the order in which one `range` visits it.
-- A key that is written again keeps its place, and a new key comes last.
use Prim.Native.Nat.{ℕ, ◌+◌}
use mathlib.Core.Path.{◌≡◌, refl, ap}
use mathlib.Core.Logic.{inl, inr}
use mathlib.Core.Bool.{Bool, not}
use mathlib.Core.List.{List, [], ◌∷◌}
use mathlib.Core.Option.{Option, none, some}
use native.Mathlib.Omega.{arith}
use egressd.Prelude.Tests.{if◌then◌else◌, Comparable, ◌==◌, Bool-cases}
use egressd.Prelude.Lists.{sum_by}

module _ {ℓ} {V : Type ℓ} where
  abbrev pub if_kept : (V → Bool) → Option V → Option V
  if_kept p none = none
  if_kept p (some v) = if p v then some v else none

  abbrev pub option_map : (V → V) → Option V → Option V
  option_map f none = none
  option_map f (some v) = some (f v)

  abbrev pub or_zero : (V → ℕ) → Option V → ℕ
  or_zero f none = 0
  or_zero f (some v) = f v

module _ {ℓ κ} {K : Type ℓ} {V : Type κ} where
  -- The loop that deletes the entries whose value fails a test.
  unfoldable pub retain : (V → Bool) → List (K × V) → List (K × V)
  retain p [] = []
  retain p ((k, v) ∷ m) = if p v then (k, v) ∷ retain p m else retain p m

  -- The loop that updates each value in place.
  unfoldable pub map_values : (K → V → V) → List (K × V) → List (K × V)
  map_values f [] = []
  map_values f ((k, v) ∷ m) = (k, f k v) ∷ map_values f m

  -- A quantity summed over the values.
  abbrev pub total : (V → ℕ) → List (K × V) → ℕ
  total f = sum_by (λ (p : K × V). f p.1)

  pub total-map_values :
      (f : V → ℕ) (g : K → V → V) (m : List (K × V))
      → ((k : K) (v : V) → f (g k v) ≡ 0)
      → total f (map_values g m) ≡ 0
  unfolding map_values
  total-map_values f g [] h = refl
  total-map_values f g ((j, w) ∷ m) h = omega (arith, h j w, total-map_values f g m h)

  unfoldable pub values : List (K × V) → List V
  values [] = []
  values ((k, v) ∷ m) = v ∷ values m

  pub total-retain :
      (f : V → ℕ) (p : V → Bool) (m : List (K × V))
      → total f (retain p m) + total f (retain (λ v. not (p v)) m) ≡ total f m
  unfolding retain
  total-retain f p [] = refl
  total-retain f p ((k, v) ∷ m) = ground (arith, total-retain f p m)

  pub sum_by-values : (f : V → ℕ) (m : List (K × V)) → sum_by f (values m) ≡ total f m
  unfolding values
  sum_by-values f [] = refl
  sum_by-values f ((k, v) ∷ m) = omega (arith, sum_by-values f m)

module _ {ℓ κ} {K : Type ℓ} {V : Type κ} ⦃e : Comparable K⦄ where
  -- The value under a key.
  unfoldable pub lookup : K → List (K × V) → Option V
  lookup key [] = none
  lookup key (entry ∷ table) = if entry.0 == key then some entry.1 else lookup key table

  -- `table[key] = value`.
  unfoldable pub insert : K → V → List (K × V) → List (K × V)
  insert key value [] = (key, value) ∷ []
  insert key value (entry ∷ table) =
      if entry.0 == key then (key, value) ∷ table else entry ∷ insert key value table

  -- `delete(table, key)`.
  unfoldable pub delete : K → List (K × V) → List (K × V)
  delete key [] = []
  delete key (entry ∷ table) = if entry.0 == key then delete key table else entry ∷ delete key table

  module _ (key other : K) where
    pub lookup-insert :
        (value : V) (table : List (K × V))
        → lookup other (insert key value table)
          ≡ (if key == other then some value else lookup other table)
    unfolding lookup insert
    lookup-insert value [] = refl
    lookup-insert value (entry ∷ table) = ground (
      arith,
      lookup-insert value table,
      e.same_iff entry.0 key,
      e.same_iff entry.0 other,
      e.same_iff key other,
    )

    pub lookup-delete :
        (table : List (K × V))
        → lookup other (delete key table) ≡ (if key == other then none else lookup other table)
    unfolding lookup delete
    lookup-delete [] = ground arith
    lookup-delete (entry ∷ table) = ground (
      arith,
      lookup-delete table,
      e.same_iff entry.0 key,
      e.same_iff entry.0 other,
      e.same_iff key other,
    )

  -- No key stands twice, as in a Go map.
  abbrev pub IsTable : List (K × V) → Type κ
  IsTable [] = Unit
  IsTable ((k, v) ∷ m) = (lookup k m ≡ none) × IsTable m

  pub insert-IsTable : (k : K) (v : V) (m : List (K × V)) → IsTable m → IsTable (insert k v m)
  unfolding lookup insert
  insert-IsTable k v [] h = (refl, tt)
  insert-IsTable k v ((j, w) ∷ m) h =
      ground
        (arith, e.same_iff j k, e.same_iff k j, lookup-insert k j v m, insert-IsTable k v m h.1)

  pub delete-IsTable : (k : K) (m : List (K × V)) → IsTable m → IsTable (delete k m)
  unfolding lookup delete
  delete-IsTable k [] h = tt
  delete-IsTable k ((j, w) ∷ m) h = ground (arith, lookup-delete k j m, delete-IsTable k m h.1)

  pub lookup-retain :
      (p : V → Bool) (k : K) (m : List (K × V))
      → IsTable m
      → lookup k (retain p m) ≡ if_kept p (lookup k m)
  unfolding lookup retain
  lookup-retain p k [] h = refl
  lookup-retain p k ((j, w) ∷ m) h = ground (arith, e.same_iff j k, lookup-retain p k m h.1)

  pub retain-IsTable : (p : V → Bool) (m : List (K × V)) → IsTable m → IsTable (retain p m)
  unfolding lookup retain
  retain-IsTable p [] h = tt
  retain-IsTable p ((j, w) ∷ m) h = ground (arith, lookup-retain p j m h.1, retain-IsTable p m h.1)

  pub lookup-map_values :
      (f : K → V → V) (k : K) (m : List (K × V))
      → lookup k (map_values f m) ≡ option_map (f k) (lookup k m)
  unfolding lookup map_values
  lookup-map_values f k [] = refl
  lookup-map_values f k ((j, w) ∷ m) = elim (Bool-cases (j == k)) [
    | inl same ↦
        let e' : j ≡ k = (e.same_iff j k).0 same in
        ground (arith, ap (λ (i : K). f i w) e', lookup-map_values f k m)
    | inr other ↦ ground (arith, lookup-map_values f k m)
  ]

  pub map_values-IsTable : (f : K → V → V) (m : List (K × V)) → IsTable m → IsTable (map_values f m)
  unfolding map_values
  map_values-IsTable f [] h = tt
  map_values-IsTable f ((j, w) ∷ m) h =
      (ground (arith, lookup-map_values f j m), map_values-IsTable f m h.1)

  pub total-insert :
      (f : V → ℕ) (k : K) (v : V) (m : List (K × V))
      → total f (insert k v m) + or_zero f (lookup k m) ≡ total f m + f v
  unfolding lookup insert
  total-insert f k v [] = omega arith
  total-insert f k v ((j, w) ∷ m) = ground (arith, total-insert f k v m)
