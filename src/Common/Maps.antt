-- ===== src/Common/Maps.antt =====
-- The JavaScript `Map` with text keys: entries in insertion order. `set` overwrites in place or
-- appends, and the iteration order is the order of the list.
use Prim.Native.Nat.{ℕ, suc, ◌+◌, ◌≤◌, ◌<◌}
use Prim.Native.String.{String}
use mathlib.Core.Path.{◌≡◌, refl, ap}
use mathlib.Core.Logic.{◌⊎◌, inl, inr}
use mathlib.Core.Option.{Option, none, some}
use mathlib.Core.List.{List, [], ◌∷◌}
use native.Mathlib.Omega.{arith}
pub use text.Mathlib.Text.{◌==◌ as str_eq}
pub use text.Mathlib.TextEquality.{eq_iff}
pub use text.Mathlib.TextPositions.{eq_refl}
use poolstatis.Common.Tests.{if◌then◌else◌, Bool-cases}
use poolstatis.Common.Lists.{length}

abbrev pub Map {ℓ} : Type ℓ → Type ℓ
Map V = List (String × V)

module _ {ℓ} {V : Type ℓ} where
  unfoldable pub get : Map V → String → Option V
  get [] k = none
  get ((j, v) ∷ m) k = if str_eq j k then some v else get m k

  unfoldable pub delete : Map V → String → Map V
  delete [] k = []
  delete ((j, v) ∷ m) k = let rest = delete m k in if str_eq j k then rest else (j, v) ∷ rest

  unfoldable pub set : Map V → String → V → Map V
  set [] k v = (k, v) ∷ []
  set ((j, w) ∷ m) k v = if str_eq j k then (j, v) ∷ m else (j, w) ∷ set m k v

  -- `map.size`
  abbrev pub size : Map V → ℕ
  size m = length m

  pub get-nil : (k : String) → get [] k ≡ none
  unfolding get
  get-nil k = refl

  pub get-set :
      (m : Map V) (k j : String) (v : V)
      → get (set m k v) j ≡ (if str_eq k j then some v else get m j)
  unfolding get set
  get-set [] k j v = refl
  get-set ((i, w) ∷ m) k j v = ground (arith, eq_iff k j, eq_iff i k, eq_iff i j, get-set m k j v)

  pub get-delete :
      (m : Map V) (k j : String) → get (delete m k) j ≡ (if str_eq k j then none else get m j)
  unfolding get delete
  get-delete [] k j = ground arith
  get-delete ((i, w) ∷ m) k j = ground (arith, eq_iff k j, eq_iff i k, eq_iff i j, get-delete m k j)

  pub size-delete_le : (m : Map V) (k : String) → size (delete m k) ≤ size m
  unfolding delete
  size-delete_le [] k = omega arith
  size-delete_le ((j, v) ∷ m) k = ground (arith, size-delete_le m k)

  -- Deleting a key that is there makes room.
  pub size-delete_lt :
      (m : Map V) (k : String) {v : V} → get m k ≡ some v → size (delete m k) < size m
  unfolding get delete
  size-delete_lt [] k h = cc
  size-delete_lt ((j, w) ∷ m) k h = elim (Bool-cases (str_eq j k)) [
    | inl e ↦ rw e (ground (arith, size-delete_le m k))
    | inr e ↦ let h' = rw e at h in rw e (ground (arith, size-delete_lt m k h'))
  ]

  pub size-set_le : (m : Map V) (k : String) (v : V) → size (set m k v) ≤ size m + 1
  unfolding set
  size-set_le [] k v = omega arith
  size-set_le ((j, w) ∷ m) k v = ground (arith, size-set_le m k v)

  -- `map.entries().next().value`: the entry that was put in first.
  abbrev pub first : Map V → Option (String × V)
  first [] = none
  first (e ∷ m) = some e

  pub get-first : (m : Map V) {k : String} {v : V} → first m ≡ some (k, v) → get m k ≡ some v
  unfolding get
  get-first [] h = cc
  get-first ((j, w) ∷ m) {k} h = ground (arith, eq_iff j k)

  -- `map.delete(k); map.set(k, v)`
  unfoldable pub move_to_end : Map V → String → V → Map V
  move_to_end m k v = set (delete m k) k v

  pub get-move_to_end :
      (m : Map V) (k j : String) (v : V)
      → get (move_to_end m k v) j ≡ (if str_eq k j then some v else get m j)
  unfolding move_to_end
  get-move_to_end m k j v = ground (arith, get-set (delete m k) k j v, get-delete m k j)

  -- Moving an entry that is there adds none.
  pub size-move_to_end_le :
      (m : Map V) (k : String) (v : V) {w : V}
      → get m k ≡ some w
      → size (move_to_end m k v) ≤ size m
  unfolding move_to_end
  size-move_to_end_le m k v h = omega (arith, size-set_le (delete m k) k v, size-delete_lt m k h)

  -- Overwriting a key that is there adds no entry.
  pub size-set_self :
      (m : Map V) (k : String) (v : V) {w : V} → get m k ≡ some w → size (set m k v) ≡ size m
  unfolding get set
  size-set_self [] k v h = cc
  size-set_self ((j, u) ∷ m) k v h = elim (Bool-cases (str_eq j k)) [
    | inl e ↦ rw e
    | inr e ↦ let h' = rw e at h in rw e (ap suc (size-set_self m k v h'))
  ]

  -- `map.size === 0`
  pub get-size_zero : (m : Map V) (k : String) → size m ≡ 0 → get m k ≡ none
  unfolding get
  get-size_zero [] k h = refl
  get-size_zero (e ∷ m) k h = absurd (omega arith)

  pub first-cases : (m : Map V) → (size m ≡ 0) ⊎ ((k : String) × (v : V) × (first m ≡ some (k, v)))
  first-cases [] = inl refl
  first-cases ((k, v) ∷ m) = inr (k, v, refl)
