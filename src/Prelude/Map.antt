-- ===== src/Prelude/Map.antt =====
-- Hash maps with numeric keys, as association lists. The order of the list stands for the order in
-- which the map is iterated, and a new key goes to its end.
use Prim.Native.Nat.{ℕ}
use mathlib.Core.Path.{◌≡◌, refl}
use mathlib.Core.Bool.{Bool}
use mathlib.Core.Option.{Option, none, some}
use mathlib.Core.List.{List, [], ◌∷◌}
use native.Mathlib.Omega.{arith}
use lading.Prelude.Tests.{◌==◌, if◌then◌else◌}

abbrev pub Map {ℓ} : Type ℓ → Type ℓ
Map V = List (ℕ × V)

abbrev pub map_option {ℓ} : {V : Type ℓ} → (V → V) → Option V → Option V
map_option f none = none
map_option f (some v) = some (f v)

module _ {ℓ} {V : Type ℓ} where
  -- `get`
  unfoldable pub get : Map V → ℕ → Option V
  get [] key = none
  get (entry ∷ m) key = if entry.0 == key then some entry.1 else get m key

  -- `insert`: the value of a key that is there is replaced
  unfoldable pub insert : Map V → ℕ → V → Map V
  insert [] key v = (key, v) ∷ []
  insert (entry ∷ m) key v = if entry.0 == key then (key, v) ∷ m else entry ∷ insert m key v

  -- `remove`
  unfoldable pub remove : Map V → ℕ → Map V
  remove [] key = []
  remove (entry ∷ m) key = let rest = remove m key in if entry.0 == key then rest else entry ∷ rest

  -- a write through `get_mut`, which does nothing where the key is not there
  unfoldable pub alter : Map V → ℕ → (V → V) → Map V
  alter [] key f = []
  alter (entry ∷ m) key f =
      if entry.0 == key then (entry.0, f entry.1) ∷ m else entry ∷ alter m key f

  -- writes through `values_mut` or `iter_mut`
  unfoldable pub map_values : Map V → (V → V) → Map V
  map_values [] f = []
  map_values (entry ∷ m) f = (entry.0, f entry.1) ∷ map_values m f

  -- the entries whose value passes a test
  unfoldable pub keep : Map V → (V → Bool) → Map V
  keep [] test = []
  keep (entry ∷ m) test = let rest = keep m test in if test entry.1 then entry ∷ rest else rest

  -- `keys`
  unfoldable pub keys : Map V → List ℕ
  keys [] = []
  keys (entry ∷ m) = entry.0 ∷ keys m

-- The laws read a map at one key.
module _ {ℓ} {V : Type ℓ} (j : ℕ) where
  pub get-insert :
      (m : Map V) (key : ℕ) (v : V)
      → get (insert m key v) j ≡ (if key == j then some v else get m j)
  unfolding get insert
  get-insert [] key v = refl
  get-insert (entry ∷ m) key v = ground (arith, get-insert m key v)

  pub get-remove :
      (m : Map V) (key : ℕ) → get (remove m key) j ≡ (if key == j then none else get m j)
  unfolding get remove
  get-remove [] key = ground arith
  get-remove (entry ∷ m) key = ground (arith, get-remove m key)

  pub get-alter :
      (m : Map V) (key : ℕ) (f : V → V)
      → get (alter m key f) j ≡ (if key == j then map_option f (get m j) else get m j)
  unfolding get alter
  get-alter [] key f = ground arith
  get-alter (entry ∷ m) key f = ground (arith, get-alter m key f)

  pub get-map_values : (m : Map V) (f : V → V) → get (map_values m f) j ≡ map_option f (get m j)
  unfolding get map_values
  get-map_values [] f = refl
  get-map_values (entry ∷ m) f = ground (arith, get-map_values m f)

pub ruleset map_laws = (get-insert, get-remove, get-alter, get-map_values)

-- No key stands twice.
abbrev pub Distinct {ℓ} : {V : Type ℓ} → Map V → Type ℓ
Distinct [] = Unit
Distinct (entry ∷ m) = (get m entry.0 ≡ none) × Distinct m

module _ {ℓ} {V : Type ℓ} where
  pub insert-Distinct : (m : Map V) (key : ℕ) (v : V) → Distinct m → Distinct (insert m key v)
  unfolding get insert
  insert-Distinct [] key v d = (refl, tt)
  insert-Distinct (entry ∷ m) key v d =
      ground (arith, insert-Distinct m key v d.1, get-insert entry.0 m key v)

  pub remove-Distinct : (m : Map V) (key : ℕ) → Distinct m → Distinct (remove m key)
  unfolding remove
  remove-Distinct [] key d = tt
  remove-Distinct (entry ∷ m) key d =
      ground (arith, remove-Distinct m key d.1, get-remove entry.0 m key)

  pub map_values-Distinct : (m : Map V) (f : V → V) → Distinct m → Distinct (map_values m f)
  unfolding map_values
  map_values-Distinct [] f d = tt
  map_values-Distinct (entry ∷ m) f d =
      ground (arith, map_values-Distinct m f d.1, get-map_values entry.0 m f)
