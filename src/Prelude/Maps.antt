-- ===== src/Prelude/Maps.antt =====
-- `HashMap<u32, V>` as an association list, newest key last. The list's order stands for the
-- unspecified order in which the table is iterated over.
use Prim.Native.Nat.{ℕ}
use mathlib.Core.Path.{◌≡◌, refl}
use mathlib.Core.Option.{Option, none, some}
use mathlib.Core.List.{List, [], ◌∷◌}
use native.Mathlib.Omega.{arith}
use gems.Prelude.Tests.{◌==◌, if◌then◌else◌}

abbrev pub Map {ℓ} : Type ℓ → Type ℓ
Map V = List (ℕ × V)

module _ {ℓ} {V : Type ℓ} where
  -- m.remove(&k)
  unfoldable pub remove : ℕ → Map V → Map V
  remove key [] = []
  remove key ((k, value) ∷ more) =
      let rest = remove key more in if k == key then rest else (k, value) ∷ rest

  -- m.insert(k, v)
  unfoldable pub insert : ℕ → V → Map V → Map V
  insert key fresh [] = (key, fresh) ∷ []
  insert key fresh ((k, value) ∷ more) =
      if k == key then (key, fresh) ∷ more else (k, value) ∷ insert key fresh more

  -- m.get(&k)
  unfoldable pub lookup : ℕ → Map V → Option V
  lookup key ((k, value) ∷ more) = if k == key then some value else lookup key more
  lookup key [] = none

  pub lookup-remove :
      (gone key : ℕ) (m : Map V)
      → lookup key (remove gone m) ≡ (if gone == key then none else lookup key m)
  unfolding lookup remove
  lookup-remove gone key [] = ground arith
  lookup-remove gone key (_ ∷ more) = ground (arith, lookup-remove gone key more)

  pub lookup-insert :
      (put key : ℕ) (fresh : V) (m : Map V)
      → lookup key (insert put fresh m) ≡ (if put == key then some fresh else lookup key m)
  unfolding lookup insert
  lookup-insert put key fresh [] = refl
  lookup-insert put key fresh (_ ∷ more) = ground (arith, lookup-insert put key fresh more)

pub ruleset map_laws = (lookup-insert, lookup-remove)
