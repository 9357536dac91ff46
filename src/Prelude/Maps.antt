-- ===== src/Prelude/Maps.antt =====
-- A concurrent map (`DashMap`) with number keys, as a function. Its iteration order is the
-- business of the caller: an operation that iterates takes the order of the keys as an argument.
use Prim.Native.Nat.{ℕ}
use mathlib.Core.Path.{◌≡◌}
use mathlib.Core.Option.{Option, none, some}
use mathlib.Core.Logic.{◌≢◌, ◌⊎◌, inl, inr}
use native.Mathlib.Omega.{arith}
use grimoire.Prelude.Tests.{◌==◌, if◌then◌else◌, Bool-cases}

abbrev pub Map {ℓ} : Type ℓ → Type ℓ
Map V = ℕ → Option V

module _ {ℓ} {V : Type ℓ} where
  abbrev pub empty : Map V
  empty k = none

  abbrev pub insert : ℕ → V → Map V → Map V
  insert k v m j = if k == j then some v else m j

  abbrev pub remove : ℕ → Map V → Map V
  remove k m j = if k == j then none else m j

module _ {ℓ} {V : Type ℓ} where
  -- An entry after a write is the one written or an old one.
  pub insert-cases :
      (k : ℕ) (v : V) (m : Map V) (j : ℕ) {x : V}
      → insert k v m j ≡ some x
      → ((k ≡ j) × (v ≡ x)) ⊎ ((k ≢ j) × (m j ≡ some x))
  insert-cases k v m j h = elim (Bool-cases (k == j)) [
    | inl e ↦ inl (ground arith, ground arith)
    | inr e ↦ inr (ground arith, ground arith)
  ]

  pub insert_self : (k : ℕ) (v : V) (m : Map V) → insert k v m k ≡ some v
  insert_self k v m = ground arith

  pub insert_ne : (k : ℕ) (v : V) (m : Map V) (j : ℕ) → k ≢ j → insert k v m j ≡ m j
  insert_ne k v m j h = ground arith

  pub remove_self : (k : ℕ) (m : Map V) → remove k m k ≡ none
  remove_self k m = ground arith

  pub remove-some :
      (k : ℕ) (m : Map V) (j : ℕ) {x : V} → remove k m j ≡ some x → (k ≢ j) × (m j ≡ some x)
  remove-some k m j h = (ground arith, ground arith)
