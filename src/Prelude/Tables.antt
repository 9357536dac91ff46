-- ===== src/Prelude/Tables.antt =====
-- A hash map whose size and values the program reads, as a list of entries with distinct keys.
use Prim.Native.Nat.{ℕ, ◌+◌, ◌≤◌}
use mathlib.Core.Path.{◌≡◌, refl}
use mathlib.Core.Logic.{◌≢◌}
use mathlib.Core.List.{List, [], ◌∷◌, map}
use mathlib.Core.Option.{Option, none, some}
use native.Mathlib.Omega.{arith}
use grimoire.Prelude.Tests.{◌==◌, if◌then◌else◌}
use grimoire.Prelude.Lists.{length}

abbrev pub Assoc {ℓ} : Type ℓ → Type ℓ
Assoc V = List (ℕ × V)

module _ {ℓ} {V : Type ℓ} where
  unfoldable pub lookup : ℕ → Assoc V → Option V
  lookup k [] = none
  lookup k ((j, v) ∷ m) = if j == k then some v else lookup k m

  -- The entry of the key is written, or a new entry is added.
  unfoldable pub put : ℕ → V → Assoc V → Assoc V
  put k v [] = (k, v) ∷ []
  put k v ((j, w) ∷ m) = if j == k then (k, v) ∷ m else (j, w) ∷ put k v m

  unfoldable pub erase : ℕ → Assoc V → Assoc V
  erase k [] = []
  erase k ((j, v) ∷ m) = if j == k then m else (j, v) ∷ erase k m

  abbrev pub values : Assoc V → List V
  values m = map (λ e. e.1) m

  pub lookup-put :
      (k : ℕ) (v : V) (m : Assoc V) (j : ℕ)
      → lookup j (put k v m) ≡ (if k == j then some v else lookup j m)
  unfolding lookup put
  lookup-put k v [] j = refl
  lookup-put k v ((i, w) ∷ m) j = ground (arith, lookup-put k v m j)

  pub lookup-erase_ne : (k : ℕ) (m : Assoc V) (j : ℕ) → k ≢ j → lookup j (erase k m) ≡ lookup j m
  unfolding lookup erase
  lookup-erase_ne k [] j h = refl
  lookup-erase_ne k ((i, w) ∷ m) j h = ground (arith, lookup-erase_ne k m j h)

  pub length-put_new :
      (k : ℕ) (v : V) (m : Assoc V) → lookup k m ≡ none → length (put k v m) ≡ length m + 1
  unfolding lookup put
  length-put_new k v [] h = refl
  length-put_new k v ((i, w) ∷ m) h = ground (arith, length-put_new k v m)

  pub length-erase :
      (k : ℕ) (v : V) (m : Assoc V) → lookup k m ≡ some v → length (erase k m) + 1 ≡ length m
  unfolding lookup erase
  length-erase k v [] h = cc
  length-erase k v ((i, w) ∷ m) h = ground (arith, length-erase k v m)

  pub lookup-length : (k : ℕ) (v : V) (m : Assoc V) → lookup k m ≡ some v → 1 ≤ length m
  unfolding lookup
  lookup-length k v [] h = cc
  lookup-length k v (e ∷ m) h = omega arith
