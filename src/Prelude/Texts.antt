-- ===== src/Prelude/Texts.antt =====
-- Text as the list of its code points, decimal numerals, and searches in vectors.
use Prim.Native.Nat.{ℕ, zero, suc, ◌+◌, ◌/◌, ◌%◌}
use Prim.Native.Char.{code}
use Prim.Native.String.{String}
use mathlib.Core.Bool.{Bool, true, false}
use mathlib.Core.List.{List, [], ◌∷◌, ◌++◌}
use mathlib.Core.Option
use mathlib.Core.Option.{Option, none, some}
use mathlib.Core.Path.{◌≡◌, refl}
use mathlib.Core.Logic.{inl, inr}
use native.Mathlib.Omega.{arith}
use grimoire.Prelude.Tests.{ltb, ◌==◌, if◌then◌else◌, Bool-cases}

abbrev pub Text : Type 0
Text = List ℕ

abbrev pub codes : String → Text
codes String.[] = []
codes (String.◌∷◌ c s) = code c ∷ codes s

hex_digit : ℕ → ℕ
hex_digit d = if ltb d 10 then d + 48 else d + 55

utf8_char : ℕ → List ℕ
utf8_char c =
    if ltb c 0x80
    then c ∷ []
    else if ltb c 0x800
    then (0xc0 + c / 64) ∷ (0x80 + c % 64) ∷ []
    else if ltb c 0x10000
    then (0xe0 + c / 4096) ∷ (0x80 + c / 64 % 64) ∷ (0x80 + c % 64) ∷ []
    else (0xf0 + c / 262144) ∷ (0x80 + c / 4096 % 64) ∷ (0x80 + c / 64 % 64) ∷ (0x80 + c % 64) ∷ []

-- The decimal numeral of a number with at most that many digits.
unfoldable pub decimal : ℕ → ℕ → Text
decimal zero n = []
decimal (suc digits) n =
    let more = decimal digits (n / 10) ++ (n % 10 + 48) ∷ [] in
    if ltb n 10 then (n + 48) ∷ [] else more

-- `{:X}` of a number with at most that many digits.
pub hexadecimal : ℕ → ℕ → Text
hexadecimal zero n = []
hexadecimal (suc digits) n =
    let more = hexadecimal digits (n / 16) ++ hex_digit (n % 16) ∷ [] in
    if ltb n 16 then hex_digit n ∷ [] else more

-- `into_bytes`: the UTF-8 bytes of a text.
pub utf8 : Text → List ℕ
utf8 [] = []
utf8 (c ∷ cs) = utf8_char c ++ utf8 cs

-- Whether two texts are the same.
unfoldable pub same : Text → Text → Bool
same [] [] = true
same [] (b ∷ bs) = false
same (a ∷ ts) [] = false
same (a ∷ ts) (b ∷ bs) = if a == b then same ts bs else false

pub same_refl : (t : Text) → same t t ≡ true
unfolding same
same_refl [] = refl
same_refl (a ∷ ts) = ground (arith, same_refl ts)

module _ {ℓ} {A : Type ℓ} where
  -- `iter().position(p)` and `iter().find(p)`.
  unfoldable pub position : (A → Bool) → List A → Option ℕ
  position p [] = none
  position p (x ∷ xs) = if p x then some 0 else Option.map suc (position p xs)

  unfoldable pub find : (A → Bool) → List A → Option A
  find p [] = none
  find p (x ∷ xs) = if p x then some x else find p xs

  unfoldable pub any : (A → Bool) → List A → Bool
  any p [] = false
  any p (x ∷ xs) = if p x then true else any p xs

  -- `v[i] = f(v[i])`, for an index in range.
  unfoldable pub modify_at : List A → ℕ → (A → A) → List A
  modify_at [] i f = []
  modify_at (x ∷ xs) zero f = f x ∷ xs
  modify_at (x ∷ xs) (suc i) f = x ∷ modify_at xs i f

abbrev pub or_else {ℓ} : {A : Type ℓ} → Option A → A → A
or_else none d = d
or_else (some a) d = a

pub same-true : (a b : Text) → same a b ≡ true → a ≡ b
unfolding same
same-true [] [] h = refl
same-true [] (b ∷ bs) h = absurd (ground arith)
same-true (a ∷ ts) [] h = absurd (ground arith)
same-true (a ∷ ts) (b ∷ bs) h = elim (Bool-cases (a == b)) [
  | inl e ↦ let ih = same-true ts bs (ground arith) in let head : a ≡ b = ground arith in cc
  | inr e ↦ absurd (ground arith)
]
