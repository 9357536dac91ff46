-- ===== src/Net/Word.antt =====
-- `put_u32` and `u32::from_be_bytes`, on lists of bytes.
use grimoire.Prelude.{ℕ, ◌+◌, ◌*◌, ◌/◌, ◌%◌, ◌^◌, ◌<◌, ◌≡◌, arith, List, ◌∷◌, get_or, All}

abbrev pub u32_mod : ℕ
u32_mod = 2 ^ 32

-- The four bytes of a word, most significant first, before a rest.
abbrev pub u32_be : ℕ → List ℕ → List ℕ
u32_be n rest = (n / 16777216 % 256) ∷ (n / 65536 % 256) ∷ (n / 256 % 256) ∷ (n % 256) ∷ rest

abbrev pub from_be : ℕ → ℕ → ℕ → ℕ → ℕ
from_be a b c d = a * 16777216 + b * 65536 + c * 256 + d

-- Read of a byte whose index the code has checked against the length.
abbrev pub byte : List ℕ → ℕ → ℕ
byte src i = get_or src i 0

abbrev pub IsBytes : List ℕ → Type 0
IsBytes = All (λ b. b < 256)

pub from_be-u32 :
    (n : ℕ)
    → n < u32_mod
    → from_be (n / 16777216 % 256) (n / 65536 % 256) (n / 256 % 256) (n % 256) ≡ n
from_be-u32 n h = omega arith

pub from_be-lt : (a b c d : ℕ) → a < 256 → b < 256 → c < 256 → d < 256 → from_be a b c d < u32_mod
from_be-lt a b c d p q r s = omega arith

pub u32_be-from :
    (a b c d : ℕ) (rest : List ℕ)
    → a < 256
    → b < 256
    → c < 256
    → d < 256
    → u32_be (from_be a b c d) rest ≡ a ∷ b ∷ c ∷ d ∷ rest
u32_be-from a b c d rest p q r s = ground arith
