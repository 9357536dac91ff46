-- ===== src/Svcfw/Cells.antt =====
-- A server of keys and values in memory: the interface of the session directory can be kept.
use grimoire.Prelude.{
  ℕ, zero, suc, ◌+◌, ◌*◌, ◌-◌, ◌/◌, ◌%◌, ◌^◌, ◌<◌, ◌≤◌, ◌≡◌, refl, ap, ◌∙◌, subst, arith, inl, inr,
  Bool, true, false, if◌then◌else◌, Option, none, some, [], ◌∷◌, ◌++◌, Text, decimal, same_refl,
  Bool-cases, ltb,
}
use grimoire.Svcfw.Directory.{Server}
use grimoire.Svcfw.Memory.{put, cut}

-- The number that a text's digits give.
unfoldable pub digits_from : ℕ → Text → ℕ
digits_from acc [] = acc
digits_from acc (c ∷ cs) = digits_from (acc * 10 + (c - 48)) cs

digits_from-append :
    (acc : ℕ) (cs : Text) (c : ℕ)
    → digits_from acc (cs ++ c ∷ []) ≡ digits_from acc cs * 10 + (c - 48)
unfolding digits_from
digits_from-append acc [] c = refl
digits_from-append acc (x ∷ cs) c = digits_from-append (acc * 10 + (x - 48)) cs c

decimal_digit : (digits n : ℕ) → n < 10 → decimal (suc digits) n ≡ (n + 48) ∷ []
unfolding decimal
decimal_digit digits n h = ground arith

decimal_digits :
    (digits n : ℕ) → 10 ≤ n → decimal (suc digits) n ≡ decimal digits (n / 10) ++ (n % 10 + 48) ∷ []
unfolding decimal
decimal_digits digits n h = ground arith

ten_pow : (digits : ℕ) → 10 ^ suc digits ≡ 10 * 10 ^ digits
ten_pow digits = omega arith

tenth : (n k : ℕ) → n < 10 * k → n / 10 < k
tenth n k h = omega arith

digits_from-decimal : (digits n : ℕ) → n < 10 ^ digits → digits_from 0 (decimal digits n) ≡ n
unfolding digits_from decimal
digits_from-decimal zero n h = omega arith
digits_from-decimal (suc digits) n h = elim (Bool-cases (ltb n 10)) [
  | inl t ↦ ap (digits_from 0) (decimal_digit digits n (ground arith)) ∙ omega arith
  | inr f ↦
      let small : n / 10 < 10 ^ digits =
        tenth n (10 ^ digits) (subst (λ k. n < k) (ten_pow digits) h) in
      ap (digits_from 0) (decimal_digits digits n (ground arith))
      ∙ digits_from-append 0 (decimal digits (n / 10)) (n % 10 + 48)
      ∙ ap (λ k. k * 10 + (n % 10 + 48 - 48)) (digits_from-decimal digits (n / 10) small)
      ∙ omega arith
]

abbrev pub to_u32 : Text → Option ℕ
to_u32 text = if ltb (digits_from 0 text) (2 ^ 32) then some (digits_from 0 text) else none

pub to_u32-decimal : (n : ℕ) → n < 2 ^ 32 → to_u32 (decimal 10 n) ≡ some n
to_u32-decimal n h =
    let e : digits_from 0 (decimal 10 n) ≡ n = digits_from-decimal 10 n (omega arith) in
    ap (λ k. if ltb k (2 ^ 32) then some k else none) e ∙ ground arith

abbrev pub Cells : Type 0
Cells = Text → Option Text

abbrev pub set_free : Text → Text → Option Text → Cells → Bool × Cells
set_free key v none r = (true, put key v r)
set_free key v (some w) r = (false, r)

pub get-cut : (key : Text) (r : Cells) → cut key r key ≡ none
get-cut key r = ground (arith, same_refl key)

pub set_free-some :
    (key v w : Text) (r : Cells) → r key ≡ some w → set_free key v (r key) r ≡ (false, r)
set_free-some key v w r h = ap (λ o. set_free key v o r) h

pub set_free-none : (key v : Text) (r : Cells) → r key ≡ none → (set_free key v (r key) r).0 ≡ true
set_free-none key v r h = ap (λ o. (set_free key v o r).0) h

pub get-set_free :
    (key v : Text) (r : Cells) → r key ≡ none → (set_free key v (r key) r).1 key ≡ some v
get-set_free key v r h = ap (λ o. (set_free key v o r).1 key) h ∙ ground (arith, same_refl key)

abbrev pub server : Server Cells
server = record {
  get = λ key r. r key;
  setex = λ key ttl v r. put key v r;
  del = λ key r. (1, cut key r);
  set_nx = λ key v r. set_free key v (r key) r;
  getdel = λ key r. (r key, cut key r);
  to_u32 = to_u32;
  to_u32-decimal = to_u32-decimal;
  get-del = get-cut;
  set_nx-some = set_free-some;
  set_nx-none = set_free-none;
  get-set_nx = get-set_free;
  getdel-get = λ key r. refl;
  get-getdel = get-cut;
}
