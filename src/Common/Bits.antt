-- ===== src/Common/Bits.antt =====
-- The bit operations of a byte and of a mask, as far as the source uses them.
use Prim.Native.Nat.{
  ℕ, zero, suc, ◌+◌, ◌-◌, ◌*◌, ◌/◌, ◌%◌, ◌^◌, ◌≤◌, ◌<◌, min, bit_and, bit_or, digits,
  bit_and-bitwise,
}
use mathlib.Core.Path.{◌≡◌, refl}
use mathlib.Core.Bool.{Bool, true, not, ◌&&◌, ◌||◌}
use native.Mathlib.Omega.{arith}
use mathlib.Core.Path.{ap}
use mathlib.Core.Logic.{inl, inr}
use limitmark.Common.Tests.{◌==◌, ==_iff, ltb, ltb→lt, Bool-cases}

-- `(byte & (1 << k)) !== 0`
abbrev pub is_set : ℕ → ℕ → Bool
is_set byte k = not (bit_and byte (2 ^ k) == 0)

-- `byte | (1 << k)`
abbrev pub raise : ℕ → ℕ → ℕ
raise byte k = bit_or byte (2 ^ k)

every : ℕ → (ℕ → Bool) → Bool
every zero p = true
every (suc n) p = p n && every n p

every_sound : (n : ℕ) (p : ℕ → Bool) (x : ℕ) → every n p ≡ true → x < n → p x ≡ true
unfolding every
every_sound zero p x h lt = absurd (omega arith)
every_sound (suc n) p x h lt = ground (arith, every_sound n p x)

raised : ℕ → ℕ → Bool
raised k byte = is_set (raise byte k) k && ltb (raise byte k) 256

kept : ℕ → ℕ → ℕ → Bool
kept k j byte = not (is_set byte j) || is_set (raise byte k) j

raised_table : every 8 (λ k. every 256 (raised k)) ≡ true
unfolding every raised
raised_table = refl

kept_table : every 8 (λ k. every 8 (λ j. every 256 (kept k j))) ≡ true
unfolding every kept
kept_table = refl

-- Raising a bit sets it, and a byte stays a byte.
pub is_set-raise : (k byte : ℕ) → k < 8 → byte < 256 → is_set (raise byte k) k ≡ true
unfolding raised
is_set-raise k byte p q =
    ground (arith, every_sound 256 (raised k) byte (every_sound 8 _ k raised_table p) q)

pub raise-lt : (k byte : ℕ) → k < 8 → byte < 256 → raise byte k < 256
unfolding raised
raise-lt k byte p q =
    ltb→lt _ _
      (ground (arith, every_sound 256 (raised k) byte (every_sound 8 _ k raised_table p) q))

-- Raising one bit lowers no other.
pub is_set-raise_of :
    (k j byte : ℕ)
    → k < 8
    → j < 8
    → byte < 256
    → is_set byte j ≡ true
    → is_set (raise byte k) j ≡ true
unfolding kept
is_set-raise_of k j byte p q r h =
    let rows = every_sound 8 (λ k. every 8 (λ j. every 256 (kept k j))) k kept_table p in
    let row = every_sound 8 (λ j. every 256 (kept k j)) j rows q in
    ground (arith, every_sound 256 (kept k j) byte row r)

-- The lowest digit of `&`.
and_from : ℕ → ℕ → ℕ → ℕ
and_from n a b = digits (λ b. zero) min n a b

and_from_enough : (n m a b : ℕ) → a ≤ n → a ≤ m → and_from n a b ≡ and_from m a b
unfolding and_from
and_from_enough zero zero a b p q = refl
and_from_enough (suc n) (suc m) zero b p q = refl
and_from_enough (suc n) (suc m) (suc a) b p q =
    omega (arith, and_from_enough n m (suc a / 2) (b / 2) (omega arith) (omega arith))
and_from_enough zero (suc m) zero b p q = refl
and_from_enough zero (suc m) (suc a) b p q = absurd (omega arith)
and_from_enough (suc n) zero zero b p q = refl
and_from_enough (suc n) zero (suc a) b p q = absurd (omega arith)

pub bit_and-zero_left : (b : ℕ) → bit_and 0 b ≡ 0
bit_and-zero_left b = bit_and-bitwise 0 b

pub bit_and-halves : (a b : ℕ) → bit_and a b ≡ bit_and (a / 2) (b / 2) * 2 + min (a % 2) (b % 2)
unfolding and_from
bit_and-halves zero b = omega (arith, bit_and-zero_left b, bit_and-zero_left (b / 2))
bit_and-halves (suc a) b = omega (
  arith,
  bit_and-bitwise (suc a) b,
  bit_and-bitwise (suc a / 2) (b / 2),
  and_from_enough a (suc a / 2) (suc a / 2) (b / 2) (omega arith) (omega arith),
)

bit_and-self_below : (n a : ℕ) → a < n → bit_and a a ≡ a
bit_and-self_below zero a h = elim h [ ]
bit_and-self_below (suc n) zero h = bit_and-zero_left 0
bit_and-self_below (suc n) (suc a) h =
    omega (arith, bit_and-halves (suc a) (suc a), bit_and-self_below n (suc a / 2) (omega arith))

-- `n & (n - 1)` is 0 only where `n` is even, and then the same holds of its half.
pub power_test-half :
    (n : ℕ) → 2 ≤ n → bit_and n (n - 1) ≡ 0 → (n % 2 ≡ 0) × (bit_and (n / 2) (n / 2 - 1) ≡ 0)
power_test-half n h e = elim (Bool-cases (n % 2 == 0)) [
  | inl even ↦
      let two : n % 2 ≡ 0 = (==_iff _ _).0 even in
      let half : (n - 1) / 2 ≡ n / 2 - 1 = omega arith in
      (two, rw (← half) (omega (arith, bit_and-halves n (n - 1))))
  | inr odd ↦
      let half : (n - 1) / 2 ≡ n / 2 = ground arith in
      absurd (
        ground (
          arith,
          bit_and-halves n (n - 1),
          ap (bit_and (n / 2)) half,
          bit_and-self_below (suc (n / 2)) (n / 2) (omega arith),
        ))
]

-- A power of two from 8 on is a whole number of bytes.
pub power_test-bytes : (n : ℕ) → 8 ≤ n → bit_and n (n - 1) ≡ 0 → n ≡ 8 * (n / 8)
power_test-bytes n h e =
    let (a, e₁) = power_test-half n (omega arith) e in
    let (b, e₂) = power_test-half (n / 2) (omega arith) e₁ in
    let (c, e₃) = power_test-half (n / 2 / 2) (omega arith) e₂ in omega arith
