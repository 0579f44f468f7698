-- ===== src/Prelude/Bits.antt =====
-- The bits of a mask, and what `&`, `|` and `& ~` do to each of them.
use Prim.Native.Nat.{
  ℕ, zero, suc, ◌+◌, ◌-◌, ◌*◌, ◌/◌, ◌%◌, ◌^◌, ◌≤◌, ◌<◌, min, max, bit_and, bit_or, digits,
  bit_and-bitwise, bit_or-bitwise,
}
use mathlib.Core.Path.{◌≡◌, refl, ◌∙◌, sym}
use mathlib.Core.Bool.{Bool, true, false, not, ◌&&◌, ◌||◌}
use mathlib.Core.Logic.{inl, inr}
use native.Mathlib.Omega.{arith}
use native.Mathlib.Nat.{pow-suc}
use native.Mathlib.Decide.{dec_lt}
use projet_commun_unirail.Prelude.Tests.{◌==◌, Bool-cases}

-- Bit `k` of `n`.
abbrev pub test_bit : ℕ → ℕ → Bool
test_bit n zero = n % 2 == 1
test_bit n (suc k) = test_bit (n / 2) k

module _ (rest : ℕ → ℕ) (op : ℕ → ℕ → ℕ) where
  -- Any count of digits that covers the first number gives the same result.
  enough_digits :
      (a b left right : ℕ)
      → a ≤ left
      → a ≤ right
      → digits rest op left a b ≡ digits rest op right a b
  enough_digits zero b zero zero p q = refl
  enough_digits zero b zero (suc right) p q = refl
  enough_digits zero b (suc left) zero p q = refl
  enough_digits zero b (suc left) (suc right) p q = refl
  enough_digits (suc a) b zero right p q = absurd (omega arith)
  enough_digits (suc a) b (suc left) zero p q = absurd (omega arith)
  enough_digits (suc a) b (suc left) (suc right) p q =
      rw (enough_digits (suc a / 2) (b / 2) left right (omega arith) (omega arith))

  lowest_digit :
      (a b : ℕ)
      → digits rest op (suc a) (suc a) b
        ≡ digits rest op (suc a / 2) (suc a / 2) (b / 2) * 2 + op (suc a % 2) (b % 2)
  lowest_digit a b =
      rw (enough_digits (suc a / 2) (b / 2) a (suc a / 2) (omega arith) (omega arith))

pub bit_and_step : (a b : ℕ) → bit_and a b ≡ bit_and (a / 2) (b / 2) * 2 + min (a % 2) (b % 2)
bit_and_step zero b = omega (arith, bit_and-bitwise 0 b, bit_and-bitwise 0 (b / 2))
bit_and_step (suc a) b = omega (
  arith,
  bit_and-bitwise (suc a) b,
  bit_and-bitwise (suc a / 2) (b / 2),
  lowest_digit (λ y. 0) min a b,
)

pub bit_or_step : (a b : ℕ) → bit_or a b ≡ bit_or (a / 2) (b / 2) * 2 + max (a % 2) (b % 2)
bit_or_step zero b = omega (arith, bit_or-bitwise 0 b, bit_or-bitwise 0 (b / 2))
bit_or_step (suc a) b = omega (
  arith,
  bit_or-bitwise (suc a) b,
  bit_or-bitwise (suc a / 2) (b / 2),
  lowest_digit (λ y. y) max a b,
)

pub half_bit_and : (a b : ℕ) → bit_and a b / 2 ≡ bit_and (a / 2) (b / 2)
half_bit_and a b = omega (arith, bit_and_step a b)

pub half_bit_or : (a b : ℕ) → bit_or a b / 2 ≡ bit_or (a / 2) (b / 2)
half_bit_or a b = omega (arith, bit_or_step a b)

pub test_bit-bit_and : (k a b : ℕ) → test_bit (bit_and a b) k ≡ (test_bit a k && test_bit b k)
test_bit-bit_and zero a b = ground (arith, bit_and_step a b)
test_bit-bit_and (suc k) a b = rw (half_bit_and a b) (test_bit-bit_and k (a / 2) (b / 2))

pub test_bit-bit_or : (k a b : ℕ) → test_bit (bit_or a b) k ≡ (test_bit a k || test_bit b k)
test_bit-bit_or zero a b = ground (arith, bit_or_step a b)
test_bit-bit_or (suc k) a b = rw (half_bit_or a b) (test_bit-bit_or k (a / 2) (b / 2))

-- `~m` in a word of `w` bits.
abbrev pub complement : ℕ → ℕ → ℕ
complement w m = 2 ^ w - 1 - m

pub test_bit-zero : (k : ℕ) → test_bit 0 k ≡ false
test_bit-zero zero = refl
test_bit-zero (suc k) = test_bit-zero k

-- A number has no bit at or above its width.
pub test_bit_of_lt : (w k a : ℕ) → a < 2 ^ w → w ≤ k → test_bit a k ≡ false
test_bit_of_lt zero k a h p = rw ((let e : a ≡ 0 = omega arith in e)) (test_bit-zero k)
test_bit_of_lt (suc w) zero a h p = absurd (omega arith)
test_bit_of_lt (suc w) (suc k) a h p =
    test_bit_of_lt w k (a / 2) (omega (arith, pow-suc 2 w)) (omega arith)

pub test_bit-complement :
    (w k m : ℕ) → m < 2 ^ w → k < w → test_bit (complement w m) k ≡ not (test_bit m k)
test_bit-complement zero k m h p = absurd (omega arith)
test_bit-complement (suc w) zero m h p = ground (arith, pow-suc 2 w)
test_bit-complement (suc w) (suc k) m h p =
    let half : complement (suc w) m / 2 ≡ complement w (m / 2) = omega (arith, pow-suc 2 w) in
    rw half (test_bit-complement w k (m / 2) (omega (arith, pow-suc 2 w)) (omega arith))

-- `a & ~m` keeps the bits of `a` that `m` does not have.
pub test_bit-clear :
    (w k a m : ℕ)
    → a < 2 ^ w
    → m < 2 ^ w
    → test_bit (bit_and a (complement w m)) k ≡ (test_bit a k && not (test_bit m k))
test_bit-clear w k a m p q = elim (dec_lt k w) [
  | yes below ↦ rw (test_bit-bit_and k a (complement w m), test_bit-complement w k m q below)
  | no above ↦ rw (test_bit-bit_and k a (complement w m), test_bit_of_lt w k a p (omega arith))
]

bit_and-le_fuel : (n a b : ℕ) → a ≤ n → bit_and a b ≤ a
bit_and-le_fuel n zero b h = omega (arith, bit_and-bitwise 0 b)
bit_and-le_fuel zero (suc a) b h = absurd (omega arith)
bit_and-le_fuel (suc n) (suc a) b h =
    omega (arith, bit_and_step (suc a) b, bit_and-le_fuel n (suc a / 2) (b / 2) (omega arith))

pub bit_and-le : (a b : ℕ) → bit_and a b ≤ a
bit_and-le a b = bit_and-le_fuel a a b (omega arith)

pub bit_or-lt : (w a b : ℕ) → a < 2 ^ w → b < 2 ^ w → bit_or a b < 2 ^ w
bit_or-lt zero zero b p q = omega (arith, bit_or-bitwise 0 b)
bit_or-lt zero (suc a) b p q = absurd (omega arith)
bit_or-lt (suc w) a b p q = omega (
  arith,
  bit_or_step a b,
  pow-suc 2 w,
  bit_or-lt w (a / 2) (b / 2) (omega (arith, pow-suc 2 w)) (omega (arith, pow-suc 2 w)),
)

-- Two masks with no bit in common.
pub test_bit_disjoint : (k a b : ℕ) → bit_and a b ≡ 0 → test_bit a k ≡ true → test_bit b k ≡ false
test_bit_disjoint k a b e h =
    let both : (test_bit a k && test_bit b k) ≡ false =
      sym (test_bit-bit_and k a b) ∙ rw e (test_bit-zero k) in
    ground arith

-- Two numbers with the same bits.
bits_ext_fuel : (f a b : ℕ) → a ≤ f → b ≤ f → ((k : ℕ) → test_bit a k ≡ test_bit b k) → a ≡ b
bits_ext_fuel zero a b p q h = omega arith
bits_ext_fuel (suc f) a b p q h =
    let low : a % 2 ≡ b % 2 = ground (arith, h 0) in
    let high : a / 2 ≡ b / 2 =
      bits_ext_fuel f (a / 2) (b / 2) (omega arith) (omega arith) (λ k. h (suc k)) in
    omega arith

pub bits_ext : (a b : ℕ) → ((k : ℕ) → test_bit a k ≡ test_bit b k) → a ≡ b
bits_ext a b h = bits_ext_fuel (a + b) a b (omega arith) (omega arith) h

some_bit_fuel : (fuel a : ℕ) → a ≤ fuel → 0 < a → (k : ℕ) × (test_bit a k ≡ true)
some_bit_fuel zero a p h = absurd (omega arith)
some_bit_fuel (suc fuel) a p h = elim (Bool-cases (a % 2 == 1)) [
  | inl odd ↦ (0, odd)
  | inr even ↦
      let (k, set) =
        some_bit_fuel fuel (a / 2) (omega arith)
          (let rest : a % 2 ≡ 0 = ground arith in omega arith) in
      (suc k, set)
]

-- A number that is not zero has a bit.
pub some_bit : (a : ℕ) → 0 < a → (k : ℕ) × (test_bit a k ≡ true)
some_bit a h = some_bit_fuel a a (omega arith) h
