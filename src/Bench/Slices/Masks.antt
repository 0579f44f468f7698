-- ===== src/Bench/Slices/Masks.antt =====
-- The bits of the frames that have come.
use native.Mathlib.Nat.{mod-eq_of_lt}
use projet_commun_unirail.Prelude.{
  ℕ, zero, suc, ◌+◌, ◌%◌, ◌^◌, ◌≤◌, ◌<◌, ◌≡◌, refl, ap, sym, ◌∙◌, Bool, true, false, ltb, leb, ◌==◌,
  arith, ◌||◌, ◌&&◌, Bool-cases, inl, inr, ℕ_discrete, ==_iff, bit_and, bit_or,
}
use projet_commun_unirail.Prelude.Bits.{
  test_bit, bits_ext, test_bit-bit_and, test_bit-bit_or, bit_or-lt, test_bit-zero,
}
use projet_commun_unirail.Bench.Memory.{test_bit-pow, pow-lt}
use projet_commun_unirail.Bench.Slices.{mask_loop}

-- Bit `k` set in a word of 16 bits.
unfoldable pub raise : ℕ → ℕ → ℕ
raise flags k = bit_or flags (2 ^ k) % 2 ^ 16

pub raise-lt : (flags k : ℕ) → raise flags k < 2 ^ 16
unfolding raise
raise-lt flags k = omega arith

pub test_bit-raise :
    (flags k j : ℕ)
    → flags < 2 ^ 16
    → k < 16
    → test_bit (raise flags k) j ≡ (test_bit flags j || k == j)
unfolding raise
test_bit-raise flags k j h p =
    rw (mod-eq_of_lt (bit_or-lt 16 flags (2 ^ k) h (pow-lt k 16 p)))
      (test_bit-bit_or j flags (2 ^ k) ∙ rw (test_bit-pow k j))

test_bit-mask_loop :
    (n i mask j : ℕ)
    → mask < 2 ^ 16
    → i + n ≤ 16
    → test_bit (mask_loop n i mask) j ≡ (test_bit mask j || leb i j && ltb j (i + n))
unfolding mask_loop raise
test_bit-mask_loop zero i mask j h p = ground arith
test_bit-mask_loop (suc n) i mask j h p =
    test_bit-mask_loop n (i + 1) (raise mask i) j (raise-lt mask i) (omega arith)
    ∙ rw (test_bit-raise mask i j h (omega arith)) (ground arith)

-- All bits below `n`.
unfoldable pub all_bits : ℕ → ℕ → Bool
all_bits zero flags = true
all_bits (suc n) flags = test_bit flags n && all_bits n flags

pub all_bits-below : (n flags k : ℕ) → all_bits n flags ≡ true → k < n → test_bit flags k ≡ true
unfolding all_bits
all_bits-below zero flags k h p = absurd (omega arith)
all_bits-below (suc n) flags k h p = elim (ℕ_discrete k n) [
  | yes same ↦ rw same (ground arith)
  | no apart ↦ all_bits-below n flags k (ground arith) (omega arith)
]

pub all_bits-intro :
    (n flags : ℕ) → ((k : ℕ) → k < n → test_bit flags k ≡ true) → all_bits n flags ≡ true
unfolding all_bits
all_bits-intro zero flags h = refl
all_bits-intro (suc n) flags h =
    rw (h n (omega arith)) (all_bits-intro n flags (λ k p. h k (omega arith)))

-- The test of the code on the mask of `n` frames is the test of all their bits.
pub mask_test :
    (n flags : ℕ) → n ≤ 16 → (bit_and flags (mask_loop n 0 0) == mask_loop n 0 0) ≡ all_bits n flags
mask_test n flags h =
    let mask = mask_loop n 0 0 in
    let bits : (j : ℕ) → test_bit mask j ≡ ltb j n = λ j.
      test_bit-mask_loop n 0 0 j (omega arith) (omega arith)
      ∙ rw (test_bit-zero j) (ground arith) in
    elim (Bool-cases (all_bits n flags)) [
      | inl all ↦
          let same : bit_and flags mask ≡ mask = bits_ext (bit_and flags mask) mask (λ j.
            test_bit-bit_and j flags mask
            ∙ rw (bits j) (ground (arith, all_bits-below n flags j))) in
          rw (same, all) (ground arith)
      | inr missing ↦ elim (Bool-cases (bit_and flags mask == mask)) [
        | inl same ↦
            let every : all_bits n flags ≡ true = all_bits-intro n flags (λ k p.
              let bit : test_bit (bit_and flags mask) k ≡ test_bit mask k =
                ap (λ (t : ℕ). test_bit t k) ((==_iff _ _).0 same) in
              ground (arith, test_bit-bit_and k flags mask, bits k)) in
            cc
        | inr other ↦ other ∙ sym missing
      ]
    ]

pub all_bits-missing : (n flags j : ℕ) → j < n → test_bit flags j ≡ false → all_bits n flags ≡ false
all_bits-missing n flags j h e = elim (Bool-cases (all_bits n flags)) [
  | inl all ↦ let set : test_bit flags j ≡ true = all_bits-below n flags j all h in cc
  | inr missing ↦ missing
]
