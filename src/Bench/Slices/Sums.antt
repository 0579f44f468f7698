-- ===== src/Bench/Slices/Sums.antt =====
-- The checksum of a message and of its frames.
use projet_commun_unirail.Prelude.{
  ℕ, zero, suc, ◌+◌, ◌*◌, ◌/◌, ◌%◌, ◌^◌, ◌≤◌, ◌<◌, ◌≡◌, refl, ap, ◌∙◌, some, List, [], ◌∷◌,
  if◌then◌else◌, ltb, leb, take, length, update, arith, ◌&&◌, ℕ_discrete, bit_and,
}
use projet_commun_unirail.Prelude.Bits.{bit_and_step}
use projet_commun_unirail.Bench.Memory.{bit_and-zero}
use projet_commun_unirail.Bench.Slices.{checksum_loop, generate_checksum, gather_loop}
use projet_commun_unirail.Bench.Slices.Cut.{chunk}

unfoldable pub sum_range : (ℕ → ℕ) → ℕ → ℕ → ℕ
sum_range message i zero = 0
sum_range message i (suc n) = message i + sum_range message (i + 1) n

pub sum_range-split :
    (message : ℕ → ℕ) (a b c i j : ℕ)
    → c ≡ a + b
    → j ≡ i + a
    → sum_range message i c ≡ sum_range message i a + sum_range message j b
unfolding sum_range
sum_range-split message zero b c i j e f =
    let same : c ≡ b = omega arith in let at : j ≡ i = omega arith in rw (same, at) (omega arith)
sum_range-split message (suc a) b zero i j e f = absurd (omega arith)
sum_range-split message (suc a) b (suc c) i j e f =
    omega (arith, sum_range-split message a b c (i + 1) j (omega arith) (omega arith))

checksum_loop_lem :
    (n i : ℕ) (message : ℕ → ℕ) (cks : ℕ)
    → cks < 2 ^ 16
    → checksum_loop n i message cks ≡ (cks + sum_range message i n) % 2 ^ 16
unfolding checksum_loop sum_range
checksum_loop_lem zero i message cks h = omega arith
checksum_loop_lem (suc n) i message cks h =
    omega (arith, checksum_loop_lem n (i + 1) message ((cks + message i) % 2 ^ 16) (omega arith))

half_mask : (a m r : ℕ) → m % 2 ≡ 1 → bit_and (a / 2) (m / 2) ≡ r → bit_and a m ≡ r * 2 + a % 2
half_mask a m r e h = omega (arith, bit_and_step a m)

pub low_byte : (a : ℕ) → bit_and a 0xff ≡ a % 256
low_byte a =
    let h1 =
      half_mask (a / 128) 1 0 refl (bit_and-zero (a / 128 / 2) (a / 128 / 2) (omega arith)) in
    let h2 = half_mask (a / 64) 3 _ refl (ap (λ (t : ℕ). bit_and t 1) (omega arith) ∙ h1) in
    let h3 = half_mask (a / 32) 7 _ refl (ap (λ (t : ℕ). bit_and t 3) (omega arith) ∙ h2) in
    let h4 = half_mask (a / 16) 15 _ refl (ap (λ (t : ℕ). bit_and t 7) (omega arith) ∙ h3) in
    let h5 = half_mask (a / 8) 31 _ refl (ap (λ (t : ℕ). bit_and t 15) (omega arith) ∙ h4) in
    let h6 = half_mask (a / 4) 63 _ refl (ap (λ (t : ℕ). bit_and t 31) (omega arith) ∙ h5) in
    let h7 = half_mask (a / 2) 127 _ refl (ap (λ (t : ℕ). bit_and t 63) (omega arith) ∙ h6) in
    half_mask a 255 _ refl h7 ∙ omega arith

-- The checksum is the sum of the bytes, on 8 bits.
pub generate_checksum_lem :
    (message : ℕ → ℕ) (len : ℕ) → generate_checksum message len ≡ sum_range message 0 len % 256
unfolding generate_checksum
generate_checksum_lem message len =
    low_byte _ ∙ omega (arith, checksum_loop_lem len 0 message 0 (omega arith))

-- A frame that is taken over: its bytes stand in the array, the others stay, and the checksum
-- grows by their sum.
pub gather_loop_lem :
    (n : ℕ) (message : ℕ → ℕ) (bytes : List ℕ) (i : ℕ) (dest : ℕ → ℕ) (cks : ℕ)
    → take n bytes ≡ chunk message i n
    → n ≤ length bytes
    → cks < 2 ^ 16
    → (dest' : ℕ → ℕ) × (gather_loop n bytes i dest cks
        ≡ some (dest', (cks + sum_range message i n) % 2 ^ 16))
      × ((j : ℕ) → dest' j ≡ (if leb i j && ltb j (i + n) then message j else dest j))
unfolding gather_loop sum_range
gather_loop_lem zero message bytes i dest cks e h p =
    (dest, ap (λ (t : ℕ). some (dest, t)) (omega arith), λ j. ground arith)
gather_loop_lem (suc n) message [] i dest cks e h p = absurd (omega arith)
gather_loop_lem (suc n) message (b ∷ bytes) i dest cks e h p =
    let first : b ≡ message i = cc in
    let rest : take n bytes ≡ chunk message (i + 1) n = cc in
    let (dest', done, put) =
      gather_loop_lem n message bytes (i + 1) (update dest i b) ((cks + b) % 2 ^ 16) rest
        (omega arith) (omega arith) in
    (
      dest',
      done ∙ ap (λ (t : ℕ). some (dest', t)) (omega arith),
      λ j. put j ∙ elim (ℕ_discrete i j) [
        | yes same ↦ rw (first, same) (ground arith)
        | no apart ↦ ground arith
      ],
    )
