-- ===== src/Resources/Masks.antt =====
-- app/RBC/src/ressources.c, `lock_ressources` and `unlock_ressources`, on the byte `resources`.
-- The loop that waits is a result: `none` says that the caller is still waiting.
use mathlib.Core.Option.{some-injective}
use projet_commun_unirail.Prelude.{
  ℕ, ◌<◌, ◌≡◌, sym, ◌∙◌, true, false, not, ◌&&◌, ◌||◌, Option, none, some, bit_and, bit_or, ◌==◌,
  if◌then◌else◌, arith, inl, inr, Bool-cases,
}
use projet_commun_unirail.Prelude.Bits.{
  test_bit, test_bit-bit_and, test_bit-complement, some_bit, complement, test_bit-bit_or,
  test_bit-clear, test_bit_disjoint, bit_or-lt, bit_and-le,
}

unfoldable pub lock_ressources : ℕ → ℕ → Option ℕ
lock_ressources res_mask resources =
    if bit_and resources res_mask == 0 then some (bit_or resources res_mask) else none

unfoldable pub unlock_ressources : ℕ → ℕ → ℕ
unlock_ressources res_mask resources = bit_and resources (complement 8 res_mask)

-- A lock is granted only if all of its bits are free, and then adds just these bits.
pub lock_ressources_granted :
    (mask resources : ℕ) {r : ℕ}
    → lock_ressources mask resources ≡ some r
    → (k : ℕ)
    → (test_bit r k ≡ (test_bit resources k || test_bit mask k))
      × (test_bit mask k ≡ true → test_bit resources k ≡ false)
unfolding lock_ressources
lock_ressources_granted mask resources {r} e k = elim (Bool-cases (bit_and resources mask == 0)) [
  | inl free ↦
      let disjoint : bit_and resources mask ≡ 0 = ground arith in
      let taken : bit_or resources mask ≡ r = some-injective _ _ (rw free at e) in
      (
        rw (← taken) (test_bit-bit_or k resources mask),
        λ set. ground (arith, test_bit_disjoint k resources mask disjoint),
      )
  | inr busy ↦ (let wrong : none ≡ some r = rw busy at e in cc)
]

pub lock_ressources-lt :
    (mask resources : ℕ) {r : ℕ}
    → lock_ressources mask resources ≡ some r
    → mask < 256
    → resources < 256
    → r < 256
unfolding lock_ressources
lock_ressources-lt mask resources e p q = ground (arith, bit_or-lt 8 resources mask q p)

-- A lock with a bit that is taken waits.
pub lock_ressources_waits :
    (mask resources k : ℕ)
    → test_bit mask k ≡ true
    → test_bit resources k ≡ true
    → lock_ressources mask resources ≡ none
unfolding lock_ressources
lock_ressources_waits mask resources k p q = elim (Bool-cases (bit_and resources mask == 0)) [
  | inl free ↦
      let disjoint : bit_and resources mask ≡ 0 = ground arith in
      cc (test_bit_disjoint k resources mask disjoint q)
  | inr busy ↦ rw busy
]

-- A lock waits only for a bit that is taken.
pub lock_ressources_blocked :
    (mask resources : ℕ)
    → lock_ressources mask resources ≡ none
    → (b : ℕ) × (test_bit mask b ≡ true) × (test_bit resources b ≡ true)
unfolding lock_ressources
lock_ressources_blocked mask resources e = elim (Bool-cases (bit_and resources mask == 0)) [
  | inl free ↦ absurd (let wrong = rw free at e in cc)
  | inr busy ↦
      let (b, set) = some_bit (bit_and resources mask) (ground arith) in
      let both : (test_bit resources b && test_bit mask b) ≡ true =
        sym (test_bit-bit_and b resources mask) ∙ set in
      (b, ground arith, ground arith)
]

-- An unlock clears the bits of its mask and no other.
pub test_bit-unlock_ressources :
    (mask resources k : ℕ)
    → mask < 256
    → resources < 256
    → test_bit (unlock_ressources mask resources) k
      ≡ (test_bit resources k && not (test_bit mask k))
unfolding unlock_ressources
test_bit-unlock_ressources mask resources k p q = test_bit-clear 8 k resources mask q p

pub unlock_ressources-lt :
    (mask resources : ℕ) → resources < 256 → unlock_ressources mask resources < 256
unfolding unlock_ressources
unlock_ressources-lt mask resources q = omega (arith, bit_and-le resources (complement 8 mask))

-- The eight bits of the byte, whatever stands above them.
pub unlock_ressources_bits :
    (mask resources b : ℕ)
    → mask < 256
    → b < 8
    → test_bit (unlock_ressources mask resources) b
      ≡ (test_bit resources b && not (test_bit mask b))
unfolding unlock_ressources
unlock_ressources_bits mask resources b p q =
    rw (test_bit-bit_and b resources (complement 8 mask), test_bit-complement 8 b mask p q)
