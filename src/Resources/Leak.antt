-- ===== src/Resources/Leak.antt =====
-- The fourth row of `L_mask_lib2` of app/utility/src/const_chemins.c, the release of the section
-- 0b10000, under the `L_res_size` of that train, which is 3.
use mathlib.Core.Option.{some-injective}
use projet_commun_unirail.Prelude.{
  ℕ, zero, suc, ◌+◌, ◌%◌, ◌<◌, ◌≡◌, refl, sym, Bool, true, false, some, update, bit_and, bit_or,
  ◌>>=◌, arith,
}
use projet_commun_unirail.Prelude.Bits.{complement, test_bit, test_bit-bit_or, test_bit-clear}
use native.Mathlib.Decide.{ℕ_discrete}
use projet_commun_unirail.Float.{Float}
use projet_commun_unirail.Can.{Bus, entry}
use projet_commun_unirail.Resources.Tables.{l_mask_req, l_mask_lib}
use projet_commun_unirail.Resources.Masks.{lock_ressources_waits}
use projet_commun_unirail.Resources.Requests.{RbcState, waiting, locked, take_resources}
use projet_commun_unirail.Resources.Effects.{take_resources-IsLocked}
use projet_commun_unirail.Resources.System.{
  World, start, Step, AllOwn, granted, reported, freed, Reach, here, later,
}
use projet_commun_unirail.Resources.Exclusion.{
  IsSafe, Step-IsSafe, Reach-IsSafe, start-IsExclusive, mask_lib-lt,
}

-- The masks that the train can come to free have no bit 4.
reached_masks : (i : ℕ) {m : ℕ} → i < 3 → entry l_mask_lib 1 i ≡ some m → test_bit m 4 ≡ false
reached_masks zero p e = rw (← some-injective _ _ e)
reached_masks (suc zero) p e = rw (← some-injective _ _ e)
reached_masks (suc (suc zero)) p e = rw (← some-injective _ _ e)
reached_masks (suc (suc (suc i))) p e = absurd (omega arith)

clear_keeps :
    (b a m : ℕ)
    → a < 256
    → m < 256
    → test_bit a b ≡ true
    → test_bit m b ≡ false
    → test_bit (bit_and a (complement 8 m)) b ≡ true
clear_keeps b a m p q set clear = ground (arith, test_bit-clear 8 b a m p q)

module _ {F : Type 0} ⦃f : Float F⦄ (fails : ℕ → Bool) where
  -- The train's counter stays below 3, and so off the fourth row.
  abbrev Bounded : World F → Type 0
  Bounded w = w.rbc.next_bal_index_lib 1 < 3

  Step-Bounded : {w v : World F} → Step fails w v → Bounded w → Bounded v
  Step-Bounded {w} (granted k mask result s e) b =
      let took = take_resources-IsLocked fails k mask result w.rbc s e in rw took.same_lib b
  Step-Bounded (reported k p e) b = b
  Step-Bounded {w} (freed k mask p s e did) b = elim (ℕ_discrete k 1) [
    | yes same ↦
        let three : did.size ≡ 3 = sym (some-injective _ _ (rw same at did.size_of)) in
        let small : (w.rbc.next_bal_index_lib k + 1) % did.size < 3 = rw three (omega arith) in
        rw did.advanced (ground arith)
    | no other ↦ rw did.advanced (ground arith)
  ]

  Reach-Bounded : {w v : World F} → Bounded w → Reach fails w v → Bounded v
  Reach-Bounded b here = b
  Reach-Bounded b (later r st) = Step-Bounded st (Reach-Bounded b r)

  abbrev HoldsLast : World F → Type 0
  HoldsLast w = test_bit (w.held 1) 4 ≡ true

  Step-HoldsLast :
      {w v : World F} → Step fails w v → IsSafe fails w → Bounded w → HoldsLast w → HoldsLast v
  Step-HoldsLast {w} (granted k mask result s e) inv b h =
      ground (arith, test_bit-bit_or 4 (w.held k) mask)
  Step-HoldsLast (reported k p e) inv b h = h
  Step-HoldsLast {w} (freed k mask p s e did) inv b h = elim (ℕ_discrete k 1) [
    | yes same ↦
        let clear = reached_masks (w.rbc.next_bal_index_lib 1) b (rw same at did.mask_of) in
        let kept =
          clear_keeps 4 (w.held k) mask (inv.held_small k) (mask_lib-lt k _ did.mask_of) (rw same h)
            clear in
        ground arith
    | no other ↦ ground arith
  ]

  Reach-HoldsLast :
      {w v : World F}
      → IsSafe fails w
      → Bounded w
      → HoldsLast w
      → (r : Reach fails w v) → AllOwn fails r
      → IsSafe fails v × HoldsLast v
  Reach-HoldsLast inv b h here own = (inv, h)
  Reach-HoldsLast inv b h (later r st) own =
      let (inv', h') = Reach-HoldsLast inv b h r own.0 in
      (Step-IsSafe fails st own.1 inv', Step-HoldsLast st inv' (Reach-Bounded b r) h')

  take_resources_waits :
      (k mask b : ℕ) (s : RbcState F)
      → entry l_mask_req k (s.next_bal_index_req k) ≡ some mask
      → test_bit mask b ≡ true
      → test_bit s.resources b ≡ true
      → take_resources fails k s ≡ some (waiting mask)
  unfolding take_resources
  take_resources_waits k mask b s e set taken =
      rw (e, ◌>>=◌) (rw (lock_ressources_waits mask s.resources b set taken))

  -- Once the train with index 1 has taken the lock of its third section, 0b11000, no later lock of a
  -- mask with bit 4 is ever taken, by any train: the thread waits in every state that requests and
  -- reports lead to, while each release, before and after, is by a train that holds the mask.
  pub last_section_never_freed :
      (bus : Bus) {w u : World F} (mask result : ℕ) (s : RbcState F)
      → (r : Reach fails (start fails bus) w) → AllOwn fails r
      → w.rbc.next_bal_index_req 1 ≡ 2
      → take_resources fails 1 w.rbc ≡ some (locked mask result s)
      → (after : Reach fails
          (record { rbc = s; held = update w.held 1 (bit_or (w.held 1) mask) })
          u)
      → AllOwn fails after
      → (k m : ℕ) → entry l_mask_req k (u.rbc.next_bal_index_req k) ≡ some m
      → test_bit m 4 ≡ true
      → take_resources fails k u.rbc ≡ some (waiting m)
  last_section_never_freed bus {w} {u} mask result s r own at_2 e after own_after k m m_of set =
      let took = take_resources-IsLocked fails 1 mask result w.rbc s e in
      let third : 0b11000 ≡ mask = some-injective _ _ (rw at_2 at took.mask_of) in
      let bit : test_bit mask 4 ≡ true = rw (← third) refl in
      let step : Step fails w _ = granted 1 mask result s e in
      let inv = Step-IsSafe fails step tt (Reach-IsSafe fails start-IsExclusive r own) in
      let bounded = Step-Bounded step (Reach-Bounded (omega arith) r) in
      let holds : test_bit (bit_or (w.held 1) mask) 4 ≡ true =
        ground (arith, test_bit-bit_or 4 (w.held 1) mask) in
      let (inv', holds') = Reach-HoldsLast inv bounded holds after own_after in
      take_resources_waits k m 4 u.rbc m_of set (inv'.taken 1 4 holds')
