-- ===== src/Resources/Exclusion.antt =====
-- The invariant of the resources of app/RBC/src/ressources.c: which train holds which section.
use projet_commun_unirail.Prelude.{
  ℕ, ◌<◌, ◌≡◌, sym, ap, ◌∙◌, ◌↔◌, Bool, true, not, ◌&&◌, some, List, update, bit_and, bit_or, All,
  All-get_elem?, get_elem?, >>=-eq-some, arith, Bool-cases, inl, inr,
}
use projet_commun_unirail.Prelude.Bits.{
  complement, test_bit, test_bit-zero, test_bit-bit_or, test_bit-bit_and, test_bit-clear, bit_or-lt,
  bit_and-le,
}
use projet_commun_unirail.Float.{Float}
use projet_commun_unirail.Can.{Bus, entry}
use projet_commun_unirail.Resources.Tables.{l_mask_req, l_mask_lib}
use projet_commun_unirail.Resources.Masks.{
  lock_ressources, unlock_ressources, lock_ressources_granted, lock_ressources-lt,
  test_bit-unlock_ressources, unlock_ressources-lt,
}
use projet_commun_unirail.Resources.Effects.{take_resources-IsLocked}
use projet_commun_unirail.Resources.System.{
  World, start, Step, IsOwn, AllOwn, granted, reported, freed, Reach, here, later,
}

abbrev IsByte : ℕ → Type 0
IsByte m = m < 256

entry-All :
    (rows : List (List ℕ)) (k i : ℕ) {m : ℕ}
    → All (All IsByte) rows
    → entry rows k i ≡ some m
    → m < 256
entry-All rows k i h e =
    let (row, at_k, at_i) = >>=-eq-some (get_elem? rows k) (λ row. get_elem? row i) e in
    All-get_elem? IsByte row i (All-get_elem? (All IsByte) rows k h at_k) at_i

pub mask_req-lt : (k i : ℕ) {m : ℕ} → entry l_mask_req k i ≡ some m → m < 256
mask_req-lt k i = entry-All l_mask_req k i (omega arith)

pub mask_lib-lt : (k i : ℕ) {m : ℕ} → entry l_mask_lib k i ≡ some m → m < 256
mask_lib-lt k i = entry-All l_mask_lib k i (omega arith)

-- What the byte `resources` and the masks that the trains hold say of one another.
pub record IsExclusive (resources : ℕ) (held : ℕ → ℕ) : Type 0 where
  pub small : resources < 256
  pub held_small : (k : ℕ) → held k < 256
  pub taken : (k b : ℕ) → test_bit (held k) b ≡ true → test_bit resources b ≡ true
  pub owned : (b : ℕ) → test_bit resources b ≡ true → (k : ℕ) × (test_bit (held k) b ≡ true)
  pub apart : (j k b : ℕ) → test_bit (held j) b ≡ true → test_bit (held k) b ≡ true → j ≡ k

module _ {resources : ℕ} {held : ℕ → ℕ} (inv : IsExclusive resources held) (k mask : ℕ)
    (mask_lt : mask < 256) where
  open inv use {small, held_small, taken, owned, apart}

  lock-IsExclusive :
      (r : ℕ)
      → lock_ressources mask resources ≡ some r
      → IsExclusive r (update held k (bit_or (held k) mask))
  lock-IsExclusive r e = record {
    small = lock_ressources-lt mask resources e mask_lt small;
    held_small =
        λ j. ground (arith, held_small j, bit_or-lt 8 (held k) mask (held_small k) mask_lt);
    taken = λ j b h. ground (
      arith,
      lock_ressources_granted mask resources e b,
      test_bit-bit_or b (held k) mask,
      taken j b,
      taken k b,
    );
    owned = λ b h. elim (Bool-cases (test_bit mask b)) [
      | inl new ↦ (k, ground (arith, test_bit-bit_or b (held k) mask))
      | inr old ↦
          let (j, of_j) = owned b (ground (arith, lock_ressources_granted mask resources e b)) in
          (j, ground (arith, test_bit-bit_or b (held k) mask))
    ];
    apart = λ i j b p q. ground (
      arith,
      lock_ressources_granted mask resources e b,
      test_bit-bit_or b (held k) mask,
      taken i b,
      taken j b,
      taken k b,
      apart i j b,
      apart i k b,
      apart k j b,
    );
  }

  module _ (own : bit_and (held k) mask ≡ mask) where
    own_bit : (b : ℕ) → test_bit mask b ≡ true → test_bit (held k) b ≡ true
    own_bit b h =
        let both : (test_bit (held k) b && test_bit mask b) ≡ test_bit mask b =
          sym (test_bit-bit_and b (held k) mask) ∙ ap (λ m. test_bit m b) own in
        ground arith

    kept_bit :
        (b : ℕ)
        → test_bit (bit_and (held k) (complement 8 mask)) b
          ≡ (test_bit (held k) b && not (test_bit mask b))
    kept_bit b = test_bit-clear 8 b (held k) mask (held_small k) mask_lt

    left_bit :
        (b : ℕ)
        → test_bit (unlock_ressources mask resources) b
          ≡ (test_bit resources b && not (test_bit mask b))
    left_bit b = test_bit-unlock_ressources mask resources b mask_lt small

    unlock-IsExclusive :
        IsExclusive
          (unlock_ressources mask resources)
          (update held k (bit_and (held k) (complement 8 mask)))
    unlock-IsExclusive = record {
      small = unlock_ressources-lt mask resources small;
      held_small =
          λ j. ground (arith, held_small j, held_small k, bit_and-le (held k) (complement 8 mask));
      taken = λ j b h.
          ground (arith, left_bit b, kept_bit b, own_bit b, taken j b, taken k b, apart j k b);
      owned = λ b h.
          let (j, of_j) = owned b (ground (arith, left_bit b)) in
          (j, ground (arith, left_bit b, kept_bit b));
      apart = λ i j b p q. ground (arith, kept_bit b, apart i j b, apart i k b, apart k j b);
    }

pub start-IsExclusive : IsExclusive 0 (λ _. 0)
start-IsExclusive = record {
  small = omega arith;
  held_small = λ k. omega arith;
  taken = λ k b h. h;
  owned = λ b h. cc (test_bit-zero b);
  apart = λ j k b p q. cc (test_bit-zero b);
}

module _ {F : Type 0} ⦃f : Float F⦄ (fails : ℕ → Bool) where
  abbrev pub IsSafe : World F → Type 0
  IsSafe w = IsExclusive w.rbc.resources w.held

  pub Step-IsSafe : {w v : World F} → (st : Step fails w v) → IsOwn fails st → IsSafe w → IsSafe v
  Step-IsSafe {w} (granted k mask result s e) own inv =
      let took = take_resources-IsLocked fails k mask result w.rbc s e in
      lock-IsExclusive inv k mask (mask_req-lt k _ took.mask_of) s.resources took.taken
  Step-IsSafe (reported k p e) own inv = inv
  Step-IsSafe {w} (freed k mask p s e did) own inv =
      rw did.given (unlock-IsExclusive inv k mask (mask_lib-lt k _ did.mask_of) own)

  pub Reach-IsSafe : {w v : World F} → IsSafe w → (r : Reach fails w v) → AllOwn fails r → IsSafe v
  Reach-IsSafe inv here own = inv
  Reach-IsSafe inv (later r st) own = Step-IsSafe st own.1 (Reach-IsSafe inv r own.0)

  -- In every state that requests and reports reach from the start, while each release on the way is
  -- by a train that holds the mask, a resource bit is set exactly when some train holds it, and no
  -- bit is held by two trains.
  pub mutual_exclusion :
      (bus : Bus) {w : World F} (b : ℕ)
      → (r : Reach fails (start fails bus) w) → AllOwn fails r
      → ((test_bit w.rbc.resources b ≡ true) ↔ ((k : ℕ) × (test_bit (w.held k) b ≡ true)))
        × ((j k : ℕ) → test_bit (w.held j) b ≡ true → test_bit (w.held k) b ≡ true → j ≡ k)
  mutual_exclusion bus b r own =
      let inv = Reach-IsSafe start-IsExclusive r own in
      ((inv.owned b, λ h. inv.taken h.0 b h.1), λ j k. inv.apart j k b)
