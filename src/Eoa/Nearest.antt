-- ===== src/Eoa/Nearest.antt =====
-- The smallest offset among the objectives at a balise.
use projet_commun_unirail.Prelude.{
  ◌≡◌, Bool, true, false, ◌&&◌, List, [], ◌∷◌, if◌then◌else◌, All, arith,
}
use projet_commun_unirail.Float.{Float, ◌≼◌, IsOrdered}
use projet_commun_unirail.Eoa.Calculator.{min_pos_r}

module _ {F : Type 0} ⦃f : Float F⦄ (laws : IsOrdered F) where
  open laws use {refl_of_le, le_trans, le_total}

  abbrev pub Numbers : List (Bool × F) → Type 0
  Numbers = All λ o. o.1 ≼ o.1

  -- `least` lies at or below every objective that is set.
  abbrev pub BelowAll : F → List (Bool × F) → Type 0
  BelowAll least = All λ o. o.0 ≡ true → least ≼ o.1

  abbrev lower : F → Bool × F → F
  lower least o = if o.0 && f.le o.1 least then o.1 else least

  lower_le :
      (least : F) (o : Bool × F)
      → least ≼ least
      → o.1 ≼ o.1
      → (lower least o ≼ lower least o)
        × (lower least o ≼ least)
        × (o.0 ≡ true → lower least o ≼ o.1)
  lower_le least (true, x) p q = ground (arith, le_total x least q p)
  lower_le least (false, x) p q = ground arith

  pub min_pos_r-BelowAll :
      (least : F) (os : List (Bool × F))
      → least ≼ least
      → Numbers os
      → (min_pos_r least os ≼ least) × BelowAll (min_pos_r least os) os
  unfolding min_pos_r
  min_pos_r-BelowAll least [] p ns = (p, tt)
  min_pos_r-BelowAll least (o ∷ os) p (n, ns) =
      let (self, below, under) = lower_le least o p n in
      let (le, rest) = min_pos_r-BelowAll (lower least o) os self ns in
      (le_trans _ _ _ le below, ((λ set. le_trans _ _ _ le (under set)), rest))
