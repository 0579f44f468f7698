-- ===== src/Eoa/Safety.antt =====
-- What the result of `next_eoa` of app/RBC/src/eoa_calculator.c promises of the two other trains and
-- of the resource, and where it does not.
use projet_commun_unirail.Prelude.{
  ℕ, inr, ◌+◌, ◌%◌, ◌≡◌, ap, ◌∙◌, true, false, some, List, get_elem?, arith,
}
use projet_commun_unirail.Prelude.Int.{ℤ, pos, ◌==ℤ◌, ==ℤ_iff}
use projet_commun_unirail.Float.{Float, ◌≼◌, IsOrdered}
use projet_commun_unirail.Track.{Position, seek_finds}
use projet_commun_unirail.Eoa.Calculator.{is_before, next_eoa}
use projet_commun_unirail.Eoa.Limits.{Authority}
use projet_commun_unirail.Eoa.Cases.{choose, next_eoa-choose, decide_lem}

module _ {F : Type 0} ⦃f : Float F⦄ where
  -- For a train on its route, a resource balise on the route, and two other trains whose offsets
  -- are numbers at or above zero and that do not both stand in front on the balise of the train
  -- with the first farther than the second: `next_eoa` returns, at most once round the route, and
  -- its result lies beyond neither of the two trains and not beyond the resource balise;
  -- when that is the balise of the train, which is not past it, the result lies on it at an offset
  -- not above zero.
  pub next_eoa-Authority :
      IsOrdered F
      → (k : ℕ) (trains : ℕ → Position F) (next_balise : ℤ) (chemins : List (List ℤ))
        (chemin : List ℤ) (a m : ℕ)
      → let p1 = trains ((k + 1) % 3) in
        let p2 = trains ((k + 2) % 3) in
        get_elem? chemins k ≡ some chemin
        → get_elem? chemin a ≡ some (trains k).bal
        → get_elem? chemin m ≡ some next_balise
        → f.tenths (pos 0) ≼ p1.pos_r
        → f.tenths (pos 0) ≼ p2.pos_r
        → (is_before (trains k) (trains k).bal p1 ≡ true
            → is_before (trains k) (trains k).bal p2 ≡ true
            → p1.pos_r ≼ p2.pos_r)
        → (r : Position F) × (next_eoa k trains next_balise chemins ≡ some r)
          × Authority chemin next_balise (trains k) p1 p2 r
  next_eoa-Authority laws k trains next_balise chemins chemin a m e at_a at_m h1 h2 queued =
      let (i, found, i_lt, at_i) = seek_finds (trains k).bal chemin a 0 at_a in
      let (j, _, j_lt, at_j) = seek_finds next_balise chemin m 0 at_m in
      let (r, chosen, authority) =
        decide_lem laws chemin next_balise (trains k) _ _ i i_lt at_i h1 h2 j j_lt at_j queued in
      (
        r,
        next_eoa-choose k trains next_balise chemins i e (found ∙ ap some (omega arith)) at_i
            ∙ chosen,
        authority,
      )

  -- The offset of the first train is beyond the second.
  passes_second :
      {chemin : List ℤ} (current p1 p2 : Position F) (next_balise : ℤ)
      → is_before current current.bal p1 ≡ true
      → is_before current current.bal p2 ≡ true
      → f.le p1.pos_r p2.pos_r ≡ false
      → ¬ Authority chemin next_balise current p1 p2 p1
  passes_second current p1 p2 next_balise front_1 front_2 farther authority =
      let below : p1.pos_r ≼ p2.pos_r =
        authority.before_2.same_balise
          (ground (arith, ==ℤ_iff p1.bal current.bal, ==ℤ_iff p2.bal current.bal))
          (inr (ground arith)) in
      cc

  -- The exception is real: with a resource that is not on the balise of the train, both other trains in
  -- front on that balise, and the first not at or below the second, the result is an end of
  -- authority that breaks the promise.
  pub next_eoa-passes_train :
      (k : ℕ) (trains : ℕ → Position F) (next_balise : ℤ) (chemins : List (List ℤ))
      (chemin : List ℤ) (a : ℕ)
      → let p1 = trains ((k + 1) % 3) in
        let p2 = trains ((k + 2) % 3) in
        get_elem? chemins k ≡ some chemin
        → get_elem? chemin a ≡ some (trains k).bal
        → (next_balise ==ℤ (trains k).bal) ≡ false
        → is_before (trains k) (trains k).bal p1 ≡ true
        → is_before (trains k) (trains k).bal p2 ≡ true
        → f.le p1.pos_r p2.pos_r ≡ false
        → (r : Position F) × (next_eoa k trains next_balise chemins ≡ some r)
          × (¬ Authority chemin next_balise (trains k) p1 p2 r)
  unfolding choose
  next_eoa-passes_train k trains next_balise chemins chemin a e at_a elsewhere front_1 front_2
        farther =
      let current = trains k in
      let p1 = trains ((k + 1) % 3) in
      let p2 = trains ((k + 2) % 3) in
      let (i, found, i_lt, at_i) = seek_finds current.bal chemin a 0 at_a in
      (
        p1,
        next_eoa-choose k trains next_balise chemins i e (found ∙ ap some (omega arith)) at_i
            ∙ rw (elsewhere, front_1),
        λ authority. passes_second current p1 p2 next_balise front_1 front_2 farther authority,
      )
