-- ===== src/Eoa/Cases.antt =====
-- The cases of `next_eoa` of app/RBC/src/eoa_calculator.c, once the train is found on its route.
use projet_commun_unirail.Prelude.{
  ℕ, zero, suc, ◌+◌, ◌%◌, ◌<◌, ◌≡◌, ◌≢◌, refl, sym, ap, ◌∙◌, inl, inr, Bool, true, false, ◌&&◌,
  Option, some, List, ◌>>=◌, if◌then◌else◌, length, get_elem?, arith, Bool-cases,
}
use projet_commun_unirail.Prelude.Int.{ℤ, pos, ◌==ℤ◌, ==ℤ_iff}
use projet_commun_unirail.Float.{Float, ◌≼◌, IsOrdered}
use projet_commun_unirail.Track.{Position, next_index, next_index-lt, gap-le, seek}
use projet_commun_unirail.Eoa.Calculator.{is_before, objective_loop, next_eoa}
use projet_commun_unirail.Eoa.Search.{is_blocked, FoundWithin, objective_loop-Found}
use projet_commun_unirail.Eoa.Limits.{
  stop_at, FirstHit-stop_at, FirstHit-before, NotBeyond, Authority, free_of_test, min_pos_r-least,
}

module _ {F : Type 0} ⦃f : Float F⦄ where
  abbrev zero_cm : F
  zero_cm = f.tenths (pos 0)

  -- `next_eoa` once the balise of the train is found on its route.
  unfoldable pub choose :
      List ℤ → ℤ → Position F → Position F → Position F → ℕ → Option (Position F)
  choose chemin next_balise current p1 p2 i =
      if next_balise ==ℤ current.bal && f.le current.pos_r zero_cm
      then some (record { bal = next_balise; pos_r = zero_cm })
      else if is_before current current.bal p1
      then some p1
      else if is_before current current.bal p2
      then some p2
      else objective_loop (length chemin) chemin next_balise p1 p2 i

  pub next_eoa-choose :
      (k : ℕ) (trains : ℕ → Position F) (next_balise : ℤ) (chemins : List (List ℤ))
      {chemin : List ℤ} (i : ℕ)
      → get_elem? chemins k ≡ some chemin
      → seek (trains k).bal chemin 0 ≡ some i
      → get_elem? chemin i ≡ some (trains k).bal
      → next_eoa k trains next_balise chemins
        ≡ choose chemin next_balise (trains k) (trains ((k + 1) % 3)) (trains ((k + 2) % 3)) i
  unfolding next_eoa choose
  next_eoa-choose k trains next_balise chemins i e s at =
      rw (e, ◌>>=◌) (rw (s, ◌>>=◌) (rw (at, ◌>>=◌)))

  module _ (laws : IsOrdered F) (chemin : List ℤ) (next_balise : ℤ) (current p1 p2 : Position F)
      (i : ℕ) (i_lt : i < length chemin) (at_i : get_elem? chemin i ≡ some current.bal)
      (positive_1 : zero_cm ≼ p1.pos_r) (positive_2 : zero_cm ≼ p2.pos_r) where
    -- The end of authority lies on the balise of the train.
    stay :
        (r : Position F)
        → r.bal ≡ current.bal
        → (p1.bal ≡ r.bal → current.pos_r ≼ p1.pos_r → r.pos_r ≼ p1.pos_r)
        → (p2.bal ≡ r.bal → current.pos_r ≼ p2.pos_r → r.pos_r ≼ p2.pos_r)
        → (next_balise ≡ current.bal → current.pos_r ≼ zero_cm → r.pos_r ≼ zero_cm)
        → Authority chemin next_balise current p1 p2 r
    stay r same first second resource = record {
      index = i;
      here = at_i;
      sections = 0;
      sections_le = omega arith;
      stops = at_i ∙ ap some (sym same);
      before_resource = λ j p q. absurd (omega arith);
      at_resource = λ p. absurd (omega arith);
      on_resource = λ e p. (refl, resource e p);
      before_1 = not_moved p1 first;
      before_2 = not_moved p2 second;
    }
      where
        not_moved :
            (p : Position F)
            → (p.bal ≡ r.bal → current.pos_r ≼ p.pos_r → r.pos_r ≼ p.pos_r)
            → NotBeyond chemin current p i 0 r
        not_moved p h = record {
          passes = λ j p q. absurd (omega arith);
          same_balise = λ e. elim [ inl none_left ↦ absurd (omega arith) | inr front ↦ h e front ];
          leaves = λ p. absurd (omega arith);
        }

    -- The first test of `next_eoa`.
    abbrev at_the_resource : Bool
    at_the_resource = next_balise ==ℤ current.bal && f.le current.pos_r zero_cm

    passed_by :
        {P : Type 0}
        → at_the_resource ≡ false
        → next_balise ≡ current.bal
        → current.pos_r ≼ zero_cm
        → P
    passed_by onward e p = absurd (ground (arith, ==ℤ_iff next_balise current.bal))

    module _ (most : ℕ) (r : Position F) (short : most < length chemin)
        (found : FoundWithin chemin next_balise p1 p2 most i r) where
      -- No balise on the way carries an objective.
      free_at :
          (j : ℕ) {b : ℤ}
          → 0 < j
          → j < suc found.sections
          → stop_at chemin j i ≡ some b
          → (next_balise ≢ b) × (p1.bal ≢ b) × (p2.bal ≢ b)
      free_at zero p q e = absurd (omega arith)
      free_at (suc j) {b} p q e = free_of_test next_balise p1 p2 b (
          FirstHit-before chemin (is_blocked chemin next_balise p1 p2) r.bal found.sections
            (next_index chemin i) j found.first (omega arith) e)

      least :
          (next_balise ≡ r.bal → r.pos_r ≼ zero_cm)
          × (p1.bal ≡ r.bal → r.pos_r ≼ p1.pos_r)
          × (p2.bal ≡ r.bal → r.pos_r ≼ p2.pos_r)
      least = rw found.offset (
          min_pos_r-least next_balise p1 p2 r.bal laws (laws.refl_of_le _ _ positive_1).1
            (laws.refl_of_le _ _ positive_2).1)

      kept_off :
          (p : Position F)
          → ((j : ℕ) (b : ℤ)
              → 0 < j
              → j < suc found.sections
              → stop_at chemin j i ≡ some b
              → p.bal ≢ b)
          → (p.bal ≡ r.bal → r.pos_r ≼ p.pos_r)
          → is_before current current.bal p ≡ false
          → NotBeyond chemin current p i (suc found.sections) r
      kept_off p free below behind = record {
        passes = λ j lo hi e. free j p.bal lo hi e refl;
        same_balise = λ e _. below e;
        leaves = λ _ e. ground (arith, ==ℤ_iff p.bal current.bal);
      }

      -- The end of authority is what the loop found.
      run :
          at_the_resource ≡ false
          → is_before current current.bal p1 ≡ false
          → is_before current current.bal p2 ≡ false
          → Authority chemin next_balise current p1 p2 r
      run onward behind_1 behind_2 = record {
        index = i;
        here = at_i;
        sections = suc found.sections;
        sections_le = omega (arith, found.sections_le);
        stops =
            (FirstHit-stop_at chemin (is_blocked chemin next_balise p1 p2) r.bal found.sections
              (next_index chemin i) found.first).0;
        before_resource = λ j lo hi e. (free_at j lo hi e).0 refl;
        at_resource = λ _. least.0;
        on_resource = passed_by onward;
        before_1 = kept_off p1 (λ j b lo hi e. (free_at j lo hi e).1) least.1 behind_1;
        before_2 = kept_off p2 (λ j b lo hi e. (free_at j lo hi e).2) least.2 behind_2;
      }

    pub decide_lem :
        (m : ℕ)
        → m < length chemin
        → get_elem? chemin m ≡ some next_balise
        → (is_before current current.bal p1 ≡ true
            → is_before current current.bal p2 ≡ true
            → p1.pos_r ≼ p2.pos_r)
        → (r : Position F) × (choose chemin next_balise current p1 p2 i ≡ some r)
          × Authority chemin next_balise current p1 p2 r
    unfolding choose
    decide_lem m m_lt at_m queued =
        elim (Bool-cases (next_balise ==ℤ current.bal && f.le current.pos_r zero_cm)) [
          | inl resource ↦ (
            _,
            rw resource,
            stay (record { bal = next_balise; pos_r = zero_cm })
                (ground (arith, ==ℤ_iff next_balise current.bal)) (λ _ _. positive_1)
                (λ _ _. positive_2) (λ _ _. laws.tenths_refl _),
          )
          | inr onward ↦ elim (Bool-cases (is_before current current.bal p1)) [
            | inl first ↦ (
              p1,
              rw (onward, first),
              stay p1 (ground (arith, ==ℤ_iff p1.bal current.bal))
                  (λ _ _. (laws.refl_of_le _ _ positive_1).1)
                  (λ e front.
                    ground
                      (arith, ==ℤ_iff p1.bal current.bal, ==ℤ_iff p2.bal current.bal, queued first))
                  (passed_by onward),
            )
            | inr behind_1 ↦ elim (Bool-cases (is_before current current.bal p2)) [
              | inl second ↦ (
                p2,
                rw (onward, behind_1, second),
                stay p2 (ground (arith, ==ℤ_iff p2.bal current.bal))
                    (λ e front.
                      ground (arith, ==ℤ_iff p1.bal current.bal, ==ℤ_iff p2.bal current.bal))
                    (λ _ _. (laws.refl_of_le _ _ positive_2).1) (passed_by onward),
              )
              | inr behind_2 ↦
                  let within =
                    gap-le (length chemin) (next_index chemin i) m (next_index-lt chemin i i_lt)
                      m_lt in
                  let (r, loops, found) =
                    objective_loop-Found chemin next_balise p1 p2 (length chemin) i m i_lt m_lt at_m
                      within in
                  (
                    r,
                    rw (onward, behind_1, behind_2) loops,
                    run _ r within found onward behind_1 behind_2,
                  )
            ]
          ]
        ]
