-- ===== src/Eoa/Tests.antt =====
-- `next_eoa` on concrete positions, with offsets in tenths.
use projet_commun_unirail.Prelude.{ℕ, zero, suc, ◌≡◌, refl, some, arith}
use projet_commun_unirail.Prelude.Int.{ℤ, pos}
use projet_commun_unirail.Float.{Tenths, tenths_float, Tenths-IsOrdered}
use projet_commun_unirail.Track.{Position, chemins, chemin1, seek}
use projet_commun_unirail.Eoa.Calculator.{next_eoa, objective_loop, any_set, min_pos_r}
use projet_commun_unirail.Eoa.Limits.{Authority}
use projet_commun_unirail.Eoa.Safety.{next_eoa-Authority, next_eoa-passes_train}

abbrev at : ℤ → ℕ → Position Tenths
at bal tenths = record { bal = bal; pos_r = some (pos tenths) }

-- Train 0 at balise 1; train 1 at balise 2, train 2 at balise 12.
abbrev apart : ℕ → Position Tenths
apart zero = at (pos 1) 100
apart (suc zero) = at (pos 2) 40
apart _ = at (pos 12) 0

-- All on balise 1, train 2 in front of train 0 and train 1 in front of both.
abbrev queue : ℕ → Position Tenths
queue zero = at (pos 1) 100
queue (suc zero) = at (pos 1) 9000
queue _ = at (pos 1) 500

stops_behind_train : next_eoa 0 apart (pos 3) chemins ≡ some (at (pos 2) 40)
unfolding next_eoa objective_loop any_set min_pos_r seek
stops_behind_train = refl

stops_at_resource : next_eoa 2 apart (pos 9) chemins ≡ some (at (pos 9) 0)
unfolding next_eoa objective_loop any_set min_pos_r seek
stops_at_resource = refl

next_eoa-Authority_example :
    (r : Position Tenths) × (next_eoa 0 apart (pos 3) chemins ≡ some r)
    × Authority chemin1 (pos 3) (at (pos 1) 100) (at (pos 2) 40) (at (pos 12) 0) r
next_eoa-Authority_example =
    next_eoa-Authority Tenths-IsOrdered 0 apart (pos 3) chemins chemin1 0 2 refl refl refl refl refl
      (λ p q. ground arith)

next_eoa-passes_train_example :
    (r : Position Tenths) × (next_eoa 0 queue (pos 3) chemins ≡ some r)
    × (¬ Authority chemin1 (pos 3) (at (pos 1) 100) (at (pos 1) 9000) (at (pos 1) 500) r)
next_eoa-passes_train_example =
    next_eoa-passes_train 0 queue (pos 3) chemins chemin1 0 refl refl refl refl refl refl
