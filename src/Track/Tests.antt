-- ===== src/Track/Tests.antt =====
-- `get_distance` on concrete positions, with offsets in tenths.
use projet_commun_unirail.Prelude.{ℕ, ◌≡◌, refl, some, none}
use projet_commun_unirail.Prelude.Int.{ℤ, pos, negsuc, ◌+ℤ◌, ◌-ℤ◌}
use projet_commun_unirail.Float.{Tenths, tenths_float}
use projet_commun_unirail.Track.Tables.{Position, chemin3}
use projet_commun_unirail.Track.Distance.{get_distance}
use projet_commun_unirail.Track.Total.{Journey, get_distance-Journey}

abbrev at : ℤ → ℕ → Position Tenths
at bal tenths = record { bal = bal; pos_r = some (pos tenths) }

-- Sections 9-1 and 1-2 lie between balises 9 and 2 of the first route.
across_start : get_distance (at (pos 9) 100) (at (pos 2) 40) (pos 1) ≡ some (some (pos 44500))
unfolding get_distance ◌+ℤ◌ ◌-ℤ◌
across_start = refl

-- 5 cm past the destination is within the margin, 60 cm past it asks for a whole tour.
within_margin : get_distance (at (pos 1) 250) (at (pos 1) 200) (pos 1) ≡ some (some (negsuc 49))
unfolding get_distance ◌+ℤ◌ ◌-ℤ◌
within_margin = refl

unknown_balise : get_distance (at (pos 99) 0) (at (pos 1) 0) (pos 1) ≡ none
unfolding get_distance
unknown_balise = refl

get_distance-Journey_example :
    Journey chemin3
      (at (pos 22) 0)
      (at (pos 9) 0)
      (get_distance (at (pos 22) 0) (at (pos 9) 0) (pos 3))
get_distance-Journey_example =
    get_distance-Journey 2 chemin3 (at (pos 22) 0) (at (pos 9) 0) 0 15 refl refl refl
