-- ===== src/Evc/Samples.antt =====
-- A train of route 1 with an empty bus that never fails.
use projet_commun_unirail.Prelude.{ℕ, Bool, true, false, some, List, [], ◌∷◌}
use projet_commun_unirail.Prelude.Int.{ℤ, pos}
use projet_commun_unirail.Float.{Tenths, tenths_float}
use projet_commun_unirail.Can.{Bus}
use projet_commun_unirail.Track.{Position}
use projet_commun_unirail.Comm.{tenths_text}
use projet_commun_unirail.Evc.Loop.{Train}

abbrev pub quiet : Bus
quiet = record { sent = []; writes = 0 }

abbrev pub no_fault : ℕ → Bool
no_fault _ = false

abbrev pub zeros : List ℤ
zeros = pos 0 ∷ pos 0 ∷ pos 0 ∷ pos 0 ∷ pos 0 ∷ pos 0 ∷ []

abbrev pub at : ℤ → ℤ → Position Tenths
at bal tenths = record { bal = bal; pos_r = some tenths }

-- Train 1, with the first round done and an end of authority 10 cm past balise 3.
abbrev pub driving : Train Tenths Tenths
driving = record {
  pos_current = at (pos 9) (pos 0);
  last_balise = pos 9;
  initialized = true;
  local_mission = pos 2;
  retenue_sur_vitesse = some (pos 300);
  dist_eoa = some (pos 0);
  dist_start = some (pos 0);
  position = at (pos 9) (pos 0);
  eoa = at (pos 3) (pos 100);
  mission = pos 2;
  bus = quiet;
}
