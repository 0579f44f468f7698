-- ===== src/Evc/LoopTests.antt =====
-- The loop of a train at concrete values, over exact tenths.
use projet_commun_unirail.Prelude.{ℕ, ◌≡◌, refl, Option, none, some, List, [], ◌∷◌, Returns, arith}
use projet_commun_unirail.Prelude.Int.{pos, negsuc, ◌-ℤ◌, ◌*ℤ◌, ◌+ℤ◌}
use projet_commun_unirail.Float.{Tenths, tenths_float}
use projet_commun_unirail.Can.{CanFrame, send_can_data}
use projet_commun_unirail.Track.{
  seek, get_distance, distance_loop, section_length, find_arc, is_behind,
}
use projet_commun_unirail.Comm.{tenths_text}
use projet_commun_unirail.Evc.Speed.{
  mc_consigne_vitesse, read_speed_from_frame, read_relative_pos_from_frame, compute_new_speed,
  limit_next, limit_last, limit_of, get_limit_speed,
}
use projet_commun_unirail.Evc.Loop.{
  init_train, pass_balise, measure, order_speed, report_frame, boucle_round,
}
use projet_commun_unirail.Evc.TenthsMath.{tenths_math}
use projet_commun_unirail.Evc.Samples.{quiet, no_fault, zeros, at, driving}
use projet_commun_unirail.Evc.Drive.{Driven}
use projet_commun_unirail.Evc.Tours.{boucle, tours, boucle-tours, boucle_round-Driven}
use projet_commun_unirail.Evc.Bytes.{
  ordered_speed, mc_consigne_vitesse-ordered_speed, Found, init_train-Found,
}

abbrev balise_frame : ℕ → CanFrame
balise_frame bal = record {
  can_id = 0x30;
  can_dlc = 8;
  bytes = 0 ∷ 0 ∷ 0 ∷ 0 ∷ 0 ∷ bal ∷ 0 ∷ 0 ∷ [];
}

abbrev speed_frame : ℕ → CanFrame
speed_frame speed = record {
  can_id = 0x2f;
  can_dlc = 8;
  bytes = 0 ∷ speed ∷ 0 ∷ 0 ∷ 0 ∷ 0 ∷ 0 ∷ 0 ∷ [];
}

-- Balise 1 twice, which ends one tour.
abbrev lap : List (Option CanFrame × Tenths)
lap =
    (some (balise_frame 1), some (pos 0))
    ∷ (none, some (pos 0))
    ∷ (some (balise_frame 1), some (pos 0))
    ∷ []

boucle-lap : Returns (boucle tenths_math no_fault zeros (pos 1) (pos 1) lap driving)
unfolding boucle boucle_round pass_balise
boucle-lap = (_, refl)

boucle-tours_example :
    boucle-lap.0.mission ≡ pos 2 -ℤ pos (tours (pos 1) (pos 9) (pos 1 ∷ pos 1 ∷ []))
boucle-tours_example =
    boucle-tours tenths_math no_fault zeros (pos 1) (pos 1) lap driving boucle-lap.0 boucle-lap.1

boucle_round-report : Returns (
    boucle_round tenths_math no_fault zeros
      (pos 1)
      (pos 1)
      (some (speed_frame 20))
      (some (pos 5))
      driving)
unfolding boucle_round report_frame read_relative_pos_from_frame read_speed_from_frame measure
    order_speed get_distance distance_loop section_length seek find_arc is_behind get_limit_speed
    limit_of limit_next limit_last compute_new_speed mc_consigne_vitesse send_can_data ◌-ℤ◌ ◌*ℤ◌
    ◌+ℤ◌
boucle_round-report = (_, refl)

boucle_round-Driven_example :
    Driven tenths_math no_fault zeros (pos 1) (pos 1) (speed_frame 20) driving boucle_round-report.0
boucle_round-Driven_example =
    boucle_round-Driven tenths_math no_fault zeros (pos 1) (pos 1) (speed_frame 20) (some (pos 5))
      driving boucle_round-report.0 refl boucle_round-report.1

mc_consigne_vitesse-ordered_speed_example :
    (frame : CanFrame) × (mc_consigne_vitesse no_fault zeros (negsuc 19) quiet
      ≡ (0, record { sent = frame ∷ []; writes = 1 }))
    × (frame.can_id ≡ 0x17)
    × (frame.can_dlc ≡ 2)
    × (ordered_speed frame ≡ some (negsuc 19))
mc_consigne_vitesse-ordered_speed_example =
    mc_consigne_vitesse-ordered_speed no_fault zeros (negsuc 19) quiet refl (omega arith)

-- Balise 0, a speed, then balise 12.
abbrev first_reads : List (Option CanFrame)
first_reads = some (balise_frame 0) ∷ some (speed_frame 20) ∷ some (balise_frame 12) ∷ []

init_train-reads : init_train first_reads ≡ some 12
unfolding init_train
init_train-reads = refl

init_train-Found_example : Found first_reads 12
init_train-Found_example = init_train-Found first_reads 12 init_train-reads

-- After balise 12 of route 1 the limit goes from 30 to 40: it is 40 at the balise and 30 at 349.9.
limit_at_balise : get_limit_speed tenths_math (at (pos 12) (pos 0)) (pos 1) ≡ some (pos 40)
unfolding get_limit_speed limit_of limit_last seek find_arc ◌-ℤ◌ ◌*ℤ◌ ◌+ℤ◌
limit_at_balise = refl

limit_further : get_limit_speed tenths_math (at (pos 12) (pos 3_499)) (pos 1) ≡ some (pos 30)
unfolding get_limit_speed limit_of limit_last seek find_arc ◌-ℤ◌ ◌*ℤ◌ ◌+ℤ◌
limit_further = refl
