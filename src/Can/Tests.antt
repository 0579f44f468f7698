-- ===== src/Can/Tests.antt =====
-- `set_all_switch` on a quiet bus and on one that fails.
use projet_commun_unirail.Prelude.{◌≡◌, refl, false, some, [], map, take, ◌==◌, arith}
use projet_commun_unirail.Can.Frames.{Bus}
use projet_commun_unirail.Can.Switches.{command_aig_t3_r5, command_aig_t1_r1, set_all_switch}
use projet_commun_unirail.Can.Orders.{
  position_frame, after, set_all_switch_complete, set_all_switch_stops,
}

abbrev fresh : Bus
fresh = record { sent = []; writes = 0 }

set_all_switch_complete_example :
    set_all_switch (λ _. false) 0 1 fresh
    ≡ some (0, after fresh (map position_frame command_aig_t1_r1) 2)
set_all_switch_complete_example =
    set_all_switch_complete (λ _. false) 0 1 command_aig_t1_r1 fresh refl (λ j p. refl)

set_all_switch_stops_example :
    set_all_switch (λ n. n == 1) 2 0 fresh
    ≡ some (1, after fresh (take 1 (map position_frame command_aig_t3_r5)) 2)
set_all_switch_stops_example =
    set_all_switch_stops (λ n. n == 1) 2 0 1 command_aig_t3_r5 fresh refl (omega arith)
      (λ j p. ground arith) refl
