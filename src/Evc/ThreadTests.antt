-- ===== src/Evc/ThreadTests.antt =====
-- The threads of a train from their start to its first drive, at concrete values: app/EVC/src/main.c
-- and the threads that it starts.
use projet_commun_unirail.Prelude.{◌≡◌, refl, true, false, none, some, [], ◌∷◌}
use projet_commun_unirail.Prelude.Int.{pos, negsuc, ◌*ℤ◌}
use projet_commun_unirail.Float.{Tenths, tenths_float}
use projet_commun_unirail.Comm.{
  Message, tenths_text, strtol, read_signed, read_nat, read_digits, skip_spaces, read_signed_tenths,
  read_tenths, first_decimal, after_digits,
}
use projet_commun_unirail.Evc.Loop.{Train, report_frame, init_train, begin_loop, boucle_round}
use projet_commun_unirail.Evc.Speed.{
  mc_consigne_vitesse, read_relative_pos_from_frame, read_speed_from_frame,
}
use projet_commun_unirail.Evc.Standstill.{start_threads}
use projet_commun_unirail.Evc.History.{InSequence, HasAck, HasAsk, start_threads-InSequence}
use projet_commun_unirail.Can.{CanFrame, Bus}
use projet_commun_unirail.Evc.TenthsMath.{tenths_math}
use projet_commun_unirail.Evc.Samples.{quiet, no_fault, zeros, at}
use projet_commun_unirail.Evc.Thresholds.{
  start_handler, EoaHandler, wants_request, update_distance, eoa_round, read_eoa, finish_init,
}
use projet_commun_unirail.Evc.Startup.{
  Threads, ThreadReach, here, later, acknowledged, asked, drove,
}
use projet_commun_unirail.Evc.Position.{acknowledge}

-- The first request 102, and the answer to a position.
abbrev request : Message
request = record { req_id = pos 4; train_id = pos 1; code = pos 102; data_0 = none; data_1 = none }

abbrev answer : Message
answer = record request { code = pos 201 }

-- Balise 4 is the first; then the first position is acknowledged, and a read of the loop fails.
abbrev balise_4 : CanFrame
balise_4 = record { can_id = 0x30; can_dlc = 8; bytes = 0 ∷ 0 ∷ 0 ∷ 0 ∷ 0 ∷ 4 ∷ 0 ∷ 0 ∷ [] }

abbrev orders : Bus
orders =
    (mc_consigne_vitesse no_fault zeros (pos 0)
      (mc_consigne_vitesse no_fault zeros (pos 20) quiet).1).1

abbrev threads : Threads Tenths Tenths
threads = record {
  reporter = record { initialized = false; pos_initialized = false };
  handler = start_handler (at (negsuc 0) (pos 0)) (some (pos 0));
  train = record {
    pos_current = at (pos 4) (pos 0);
    last_balise = pos 4;
    initialized = false;
    local_mission = pos 0;
    retenue_sur_vitesse = some (pos 0);
    dist_eoa = some (pos 0);
    dist_start = some (pos 0);
    position = at (pos 0) (pos 0);
    eoa = at (negsuc 0) (pos 0);
    mission = pos 0;
    bus = orders;
  };
}

threads_started :
    start_threads no_fault zeros
      (some balise_4 ∷ [])
      (some (pos 0))
      (some (pos 0))
      (some (pos 0))
      (pos 0)
      quiet
    ≡ some threads
unfolding start_threads begin_loop init_train
threads_started = refl

-- Balise 9 is granted, 35 behind it.
abbrev granted : Message
granted = record request {
  req_id = pos 1;
  code = pos 202;
  data_0 = some (b'9' ∷ []);
  data_1 = some (b'3' ∷ b'5' ∷ []);
}

abbrev asked_handler : EoaHandler Tenths Tenths
asked_handler = record threads.handler {
  request_new_eoa = false;
  last_distance_triggered = some (pos 0);
}

abbrev told_handler : EoaHandler Tenths Tenths
told_handler = record asked_handler {
  eoa = at (pos 9) (pos 350);
  initialized = true;
  eoa_initialized = true;
}

abbrev standstill : CanFrame
standstill = record { can_id = 0x2f; can_dlc = 8; bytes = 0 ∷ 0 ∷ 0 ∷ 0 ∷ 0 ∷ 0 ∷ 0 ∷ 0 ∷ [] }

abbrev ready : Train Tenths Tenths
ready = record threads.train {
  initialized = true;
  position = at (pos 4) (pos 0);
  eoa = at (pos 9) (pos 350);
}

-- The first position is acknowledged, the end of authority asked for and read, and the loop starts.
abbrev on_the_way : Threads Tenths Tenths
on_the_way = record {
  reporter = record { initialized = true; pos_initialized = true };
  handler = told_handler;
  train = ready;
}

abbrev TrainPath : Threads Tenths Tenths → Threads Tenths Tenths → Type 0
TrainPath = ThreadReach tenths_math no_fault zeros (pos 1) (pos 1) (pos 1)

path : TrainPath threads on_the_way
unfolding acknowledge boucle_round report_frame read_relative_pos_from_frame read_speed_from_frame
    eoa_round update_distance wants_request read_eoa finish_init strtol read_signed read_nat
    read_digits skip_spaces read_signed_tenths read_tenths first_decimal after_digits ◌*ℤ◌
path =
    later
      (later (later here (acknowledged answer)) (
        asked (pos 1) (at (pos 4) (pos 0)) (record request { req_id = pos 1 }) granted asked_handler
          told_handler refl refl refl))
      (drove (some standstill) (some (pos 0)) ready (λ frame e kind first. refl) refl)

start_threads-InSequence_example :
    InSequence tenths_math no_fault zeros (pos 1) (pos 1) (pos 1) path
    × (true ≡ true → HasAck tenths_math no_fault zeros (pos 1) (pos 1) (pos 1) path)
    × (true ≡ true → HasAsk tenths_math no_fault zeros (pos 1) (pos 1) (pos 1) path)
    × (true ≡ true → true ≡ true)
    × (true ≡ false → orders ≡ orders)
start_threads-InSequence_example =
    start_threads-InSequence tenths_math no_fault zeros (pos 1) (pos 1) (pos 1) (some balise_4 ∷ [])
      (some (pos 0)) (some (pos 0)) (some (pos 0)) (pos 0) quiet threads on_the_way threads_started
      path
