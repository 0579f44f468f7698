-- ===== src/Bench/DriverTests.antt =====
-- The theorems on the driver at concrete inputs.
use mathlib.Core.Path.{subst}
use mathlib.Core.Option.{some-injective}
use projet_commun_unirail.Prelude.{
  ℕ, zero, suc, ◌+◌, ◌%◌, ◌≡◌, refl, true, false, Option, none, some, List, [], ◌∷◌, ◌++◌, map,
  ◌>>=◌, ◌==◌, arith, Returns, length,
}
use projet_commun_unirail.Can.{CanFrame}
use projet_commun_unirail.Bench.Message.{Can1Msg}
use projet_commun_unirail.Bench.Copies.{overwrite}
use projet_commun_unirail.Bench.Fifo.{Fifo, is_file_vide}
use projet_commun_unirail.Bench.Driver.{
  priority_low, CanBufferPrio, Driver, task_send, can_linux_transmit, can_linux_close, close_loop,
  all_vide, fill_frame,
}
use projet_commun_unirail.Bench.Driver.Line.{frame_view, queued, IsDriver, sent, waiting, pending}
use projet_commun_unirail.Bench.Driver.Order.{Round, task_send-Round}
use projet_commun_unirail.Bench.Driver.Transmit.{within, file_of, has_room, can_linux_transmit_lem}
use projet_commun_unirail.Bench.Driver.Close.{can_linux_close_ends}
use projet_commun_unirail.Bench.Reception.{read_into, can_linux_receive}
use projet_commun_unirail.Bench.Reception.Timeout.{first_read, outcome, can_linux_receive_ends}
use projet_commun_unirail.Bench.Reception.Wire.{Arrives, read_into-fill_frame}

abbrev message : ℕ → Can1Msg
message i = record {
  id = i;
  id_type = 4;
  msgtype = 1;
  dlc = 3;
  bytes = 1 ∷ 2 ∷ 3 ∷ 4 ∷ 5 ∷ 6 ∷ 7 ∷ 8 ∷ 9 ∷ [];
}

abbrev fifo : ℕ → ℕ → Fifo
fifo tete n = record { tete = tete; queue = (tete + n) % 20; nb_transaction = n; values = message }

abbrev buffer : CanBufferPrio
buffer = record {
  file_high = fifo 0 0;
  file_medium = fifo 3 2;
  file_low = fifo 19 1;
  file_none = fifo 7 0;
  running = true;
}

abbrev zeros : List ℕ
zeros = 0 ∷ 0 ∷ 0 ∷ 0 ∷ 0 ∷ 0 ∷ 0 ∷ 0 ∷ []

-- A frame has failed, and three messages wait.
abbrev driver : Driver
driver = record {
  buffer = buffer;
  locked = false;
  frame_t = record { can_id = 9; can_dlc = 1; bytes = zeros };
  resend = true;
  send_can_msg = message 9;
  bus = record { sent = []; writes = 4 };
}

driver-IsDriver : IsDriver driver
driver-IsDriver = record {
  buffers = record {
    high = omega arith;
    medium = omega arith;
    low = omega arith;
    rest = omega arith;
    short = omega arith;
  };
  frame = refl;
  array = refl;
}

task_send-Round_example :
    (d' : Driver) × (task_send (λ n. n == 4) driver ≡ some d') × Round (λ n. n == 4) driver d'
task_send-Round_example = task_send-Round (λ n. n == 4) driver driver-IsDriver

can_linux_transmit_lem_example :
    let (answer, d') = can_linux_transmit priority_low (message 5) driver in
    (answer ≡ true)
    × (pending d'
        ≡ waiting driver ++ map frame_view (message 3 ∷ message 4 ∷ message 19 ∷ message 5 ∷ []))
    × (sent d' ≡ [])
    × (d'.locked ≡ false)
    × IsDriver d'
unfolding has_room file_of within
can_linux_transmit_lem_example =
    can_linux_transmit_lem priority_low (message 5) driver driver-IsDriver refl (omega arith)

can_linux_close_ends_example :
    (d' : Driver) × (can_linux_close (λ n. false) (λ k. 2) 5 driver ≡ some d')
    × (queued d'.buffer ≡ [])
    × (sent d' ++ waiting d' ≡ pending driver)
    × (d'.buffer.running ≡ false)
can_linux_close_ends_example =
    can_linux_close_ends (λ n. false) (λ k. 2) 5 driver (λ n. refl) (λ k. omega arith) (omega arith)
      refl driver-IsDriver

-- The second attempt reads a frame.
abbrev reads : ℕ → Option CanFrame
reads zero = none
reads (suc zero) = some (record { can_id = 0x123; can_dlc = 2; bytes = zeros })
reads (suc (suc i)) = none

reads-bytes : (k : ℕ) (f : CanFrame) → reads k ≡ some f → length f.bytes ≡ 8
reads-bytes zero f e = cc
reads-bytes (suc zero) f e =
    subst (λ (g : CanFrame). length g.bytes ≡ 8) (some-injective _ _ e) refl
reads-bytes (suc (suc i)) f e = cc

can_linux_receive_ends_example :
    (can_linux_receive reads (λ k. 1000 + k) 3 2 (message 0)
      ≡ outcome (first_read reads 2 0) (message 0))
    × Returns (can_linux_receive reads (λ k. 1000 + k) 3 2 (message 0))
can_linux_receive_ends_example =
    can_linux_receive_ends reads (λ k. 1000 + k) 2 3 2 (message 0) (omega arith)
      (λ k h. omega arith) (omega arith) reads-bytes refl

read_into-fill_frame_example :
    (wire : CanFrame) × (after : Can1Msg) × (fill_frame
        (record (message 0x1234567) { id_type = 3 })
        (driver.frame_t)
      ≡ some wire)
    × (read_into wire (message 0) ≡ some after)
    × Arrives (record (message 0x1234567) { id_type = 3 }) 3 (message 0) after
read_into-fill_frame_example =
    read_into-fill_frame (record (message 0x1234567) { id_type = 3 }) true (driver.frame_t)
      (message 0) refl (omega arith) (omega arith) refl refl refl

-- A message of the kind `CAN1_MSG_RTR` leaves as a frame of data.
rtr_lost :
    (fill_frame (record (message 5) { msgtype = 2 }) (driver.frame_t) >>= λ f. some f.can_id)
    ≡ some 5
unfolding fill_frame overwrite
rtr_lost = refl

-- A driver whose queues are empty is closed although a frame waits for another attempt.
closed_with_a_frame :
    (can_linux_close
        (λ n. false)
        (λ k. 1)
        1
        (record driver { buffer = record buffer { file_medium = fifo 3 0; file_low = fifo 4 0 } })
      >>= λ d. some d.resend)
    ≡ some true
unfolding can_linux_close close_loop all_vide is_file_vide
closed_with_a_frame = refl

-- Closing a driver that does not run leaves the lock taken.
closed_twice :
    (can_linux_close
        (λ n. false)
        (λ k. 1)
        1
        (record driver { buffer = record buffer { running = false } })
      >>= λ d. some d.locked)
    ≡ some true
unfolding can_linux_close
closed_twice = refl
