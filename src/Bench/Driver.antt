-- ===== src/Bench/Driver.antt =====
-- TestCanLinux/CAN/canLinux.c: the queues of messages to send, the thread that sends them, and the
-- reception. The socket is outside: `fails n` says whether its write number `n` does not take the
-- whole frame. A section under the lock is one step.
pub mod Line
pub mod Order
pub mod Transmit
pub mod Close
use projet_commun_unirail.Prelude.{
  ℕ, zero, suc, ◌+◌, ◌-◌, ◌%◌, ◌^◌, Bool, true, false, not, ◌&&◌, ◌||◌, Option, none, some, List,
  [], ◌∷◌, ◌++◌, ◌>>=◌, if◌then◌else◌, ltb, ◌==◌, bit_and, bit_or,
}
use projet_commun_unirail.Can.{CanFrame, Bus}
use projet_commun_unirail.Bench.Message.{Can1Msg, can1_msg_data, can1_msg_rtr, can1_frame_ext}
use projet_commun_unirail.Bench.Copies.{overwrite}
use projet_commun_unirail.Bench.Fifo.{Fifo, init_fifo, is_file_vide, enfiler, defiler}

-- `CANLINUX_TX_PRIOIRTY`.
pub data Priority : Type 0 where
  priority_high : Priority
  priority_medium : Priority
  priority_low : Priority
  priority_none : Priority

-- `CanBufferPrio`, without the descriptor of the socket.
pub record CanBufferPrio : Type 0 where
  pub file_high : Fifo
  pub file_medium : Fifo
  pub file_low : Fifo
  pub file_none : Fifo
  pub running : Bool

-- The global variables, the variables of `task_send` and the bus. `locked` is `fifo_can_lock`.
pub record Driver : Type 0 where
  pub buffer : CanBufferPrio
  pub locked : Bool
  pub frame_t : CanFrame
  pub resend : Bool
  pub send_can_msg : Can1Msg
  pub bus : Bus

-- The flags of linux/can.h.
abbrev pub can_eff_flag : ℕ
can_eff_flag = 0x8000_0000

abbrev pub can_rtr_flag : ℕ
can_rtr_flag = 0x4000_0000

abbrev pub can_sff_mask : ℕ
can_sff_mask = 0x7ff

abbrev pub can_eff_mask : ℕ
can_eff_mask = 0x1fff_ffff

-- A call of `write`: whether it took the frame.
unfoldable pub write_frame : (ℕ → Bool) → CanFrame → Bus → Bool × Bus
write_frame fails frame bus =
    if fails bus.writes
    then (false, record bus { writes = bus.writes + 1 })
    else (true, record { sent = bus.sent ++ frame ∷ []; writes = bus.writes + 1 })

-- The message of the first queue that is not empty, the most urgent first.
unfoldable pub next_message : CanBufferPrio → Can1Msg → Option (CanBufferPrio × Can1Msg)
next_message b m =
    if not (is_file_vide b.file_high)
    then (defiler b.file_high m >>= λ r. some (record b { file_high = r.1 }, r.2))
    else if not (is_file_vide b.file_medium)
    then (defiler b.file_medium m >>= λ r. some (record b { file_medium = r.1 }, r.2))
    else if not (is_file_vide b.file_low)
    then (defiler b.file_low m >>= λ r. some (record b { file_low = r.1 }, r.2))
    else if not (is_file_vide b.file_none)
    then (defiler b.file_none m >>= λ r. some (record b { file_none = r.1 }, r.2))
    else some (b, m)

-- The identifier with its flag. The code compares the type of the identifier with `CAN1_MSG_RTR`.
abbrev pub can_id_of : Can1Msg → ℕ
can_id_of m =
    if can1_msg_rtr == m.id_type
    then bit_or m.id can_rtr_flag
    else if can1_frame_ext == m.id_type
    then bit_or m.id can_eff_flag
    else m.id

-- The message into the frame, whose other data stay.
unfoldable pub fill_frame : Can1Msg → CanFrame → Option CanFrame
fill_frame m frame = do
  bytes ← overwrite m.dlc m.bytes frame.bytes
  some (record { can_id = can_id_of m; can_dlc = m.dlc; bytes = bytes })

unfoldable pub all_vide : CanBufferPrio → Bool
all_vide b =
    is_file_vide b.file_high
    && is_file_vide b.file_medium
    && is_file_vide b.file_low
    && is_file_vide b.file_none

-- A round of `task_send`, between its two pauses, at a free lock.
unfoldable pub task_send : (ℕ → Bool) → Driver → Option Driver
task_send fails d =
    let again = write_frame fails d.frame_t d.bus in
    if d.resend
    then some (record d { locked = false; resend = not again.0; bus = again.1 })
    else if all_vide d.buffer
    then some (record d { locked = false })
    else (next_message d.buffer d.send_can_msg >>= λ taken.
        fill_frame taken.1 d.frame_t >>= λ frame.
        let written = write_frame fails frame d.bus in
        some (record {
          buffer = taken.0;
          locked = false;
          frame_t = frame;
          resend = not written.0;
          send_can_msg = taken.1;
          bus = written.1;
        }))

-- `canLinux_init_prio`, without the calls on the socket and the start of the thread.
unfoldable pub can_linux_init_prio : CanBufferPrio → CanBufferPrio
can_linux_init_prio b = if b.running then b else record {
  file_high = init_fifo b.file_high;
  file_medium = init_fifo b.file_medium;
  file_low = init_fifo b.file_low;
  file_none = init_fifo b.file_none;
  running = true;
}

-- The message into the queue of its priority.
unfoldable pub enqueue : Priority → Can1Msg → CanBufferPrio → Bool × CanBufferPrio
enqueue priority_high m b = let r = enfiler b.file_high m in (r.0, record b { file_high = r.1 })
enqueue priority_medium m b =
    let r = enfiler b.file_medium m in (r.0, record b { file_medium = r.1 })
enqueue priority_low m b = let r = enfiler b.file_low m in (r.0, record b { file_low = r.1 })
enqueue priority_none m b = let r = enfiler b.file_none m in (r.0, record b { file_none = r.1 })

-- `canLinux_transmit`. At a lock that another thread holds it stores nothing; it unlocks in any case.
unfoldable pub can_linux_transmit : Priority → Can1Msg → Driver → Bool × Driver
can_linux_transmit priority m d =
    let r = enqueue priority m d.buffer in
    if not d.locked && d.buffer.running
    then (r.0, record d { buffer = r.1; locked = false })
    else (false, record d { locked = false })

-- The rounds of `task_send` while another thread sleeps.
unfoldable pub rounds : (ℕ → Bool) → ℕ → Driver → Option Driver
rounds fails zero d = some d
rounds fails (suc n) d = task_send fails d >>= rounds fails n

-- The waiting loop of `canLinux_close`: `pauses i` are the rounds of `task_send` during its pause `i`.
-- `none` also means that the fuel was not enough.
unfoldable pub close_loop : (ℕ → Bool) → (ℕ → ℕ) → ℕ → ℕ → Driver → Option Driver
close_loop fails pauses zero i d = none
close_loop fails pauses (suc fuel) i d = elim (all_vide d.buffer) [
  | true ↦ some d
  | false ↦ rounds fails (pauses i) d >>= close_loop fails pauses fuel (i + 1)
]

-- `canLinux_close`. On a driver that is not running it leaves the lock taken; otherwise the thread
-- is stopped after the loop and the lock is destroyed.
unfoldable pub can_linux_close : (ℕ → Bool) → (ℕ → ℕ) → ℕ → Driver → Option Driver
can_linux_close fails pauses fuel d =
    if d.buffer.running
    then close_loop fails pauses fuel 0 (record d { buffer = record d.buffer { running = false } })
    else some (record d { locked = true })
