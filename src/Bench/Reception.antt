-- ===== src/Bench/Reception.antt =====
-- TestCanLinux/CAN/canLinux.c: frames that are read from the bus, and the deprecated functions on a
-- socket. The socket and the clock are outside: `reads i` is what attempt `i` to read gives, none for
-- less than a frame, and `clock i` is its reading number `i` in milliseconds.
pub mod Wire
pub mod Timeout
use projet_commun_unirail.Prelude.{
  ℕ, zero, suc, ◌+◌, ◌-◌, ◌%◌, ◌^◌, Bool, true, false, not, Option, none, some, List, [], ◌∷◌,
  ◌>>=◌, if◌then◌else◌, ltb, ◌==◌, bit_and,
}
use projet_commun_unirail.Can.{CanFrame, Bus}
use projet_commun_unirail.Bench.Message.{Can1Msg, can1_msg_data, can1_msg_rtr, can1_frame_ext}
use projet_commun_unirail.Bench.Copies.{overwrite}
use projet_commun_unirail.Bench.Driver.{
  can_eff_flag, can_rtr_flag, can_sff_mask, can_eff_mask, write_frame,
}

-- A flag of an identifier.
abbrev pub has_flag : ℕ → ℕ → Bool
has_flag can_id flag = not (bit_and can_id flag == 0)

-- What a frame that was read puts into the message of the caller. The type of the identifier stays.
unfoldable pub read_into : CanFrame → Can1Msg → Option Can1Msg
read_into frame m = do
  bytes ← overwrite 8 frame.bytes m.bytes
  some (record m {
    msgtype =
        if has_flag frame.can_id can_rtr_flag
        then can1_msg_rtr
        else if has_flag frame.can_id can_eff_flag
        then can1_frame_ext
        else can1_msg_data;
    id =
        bit_and frame.can_id
          (if has_flag frame.can_id can_eff_flag then can_eff_mask else can_sff_mask);
    dlc = frame.can_dlc;
    bytes = bytes;
  })

-- `ECAN1_receive`.
unfoldable pub ecan1_receive : Option CanFrame → Can1Msg → Option (Bool × Can1Msg)
ecan1_receive none m = some (false, m)
ecan1_receive (some frame) m = read_into frame m >>= λ m'. some (true, m')

-- `ECAN1_transmit`. It does not set the identifier of its frame, a local variable: `unset`.
unfoldable pub ecan1_transmit : (ℕ → Bool) → CanFrame → Can1Msg → Bus → Option (Bool × Bus)
ecan1_transmit fails unset m bus = do
  bytes ← overwrite 8 m.bytes unset.bytes
  some (write_frame fails (record unset { can_dlc = m.dlc; bytes = bytes }) bus)

-- The difference of two readings, on 64 bits.
abbrev pub elapsed : ℕ → ℕ → ℕ
elapsed ms ms2 = (ms2 + 2 ^ 64 - ms) % 2 ^ 64

-- `none` means that the fuel was not enough, or a fault.
unfoldable pub receive_loop :
    (ℕ → Option CanFrame) → (ℕ → ℕ) → ℕ → ℕ → ℕ → ℕ → ℕ → Can1Msg → Option (Bool × Can1Msg)
receive_loop reads clock zero i ms ms2 time_out m = none
receive_loop reads clock (suc fuel) i ms ms2 time_out m = elim (ltb (elapsed ms ms2) time_out) [
  | true ↦ elim (reads i) [
    | some frame ↦ read_into frame m >>= λ m'. some (true, m')
    | none ↦ receive_loop reads clock fuel (i + 1) ms (clock (i + 1)) time_out m
  ]
  | false ↦ some (false, m)
]

unfoldable pub can_linux_receive :
    (ℕ → Option CanFrame) → (ℕ → ℕ) → ℕ → ℕ → Can1Msg → Option (Bool × Can1Msg)
can_linux_receive reads clock fuel time_out m =
    receive_loop reads clock fuel 0 (clock 0) (clock 0) time_out m
