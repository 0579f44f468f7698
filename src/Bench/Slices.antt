-- ===== src/Bench/Slices.antt =====
-- TestCanLinux/CAN/MESCAN1_Utilitaire.c: long messages that are cut into frames and put together
-- again. An array of the caller is a function of the index. The static variables of a function are
-- a record, or a number, that it takes and returns.
pub mod Cut
pub mod Masks
pub mod Sums
pub mod Gather
pub mod Join
pub mod Bounds
use projet_commun_unirail.Prelude.{
  ℕ, zero, suc, ◌+◌, ◌-◌, ◌*◌, ◌/◌, ◌%◌, ◌^◌, ◌≤◌, ◌<◌, Bool, true, false, ◌&&◌, ◌||◌, Option, none,
  some, List, [], ◌∷◌, ◌>>=◌, if◌then◌else◌, ltb, ◌==◌, update, bit_and, bit_or,
}
use projet_commun_unirail.Prelude.Int.{ℤ, pos, negsuc}
use projet_commun_unirail.Prelude.Bits.{test_bit}
use projet_commun_unirail.Bench.Message.{Can1Msg, can1_msg_data}

-- The sum of `n` bytes from `i` on, in 16 bits.
unfoldable pub checksum_loop : ℕ → ℕ → (ℕ → ℕ) → ℕ → ℕ
checksum_loop zero i message cks = cks
checksum_loop (suc n) i message cks = checksum_loop n (i + 1) message ((cks + message i) % 2 ^ 16)

unfoldable pub generate_checksum : (ℕ → ℕ) → ℕ → ℕ
generate_checksum message message_length = bit_and (checksum_loop message_length 0 message 0) 0xff

-- The static variables of `MESCAN_reconstructMessage`.
pub record Rebuild : Type 0 where
  pub flag_receptions : ℕ
  pub checksum : ℕ
  pub received_checksum : ℕ
  pub message_length : ℕ

-- The number of frames behind the first one.
abbrev pub nb_of_messages : ℕ → ℕ
nb_of_messages len = len / 8 + (if len % 8 == 0 then 0 else 1)

-- One bit for each frame, in 16 bits. The shift by 31 of the longest messages, which C leaves open,
-- reaches only bits that are cut off.
unfoldable pub mask_loop : ℕ → ℕ → ℕ → ℕ
mask_loop zero i mask = mask
mask_loop (suc n) i mask = mask_loop n (i + 1) (bit_or mask (2 ^ i) % 2 ^ 16)

unfoldable pub sum_loop : ℕ → List ℕ → ℕ → Option ℕ
sum_loop zero bytes checksum = some checksum
sum_loop (suc n) [] checksum = none
sum_loop (suc n) (b ∷ bytes) checksum = sum_loop n bytes ((checksum + b) % 2 ^ 16)

-- The data of a frame, `n` bytes, into the array from `start` on and into the checksum.
unfoldable pub gather_loop : ℕ → List ℕ → ℕ → (ℕ → ℕ) → ℕ → Option ((ℕ → ℕ) × ℕ)
gather_loop zero bytes start dest checksum = some (dest, checksum)
gather_loop (suc n) [] start dest checksum = none
gather_loop (suc n) (b ∷ bytes) start dest checksum =
    gather_loop n bytes (start + 1) (update dest start b) ((checksum + b) % 2 ^ 16)

-- What a call leaves: its result, the static variables and the array.
abbrev pub Rebuilt : Type 0
Rebuilt = ℤ × Rebuild × (ℕ → ℕ)

-- The first frame: the length, the checksum and perhaps data that only count for the checksum.
unfoldable pub first_frame : List ℕ → ℕ → (ℕ → ℕ) → Option Rebuilt
first_frame [] dlc dest = none
first_frame (data0 ∷ []) dlc dest = none
first_frame (data0 ∷ data1 ∷ bytes) dlc dest = do
  checksum ← sum_loop (dlc - 2) bytes 0
  some (
    if data0 == 0 then pos 1 else pos 0,
    record {
      flag_receptions = 0;
      checksum = checksum;
      received_checksum = data1;
      message_length = data0;
    },
    dest,
  )

-- After a frame was stored: all have come, or not yet.
unfoldable pub after_frame : Rebuild → ℕ → ℕ → ℕ → (ℕ → ℕ) → Rebuilt
after_frame s mask checksum flags dest =
    if bit_and flags mask == mask
    then (
      if bit_and checksum 0xff == s.received_checksum then pos 1 else negsuc 3,
      record s { checksum = checksum; flag_receptions = 0; message_length = 0 },
      dest,
    )
    else (pos 0, record s { checksum = checksum; flag_receptions = flags }, dest)

-- Frame `k` behind the first one.
unfoldable pub next_frame : Rebuild → ℕ → ℕ → Can1Msg → (ℕ → ℕ) → Option Rebuilt
next_frame s mask k m dest =
    let start = k * 8 in
    if ltb s.message_length (start + m.dlc)
    then some (negsuc 1, s, dest)
    else if test_bit s.flag_receptions k
    then some (negsuc 2, s, dest)
    else (gather_loop m.dlc m.bytes start dest s.checksum >>= λ r.
        some (after_frame s mask r.1 (bit_or s.flag_receptions (2 ^ k) % 2 ^ 16) r.0))

-- The bounds of the identifiers are those of the message so far: after a complete message that is
-- the first frame alone. The result is -1 for a foreign frame, -2 for one that is too long, -3 for
-- one that has come already, -4 for a wrong checksum, 1 for a complete message, 0 otherwise.
unfoldable pub reconstruct_message : Rebuild → Can1Msg → (ℕ → ℕ) → ℕ → Option Rebuilt
reconstruct_message s m dest start_id_frame =
    let nb = nb_of_messages s.message_length in
    if ltb ((start_id_frame + nb) % 2 ^ 32) m.id || ltb m.id start_id_frame
    then some (negsuc 0, s, dest)
    else if m.id == start_id_frame
    then first_frame m.bytes m.dlc dest
    else next_frame s (mask_loop nb 0 0) (m.id - start_id_frame - 1) m dest

-- The static variables of the two streams.
pub record Streams : Type 0 where
  pub stream_a : Rebuild
  pub stream_b : Rebuild

-- `MESCAN_reconstructMessageA` calls `MESCAN_reconstructMessage`.
pub reconstruct_message_a : Streams → Can1Msg → (ℕ → ℕ) → ℕ → Option (ℤ × Streams × (ℕ → ℕ))
reconstruct_message_a s m dest start_id_frame = do
  (r, a, dest') ← reconstruct_message s.stream_a m dest start_id_frame
  some (r, record s { stream_a = a }, dest')

-- `MESCAN_reconstructMessageB` has the same text, with static variables of its own.
pub reconstruct_message_b : Streams → Can1Msg → (ℕ → ℕ) → ℕ → Option (ℤ × Streams × (ℕ → ℕ))
reconstruct_message_b s m dest start_id_frame = do
  (r, b, dest') ← reconstruct_message s.stream_b m dest start_id_frame
  some (r, record s { stream_b = b }, dest')

-- `n` bytes of the array from `i` on, into the data of a frame.
unfoldable pub slice_loop : ℕ → (ℕ → ℕ) → ℕ → List ℕ → Option (List ℕ)
slice_loop zero message i bytes = some bytes
slice_loop (suc n) message i [] = none
slice_loop (suc n) message i (b ∷ bytes) =
    slice_loop n message (i + 1) bytes >>= λ rest. some (message i ∷ rest)

-- The length is one from 0 up. The first result says whether this is the last frame. The second is the static counter
-- `compteEnvois`, a signed byte: 128 stands for its wrap to -128, with which the next call would read
-- in front of the array.
unfoldable pub slice_array : ℕ → Can1Msg → (ℕ → ℕ) → ℕ → ℕ → ℕ → Option (Bool × ℕ × Can1Msg)
slice_array compte m message start_id_frame message_length id_type =
    let nb = nb_of_messages message_length in
    let start = (compte - 1) * 8 in
    let last = ltb message_length (start + 8) || ltb (compte + 1) 128 && compte + 1 == nb + 1 in
    let finish = if last then message_length else start + 8 in
    if ltb 127 compte
    then none
    else (slice_loop (finish - start) message start m.bytes >>= λ bytes. some (
      last,
      if last then 1 else compte + 1,
      record {
        id = (start_id_frame + compte) % 2 ^ 32;
        id_type = id_type;
        msgtype = can1_msg_data;
        dlc = if last then (finish + 1024 - start) % 256 else 8;
        bytes = bytes;
      },
    ))
