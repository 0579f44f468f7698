-- ===== src/Bench/Tests.antt =====
-- The theorems on messages, queues and long messages at concrete inputs, and runs of the code.
use projet_commun_unirail.Prelude.{
  ℕ, zero, suc, ◌+◌, ◌*◌, ◌%◌, ◌≡◌, ◌<◌, refl, Bool, true, false, Option, some, List, [], ◌∷◌,
  ◌>>=◌, if◌then◌else◌, ltb, ◌==◌, ◌||◌, All, arith, get_elem?,
}
use projet_commun_unirail.Prelude.Int.{ℤ, pos}
use projet_commun_unirail.Bench.Message.{Can1Msg, McBit, McData, IsMessage}
use projet_commun_unirail.Bench.Fields.{
  set_bit, set_bit_high, get_bit, set_data8, get_data8, set_data16, get_data16, set_data32,
  get_data32, EntFloat, set_data_float32, get_data_float32,
}
use projet_commun_unirail.Bench.Bits.{BitSet, set_bit-get_bit}
use projet_commun_unirail.Bench.Words.{ReadsBack, set_data-get_data}
use projet_commun_unirail.Bench.Calls.{data8, decremente, run, id_of, right, wrong, run_counts}
use projet_commun_unirail.Bench.Fifo.{Fifo}
use projet_commun_unirail.Bench.Fifo.Refine
use projet_commun_unirail.Bench.Fifo.Refine.{IsFifo, Op, put, get, vide, contents, run_refines}
use projet_commun_unirail.Bench.Slices.{
  Rebuild, Rebuilt, generate_checksum, reconstruct_message, next_frame, after_frame, gather_loop,
  mask_loop, slice_array, slice_loop,
}
use projet_commun_unirail.Bench.Slices.Cut.{slice_all}
use projet_commun_unirail.Bench.Slices.Join.{
  IsFirst, receive, NotDone, member, message_comes_together,
}
use projet_commun_unirail.Bench.Slices.Bounds.{Contained, reconstruct_message-Contained}

abbrev sample : Can1Msg
sample = record {
  id = 0x2f;
  id_type = 4;
  msgtype = 1;
  dlc = 8;
  bytes = 1 ∷ 2 ∷ 3 ∷ 4 ∷ 5 ∷ 6 ∷ 7 ∷ 8 ∷ 9 ∷ [];
}

sample-IsMessage : IsMessage sample
sample-IsMessage = omega arith

abbrev brake : McBit
brake = record { id_value = 0x2f; indice_data = 3; indice_bit = 5 }

set_bit-get_bit_example :
    (m' : Can1Msg) × (set_bit sample brake true 7 ≡ some (m', 7))
    × (set_bit_high sample brake 7 ≡ some (m', 7))
    × (get_bit m' brake 7 ≡ some (true, 7))
    × BitSet sample brake true m'
set_bit-get_bit_example = set_bit-get_bit sample brake true 7 sample-IsMessage (omega arith) refl

abbrev speed : McData
speed = record { id_value = 0x2f; indice_data = 2 }

abbrev other : McData
other = record { id_value = 0x30; indice_data = 2 }

-- Numbers in place of floats.
abbrev words : EntFloat ℕ
words = record { d_long = λ x. x; d_float = λ x. x; zero_float = 0 }

set_data-get_data_example :
    ReadsBack sample 2 1 0 0x78 (set_data8 sample speed 0x78 0) (λ m'. get_data8 m' speed 0)
    × ReadsBack sample 2 2 0 0x5678 (set_data16 sample speed 0x5678 0) (λ m'. get_data16 m' speed 0)
    × ReadsBack sample 2 4 0 0x12345678
        (set_data32 sample speed 0x12345678 0)
        (λ m'. get_data32 m' speed 0)
    × ReadsBack sample 2 4 0 0x40490fdb
        (set_data_float32 words sample speed 0x40490fdb 0)
        (λ m'. get_data_float32 words m' speed 0)
set_data-get_data_example =
    set_data-get_data words sample speed 0 0x12345678 0x40490fdb sample-IsMessage refl (omega arith)
      (omega arith) refl

run_counts_example :
    run (data8 speed 9 ∷ data8 other 1 ∷ decremente speed ∷ []) sample 0xffff
    ≡ (run (data8 speed 9 ∷ decremente speed ∷ []) sample 0 >>= λ r. some (r.0, 0))
unfolding right wrong id_of
run_counts_example =
    run_counts (data8 speed 9 ∷ data8 other 1 ∷ decremente speed ∷ []) sample 0xffff (omega arith)

-- A queue whose next message goes round the end of the array.
abbrev full_end : Fifo
full_end = record {
  tete = 18;
  queue = 19;
  nb_transaction = 1;
  values = λ i. record sample { dlc = i % 9 };
}

run_refines_example :
    Refine.run full_end (put sample ∷ get sample ∷ get sample ∷ get sample ∷ vide ∷ [])
    ≡ some (
        Refine.serve
          (contents full_end)
          (put sample ∷ get sample ∷ get sample ∷ get sample ∷ vide ∷ []))
run_refines_example =
    run_refines (put sample ∷ get sample ∷ get sample ∷ get sample ∷ vide ∷ []) full_end
      (omega arith) (omega arith)

abbrev text : ℕ → ℕ
text i = (i * 37 + 1) % 256

abbrev announce : Can1Msg
announce = record sample {
  id = 0x100;
  dlc = 2;
  bytes = 12 ∷ generate_checksum text 12 ∷ 0 ∷ 0 ∷ 0 ∷ 0 ∷ 0 ∷ 0 ∷ 0 ∷ [];
}

abbrev stale : Rebuild
stale = record { flag_receptions = 5; checksum = 77; received_checksum = 3; message_length = 40 }

announce-IsFirst : IsFirst text 12 0x100 announce
announce-IsFirst = record {
  first = refl;
  no_data = omega arith;
  rest = 0 ∷ 0 ∷ 0 ∷ 0 ∷ 0 ∷ 0 ∷ 0 ∷ [];
  announced = refl;
}

both_frames : (k : ℕ) → k < 2 → (0 == k || member k (1 ∷ 1 ∷ [])) ≡ true
unfolding member
both_frames zero h = refl
both_frames (suc zero) h = refl
both_frames (suc (suc k)) h = absurd (omega arith)

abbrev untouched : ℕ → ℕ
untouched i = 0xee

-- The second frame comes twice before the first one.
message_comes_together_example :
    (frames : List Can1Msg) × (slice_all text 0x100 12 4 2 1 sample ≡ some (frames, 1))
    × (s0 : Rebuild) × (reconstruct_message stale announce untouched 0x100
        ≡ some (pos 0, s0, untouched))
    × (rs : List ℤ) × (s1 : Rebuild) × (dest1 : ℕ → ℕ) × (receive 0x100 frames s0
          (1 ∷ 1 ∷ [])
          untouched
        ≡ some (rs, s1, dest1))
    × All NotDone rs
    × (last : Can1Msg) × (s2 : Rebuild) × (dest2 : ℕ → ℕ) × (get_elem? frames 0 ≡ some last)
    × (reconstruct_message s1 last dest1 0x100 ≡ some (pos 1, s2, dest2))
    × (s2.message_length ≡ 0)
    × ((i : ℕ) → dest2 i ≡ (if ltb i 12 then text i else 0xee))
unfolding member
message_comes_together_example =
    message_comes_together text 12 0x100 4 sample announce stale untouched (1 ∷ 1 ∷ []) 0
      (omega arith) (omega arith) (omega arith) refl (omega arith) announce-IsFirst (omega arith)
      (omega arith) refl both_frames

reconstruct_message-Contained_example :
    (r : Rebuilt) × (reconstruct_message stale sample untouched 0x2e ≡ some r)
    × Contained stale untouched r
reconstruct_message-Contained_example =
    reconstruct_message-Contained stale sample untouched 0x2e (omega arith) sample-IsMessage
      (omega arith)

abbrev outcome : Rebuilt → Option (ℤ × ℕ)
outcome r = some (r.0, r.1.message_length)

abbrev nearly : Rebuild
nearly = record {
  flag_receptions = 0x7fff;
  checksum = 0;
  received_checksum = 36;
  message_length = 136;
}

-- A message of 136 bytes has 17 frames, but only 16 of them have a bit: it counts as received while
-- the last one has not come, here with a right checksum of the others.
early_end :
    (reconstruct_message nearly (record sample { id = 16 }) untouched 0 >>= outcome)
    ≡ some (pos 1, 0)
unfolding reconstruct_message next_frame gather_loop after_frame mask_loop
early_end = refl

abbrev answer : Bool × ℕ × Can1Msg → Option (Bool × ℕ)
answer r = some (r.0, r.1)

-- The last frame of a message of 1016 bytes is not announced as such, and the counter wraps.
cut_wraps : (slice_array 127 sample text 0 1016 4 >>= answer) ≡ some (false, 128)
unfolding slice_array slice_loop
cut_wraps = refl
