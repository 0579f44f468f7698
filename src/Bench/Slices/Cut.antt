-- ===== src/Bench/Slices/Cut.antt =====
-- The frames that `MESCAN_sliceArray` cuts.
use projet_commun_unirail.Prelude.{
  ℕ, zero, suc, ◌+◌, ◌-◌, ◌*◌, ◌%◌, ◌^◌, ◌≤◌, ◌<◌, ◌≡◌, refl, ap, ◌∙◌, true, false, Option, none,
  some, List, [], ◌∷◌, ◌>>=◌, if◌then◌else◌, ltb, ◌==◌, take, length, arith, ◌||◌, ◌&&◌, Bool-cases,
  inl, inr,
}
use projet_commun_unirail.Bench.Message.{Can1Msg}
use projet_commun_unirail.Bench.Slices.{nb_of_messages, slice_loop, slice_array}

-- `n` bytes of an array from `i` on.
abbrev pub chunk : (ℕ → ℕ) → ℕ → ℕ → List ℕ
chunk message i zero = []
chunk message i (suc n) = message i ∷ chunk message (i + 1) n

-- The number of data of frame `k`.
abbrev pub size : ℕ → ℕ → ℕ
size len k = if ltb len (k * 8 + 8) then len - k * 8 else 8

-- Frame `k` of a message of `len` bytes.
pub record IsSlice (message : ℕ → ℕ) (len start_id k : ℕ) (m : Can1Msg) : Type 0 where
  pub numbered : m.id ≡ start_id + 1 + k
  pub counted : m.dlc ≡ size len k
  pub filled : take m.dlc m.bytes ≡ chunk message (k * 8) m.dlc
  pub array : length m.bytes ≡ 9

-- A list of the frames from number `k` on.
unfoldable pub SlicesFrom : (ℕ → ℕ) → ℕ → ℕ → ℕ → List Can1Msg → Type 0
SlicesFrom message len start_id k [] = Unit
SlicesFrom message len start_id k (m ∷ ms) =
    IsSlice message len start_id k m × SlicesFrom message len start_id (suc k) ms

slice_loop-Done :
    (n : ℕ) (message : ℕ → ℕ) (i : ℕ) (bytes : List ℕ)
    → n ≤ length bytes
    → (out : List ℕ) × (slice_loop n message i bytes ≡ some out)
      × (take n out ≡ chunk message i n)
      × (length out ≡ length bytes)
unfolding slice_loop
slice_loop-Done zero message i bytes h = (bytes, refl, refl, refl)
slice_loop-Done (suc n) message i [] h = absurd (omega arith)
slice_loop-Done (suc n) message i (b ∷ bytes) h =
    let (out, done, same, long) = slice_loop-Done n message (i + 1) bytes (omega arith) in
    (message i ∷ out, rw done, ap (λ t. message i ∷ t) same, ap suc long)

module _ (message : ℕ → ℕ) (start_id len id_type : ℕ) where
  -- The call for frame `k`.
  pub slice_array_lem :
      (k : ℕ) (m : Can1Msg)
      → k < nb_of_messages len
      → len ≤ 1015
      → start_id + nb_of_messages len < 2 ^ 32
      → length m.bytes ≡ 9
      → let last = suc k == nb_of_messages len in
        (m' : Can1Msg) × (slice_array (suc k) m message start_id len id_type
          ≡ some (last, if last then 1 else suc (suc k), m'))
        × IsSlice message len start_id k m'
  unfolding slice_array
  slice_array_lem k m h p q w =
      let start : (suc k - 1) * 8 ≡ k * 8 = omega arith in
      let in_time : ltb 127 (suc k) ≡ false = ground arith in
      let ends : (ltb len (k * 8 + 8) || ltb (suc k + 1) 128 && suc k + 1 == nb_of_messages len + 1)
          ≡ (suc k == nb_of_messages len) =
        ground arith in
      let count : (if suc k == nb_of_messages len then len else k * 8 + 8) - k * 8 ≡ size len k =
        ground arith in
      let bump : suc k + 1 ≡ suc (suc k) = omega arith in
      let (out, done, same, long) =
        slice_loop-Done (size len k) message (k * 8) m.bytes (ground arith) in
      let dlc : (if suc k == nb_of_messages len
            then ((if suc k == nb_of_messages len then len else k * 8 + 8) + 1024 - k * 8) % 256
            else 8)
          ≡ size len k =
        ground arith in
      (
        record {
          id = (start_id + suc k) % 2 ^ 32;
          id_type = id_type;
          msgtype = 1;
          dlc = size len k;
          bytes = out;
        },
        rw (start, in_time, ends, count, done, dlc, bump),
        record { numbered = omega arith; counted = refl; filled = same; array = long ∙ w },
      )

  -- The sender: calls until one says that it was the last.
  unfoldable pub slice_all : ℕ → ℕ → Can1Msg → Option (List Can1Msg × ℕ)
  slice_all zero compte m = none
  slice_all (suc fuel) compte m = slice_array compte m message start_id len id_type >>= λ r.
      elim r.0 [
        | true ↦ some (r.2 ∷ [], r.1)
        | false ↦ slice_all fuel r.1 r.2 >>= λ rest. some (r.2 ∷ rest.0, rest.1)
      ]

  pub slice_all_from :
      (fuel k : ℕ) (m : Can1Msg)
      → k < nb_of_messages len
      → nb_of_messages len ≤ k + fuel
      → len ≤ 1015
      → start_id + nb_of_messages len < 2 ^ 32
      → length m.bytes ≡ 9
      → (frames : List Can1Msg) × (slice_all fuel (suc k) m ≡ some (frames, 1))
        × (k + length frames ≡ nb_of_messages len)
        × SlicesFrom message len start_id k frames
  unfolding slice_all SlicesFrom
  slice_all_from zero k m h f p q w = absurd (omega arith)
  slice_all_from (suc fuel) k m h f p q w =
      let (m', cut, slice) = slice_array_lem k m h p q w in
      elim (Bool-cases (suc k == nb_of_messages len)) [
        | inl last ↦ (m' ∷ [], rw (cut, last), ground arith, (slice, tt))
        | inr more ↦
            let (frames, done, count, slices) =
              slice_all_from fuel (suc k) m' (ground arith) (omega arith) p q slice.array in
            (m' ∷ frames, rw (cut, more, done), omega arith, (slice, slices))
      ]

  -- Cutting a message of 1 to 1015 bytes ends with the call for its last frame, which says so, and
  -- leaves the counter ready for another message; the frames are as many as the length asks for,
  -- and each has its identifier, its number of data and its bytes of the message.
  pub slice_all_ends :
      (fuel : ℕ) (m : Can1Msg)
      → nb_of_messages len ≤ fuel
      → 1 ≤ len
      → len ≤ 1015
      → start_id + nb_of_messages len < 2 ^ 32
      → length m.bytes ≡ 9
      → (frames : List Can1Msg) × (slice_all fuel 1 m ≡ some (frames, 1))
        × (length frames ≡ nb_of_messages len)
        × SlicesFrom message len start_id 0 frames
  slice_all_ends fuel m f l p q w =
      let (frames, done, count, slices) =
        slice_all_from fuel 0 m (ground arith) (omega arith) p q w in
      (frames, done, omega arith, slices)
