-- ===== src/Bench/Slices/Join.antt =====
-- A message that was cut into frames comes together again, in any order of its frames.
use projet_commun_unirail.Prelude.{
  ℕ, zero, suc, ◌+◌, ◌-◌, ◌%◌, ◌^◌, ◌≤◌, ◌<◌, ◌≡◌, refl, ◌∙◌, Bool, true, false, ◌⊎◌, Option, some,
  List, [], ◌∷◌, ◌>>=◌, if◌then◌else◌, ltb, ◌==◌, length, get_elem?, All, arith, ◌||◌, Bool-cases,
  inl, inr, ℕ_discrete,
}
use projet_commun_unirail.Prelude.Int.{ℤ, pos, negsuc}
use projet_commun_unirail.Prelude.Bits.{test_bit, test_bit-zero}
use projet_commun_unirail.Bench.Message.{Can1Msg}
use projet_commun_unirail.Bench.Slices.{
  Rebuild, generate_checksum, nb_of_messages, sum_loop, first_frame, reconstruct_message,
}
use projet_commun_unirail.Bench.Slices.Cut.{IsSlice, slice_all, SlicesFrom, slice_all_ends}
use projet_commun_unirail.Bench.Slices.Masks.{
  raise, test_bit-raise, all_bits, all_bits-intro, all_bits-missing,
}
use projet_commun_unirail.Bench.Slices.Gather.{
  partial-zero, Gathering, receive_again, receive_more, receive_last,
}

-- The first frame, which announces a message: its length and its checksum.
pub record IsFirst (message : ℕ → ℕ) (len start_id : ℕ) (m : Can1Msg) : Type 0 where
  pub first : m.id ≡ start_id
  pub no_data : m.dlc ≤ 2
  pub rest : List ℕ
  pub announced : m.bytes ≡ len ∷ generate_checksum message len ∷ rest

unfoldable pub member : ℕ → List ℕ → Bool
member k [] = false
member k (x ∷ xs) = (x == k) || member k xs

-- The frames whose numbers come in, one by one, with the results.
unfoldable pub receive :
    ℕ → List Can1Msg → Rebuild → List ℕ → (ℕ → ℕ) → Option (List ℤ × Rebuild × (ℕ → ℕ))
receive start_id frames s [] dest = some ([], s, dest)
receive start_id frames s (k ∷ ks) dest = do
  m ← get_elem? frames k
  (r, s', dest') ← reconstruct_message s m dest start_id
  (rs, s'', dest'') ← receive start_id frames s' ks dest'
  some (r ∷ rs, s'', dest'')

-- Not finished, or a frame that had come already.
unfoldable pub NotDone : ℤ → Type 0
NotDone r = (r ≡ pos 0) ⊎ (r ≡ negsuc 2)

module _ (message : ℕ → ℕ) (len start_id : ℕ) (room : start_id + 33 ≤ 2 ^ 32) (some_data : 1 ≤ len)
    (small : len ≤ 128) where
  get_elem?-IsSlice :
      (frames : List Can1Msg) (from k i : ℕ)
      → SlicesFrom message len start_id from frames
      → k < length frames
      → i ≡ from + k
      → (m : Can1Msg) × (get_elem? frames k ≡ some m) × IsSlice message len start_id i m
  unfolding SlicesFrom
  get_elem?-IsSlice [] from k i all h e = absurd (omega arith)
  get_elem?-IsSlice (m ∷ frames) from zero i all h e =
      (m, refl, rw (let same : i ≡ from = omega arith in same) all.0)
  get_elem?-IsSlice (m ∷ frames) from (suc k) i all h e =
      get_elem?-IsSlice frames (suc from) k i all.1 (omega arith) (omega arith)

  -- The first frame starts a message, whatever was left before.
  receive_first :
      (s : Rebuild) (dest : ℕ → ℕ) (m : Can1Msg)
      → s.message_length < 256
      → IsFirst message len start_id m
      → (s' : Rebuild) × (reconstruct_message s m dest start_id ≡ some (pos 0, s', dest))
        × (s'.flag_receptions ≡ 0)
        × Gathering message len s' dest
  unfolding reconstruct_message first_frame sum_loop
  receive_first s dest m h f =
      let ours : (ltb ((start_id + nb_of_messages s.message_length) % 2 ^ 32) start_id
            || ltb start_id start_id)
          ≡ false =
        ground arith in
      let same : (start_id == start_id) ≡ true = ground arith in
      let no_more : m.dlc - 2 ≡ 0 = omega (arith, f.no_data) in
      let not_zero : (len == 0) ≡ false = ground arith in
      (
        record {
          flag_receptions = 0;
          checksum = 0;
          received_checksum = generate_checksum message len;
          message_length = len;
        },
        rw (f.first) (rw (ours, same, f.announced) (rw (no_more, not_zero))),
        refl,
        record {
          long = refl;
          due = refl;
          word = omega arith;
          sum = rw (partial-zero message len (nb_of_messages len));
          stored = λ k j p bit inside. ground (arith, test_bit-zero k);
        },
      )

  -- While frame `j` has not come, the message is not complete.
  receive_before :
      (frames : List Can1Msg) (js : List ℕ) (j : ℕ) (s : Rebuild) (dest : ℕ → ℕ)
      → SlicesFrom message len start_id 0 frames
      → length frames ≡ nb_of_messages len
      → All (λ k. k < nb_of_messages len) js
      → j < nb_of_messages len
      → member j js ≡ false
      → test_bit s.flag_receptions j ≡ false
      → Gathering message len s dest
      → (rs : List ℤ) × (s' : Rebuild) × (dest' : ℕ → ℕ) × (receive start_id frames s js dest
          ≡ some (rs, s', dest'))
        × All NotDone rs
        × Gathering message len s' dest'
        × (test_bit s'.flag_receptions j ≡ false)
        × ((k : ℕ)
            → (test_bit s.flag_receptions k || member k js) ≡ true
            → test_bit s'.flag_receptions k ≡ true)
        × ((i : ℕ) → len ≤ i → dest' i ≡ dest i)
  unfolding receive member NotDone
  receive_before frames [] j s dest all size ks h apart e g =
      ([], s, dest, refl, tt, g, e, λ k seen. ground arith, λ i beyond. refl)
  receive_before frames (x ∷ js) j s dest all size ks h apart e g =
      let (m, got, f) = get_elem?-IsSlice frames 0 x x all (omega (arith, ks.0)) (omega arith) in
      elim (Bool-cases (test_bit s.flag_receptions x)) [
        | inl again ↦
            let (rs, s', dest', done, notdone, g', e', seen, kept) =
              receive_before frames js j s dest all size ks.1 h (ground arith) e g in
            (
              negsuc 2 ∷ rs,
              s',
              dest',
              rw (
                got,
                receive_again message len start_id room some_data small s dest x m g ks.0 f again,
                done,
              ),
              (inr refl, notdone),
              g',
              e',
              λ k before. elim (ℕ_discrete x k) [
                | yes same ↦
                    let set : test_bit s.flag_receptions k ≡ true = rw (← same) again in
                    seen k (rw set)
                | no other ↦ seen k (ground arith)
              ],
              kept,
            )
        | inr new ↦
            let word = test_bit-raise s.flag_receptions x j g.word (ground (arith, ks.0)) in
            let away : test_bit (raise s.flag_receptions x) j ≡ false =
              word ∙ rw e (ground arith) in
            let (s1, dest1, call, flags, g1, kept1) =
              receive_more message len start_id room some_data small s dest x m g ks.0 f new
                (all_bits-missing (nb_of_messages len) (raise s.flag_receptions x) j h away) in
            let (rs, s', dest', done, notdone, g', e', seen, kept) =
              receive_before frames js j s1 dest1 all size ks.1 h (ground arith) (rw flags away)
                g1 in
            (
              pos 0 ∷ rs,
              s',
              dest',
              rw (got, call, done),
              (inl refl, notdone),
              g',
              e',
              λ k before. seen k (
                  rw (flags, test_bit-raise s.flag_receptions x k g.word (ground (arith, ks.0)))
                    (ground arith)),
              λ i beyond. rw (kept i beyond) (kept1 i beyond),
            )
      ]

end_kept :
    (i len a b c : ℕ) {d : ℕ}
    → d ≡ (if ltb i len then a else b)
    → (len ≤ i → b ≡ c)
    → d ≡ (if ltb i len then a else c)
end_kept i len a b c e kept = elim (Bool-cases (ltb i len)) [
  | inl inside ↦ ground arith
  | inr beyond ↦ let same = kept (ground arith) in ground arith
]

-- A message of 1 to 128 bytes that is cut into frames comes together again: whatever a receiver
-- had before, after the first frame with its length and checksum, and with its frames in any order,
-- also repeated, every result before the last missing frame is 0 or -3, that frame gives 1, the
-- array holds the message and nothing else of it has changed, and the receiver is ready for another
-- message.
pub message_comes_together :
    (message : ℕ → ℕ) (len start_id id_type : ℕ) (m first : Can1Msg) (s : Rebuild) (dest : ℕ → ℕ)
    (js : List ℕ) (j : ℕ)
    → 1 ≤ len
    → len ≤ 128
    → start_id + 33 ≤ 2 ^ 32
    → length m.bytes ≡ 9
    → s.message_length < 256
    → IsFirst message len start_id first
    → All (λ k. k < nb_of_messages len) js
    → j < nb_of_messages len
    → member j js ≡ false
    → ((k : ℕ) → k < nb_of_messages len → (j == k || member k js) ≡ true)
    → (frames : List Can1Msg) × (slice_all message start_id len id_type (nb_of_messages len) 1 m
        ≡ some (frames, 1))
      × (s0 : Rebuild) × (reconstruct_message s first dest start_id ≡ some (pos 0, s0, dest))
      × (rs : List ℤ) × (s1 : Rebuild) × (dest1 : ℕ → ℕ) × (receive start_id frames s0 js dest
          ≡ some (rs, s1, dest1))
      × All NotDone rs
      × (last : Can1Msg) × (s2 : Rebuild) × (dest2 : ℕ → ℕ) × (get_elem? frames j ≡ some last)
      × (reconstruct_message s1 last dest1 start_id ≡ some (pos 1, s2, dest2))
      × (s2.message_length ≡ 0)
      × ((i : ℕ) → dest2 i ≡ (if ltb i len then message i else dest i))
message_comes_together message len start_id id_type m first s dest js j some_data small room w old f
      ks h apart cover =
    let (frames, cut, size, slices) =
      slice_all_ends message start_id len id_type (nb_of_messages len) m (omega arith) some_data
        (omega arith) (ground arith) w in
    let (s0, begun, none_yet, g0) =
      receive_first message len start_id room some_data small s dest first old f in
    let unset : test_bit s0.flag_receptions j ≡ false = rw none_yet (test_bit-zero j) in
    let (rs, s1, dest1, done, notdone, g1, missing, seen, kept) =
      receive_before message len start_id room some_data small frames js j s0 dest slices size ks h
        apart unset g0 in
    let (last, got, slice) =
      get_elem?-IsSlice message len start_id room some_data small frames 0 j j slices (omega arith)
        (omega arith) in
    let all : all_bits (nb_of_messages len) (raise s1.flag_receptions j) ≡ true =
      all_bits-intro (nb_of_messages len) (raise s1.flag_receptions j) (λ k p.
        test_bit-raise s1.flag_receptions j k g1.word (ground arith) ∙ elim (ℕ_discrete j k) [
          | yes same ↦ ground arith
          | no other ↦
              let covered = cover k p in
              let set : test_bit s1.flag_receptions k ≡ true = seen k (ground arith) in rw set
        ]) in
    let (s2, dest2, completed, ready, whole) =
      receive_last message len start_id room some_data small s1 dest1 j last g1 h slice missing
        all in
    (
      frames,
      cut,
      s0,
      begun,
      rs,
      s1,
      dest1,
      done,
      notdone,
      last,
      s2,
      dest2,
      got,
      completed,
      ready,
      λ i. end_kept i len (message i) (dest1 i) (dest i) (whole i) (kept i),
    )
