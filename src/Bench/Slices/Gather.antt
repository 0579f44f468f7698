-- ===== src/Bench/Slices/Gather.antt =====
-- A message that is being put together, and what one more of its frames does.
use projet_commun_unirail.Prelude.{
  ℕ, zero, suc, ◌+◌, ◌-◌, ◌*◌, ◌/◌, ◌%◌, ◌^◌, ◌≤◌, ◌<◌, ◌≡◌, refl, sym, ◌∙◌, true, false, some,
  ◌>>=◌, if◌then◌else◌, ltb, leb, ◌==◌, arith, ◌||◌, ◌&&◌, Bool-cases, inl, inr, lt→ltb, ℕ_discrete,
  bit_and,
}
use projet_commun_unirail.Prelude.Int.{pos, negsuc}
use projet_commun_unirail.Prelude.Bits.{test_bit, test_bit-zero}
use projet_commun_unirail.Bench.Message.{Can1Msg}
use projet_commun_unirail.Bench.Slices.{
  Rebuild, generate_checksum, nb_of_messages, mask_loop, gather_loop, after_frame, next_frame,
  reconstruct_message,
}
use projet_commun_unirail.Bench.Slices.Cut.{size, IsSlice}
use projet_commun_unirail.Bench.Slices.Masks.{
  raise, raise-lt, test_bit-raise, all_bits, all_bits-below, mask_test,
}
use projet_commun_unirail.Bench.Slices.Sums.{
  sum_range, sum_range-split, low_byte, generate_checksum_lem, gather_loop_lem,
}

module _ (message : ℕ → ℕ) (len : ℕ) where
  -- The sum of the bytes of the frames below `n` whose bit is set.
  pub partial : ℕ → ℕ → ℕ
  partial flags zero = 0
  partial flags (suc n) =
      partial flags n + (if test_bit flags n then sum_range message (n * 8) (size len n) else 0)

  pub partial-zero : (n : ℕ) → partial 0 n ≡ 0
  unfolding partial
  partial-zero zero = refl
  partial-zero (suc n) = rw (test_bit-zero n) (omega (arith, partial-zero n))

  partial-raise :
      (n flags k : ℕ)
      → flags < 2 ^ 16
      → k < 16
      → test_bit flags k ≡ false
      → partial (raise flags k) n
        ≡ partial flags n + (if ltb k n then sum_range message (k * 8) (size len k) else 0)
  unfolding partial
  partial-raise zero flags k h p e = ground arith
  partial-raise (suc n) flags k h p e = elim (ℕ_discrete k n) [
    | yes same ↦
        let before = partial-raise n flags k h p e in
        let unset : test_bit flags n ≡ false = rw (← same) e in
        let sum : sum_range message (n * 8) (size len n) ≡ sum_range message (k * 8) (size len k) =
          rw (← same) in
        rw (test_bit-raise flags k n h p, unset) (ground arith)
    | no apart ↦ rw (test_bit-raise flags k n h p) (ground (arith, partial-raise n flags k h p e))
  ]

  partial-all :
      (n flags : ℕ)
      → n ≤ nb_of_messages len
      → all_bits n flags ≡ true
      → partial flags n ≡ sum_range message 0 (if ltb len (n * 8) then len else n * 8)
  unfolding partial all_bits sum_range
  partial-all zero flags h e =
      rw (let z : (if ltb len (0 * 8) then len else 0 * 8) ≡ 0 = ground arith in z)
  partial-all (suc n) flags h e =
      let here : (if ltb len (n * 8) then len else n * 8) ≡ n * 8 = ground arith in
      let upto : (if ltb len (suc n * 8) then len else suc n * 8) ≡ n * 8 + size len n =
        ground arith in
      let bit : test_bit flags n ≡ true = all_bits-below (suc n) flags n e (omega arith) in
      let below : all_bits n flags ≡ true = ground arith in
      rw (bit, partial-all n flags (omega arith) below, here, upto)
        (sym (
          sum_range-split message (n * 8) (size len n) (n * 8 + size len n) 0 (n * 8) refl
            (omega arith)))

  -- What is known of the static variables and the array while the frames come in, in any order.
  pub record Gathering (s : Rebuild) (dest : ℕ → ℕ) : Type 0 where
    pub long : s.message_length ≡ len
    pub due : s.received_checksum ≡ generate_checksum message len
    pub word : s.flag_receptions < 2 ^ 16
    pub sum : s.checksum ≡ partial s.flag_receptions (nb_of_messages len) % 2 ^ 16
    pub stored :
        (k j : ℕ)
        → k < nb_of_messages len
        → test_bit s.flag_receptions k ≡ true
        → (leb (k * 8) j && ltb j (k * 8 + size len k)) ≡ true
        → dest j ≡ message j

  module _ (start_id : ℕ) (room : start_id + 33 ≤ 2 ^ 32) (some_data : 1 ≤ len)
      (small : len ≤ 128) where
    -- The frame passes the tests of its identifier and of its length.
    frame_passes :
        (s : Rebuild) (dest : ℕ → ℕ) (k : ℕ) (m : Can1Msg)
        → Gathering s dest
        → k < nb_of_messages len
        → IsSlice message len start_id k m
        → reconstruct_message s m dest start_id ≡ (
            if test_bit s.flag_receptions k
            then some (negsuc 2, s, dest)
            else (gather_loop m.dlc m.bytes (k * 8) dest s.checksum >>= λ r. some (
                after_frame s
                  (mask_loop (nb_of_messages len) 0 0)
                  r.1
                  (raise s.flag_receptions k)
                  r.0)))
    unfolding reconstruct_message next_frame raise
    frame_passes s dest k m g h f =
        let ours : (ltb ((start_id + nb_of_messages len) % 2 ^ 32) (start_id + 1 + k)
              || ltb (start_id + 1 + k) start_id)
            ≡ false =
          ground arith in
        let not_first : (start_id + 1 + k == start_id) ≡ false = ground arith in
        let number : start_id + 1 + k - start_id - 1 ≡ k = omega arith in
        let fits : ltb len (k * 8 + m.dlc) ≡ false = rw (f.counted) (ground arith) in
        rw (g.long, f.numbered) (rw (ours, not_first, number, fits))

    -- A frame that has come already is refused, and changes nothing.
    pub receive_again :
        (s : Rebuild) (dest : ℕ → ℕ) (k : ℕ) (m : Can1Msg)
        → Gathering s dest
        → k < nb_of_messages len
        → IsSlice message len start_id k m
        → test_bit s.flag_receptions k ≡ true
        → reconstruct_message s m dest start_id ≡ some (negsuc 2, s, dest)
    receive_again s dest k m g h f e = frame_passes s dest k m g h f ∙ rw e

    -- What a new frame leaves, whether it is the last one or not.
    record Taken (s : Rebuild) (dest : ℕ → ℕ) (k : ℕ) (m : Can1Msg) : Type 0 where
      array : ℕ → ℕ
      cks : ℕ
      call :
          reconstruct_message s m dest start_id
          ≡ some (
              after_frame s
                (mask_loop (nb_of_messages len) 0 0)
                cks
                (raise s.flag_receptions k)
                array)
      total : cks ≡ partial (raise s.flag_receptions k) (nb_of_messages len) % 2 ^ 16
      all_stored :
          (i j : ℕ)
          → i < nb_of_messages len
          → test_bit (raise s.flag_receptions k) i ≡ true
          → (leb (i * 8) j && ltb j (i * 8 + size len i)) ≡ true
          → array j ≡ message j
      untouched : (j : ℕ) → len ≤ j → array j ≡ dest j

    receive_new :
        (s : Rebuild) (dest : ℕ → ℕ) (k : ℕ) (m : Can1Msg)
        → Gathering s dest
        → k < nb_of_messages len
        → IsSlice message len start_id k m
        → test_bit s.flag_receptions k ≡ false
        → Taken s dest k m
    receive_new s dest k m g h f e =
        let short : m.dlc ≤ 8 = rw (f.counted) (ground arith) in
        let flags = s.flag_receptions in
        let (array, done, put) =
          gather_loop_lem m.dlc message m.bytes (k * 8) dest s.checksum f.filled
            (omega (arith, f.array)) (rw g.sum (omega arith)) in
        record {
          array = array;
          cks = (s.checksum + sum_range message (k * 8) m.dlc) % 2 ^ 16;
          call = frame_passes s dest k m g h f ∙ rw (e, done);
          total =
              rw
                (
                  partial-raise (nb_of_messages len) flags k g.word (ground arith) e,
                  lt→ltb k (nb_of_messages len) h,
                  g.sum,
                  f.counted,
                )
                (omega arith);
          all_stored = λ i j p bit inside.
              put j ∙ elim (Bool-cases (leb (k * 8) j && ltb j (k * 8 + m.dlc))) [
                | inl here ↦ rw here
                | inr elsewhere ↦ rw elsewhere (elim (ℕ_discrete k i) [
                  | yes same ↦
                      let here : (leb (k * 8) j && ltb j (k * 8 + m.dlc)) ≡ true =
                        rw (f.counted, same) inside in
                      cc
                  | no apart ↦
                      let before : test_bit flags i ≡ true =
                        ground (arith, test_bit-raise flags k i g.word (ground arith)) in
                      g.stored i j p before inside
                ])
              ];
          untouched = λ j beyond.
              let outside : (leb (k * 8) j && ltb j (k * 8 + m.dlc)) ≡ false =
                rw (f.counted) (ground arith) in
              put j ∙ rw outside;
        }

    -- A new frame that is not the last one is taken over.
    pub receive_more :
        (s : Rebuild) (dest : ℕ → ℕ) (k : ℕ) (m : Can1Msg)
        → Gathering s dest
        → k < nb_of_messages len
        → IsSlice message len start_id k m
        → test_bit s.flag_receptions k ≡ false
        → all_bits (nb_of_messages len) (raise s.flag_receptions k) ≡ false
        → (s' : Rebuild) × (dest' : ℕ → ℕ) × (reconstruct_message s m dest start_id
            ≡ some (pos 0, s', dest'))
          × (s'.flag_receptions ≡ raise s.flag_receptions k)
          × Gathering s' dest'
          × ((j : ℕ) → len ≤ j → dest' j ≡ dest j)
    unfolding after_frame
    receive_more s dest k m g h f e missing =
        let t = receive_new s dest k m g h f e in
        let test = mask_test (nb_of_messages len) (raise s.flag_receptions k) (ground arith) in
        (
          record s { checksum = t.cks; flag_receptions = raise s.flag_receptions k },
          t.array,
          t.call ∙ rw (test, missing),
          refl,
          record {
            long = g.long;
            due = g.due;
            word = raise-lt s.flag_receptions k;
            sum = t.total;
            stored = λ i j p bit inside. t.all_stored i j p bit inside;
          },
          t.untouched,
        )

    -- The frame that was still missing completes the message.
    pub receive_last :
        (s : Rebuild) (dest : ℕ → ℕ) (k : ℕ) (m : Can1Msg)
        → Gathering s dest
        → k < nb_of_messages len
        → IsSlice message len start_id k m
        → test_bit s.flag_receptions k ≡ false
        → all_bits (nb_of_messages len) (raise s.flag_receptions k) ≡ true
        → (s' : Rebuild) × (dest' : ℕ → ℕ) × (reconstruct_message s m dest start_id
            ≡ some (pos 1, s', dest'))
          × (s'.message_length ≡ 0)
          × ((j : ℕ) → dest' j ≡ (if ltb j len then message j else dest j))
    unfolding after_frame
    receive_last s dest k m g h f e all =
        let t = receive_new s dest k m g h f e in
        let flags = raise s.flag_receptions k in
        let test = mask_test (nb_of_messages len) flags (ground arith) in
        let whole : (if ltb len (nb_of_messages len * 8) then len else nb_of_messages len * 8)
            ≡ len =
          ground arith in
        let sums : bit_and t.cks 0xff ≡ s.received_checksum =
          low_byte t.cks
          ∙ rw
              (
                t.total,
                partial-all (nb_of_messages len) flags (omega arith) all,
                whole,
                g.due,
                generate_checksum_lem message len,
              )
              (omega arith) in
        let right : (bit_and t.cks 0xff == s.received_checksum) ≡ true = ground arith in
        (
          record s { checksum = t.cks; flag_receptions = 0; message_length = 0 },
          t.array,
          t.call ∙ rw (test, all, right),
          refl,
          λ j. elim (Bool-cases (ltb j len)) [
            | inl inside ↦ rw inside (
                t.all_stored (j / 8) j (ground arith)
                  (all_bits-below (nb_of_messages len) flags (j / 8) all (ground arith))
                  (ground arith))
            | inr beyond ↦ rw beyond (t.untouched j (ground arith))
          ],
        )
