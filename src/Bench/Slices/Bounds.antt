-- ===== src/Bench/Slices/Bounds.antt =====
-- One call of `MESCAN_reconstructMessage` on any frame of at most 8 data.
use projet_commun_unirail.Prelude.{
  ℕ, zero, suc, ◌+◌, ◌-◌, ◌*◌, ◌%◌, ◌^◌, ◌≤◌, ◌<◌, ◌≡◌, refl, ◌∙◌, ◌⊎◌, some, List, [], ◌∷◌,
  if◌then◌else◌, ltb, ◌==◌, length, update, All, arith, ◌||◌, Bool-cases, inl, inr, bit_and, bit_or,
}
use projet_commun_unirail.Prelude.Int.{ℤ, pos, negsuc}
use projet_commun_unirail.Prelude.Bits.{test_bit}
use projet_commun_unirail.Bench.Message.{Can1Msg, IsMessage}
use projet_commun_unirail.Bench.Slices.{
  Rebuild, Rebuilt, nb_of_messages, mask_loop, sum_loop, gather_loop, first_frame, after_frame,
  next_frame, reconstruct_message,
}

-- The static variables fit their types.
pub record IsRebuild (s : Rebuild) : Type 0 where
  pub flags_word : s.flag_receptions < 2 ^ 16
  pub checksum_word : s.checksum < 2 ^ 16
  pub received_word : s.received_checksum < 2 ^ 16
  pub length_byte : s.message_length < 256

-- A refused frame leaves all as it was; another one writes only below the announced length.
pub record Contained (s : Rebuild) (dest : ℕ → ℕ) (r : Rebuilt) : Type 0 where
  pub sound : IsRebuild r.1
  pub code : (r.0 ≡ pos 0) ⊎ (r.0 ≡ pos 1) ⊎ (r.0 ≡ negsuc 3) ⊎ ((r.1 ≡ s) × (r.2 ≡ dest))
  pub below : (j : ℕ) → s.message_length ≤ j → r.2 j ≡ dest j

sum_loop-Returns :
    (n : ℕ) (bytes : List ℕ) (cks : ℕ)
    → n ≤ length bytes
    → cks < 2 ^ 16
    → (cks' : ℕ) × (sum_loop n bytes cks ≡ some cks') × (cks' < 2 ^ 16)
unfolding sum_loop
sum_loop-Returns zero bytes cks h p = (cks, refl, p)
sum_loop-Returns (suc n) [] cks h p = absurd (omega arith)
sum_loop-Returns (suc n) (b ∷ bytes) cks h p =
    sum_loop-Returns n bytes ((cks + b) % 2 ^ 16) (omega arith) (omega arith)

gather_loop-Returns :
    (n : ℕ) (bytes : List ℕ) (i : ℕ) (dest : ℕ → ℕ) (cks : ℕ)
    → n ≤ length bytes
    → cks < 2 ^ 16
    → (dest' : ℕ → ℕ) × (cks' : ℕ) × (gather_loop n bytes i dest cks ≡ some (dest', cks'))
      × (cks' < 2 ^ 16)
      × ((j : ℕ) → i + n ≤ j → dest' j ≡ dest j)
unfolding gather_loop
gather_loop-Returns zero bytes i dest cks h p = (dest, cks, refl, p, λ j out. refl)
gather_loop-Returns (suc n) [] i dest cks h p = absurd (omega arith)
gather_loop-Returns (suc n) (b ∷ bytes) i dest cks h p =
    let (dest', cks', done, word, kept) =
      gather_loop-Returns n bytes (i + 1) (update dest i b) ((cks + b) % 2 ^ 16) (omega arith)
        (omega arith) in
    (dest', cks', done, word, λ j out. kept j (omega arith) ∙ ground arith)

first_frame-Contained :
    (s : Rebuild) (bytes : List ℕ) (dlc : ℕ) (dest : ℕ → ℕ)
    → length bytes ≡ 9
    → All (λ b. b < 256) bytes
    → dlc ≤ 8
    → (r : Rebuilt) × (first_frame bytes dlc dest ≡ some r) × Contained s dest r
unfolding first_frame
first_frame-Contained s [] dlc dest e small h = absurd (omega arith)
first_frame-Contained s (data0 ∷ []) dlc dest e small h = absurd (omega arith)
first_frame-Contained s (data0 ∷ data1 ∷ bytes) dlc dest e small h =
    let (cks, done, word) = sum_loop-Returns (dlc - 2) bytes 0 (omega arith) (omega arith) in
    (
      (
        if data0 == 0 then pos 1 else pos 0,
        record {
          flag_receptions = 0;
          checksum = cks;
          received_checksum = data1;
          message_length = data0;
        },
        dest,
      ),
      rw done,
      record {
        sound = record {
          flags_word = omega arith;
          checksum_word = word;
          received_word = omega (arith, small.1.0);
          length_byte = small.0;
        };
        code = elim (Bool-cases (data0 == 0)) [
          | inl empty ↦ rw empty (inr (inl refl))
          | inr more ↦ rw more (inl refl)
        ];
        below = λ j out. refl;
      },
    )

after_frame-Contained :
    (s : Rebuild) (mask cks flags : ℕ) (dest dest' : ℕ → ℕ)
    → IsRebuild s
    → cks < 2 ^ 16
    → flags < 2 ^ 16
    → ((j : ℕ) → s.message_length ≤ j → dest' j ≡ dest j)
    → Contained s dest (after_frame s mask cks flags dest')
unfolding after_frame
after_frame-Contained s mask cks flags dest dest' v p q kept =
    elim (Bool-cases (bit_and flags mask == mask)) [
      | inl all ↦ rw all (record {
        sound = record {
          flags_word = omega arith;
          checksum_word = p;
          received_word = v.received_word;
          length_byte = omega arith;
        };
        code = elim (Bool-cases (bit_and cks 0xff == s.received_checksum)) [
          | inl right ↦ rw right (inr (inl refl))
          | inr wrong ↦ rw wrong (inr (inr (inl refl)))
        ];
        below = kept;
      })
      | inr more ↦ rw more (record {
        sound = record {
          flags_word = q;
          checksum_word = p;
          received_word = v.received_word;
          length_byte = v.length_byte;
        };
        code = inl refl;
        below = kept;
      })
    ]

refused-Contained :
    (s : Rebuild) (dest : ℕ → ℕ) (z : ℤ) → IsRebuild s → Contained s dest (z, s, dest)
refused-Contained s dest z v = record {
  sound = v;
  code = inr (inr (inr (refl, refl)));
  below = λ j out. refl;
}

next_frame-Contained :
    (s : Rebuild) (mask k : ℕ) (m : Can1Msg) (dest : ℕ → ℕ)
    → IsRebuild s
    → IsMessage m
    → m.dlc ≤ 8
    → (r : Rebuilt) × (next_frame s mask k m dest ≡ some r) × Contained s dest r
unfolding next_frame
next_frame-Contained s mask k m dest v w h =
    elim (Bool-cases (ltb s.message_length (k * 8 + m.dlc))) [
      | inl long ↦ ((negsuc 1, s, dest), rw long, refused-Contained s dest (negsuc 1) v)
      | inr fits ↦ elim (Bool-cases (test_bit s.flag_receptions k)) [
        | inl again ↦ ((negsuc 2, s, dest), rw (fits, again), refused-Contained s dest (negsuc 2) v)
        | inr new ↦
            let (dest', cks, done, word, kept) =
              gather_loop-Returns m.dlc m.bytes (k * 8) dest s.checksum (omega arith)
                v.checksum_word in
            let flags = bit_or s.flag_receptions (2 ^ k) % 2 ^ 16 in
            (
              after_frame s mask cks flags dest',
              rw (fits, new, done),
              after_frame-Contained s mask cks flags dest dest' v word (omega arith)
                  (λ j out. kept j (ground arith)),
            )
      ]
    ]

-- On a frame of at most 8 data, with any identifier, the call returns; it writes no entry of the
-- array at or above the length that was announced; every result but 0, 1 and -4 leaves the static
-- variables and the array as they were; and the static variables stay in their types.
pub reconstruct_message-Contained :
    (s : Rebuild) (m : Can1Msg) (dest : ℕ → ℕ) (start_id : ℕ)
    → IsRebuild s
    → IsMessage m
    → m.dlc ≤ 8
    → (r : Rebuilt) × (reconstruct_message s m dest start_id ≡ some r) × Contained s dest r
unfolding reconstruct_message
reconstruct_message-Contained s m dest start_id v w h =
    let nb = nb_of_messages s.message_length in
    elim (Bool-cases (ltb ((start_id + nb) % 2 ^ 32) m.id || ltb m.id start_id)) [
      | inl foreign ↦ ((negsuc 0, s, dest), rw foreign, refused-Contained s dest (negsuc 0) v)
      | inr ours ↦ elim (Bool-cases (m.id == start_id)) [
        | inl first ↦ rw (ours, first) (first_frame-Contained s m.bytes m.dlc dest w.size w.small h)
        | inr next ↦
            rw (ours, next)
              (next_frame-Contained s (mask_loop nb 0 0) (m.id - start_id - 1) m dest v w h)
      ]
    ]
