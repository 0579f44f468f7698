-- ===== src/Bench/Words.antt =====
-- What the functions on bytes, words and floats leave in a message.
use projet_commun_unirail.Prelude.{
  ℕ, zero, suc, ◌+◌, ◌-◌, ◌/◌, ◌%◌, ◌^◌, ◌<◌, ◌≡◌, ◌≢◌, refl, ap, ◌∙◌, true, false, Option, some,
  ◌>>=◌, ltb, leb, ◌==◌, All-get_elem?, arith, ◌||◌,
}
use projet_commun_unirail.Bench.Memory.{
  set, store-set, length-set, get_elem?-set_self, get_elem?-set_ne, All-set,
}
use projet_commun_unirail.Bench.Message.{
  Can1Msg, McData, IsMessage, verif_id, read_byte, write_byte,
}
use projet_commun_unirail.Bench.Fields.{
  set_data8_no_verif_id, set_data8, get_data8_no_verif_id, get_data8, set_data16, get_data16,
  write_word, set_data32, get_data32, EntFloat, set_data_float32, get_data_float32,
  decremente_data_to_zero,
}

-- `m'` is `m` with the byte `v` at `i`, and nothing else changed.
record Placed (m : Can1Msg) (i v : ℕ) (m' : Can1Msg) : Type 0 where
  valid : IsMessage m'
  same_id : m'.id ≡ m.id
  here : read_byte m' i ≡ some v
  others : (j : ℕ) → i ≢ j → read_byte m' j ≡ read_byte m j

write_byte-Placed :
    (m : Can1Msg) (i v : ℕ)
    → IsMessage m
    → i < 9
    → v < 256
    → (m' : Can1Msg) × (write_byte i v m ≡ some m') × Placed m i v m'
write_byte-Placed m i v w h p = (
  record m { bytes = set m.bytes i v },
  rw (store-set m.bytes i v (omega (arith, w.size))),
  record {
    valid = record {
      size = length-set m.bytes i v ∙ w.size;
      small = All-set (λ b. b < 256) m.bytes i v w.small p;
    };
    same_id = refl;
    here = get_elem?-set_self m.bytes i v (omega (arith, w.size));
    others = λ j ne. get_elem?-set_ne m.bytes i j v ne;
  },
)

-- Nothing of `m` changed but its bytes from `i` to `i + n`.
pub record Within (m : Can1Msg) (i n : ℕ) (m' : Can1Msg) : Type 0 where
  pub valid : IsMessage m'
  pub same_id : m'.id ≡ m.id
  pub others : (j : ℕ) → (ltb j i || leb (i + n) j) ≡ true → read_byte m' j ≡ read_byte m j

-- What was set is read back, without a change outside the bytes from `i` to `i + n`.
pub record ReadsBack {A : Type 0} (m : Can1Msg) (i n errors : ℕ) (a : A)
    (set_result : Option (Can1Msg × ℕ)) (get : Can1Msg → Option (A × ℕ)) : Type 0 where
  pub result : Can1Msg
  pub stored : set_result ≡ some (result, errors)
  pub read : get result ≡ some (a, errors)
  pub within : Within m i n result

-- The bytes of `v` stand in `m'` from `i` on, the lowest first.
record Holds (m : Can1Msg) (i v : ℕ) (m' : Can1Msg) : Type 0 where
  b0 : read_byte m' i ≡ some (v % 256)
  b1 : read_byte m' (1 + i) ≡ some (v / 2 ^ 8 % 256)
  b2 : read_byte m' (2 + i) ≡ some (v / 2 ^ 16 % 256)
  b3 : read_byte m' (3 + i) ≡ some (v / 2 ^ 24 % 256)
  within : Within m i 4 m'

write_word-Holds :
    (m : Can1Msg) (i v : ℕ)
    → IsMessage m
    → i + 3 < 9
    → (m' : Can1Msg) × (write_word i v m ≡ some m') × Holds m i v m'
write_word-Holds m i v w h =
    let (m1, e1, p1) = write_byte-Placed m i (v % 256) w (omega arith) (omega arith) in
    let (m2, e2, p2) =
      write_byte-Placed m1 (1 + i) (v / 2 ^ 8 % 256) p1.valid (omega arith) (omega arith) in
    let (m3, e3, p3) =
      write_byte-Placed m2 (2 + i) (v / 2 ^ 16 % 256) p2.valid (omega arith) (omega arith) in
    let (m4, e4, p4) =
      write_byte-Placed m3 (3 + i) (v / 2 ^ 24 % 256) p3.valid (omega arith) (omega arith) in
    (
      m4,
      rw (e1, e2, e3) e4,
      record {
        b0 =
            p4.others i (λ e. omega arith)
            ∙ p3.others i (λ e. omega arith)
            ∙ p2.others i (λ e. omega arith)
            ∙ p1.here;
        b1 = p4.others (1 + i) (λ e. omega arith) ∙ p3.others (1 + i) (λ e. omega arith) ∙ p2.here;
        b2 = p4.others (2 + i) (λ e. omega arith) ∙ p3.here;
        b3 = p4.here;
        within = record {
          valid = p4.valid;
          same_id = p4.same_id ∙ p3.same_id ∙ p2.same_id ∙ p1.same_id;
          others = λ j out.
              p4.others j (λ e. ground arith)
              ∙ p3.others j (λ e. ground arith)
              ∙ p2.others j (λ e. ground arith)
              ∙ p1.others j (λ e. ground arith);
        };
      },
    )

-- The test of the identifier, when it passes.
verif_id-pass {ℓ} :
    {A : Type ℓ} (m : Can1Msg) (i errors : ℕ) (other : A) (here : Option A) {a : A}
    → m.id ≡ i
    → here ≡ some a
    → verif_id m i errors other here ≡ some (a, errors)
verif_id-pass m i errors other here e h =
    let same : (m.id == i) ≡ true = ground arith in rw (same, h)

module _ (m : Can1Msg) (d : McData) (errors : ℕ) (w : IsMessage m) (e : m.id ≡ d.id_value) where
  set_data8-get_data8 :
      (v : ℕ)
      → d.indice_data < 8
      → v < 256
      → ReadsBack m d.indice_data 1 errors v (set_data8 m d v errors) (λ m'. get_data8 m' d errors)
  unfolding set_data8 get_data8 set_data8_no_verif_id get_data8_no_verif_id
  set_data8-get_data8 v h p =
      let (m', e', q) = write_byte-Placed m d.indice_data v w (omega arith) p in
      record {
        result = m';
        stored = verif_id-pass m d.id_value errors m _ e e';
        read = verif_id-pass m' d.id_value errors 0 _ (q.same_id ∙ e) q.here;
        within = record {
          valid = q.valid;
          same_id = q.same_id;
          others = λ j out. q.others j (λ e. ground arith);
        };
      }

  set_data16-get_data16 :
      (v : ℕ)
      → d.indice_data < 7
      → v < 2 ^ 16
      → ReadsBack m d.indice_data 2 errors v
          (set_data16 m d v errors)
          (λ m'. get_data16 m' d errors)
  unfolding set_data16 get_data16
  set_data16-get_data16 v h p =
      let (m1, e1, p1) =
        write_byte-Placed m d.indice_data (v % 256) w (omega arith) (omega arith) in
      let (m2, e2, p2) =
        write_byte-Placed m1 (1 + d.indice_data) (v / 2 ^ 8 % 256) p1.valid (omega arith)
          (omega arith) in
      record {
        result = m2;
        stored = verif_id-pass m d.id_value errors m _ e (rw e1 e2);
        read = verif_id-pass m2 d.id_value errors 0 _ (p2.same_id ∙ p1.same_id ∙ e) (
            rw (p2.here, p2.others d.indice_data (λ c. omega arith), p1.here)
              (ap some (omega arith)));
        within = record {
          valid = p2.valid;
          same_id = p2.same_id ∙ p1.same_id;
          others = λ j out. p2.others j (λ c. ground arith) ∙ p1.others j (λ c. ground arith);
        };
      }

  set_data32-get_data32 :
      (v : ℕ)
      → d.indice_data < 5
      → v < 2 ^ 32
      → ReadsBack m d.indice_data 4 errors v
          (set_data32 m d v errors)
          (λ m'. get_data32 m' d errors)
  unfolding set_data32 get_data32
  set_data32-get_data32 v h p =
      let (m', e', q) = write_word-Holds m d.indice_data v w (omega arith) in
      record {
        result = m';
        stored = verif_id-pass m d.id_value errors m _ e e';
        read =
            verif_id-pass m' d.id_value errors 0 _ (q.within.same_id ∙ e)
              (rw (q.b3, q.b2, q.b1, q.b0) (ap some (omega arith)));
        within = q.within;
      }

  set_data_float32-get_data_float32 :
      {F : Type 0} (u : EntFloat F) (x : F)
      → d.indice_data < 5
      → u.d_long x < 2 ^ 32
      → u.d_float (u.d_long x) ≡ x
      → ReadsBack m d.indice_data 4 errors x
          (set_data_float32 u m d x errors)
          (λ m'. get_data_float32 u m' d errors)
  unfolding set_data_float32 get_data_float32
  set_data_float32-get_data_float32 u x h p k =
      let (m', e', q) = write_word-Holds m d.indice_data (u.d_long x) w (omega arith) in
      record {
        result = m';
        stored = verif_id-pass m d.id_value errors m _ e e';
        read =
            verif_id-pass m' d.id_value errors u.zero_float _ (q.within.same_id ∙ e)
              (rw (q.b3, q.b2, q.b1, q.b0) (ap some (ap u.d_float (omega arith) ∙ k)));
        within = q.within;
      }

-- In a message with the identifier of the definition, at an index of data0 to data4, each of the
-- four pairs of functions reads back what it set, cut to 8, 16 or 32 bits, counts no error and
-- leaves every byte outside the place alone; for a float this needs that the union gives it back.
pub set_data-get_data :
    {F : Type 0} (u : EntFloat F) (m : Can1Msg) (d : McData) (errors v : ℕ) (x : F)
    → IsMessage m
    → m.id ≡ d.id_value
    → d.indice_data < 5
    → u.d_long x < 2 ^ 32
    → u.d_float (u.d_long x) ≡ x
    → ReadsBack m d.indice_data 1 errors
        (v % 2 ^ 8)
        (set_data8 m d (v % 2 ^ 8) errors)
        (λ m'. get_data8 m' d errors)
      × ReadsBack m d.indice_data 2 errors
          (v % 2 ^ 16)
          (set_data16 m d (v % 2 ^ 16) errors)
          (λ m'. get_data16 m' d errors)
      × ReadsBack m d.indice_data 4 errors
          (v % 2 ^ 32)
          (set_data32 m d (v % 2 ^ 32) errors)
          (λ m'. get_data32 m' d errors)
      × ReadsBack m d.indice_data 4 errors x
          (set_data_float32 u m d x errors)
          (λ m'. get_data_float32 u m' d errors)
set_data-get_data u m d errors v x w e h p k = (
  set_data8-get_data8 m d errors w e (v % 2 ^ 8) (omega arith) (omega arith),
  set_data16-get_data16 m d errors w e (v % 2 ^ 16) (omega arith) (omega arith),
  set_data32-get_data32 m d errors w e (v % 2 ^ 32) h (omega arith),
  set_data_float32-get_data_float32 m d errors w e u x h p k,
)

-- The same call, `n` times.
pub decrements : ℕ → Can1Msg → McData → ℕ → Option (Can1Msg × ℕ)
decrements zero m d errors = some (m, errors)
decrements (suc n) m d errors = decremente_data_to_zero m d errors >>= λ r. decrements n r.0 d r.1

-- A byte of the data with value `v` in a message with the right identifier is `v - n` after `n`
-- calls of `MESCAN_DecrementeDataToZero`, and 0 from `n ≡ v` on; no error is counted and the rest
-- of the message stays.
pub decrements_lem :
    (n : ℕ) (m : Can1Msg) (d : McData) (errors v : ℕ)
    → IsMessage m
    → m.id ≡ d.id_value
    → d.indice_data < 8
    → read_byte m d.indice_data ≡ some v
    → (m' : Can1Msg) × (decrements n m d errors ≡ some (m', errors))
      × (read_byte m' d.indice_data ≡ some (v - n))
      × Within m d.indice_data 1 m'
unfolding decrements decremente_data_to_zero
decrements_lem zero m d errors v w e h r = (
  m,
  refl,
  r ∙ ap some (omega arith),
  record { valid = w; same_id = refl; others = λ j out. refl },
)
decrements_lem (suc n) m d errors zero w e h r =
    let (m', run, last, within) = decrements_lem n m d errors 0 w e h r in
    let once : decremente_data_to_zero m d errors ≡ some (m, errors) =
      verif_id-pass m d.id_value errors m _ e (rw r) in
    (m', rw (once, decremente_data_to_zero) run, last ∙ ap some (omega arith), within)
decrements_lem (suc n) m d errors (suc v) w e h r =
    let small = All-get_elem? (λ b. b < 256) m.bytes d.indice_data w.small r in
    let (m1, e1, p1) = write_byte-Placed m d.indice_data v w (omega arith) (omega arith) in
    let (m', run, last, within) =
      decrements_lem n m1 d errors v p1.valid (p1.same_id ∙ e) h p1.here in
    let positive : (suc v == 0) ≡ false = ground arith in
    let pred : suc v - 1 ≡ v = omega arith in
    let once : decremente_data_to_zero m d errors ≡ some (m1, errors) =
      verif_id-pass m d.id_value errors m _ e (rw (r, positive, pred) e1) in
    (
      m',
      rw (once, decremente_data_to_zero) run,
      last ∙ ap some (omega arith),
      record {
        valid = within.valid;
        same_id = within.same_id ∙ p1.same_id;
        others = λ j out. within.others j out ∙ p1.others j (λ c. ground arith);
      },
    )
