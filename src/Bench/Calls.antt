-- ===== src/Bench/Calls.antt =====
-- Any sequence of the functions that set data, on one message: the counter of wrong definitions.
use projet_commun_unirail.Prelude.{
  ℕ, ◌+◌, ◌%◌, ◌^◌, ◌<◌, ◌≡◌, refl, ap, ◌∙◌, Bool, true, false, Option, none, some, List, [], ◌∷◌,
  ◌>>=◌, Option-cases, if◌then◌else◌, ◌==◌, arith, Bool-cases, inl, inr,
}
use native.Mathlib.Nat.{add-zero}
use projet_commun_unirail.Bench.Message.{
  Can1Msg, McBit, McData, inc_cpt_erreur_definition, write_byte,
}
use projet_commun_unirail.Bench.Fields.{
  set_bit_no_verif_id, set_bit, set_bit_high_no_verif_id, set_bit_high, set_bit_low_no_verif_id,
  set_bit_low, set_data8_no_verif_id, set_data8, set_data16, set_data32, decremente_data_to_zero,
}

pub data Call : Type 0 where
  bit_high : McBit → Call
  bit_low : McBit → Call
  bit_to : McBit → Bool → Call
  data8 : McData → ℕ → Call
  data16 : McData → ℕ → Call
  data32 : McData → ℕ → Call
  decremente : McData → Call

-- The identifier in the definition of a call.
unfoldable pub id_of : Call → ℕ
id_of (bit_high b) = b.id_value
id_of (bit_low b) = b.id_value
id_of (bit_to b v) = b.id_value
id_of (data8 d v) = d.id_value
id_of (data16 d v) = d.id_value
id_of (data32 d v) = d.id_value
id_of (decremente d) = d.id_value

pub step : Call → Can1Msg → ℕ → Option (Can1Msg × ℕ)
step (bit_high b) m errors = set_bit_high m b errors
step (bit_low b) m errors = set_bit_low m b errors
step (bit_to b v) m errors = set_bit m b v errors
step (data8 d v) m errors = set_data8 m d v errors
step (data16 d v) m errors = set_data16 m d v errors
step (data32 d v) m errors = set_data32 m d v errors
step (decremente d) m errors = decremente_data_to_zero m d errors

pub run : List Call → Can1Msg → ℕ → Option (Can1Msg × ℕ)
run [] m errors = some (m, errors)
run (c ∷ cs) m errors = step c m errors >>= λ r. run cs r.0 r.1

-- The calls of a list whose definition has the identifier `i`, and the number of the others.
unfoldable pub right : ℕ → List Call → List Call
right i [] = []
right i (c ∷ cs) = let rest = right i cs in if i == id_of c then c ∷ rest else rest

unfoldable pub wrong : ℕ → List Call → ℕ
wrong i [] = 0
wrong i (c ∷ cs) = wrong i cs + (if i == id_of c then 0 else 1)

write_byte-id : (i v : ℕ) (m : Can1Msg) {m' : Can1Msg} → write_byte i v m ≡ some m' → m'.id ≡ m.id
write_byte-id i v m h = ground arith

-- A call with the right definition keeps the identifier and the counter.
step-right :
    (c : Call) (m : Can1Msg) (errors : ℕ) {r : Can1Msg × ℕ}
    → (m.id == id_of c) ≡ true
    → step c m errors ≡ some r
    → (r.0.id ≡ m.id) × (r.1 ≡ errors)
unfolding step id_of set_bit_high set_bit_high_no_verif_id set_bit_low set_bit_low_no_verif_id
    set_bit set_bit_no_verif_id set_data8 set_data8_no_verif_id set_data16 set_data32
    decremente_data_to_zero
step-right (bit_high b) m errors e h = ground arith
step-right (bit_low b) m errors e h = ground arith
step-right (bit_to b v) m errors e h = ground arith
step-right (data8 d v) m errors e h = ground arith
step-right (data16 d v) m errors e h = ground arith
step-right (data32 d v) m errors e h = ground arith
step-right (decremente d) m errors e h = ground arith

step-wrong :
    (c : Call) (m : Can1Msg) (errors : ℕ)
    → (m.id == id_of c) ≡ false
    → step c m errors ≡ some (m, inc_cpt_erreur_definition errors)
unfolding step id_of set_bit_high set_bit_low set_bit set_data8 set_data16 set_data32
    decremente_data_to_zero
step-wrong (bit_high b) m errors e = rw e
step-wrong (bit_low b) m errors e = rw e
step-wrong (bit_to b v) m errors e = rw e
step-wrong (data8 d v) m errors e = rw e
step-wrong (data16 d v) m errors e = rw e
step-wrong (data32 d v) m errors e = rw e
step-wrong (decremente d) m errors e = rw e

with_count : Can1Msg → ℕ → Option (Can1Msg × ℕ)
with_count m n = some (m, n)

drop_pair :
    (o : Option Can1Msg) (n : ℕ)
    → (o >>= λ m. with_count m n) ≡ ((o >>= λ m. with_count m 0) >>= λ r. with_count r.0 n)
unfolding with_count
drop_pair none n = refl
drop_pair (some m) n = refl

-- Nothing of a call with the right definition depends on the counter.
step_counter :
    (c : Call) (m : Can1Msg) (errors : ℕ)
    → (m.id == id_of c) ≡ true
    → step c m errors ≡ (step c m 0 >>= λ r. some (r.0, errors))
unfolding step id_of set_bit_high set_bit_low set_bit set_data8 set_data16 set_data32
    decremente_data_to_zero with_count
step_counter (bit_high b) m errors e = rw e (drop_pair _ errors)
step_counter (bit_low b) m errors e = rw e (drop_pair _ errors)
step_counter (bit_to b v) m errors e = rw e (drop_pair _ errors)
step_counter (data8 d v) m errors e = rw e (drop_pair _ errors)
step_counter (data16 d v) m errors e = rw e (drop_pair _ errors)
step_counter (data32 d v) m errors e = rw e (drop_pair _ errors)
step_counter (decremente d) m errors e = rw e (drop_pair _ errors)

run_at :
    (cs : List Call) (m : Can1Msg) (i errors : ℕ)
    → m.id ≡ i
    → errors < 2 ^ 16
    → run cs m errors
      ≡ (run (right i cs) m 0 >>= λ r. with_count r.0 ((errors + wrong i cs) % 2 ^ 16))
unfolding run right wrong inc_cpt_erreur_definition with_count
run_at [] m i errors e h = ap (λ (k : ℕ). some (m, k)) (omega arith)
run_at (c ∷ cs) m i errors e h = elim (Bool-cases (i == id_of c)) [
  | inl same ↦
      let here : (m.id == id_of c) ≡ true = rw e same in
      elim (Option-cases (step c m 0)) [
        | inl fault ↦ rw (step_counter c m errors here, same, fault)
        | inr ((m', k), done) ↦
            let (kept, zero_count) = step-right c m 0 here done in
            rw (step_counter c m errors here, same, done, zero_count, add-zero)
              (run_at cs m' i errors (kept ∙ e) h)
      ]
  | inr other ↦
      let away : (m.id == id_of c) ≡ false = rw e other in
      rw (step-wrong c m errors away, other)
        (run_at cs m i (inc_cpt_erreur_definition errors) e (omega arith)
          ∙ ap (λ (k : ℕ). run (right i cs) m 0 >>= λ r. with_count r.0 k) (omega arith))
]

-- Over any sequence of setters on one message, the counter of errors grows by the number of calls
-- whose definition has another identifier, on 16 bits, and the message is what the other calls
-- alone make of it; a fault among those is a fault of the sequence.
pub run_counts :
    (cs : List Call) (m : Can1Msg) (errors : ℕ)
    → errors < 2 ^ 16
    → run cs m errors
      ≡ (run (right m.id cs) m 0 >>= λ r. some (r.0, (errors + wrong m.id cs) % 2 ^ 16))
unfolding with_count
run_counts cs m errors h = run_at cs m m.id errors refl h
