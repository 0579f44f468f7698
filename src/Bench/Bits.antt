-- ===== src/Bench/Bits.antt =====
-- What the functions on bits leave in a message.
use native.Mathlib.Nat.{one-le-pow, mod-eq_of_lt}
use projet_commun_unirail.Prelude.{
  ℕ, zero, suc, ◌+◌, ◌/◌, ◌^◌, ◌≤◌, ◌<◌, ◌≡◌, refl, ap, sym, ◌∙◌, Bool, true, false, ◌&&◌,
  ℕ_discrete, some, if◌then◌else◌, lt→ltb, ◌==◌, length, get_elem?, get_elem?_lt, All-get_elem?,
  bit_and, bit_or, arith,
}
use projet_commun_unirail.Prelude.Bits.{
  test_bit, complement, test_bit-bit_or, test_bit-clear, bit_or-lt, bit_and-le, bit_or_step,
  bit_and_step, half_bit_or, half_bit_and,
}
use projet_commun_unirail.Bench.Memory.{
  set, length-set, get_elem?-set_self, get_elem?-set_ne, All-set, bit_and-pow, test_bit-pow, pow-lt,
}
use projet_commun_unirail.Bench.Message.{Can1Msg, McBit, IsMessage}
use projet_commun_unirail.Bench.Fields.{
  set_bit_no_verif_id, set_bit, set_bit_high_no_verif_id, set_bit_high, set_bit_low_no_verif_id,
  set_bit_low, get_bit_no_verif_id, get_bit,
}

-- The place of a bit lies in data0 to data7.
pub record IsBit (b : McBit) : Type 0 where
  pub byte_in : b.indice_data < 8
  pub bit_in : b.indice_bit < 8

-- The byte with bit `k` set to `v`.
pub with_bit : ℕ → ℕ → Bool → ℕ
with_bit n k v = if v then bit_or n (2 ^ k) else bit_and n (complement 32 (2 ^ k))

with_bit-lt : (n k : ℕ) (v : Bool) → n < 256 → k < 8 → with_bit n k v < 256
unfolding with_bit
with_bit-lt n k true h p = bit_or-lt 8 n (2 ^ k) h (pow-lt k 8 p)
with_bit-lt n k false h p = omega (arith, bit_and-le n (complement 32 (2 ^ k)))

test_bit-with_bit :
    (n k j : ℕ) (v : Bool)
    → n < 256
    → k < 8
    → test_bit (with_bit n k v) j ≡ (if k == j then v else test_bit n j)
unfolding with_bit
test_bit-with_bit n k j true h p =
    test_bit-bit_or j n (2 ^ k) ∙ rw (test_bit-pow k j) (ground arith)
test_bit-with_bit n k j false h p =
    test_bit-clear 32 j n (2 ^ k) (omega arith) (pow-lt k 32 (omega arith))
    ∙ rw (test_bit-pow k j) (ground arith)

bit_or-absorb_fuel : (f a b : ℕ) → a ≤ f → b ≤ f → bit_or a (bit_or a b) ≡ bit_or a b
bit_or-absorb_fuel zero a b h p =
    rw (let e : a ≡ 0 = omega arith in e, let e : b ≡ 0 = omega arith in e)
bit_or-absorb_fuel (suc f) a b h p = omega (
  arith,
  bit_or_step a b,
  bit_or_step a (bit_or a b),
  ap (λ (t : ℕ). bit_or (a / 2) t) (half_bit_or a b),
  bit_or-absorb_fuel f (a / 2) (b / 2) (omega arith) (omega arith),
)

pub bit_or-absorb : (a b : ℕ) → bit_or a (bit_or a b) ≡ bit_or a b
bit_or-absorb a b = bit_or-absorb_fuel (a + b) a b (omega arith) (omega arith)

bit_and-absorb_fuel : (f a b : ℕ) → a ≤ f → bit_and a (bit_and a b) ≡ bit_and a b
bit_and-absorb_fuel zero a b h = omega (arith, bit_and-le a b, bit_and-le a (bit_and a b))
bit_and-absorb_fuel (suc f) a b h = omega (
  arith,
  bit_and_step a b,
  bit_and_step a (bit_and a b),
  ap (λ (t : ℕ). bit_and (a / 2) t) (half_bit_and a b),
  bit_and-absorb_fuel f (a / 2) (b / 2) (omega arith),
)

pub bit_and-absorb : (a b : ℕ) → bit_and a (bit_and a b) ≡ bit_and a b
bit_and-absorb a b = bit_and-absorb_fuel a a b (omega arith)

-- `MESCAN_SetBit` writes what `MESCAN_SetBitHigh` or `MESCAN_SetBitLow` would.
set_bit_no_verif_id_high :
    (m : Can1Msg) (b : McBit) → set_bit_no_verif_id m b true ≡ set_bit_high_no_verif_id m b
unfolding set_bit_no_verif_id set_bit_high_no_verif_id
set_bit_no_verif_id_high m b = simp (bit_or-absorb)

set_bit_no_verif_id_low :
    (m : Can1Msg) (b : McBit) → set_bit_no_verif_id m b false ≡ set_bit_low_no_verif_id m b
unfolding set_bit_no_verif_id set_bit_low_no_verif_id
set_bit_no_verif_id_low m b = simp (bit_and-absorb)

-- `m'` is `m` with the bit `b` set to `v`, and nothing else changed.
pub record BitSet (m : Can1Msg) (b : McBit) (v : Bool) (m' : Can1Msg) : Type 0 where
  pub valid : IsMessage m'
  pub same_id : m'.id ≡ m.id
  pub here : get_bit_no_verif_id m' b ≡ some v
  pub others :
      (c : McBit)
      → IsBit c
      → ((c.indice_data == b.indice_data) && (c.indice_bit == b.indice_bit)) ≡ false
      → get_bit_no_verif_id m' c ≡ get_bit_no_verif_id m c

-- A bit of a byte.
get_bit_no_verif_id-test_bit :
    (m : Can1Msg) (b : McBit) (n : ℕ)
    → IsBit b
    → n < 256
    → get_elem? m.bytes b.indice_data ≡ some n
    → get_bit_no_verif_id m b ≡ some (test_bit n b.indice_bit)
unfolding get_bit_no_verif_id
get_bit_no_verif_id-test_bit m b n w h e =
    rw (e, lt→ltb b.indice_bit 31 (omega arith))
      (ground (arith, bit_and-pow b.indice_bit n, pow-lt b.indice_bit 8, one-le-pow b.indice_bit 2))

byte_of :
    (m : Can1Msg) (b : McBit)
    → IsMessage m
    → IsBit b
    → (n : ℕ) × (get_elem? m.bytes b.indice_data ≡ some n) × (n < 256)
byte_of m b v w =
    let (n, e) = get_elem?_lt m.bytes b.indice_data (omega arith) in
    (n, e, All-get_elem? (λ x. x < 256) m.bytes b.indice_data v.small e)

abbrev written : Can1Msg → McBit → ℕ → Bool → Can1Msg
written m b n v = record m { bytes = set m.bytes b.indice_data (with_bit n b.indice_bit v) }

written-BitSet :
    (m : Can1Msg) (b : McBit) (n : ℕ) (v : Bool)
    → IsMessage m
    → IsBit b
    → n < 256
    → get_elem? m.bytes b.indice_data ≡ some n
    → BitSet m b v (written m b n v)
written-BitSet m b n v i w h e = record {
  valid = record {
    size = length-set m.bytes b.indice_data _ ∙ i.size;
    small =
        All-set (λ x. x < 256) m.bytes b.indice_data _ i.small
          (with_bit-lt n b.indice_bit v h w.bit_in);
  };
  same_id = refl;
  here =
      get_bit_no_verif_id-test_bit (written m b n v) b (with_bit n b.indice_bit v) w
        (with_bit-lt n b.indice_bit v h w.bit_in)
        (get_elem?-set_self m.bytes b.indice_data _ (omega (arith, i.size)))
      ∙ ap some (test_bit-with_bit n b.indice_bit b.indice_bit v h w.bit_in ∙ ground arith);
  others = λ c w' apart. elim (ℕ_discrete b.indice_data c.indice_data) [
    | yes same ↦
        get_bit_no_verif_id-test_bit (written m b n v) c (with_bit n b.indice_bit v) w'
          (with_bit-lt n b.indice_bit v h w.bit_in)
          (ap (get_elem? _) (sym same)
            ∙ get_elem?-set_self m.bytes b.indice_data _ (omega (arith, i.size)))
        ∙ ap some (test_bit-with_bit n b.indice_bit c.indice_bit v h w.bit_in ∙ ground arith)
        ∙ sym (get_bit_no_verif_id-test_bit m c n w' h (ap (get_elem? m.bytes) (sym same) ∙ e))
    | no apart_bytes ↦
        let (n', e', h') = byte_of m c i w' in
        get_bit_no_verif_id-test_bit (written m b n v) c n' w' h'
          (get_elem?-set_ne m.bytes b.indice_data c.indice_data _ apart_bytes ∙ e')
        ∙ sym (get_bit_no_verif_id-test_bit m c n' w' h' e')
  ];
}

-- The two setters of a message with the right place.
set_bit_no_verif_id_lem :
    (m : Can1Msg) (b : McBit) (v : Bool)
    → IsMessage m
    → IsBit b
    → (m' : Can1Msg) × (set_bit_no_verif_id m b v ≡ some m') × BitSet m b v m'
unfolding set_bit_no_verif_id with_bit
set_bit_no_verif_id_lem m b v i w =
    let (n, e, h) = byte_of m b i w in
    (
      written m b n v,
      rw (e, lt→ltb b.indice_bit 31 (omega arith), bit_or-absorb, bit_and-absorb)
          (rw (
            lt→ltb b.indice_data (length m.bytes) (omega arith),
            mod-eq_of_lt (with_bit-lt n b.indice_bit v h w.bit_in),
          )),
      written-BitSet m b n v i w h e,
    )

set_bit_sides :
    (m : Can1Msg) (b : McBit) (v : Bool) (errors : ℕ)
    → (if v then set_bit_high m b errors else set_bit_low m b errors) ≡ set_bit m b v errors
unfolding set_bit set_bit_high set_bit_low
set_bit_sides m b true errors = rw (set_bit_no_verif_id_high m b)
set_bit_sides m b false errors = rw (set_bit_no_verif_id_low m b)

-- A bit that is set in a message with the identifier of its definition is read back as it was set,
-- every other bit of the data and the identifier stay, no error is counted, the array stays an
-- array of bytes, and the setter of the one value writes the same message.
pub set_bit-get_bit :
    (m : Can1Msg) (b : McBit) (v : Bool) (errors : ℕ)
    → IsMessage m
    → IsBit b
    → m.id ≡ b.id_value
    → (m' : Can1Msg) × (set_bit m b v errors ≡ some (m', errors))
      × ((if v then set_bit_high m b errors else set_bit_low m b errors) ≡ some (m', errors))
      × (get_bit m' b errors ≡ some (v, errors))
      × BitSet m b v m'
unfolding set_bit set_bit_high set_bit_low get_bit
set_bit-get_bit m b v errors i w e =
    let (m', stored, done) = set_bit_no_verif_id_lem m b v i w in
    let same : (m.id == b.id_value) ≡ true = ground arith in
    let same' : (m'.id == b.id_value) ≡ true = rw (done.same_id) same in
    (
      m',
      rw (same, stored),
      set_bit_sides m b v errors ∙ rw (same, stored),
      rw (same', done.here),
      done,
    )
