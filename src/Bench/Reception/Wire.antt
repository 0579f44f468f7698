-- ===== src/Bench/Reception/Wire.antt =====
-- A message that is sent is received as it was.
use native.Mathlib.Nat.{pow-suc, one-le-pow}
use projet_commun_unirail.Prelude.{
  ℕ, zero, suc, ◌-◌, ◌/◌, ◌^◌, ◌≡◌, ◌≤◌, ◌<◌, refl, ◌∙◌, Bool, true, false, some, List, [], ◌∷◌,
  Bool-cases, inl, inr, if◌then◌else◌, ltb, take, length, arith, bit_and, bit_or,
}
use projet_commun_unirail.Prelude.Bits.{
  test_bit, bits_ext, test_bit-bit_and, test_bit-bit_or, test_bit-zero, test_bit_of_lt,
}
use projet_commun_unirail.Can.{CanFrame}
use projet_commun_unirail.Bench.Memory.{bit_and-pow, test_bit-pow}
use projet_commun_unirail.Bench.Message.{Can1Msg, can1_msg_data, can1_frame_ext, can1_frame_std}
use projet_commun_unirail.Bench.Copies.{overwrite-Done}
use projet_commun_unirail.Bench.Driver.{
  can_eff_flag, can_rtr_flag, can_sff_mask, can_eff_mask, can_id_of, fill_frame,
}
use projet_commun_unirail.Bench.Reception.{has_flag, read_into}

test_bit-low_mask : (n k : ℕ) → test_bit (2 ^ n - 1) k ≡ ltb k n
test_bit-low_mask zero k = test_bit-zero k ∙ ground arith
test_bit-low_mask (suc n) zero = ground (arith, pow-suc 2 n, one-le-pow n 2)
test_bit-low_mask (suc n) (suc k) =
    let half : (2 ^ suc n - 1) / 2 ≡ 2 ^ n - 1 = omega (arith, pow-suc 2 n, one-le-pow n 2) in
    rw half (test_bit-low_mask n k ∙ ground arith)

-- An identifier of `w` bits keeps them under a higher flag and a mask of `w` bits.
masked : (w f id : ℕ) → id < 2 ^ w → w ≤ f → bit_and (bit_or id (2 ^ f)) (2 ^ w - 1) ≡ id
masked w f id h p = bits_ext (bit_and (bit_or id (2 ^ f)) (2 ^ w - 1)) id (λ k.
    test_bit-bit_and k (bit_or id (2 ^ f)) (2 ^ w - 1)
    ∙ rw (test_bit-bit_or k id (2 ^ f), test_bit-pow f k, test_bit-low_mask w k)
        (elim (Bool-cases (ltb k w)) [
          | inl below ↦ rw below (ground arith)
          | inr above ↦ rw (above, test_bit_of_lt w k id h (ground arith)) (ground arith)
        ]))

masked_plain : (w id : ℕ) → id < 2 ^ w → bit_and id (2 ^ w - 1) ≡ id
masked_plain w id h = bits_ext (bit_and id (2 ^ w - 1)) id (λ k.
    test_bit-bit_and k id (2 ^ w - 1)
    ∙ rw (test_bit-low_mask w k) (elim (Bool-cases (ltb k w)) [
      | inl below ↦ rw below (ground arith)
      | inr above ↦ rw (above, test_bit_of_lt w k id h (ground arith)) (ground arith)
    ]))

-- The flag of an identifier is one of its bits.
has_flag_bit : (id f : ℕ) → has_flag id (2 ^ f) ≡ test_bit id f
has_flag_bit id f = elim (Bool-cases (test_bit id f)) [
  | inl set ↦ rw (bit_and-pow f id, set) (ground (arith, one-le-pow f 2))
  | inr unset ↦ rw (bit_and-pow f id, unset) (ground arith)
]

-- What the receiver of a message finds.
pub record Arrives (m : Can1Msg) (msgtype : ℕ) (before after : Can1Msg) : Type 0 where
  pub id : after.id ≡ m.id
  pub kind : after.msgtype ≡ msgtype
  pub count : after.dlc ≡ m.dlc
  pub same_data : take m.dlc after.bytes ≡ take m.dlc m.bytes
  pub kept_type : after.id_type ≡ before.id_type

-- The identifier of a frame gives back the one of the message, and its kind.
decoded :
    (m : Can1Msg) (ext : Bool)
    → m.id_type ≡ (if ext then can1_frame_ext else can1_frame_std)
    → m.id < (if ext then 2 ^ 29 else 2 ^ 11)
    → (has_flag (can_id_of m) can_rtr_flag ≡ false)
      × (has_flag (can_id_of m) can_eff_flag ≡ ext)
      × (bit_and (can_id_of m) (if ext then can_eff_mask else can_sff_mask) ≡ m.id)
decoded m true e h = rw e (
  has_flag_bit (bit_or m.id (2 ^ 31)) 30
      ∙ test_bit-bit_or 30 m.id (2 ^ 31)
      ∙ rw (test_bit_of_lt 29 30 m.id h (omega arith), test_bit-pow 31 30),
  has_flag_bit (bit_or m.id (2 ^ 31)) 31
      ∙ test_bit-bit_or 31 m.id (2 ^ 31)
      ∙ rw (test_bit_of_lt 29 31 m.id h (omega arith), test_bit-pow 31 31),
  masked 29 31 m.id h (omega arith),
)
decoded m false e h = rw e (
  has_flag_bit m.id 30 ∙ test_bit_of_lt 11 30 m.id h (omega arith),
  has_flag_bit m.id 31 ∙ test_bit_of_lt 11 31 m.id h (omega arith),
  masked_plain 11 m.id h,
)

take_prefix : (n k : ℕ) (xs ys : List ℕ) → n ≤ k → take k xs ≡ take k ys → take n xs ≡ take n ys
take_prefix zero k xs ys h e = refl
take_prefix (suc n) zero xs ys h e = absurd (omega arith)
take_prefix (suc n) (suc k) [] [] h e = refl
take_prefix (suc n) (suc k) [] (y ∷ ys) h e = cc
take_prefix (suc n) (suc k) (x ∷ xs) [] h e = cc
take_prefix (suc n) (suc k) (x ∷ xs) (y ∷ ys) h e =
    let rest : take n xs ≡ take n ys = take_prefix n k xs ys (omega arith) (cc) in
    let first : x ≡ y = cc in rw (first, rest)

-- A message with a standard identifier of 11 bits or an extended one of 29 bits and at most 8 data,
-- put into a frame by the sender and read from it by a receiver, arrives with its identifier, its
-- number of data and its data. The receiver finds whether the identifier is extended in the type of
-- the message; the type of the identifier is what it was before.
pub read_into-fill_frame :
    (m : Can1Msg) (ext : Bool) (frame : CanFrame) (before : Can1Msg)
    → m.id_type ≡ (if ext then can1_frame_ext else can1_frame_std)
    → m.id < (if ext then 2 ^ 29 else 2 ^ 11)
    → m.dlc ≤ 8
    → length m.bytes ≡ 9
    → length frame.bytes ≡ 8
    → length before.bytes ≡ 9
    → (wire : CanFrame) × (after : Can1Msg) × (fill_frame m frame ≡ some wire)
      × (read_into wire before ≡ some after)
      × Arrives m (if ext then can1_frame_ext else can1_msg_data) before after
unfolding fill_frame read_into
read_into-fill_frame m ext frame before e h short w v u =
    let (bytes, filled, long, same) =
      overwrite-Done m.dlc m.bytes frame.bytes (omega arith) (omega arith) in
    let (got, read, long', same') =
      overwrite-Done 8 bytes before.bytes (omega arith) (omega arith) in
    let (no_rtr, eff, id) = decoded m ext e h in
    (
      record { can_id = can_id_of m; can_dlc = m.dlc; bytes = bytes },
      record before {
        msgtype = if ext then can1_frame_ext else can1_msg_data;
        id = m.id;
        dlc = m.dlc;
        bytes = got;
      },
      rw filled,
      rw (read, no_rtr, eff, id),
      record {
        id = refl;
        kind = refl;
        count = refl;
        same_data = take_prefix m.dlc 8 got bytes short same' ∙ same;
        kept_type = refl;
      },
    )
