-- ===== src/Bench/Fields.antt =====
-- TestCanLinux/CAN/MESCAN1_Utilitaire.c: bits, bytes, words and floats in a CAN message. A function
-- with an identifier in its definition takes the counter of wrong definitions and returns it.
use projet_commun_unirail.Prelude.{
  ℕ, ◌+◌, ◌-◌, ◌*◌, ◌/◌, ◌%◌, ◌^◌, Bool, false, not, Option, none, some, ◌>>=◌, if◌then◌else◌, ltb,
  ◌==◌, bit_and, bit_or,
}
use projet_commun_unirail.Prelude.Bits.{complement}
use projet_commun_unirail.Bench.Message.{Can1Msg, McBit, McData, verif_id, read_byte, write_byte}

-- `1 << k` in an int. C leaves it undefined from 31 on.
abbrev pub shifted : ℕ → Option ℕ
shifted k = if ltb k 31 then some (2 ^ k) else none

unfoldable pub set_bit_high_no_verif_id : Can1Msg → McBit → Option Can1Msg
set_bit_high_no_verif_id m def_bit = do
  val ← read_byte m def_bit.indice_data
  bit ← shifted def_bit.indice_bit
  write_byte def_bit.indice_data (bit_or val bit % 256) m

unfoldable pub set_bit_high : Can1Msg → McBit → ℕ → Option (Can1Msg × ℕ)
set_bit_high m def_bit errors =
    verif_id m def_bit.id_value errors m (set_bit_high_no_verif_id m def_bit)

unfoldable pub set_bit_low_no_verif_id : Can1Msg → McBit → Option Can1Msg
set_bit_low_no_verif_id m def_bit = do
  val ← read_byte m def_bit.indice_data
  bit ← shifted def_bit.indice_bit
  write_byte def_bit.indice_data (bit_and val (complement 32 bit) % 256) m

unfoldable pub set_bit_low : Can1Msg → McBit → ℕ → Option (Can1Msg × ℕ)
set_bit_low m def_bit errors =
    verif_id m def_bit.id_value errors m (set_bit_low_no_verif_id m def_bit)

-- The byte is combined twice with what was read of it.
unfoldable pub set_bit_no_verif_id : Can1Msg → McBit → Bool → Option Can1Msg
set_bit_no_verif_id m def_bit valbit = do
  val ← read_byte m def_bit.indice_data
  bit ← shifted def_bit.indice_bit
  write_byte def_bit.indice_data
      ((if valbit
          then bit_or val (bit_or val bit)
          else bit_and val (bit_and val (complement 32 bit)))
        % 256)
      m

unfoldable pub set_bit : Can1Msg → McBit → Bool → ℕ → Option (Can1Msg × ℕ)
set_bit m def_bit valbit errors =
    verif_id m def_bit.id_value errors m (set_bit_no_verif_id m def_bit valbit)

unfoldable pub get_bit_no_verif_id : Can1Msg → McBit → Option Bool
get_bit_no_verif_id m def_bit = do
  val ← read_byte m def_bit.indice_data
  bit ← shifted def_bit.indice_bit
  some (not (bit_and val bit % 256 == 0))

unfoldable pub get_bit : Can1Msg → McBit → ℕ → Option (Bool × ℕ)
get_bit m def_bit errors = verif_id m def_bit.id_value errors false (get_bit_no_verif_id m def_bit)

unfoldable pub get_data8_no_verif_id : Can1Msg → McData → Option ℕ
get_data8_no_verif_id m def_data = read_byte m def_data.indice_data

unfoldable pub get_data8 : Can1Msg → McData → ℕ → Option (ℕ × ℕ)
get_data8 m def_data errors =
    verif_id m def_data.id_value errors 0 (get_data8_no_verif_id m def_data)

unfoldable pub set_data8_no_verif_id : Can1Msg → McData → ℕ → Option Can1Msg
set_data8_no_verif_id m def_data v = write_byte def_data.indice_data v m

unfoldable pub set_data8 : Can1Msg → McData → ℕ → ℕ → Option (Can1Msg × ℕ)
set_data8 m def_data v errors =
    verif_id m def_data.id_value errors m (set_data8_no_verif_id m def_data v)

unfoldable pub decremente_data_to_zero : Can1Msg → McData → ℕ → Option (Can1Msg × ℕ)
decremente_data_to_zero m def_data errors = verif_id m def_data.id_value errors m do
  val ← read_byte m def_data.indice_data
  if val == 0 then some m else write_byte def_data.indice_data (val - 1) m

unfoldable pub set_data16 : Can1Msg → McData → ℕ → ℕ → Option (Can1Msg × ℕ)
set_data16 m def_data v errors = verif_id m def_data.id_value errors m do
  low ← write_byte def_data.indice_data (v % 256) m
  write_byte (1 + def_data.indice_data) (v / 2 ^ 8 % 256) low

unfoldable pub get_data16 : Can1Msg → McData → ℕ → Option (ℕ × ℕ)
get_data16 m def_data errors = verif_id m def_data.id_value errors 0 do
  high ← read_byte m (1 + def_data.indice_data)
  low ← read_byte m def_data.indice_data
  some ((high * 2 ^ 8 % 2 ^ 16 + low) % 2 ^ 16)

-- The four bytes of a word, the lowest first.
abbrev pub write_word : ℕ → ℕ → Can1Msg → Option Can1Msg
write_word i v m = do
  m1 ← write_byte i (v % 256) m
  m2 ← write_byte (1 + i) (v / 2 ^ 8 % 256) m1
  m3 ← write_byte (2 + i) (v / 2 ^ 16 % 256) m2
  write_byte (3 + i) (v / 2 ^ 24 % 256) m3

unfoldable pub set_data32 : Can1Msg → McData → ℕ → ℕ → Option (Can1Msg × ℕ)
set_data32 m def_data v errors =
    verif_id m def_data.id_value errors m (write_word def_data.indice_data v m)

unfoldable pub get_data32 : Can1Msg → McData → ℕ → Option (ℕ × ℕ)
get_data32 m def_data errors = verif_id m def_data.id_value errors 0 do
  b3 ← read_byte m (3 + def_data.indice_data)
  b2 ← read_byte m (2 + def_data.indice_data)
  b1 ← read_byte m (1 + def_data.indice_data)
  b0 ← read_byte m def_data.indice_data
  let w3 = b3 * 2 ^ 8 % 2 ^ 32
  let w2 = (w3 + b2) % 2 ^ 32 * 2 ^ 8 % 2 ^ 32
  let w1 = (w2 + b1) % 2 ^ 32 * 2 ^ 8 % 2 ^ 32
  some ((w1 + b0) % 2 ^ 32)

-- The bits of a float and the float of 32 bits: the union `entfloat`.
pub record EntFloat (F : Type 0) : Type 0 where
  pub d_long : F → ℕ
  pub d_float : ℕ → F
  pub zero_float : F

module _ {F : Type 0} (u : EntFloat F) where
  unfoldable pub set_data_float32 : Can1Msg → McData → F → ℕ → Option (Can1Msg × ℕ)
  set_data_float32 m def_data val_float errors =
      let datalong = u.d_long val_float in
      verif_id m def_data.id_value errors m (write_word def_data.indice_data datalong m)

  unfoldable pub get_data_float32 : Can1Msg → McData → ℕ → Option (F × ℕ)
  get_data_float32 m def_data errors = verif_id m def_data.id_value errors u.zero_float do
    b3 ← read_byte m (3 + def_data.indice_data)
    let w3 = b3 * 2 ^ 8 % 2 ^ 32
    b2 ← read_byte m (2 + def_data.indice_data)
    let w2 = (w3 + b2) % 2 ^ 32 * 2 ^ 8 % 2 ^ 32
    b1 ← read_byte m (1 + def_data.indice_data)
    let w1 = (w2 + b1) % 2 ^ 32 * 2 ^ 8 % 2 ^ 32
    b0 ← read_byte m def_data.indice_data
    some (u.d_float ((w1 + b0) % 2 ^ 32))
