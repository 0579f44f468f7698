-- ===== src/Bench/Message.antt =====
-- TestCanLinux/CAN/MESCAN1_DefinitionVariable.h: a CAN message and the places of its data; and the
-- counter of wrong definitions of TestCanLinux/CAN/MESCAN1_Utilitaire.c.
use projet_commun_unirail.Prelude.{
  ℕ, ◌+◌, ◌%◌, ◌^◌, ◌≡◌, Option, some, List, ◌>>=◌, if◌then◌else◌, ◌==◌, length, get_elem?, All,
  ◌<◌,
}
use projet_commun_unirail.Bench.Memory.{store}

-- `can1_msg_data` and the others are the identifiers of the message types.
abbrev pub can1_msg_data : ℕ
can1_msg_data = 1

abbrev pub can1_msg_rtr : ℕ
can1_msg_rtr = 2

abbrev pub can1_frame_ext : ℕ
can1_frame_ext = 3

abbrev pub can1_frame_std : ℕ
can1_frame_std = 4

-- `uCAN1_MSG`, a union of a struct and of 16 bytes. `bytes` are the entries of `array` from 7 on:
-- data0 to data7, and the byte behind them. No code reaches the entries below through `array`.
pub record Can1Msg : Type 0 where
  pub id : ℕ
  pub id_type : ℕ
  pub msgtype : ℕ
  pub dlc : ℕ
  pub bytes : List ℕ

-- `MC_Bit`.
pub record McBit : Type 0 where
  pub id_value : ℕ
  pub indice_data : ℕ
  pub indice_bit : ℕ

-- `MC_Data8`, `MC_Data16`, `MC_Data32` and `MC_Datafloat32`, which have the same members.
pub record McData : Type 0 where
  pub id_value : ℕ
  pub indice_data : ℕ

-- The entries of `array` are bytes.
pub record IsMessage (m : Can1Msg) : Type 0 where
  pub size : length m.bytes ≡ 9
  pub small : All (λ b. b < 256) m.bytes

-- `MESCAN_Inc_cptErreurDefinition`, on 16 bits.
unfoldable pub inc_cpt_erreur_definition : ℕ → ℕ
inc_cpt_erreur_definition n = (n + 1) % 2 ^ 16

-- The identifier of the message is the one of the definition, or the error is counted and `other`
-- is the result.
abbrev pub verif_id {ℓ} : {A : Type ℓ} → Can1Msg → ℕ → ℕ → A → Option A → Option (A × ℕ)
verif_id m id_value errors other here =
    if m.id == id_value
    then (here >>= λ a. some (a, errors))
    else some (other, inc_cpt_erreur_definition errors)

abbrev pub read_byte : Can1Msg → ℕ → Option ℕ
read_byte m i = get_elem? m.bytes i

abbrev pub write_byte : ℕ → ℕ → Can1Msg → Option Can1Msg
write_byte i v m = do bytes ← store m.bytes i v; some (record m { bytes = bytes })
