-- ===== src/Bench/Copies.antt =====
-- TestCanLinux/CAN/MESCAN1_Utilitaire.c: messages and arrays that are cleared, copied and compared.
-- A loop over the data is a recursion on the bytes from data0 on.
use projet_commun_unirail.Prelude.{
  ℕ, zero, suc, ◌≤◌, ◌≡◌, refl, ap, Bool, true, false, Option, none, some, List, [], ◌∷◌, ◌>>=◌,
  if◌then◌else◌, ltb, ◌==◌, length, take, arith,
}
use projet_commun_unirail.Bench.Message.{Can1Msg, can1_msg_data, can1_frame_std}

-- Zero into the first `n` bytes.
unfoldable pub clear : ℕ → List ℕ → Option (List ℕ)
clear zero xs = some xs
clear (suc n) [] = none
clear (suc n) (x ∷ xs) = clear n xs >>= λ rest. some (0 ∷ rest)

-- The first `n` bytes of the source into the destination.
unfoldable pub overwrite : ℕ → List ℕ → List ℕ → Option (List ℕ)
overwrite zero src dest = some dest
overwrite (suc n) [] dest = none
overwrite (suc n) (x ∷ src) [] = none
overwrite (suc n) (x ∷ src) (y ∷ dest) = overwrite n src dest >>= λ rest. some (x ∷ rest)

-- `MESCAN_InitAndRAZ_Alldatas`: entries 7 to 15.
pub init_and_raz_alldatas : Can1Msg → Option Can1Msg
init_and_raz_alldatas m = do
  bytes ← clear 9 m.bytes
  some (record m { msgtype = can1_msg_data; id_type = can1_frame_std; bytes = bytes })

-- The two copies take entries 7 to 14; the identifier and its type stay those of the destination.
pub duplique_message_with_dlc : Can1Msg → Can1Msg → Option Can1Msg
duplique_message_with_dlc src dest = do
  bytes ← overwrite 8 src.bytes dest.bytes
  some (record dest { msgtype = src.msgtype; dlc = src.dlc; bytes = bytes })

pub duplique_message_sauf_dlc : Can1Msg → Can1Msg → Option Can1Msg
duplique_message_sauf_dlc src dest = do
  bytes ← overwrite 8 src.bytes dest.bytes
  some (record dest { msgtype = src.msgtype; bytes = bytes })

pub is_data_trame : Can1Msg → Bool
is_data_trame m = m.msgtype == can1_msg_data

-- The largest number of data of a frame.
abbrev pub at_most_8 : ℕ → ℕ
at_most_8 len_tab = if ltb 8 len_tab then 8 else len_tab

pub compare_loop : ℕ → List ℕ → List ℕ → Bool → Option Bool
compare_loop zero xs ys same = some same
compare_loop (suc n) [] ys same = none
compare_loop (suc n) (x ∷ xs) [] same = none
compare_loop (suc n) (x ∷ xs) (y ∷ ys) same = compare_loop n xs ys (if x == y then same else false)

pub compare_data_mes_can_and_tab8 : Can1Msg → List ℕ → ℕ → Option Bool
compare_data_mes_can_and_tab8 m data_array len_tab =
    compare_loop (at_most_8 len_tab) m.bytes data_array true

pub copy_data_mes_can_to_tab : Can1Msg → List ℕ → ℕ → Option (List ℕ)
copy_data_mes_can_to_tab m data_array len_tab = overwrite (at_most_8 len_tab) m.bytes data_array

-- A copy of `n` bytes is done when both arrays have them.
pub overwrite-Done :
    (n : ℕ) (src dest : List ℕ)
    → n ≤ length src
    → n ≤ length dest
    → (out : List ℕ) × (overwrite n src dest ≡ some out)
      × (length out ≡ length dest)
      × (take n out ≡ take n src)
unfolding overwrite
overwrite-Done zero src dest p q = (dest, refl, refl, refl)
overwrite-Done (suc n) [] dest p q = absurd (omega arith)
overwrite-Done (suc n) (x ∷ src) [] p q = absurd (omega arith)
overwrite-Done (suc n) (x ∷ src) (y ∷ dest) p q =
    let (out, done, size, same) = overwrite-Done n src dest (omega arith) (omega arith) in
    (x ∷ out, rw done, ap suc size, ap (λ t. x ∷ t) same)
