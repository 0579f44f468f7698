-- ===== src/Bench/Fifo.antt =====
-- TestCanLinux/CAN/MESCAN1_Utilitaire.c: the queue of messages.
pub mod Refine
use projet_commun_unirail.Prelude.{
  ℕ, zero, ◌+◌, ◌-◌, ◌<◌, Bool, true, false, Option, some, List, [], ◌∷◌, ◌>>=◌, if◌then◌else◌, ltb,
  ◌==◌, update,
}
use projet_commun_unirail.Bench.Message.{Can1Msg}
use projet_commun_unirail.Bench.Copies.{overwrite}

abbrev pub taille_fifo : ℕ
taille_fifo = 20

-- `iFILE_MesCAN`. The array is written and read only at indices below `taille_fifo`, as the
-- invariant of Refine says.
pub record Fifo : Type 0 where
  pub tete : ℕ
  pub queue : ℕ
  pub nb_transaction : ℕ
  pub values : ℕ → Can1Msg

unfoldable pub init_fifo : Fifo → Fifo
init_fifo f = record f { tete = 0; queue = 0; nb_transaction = 0 }

unfoldable pub is_file_vide : Fifo → Bool
is_file_vide f = f.tete == f.queue

-- The index behind `i`.
abbrev pub next : ℕ → ℕ
next i = if i == taille_fifo - 1 then 0 else i + 1

unfoldable pub enfiler : Fifo → Can1Msg → Bool × Fifo
enfiler f m =
    if ltb f.nb_transaction (taille_fifo - 1)
    then (
      true,
      record {
        tete = f.tete;
        queue = next f.queue;
        nb_transaction = f.nb_transaction + 1;
        values = update f.values f.queue m;
      },
    )
    else (false, f)

-- The message goes to `dest`, whose last byte stays.
unfoldable pub defiler : Fifo → Can1Msg → Option (Bool × Fifo × Can1Msg)
defiler f dest =
    let head = f.values f.tete in
    if f.nb_transaction == 0
    then some (false, f, dest)
    else (overwrite 8 head.bytes dest.bytes >>= λ bytes. some (
      true,
      record f { tete = next f.tete; nb_transaction = f.nb_transaction - 1 },
      record head { bytes = bytes },
    ))
