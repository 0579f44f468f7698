-- ===== src/Rbc/Handler.antt =====
-- app/RBC/src/requests_handler.c, `handle_request`. The buffers of the reply are fresh, and the reply
-- goes over what `send_message` held before.
use projet_commun_unirail.Prelude.{ℕ, Bool, Option, none, some, ◌>>=◌, if◌then◌else◌, take, update}
use projet_commun_unirail.Prelude.Int.{ℤ, pos, ◌==ℤ◌, ◌-ℤ◌, leb_ℤ}
use projet_commun_unirail.Float.{Float, FloatText}
use projet_commun_unirail.Track.{chemins, slot}
use projet_commun_unirail.Eoa.{next_eoa}
use projet_commun_unirail.Can.{entry}
use projet_commun_unirail.Resources.{
  RbcState, not_due, waiting, locked, l_res_req, ask_resources, free_resources,
}
use projet_commun_unirail.Comm.{Message, print_int, strtol, to_int}

-- A request is answered, or its thread waits for the bits of a mask.
pub data Handled (F : Type 0) : Type 0 where
  replied : Message → RbcState F → Handled F
  blocked : ℕ → Handled F

abbrev pub nb_trains : ℤ
nb_trains = pos 3

-- A reply with no data of its own.
abbrev pub reply : ℕ → Message → Message
reply code m = record m { code = pos code; data_0 = none }

module _ {F : Type 0} ⦃f : Float F⦄ ⦃t : FloatText F⦄ where
  -- The new position of train `k`, then what it frees.
  unfoldable pub store_position : ℕ → ℤ → F → RbcState F → Option (RbcState F)
  store_position k bal pos_r s =
      free_resources k (record s {
        pos_trains = update s.pos_trains k (record { bal = to_int bal; pos_r = pos_r });
      })

  -- Request 101; a missing text is a read through NULL.
  unfoldable pub handle_report : Message → Message → RbcState F → Option (Handled F)
  handle_report recv send s = do
    data_0 ← recv.data_0
    elim (strtol data_0) [
      | none ↦ some (replied (reply 401 send) s)
      | some bal ↦ recv.data_1 >>= λ data_1. elim (t.strtod data_1) [
        | none ↦ some (replied (reply 401 send) s)
        | some pos_r ↦ do
          k ← slot recv.train_id
          s' ← store_position k bal pos_r s
          some (replied (reply 201 send) s')
      ]
    ]

  -- The end of authority and its text, in buffers of ten bytes.
  unfoldable pub send_eoa : ℕ → Message → RbcState F → Option (Handled F)
  send_eoa k send s = do
    res ← entry l_res_req k (s.next_bal_index_req k)
    eoa ← next_eoa k s.pos_trains res chemins
    some (
        replied
          (record send {
            code = pos 202;
            data_0 = some (take 9 (print_int eoa.bal));
            data_1 = some (take 9 (t.print_whole eoa.pos_r));
          })
          s)

  -- Request 102.
  unfoldable pub handle_movement : (ℕ → Bool) → Message → Message → RbcState F → Option (Handled F)
  handle_movement fails recv send s = do
    k ← slot recv.train_id
    asked ← ask_resources fails k s
    elim asked [
      | not_due ↦ send_eoa k send s
      | waiting mask ↦ some (blocked mask)
      | locked _ _ s' ↦ send_eoa k send s'
    ]

  unfoldable pub handle_code : (ℕ → Bool) → Message → Message → RbcState F → Option (Handled F)
  handle_code fails recv send s =
      if recv.code ==ℤ pos 101
      then handle_report recv send s
      else if recv.code ==ℤ pos 102
      then handle_movement fails recv send s
      else if recv.code ==ℤ pos 100
      then some (replied (record send { code = pos 200; data_0 = none; data_1 = none }) s)
      else some (replied (reply 400 send) s)

  unfoldable pub handle_request : (ℕ → Bool) → Message → Message → RbcState F → Option (Handled F)
  handle_request fails recv send s =
      let send' : Message = record send { train_id = recv.train_id; req_id = recv.req_id } in
      if leb_ℤ nb_trains (recv.train_id -ℤ pos 1)
      then some (replied (reply 404 send') s)
      else handle_code fails recv send' s
