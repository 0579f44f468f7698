-- ===== src/Rbc/Outcomes.antt =====
-- The kinds of replies of `handle_request` of app/RBC/src/requests_handler.c, and what each did.
use projet_commun_unirail.Prelude.{
  ℕ, ◌+◌, ◌%◌, ◌<◌, ◌≡◌, ◌≢◌, ◌⊎◌, Bool, not, ◌&&◌, none, some, take, List, get_elem?, update,
}
use projet_commun_unirail.Prelude.Int.{ℤ, pos, ◌≤ℤ◌}
use projet_commun_unirail.Prelude.Bits.{test_bit}
use projet_commun_unirail.Float.{Float, FloatText, ◌≼◌}
use projet_commun_unirail.Track.{Position, chemins, slot}
use projet_commun_unirail.Eoa.{next_eoa}
use projet_commun_unirail.Can.{entry}
use projet_commun_unirail.Resources.{
  RbcState, not_due, locked, l_res_req, l_res_lib, l_mask_lib, l_res_size, ask_resources,
}
use projet_commun_unirail.Comm.{Message, print_int, strtol, to_int}
use projet_commun_unirail.Rbc.Handler.{store_position}

abbrev pub IsEcho : Message → Message → Type 0
IsEcho recv m = (m.req_id ≡ recv.req_id) × (m.train_id ≡ recv.train_id)

-- A text of the report is not read.
abbrev pub Unread : (F : Type 0) ⦃t : FloatText F⦄ → Message → Type 0
Unread F ⦃t⦄ recv =
    (text_0 : List ℕ) × (recv.data_0 ≡ some text_0)
    × ((strtol text_0 ≡ none)
        ⊎ ((text_1 : List ℕ) × (recv.data_1 ≡ some text_1) × (t.strtod text_1 ≡ none)))

-- Why an answer has a code of its own and no data.
pub data Reason (F : Type 0) ⦃t : FloatText F⦄ (recv : Message) (code : ℤ) : Type 0 where
  unknown_train : code ≡ pos 404 → pos 4 ≤ℤ recv.train_id → Reason F recv code
  unread_report :
      code ≡ pos 401
      → recv.code ≡ pos 101
      → recv.train_id ≤ℤ pos 3
      → Unread F recv
      → Reason F recv code
  connected : code ≡ pos 200 → recv.code ≡ pos 100 → recv.train_id ≤ℤ pos 3 → Reason F recv code
  unknown_code :
      code ≡ pos 400
      → recv.code ≢ pos 100
      → recv.code ≢ pos 101
      → recv.code ≢ pos 102
      → recv.train_id ≤ℤ pos 3
      → Reason F recv code

module _ {F : Type 0} ⦃f : Float F⦄ ⦃t : FloatText F⦄ where
  -- Train `k` at `p` has reached the balise where it frees its next resource.
  abbrev pub Frees : ℕ → Position F → RbcState F → Type 0
  Frees k p s =
      (entry l_res_lib k (s.next_bal_index_lib k) ≡ some p.bal) × (f.tenths (pos 0) ≼ p.pos_r)

  -- The next mask of train `k` is freed, bit by bit, and its counter goes on.
  pub record Unlocked (k : ℕ) (s s' : RbcState F) : Type 0 where
    pub mask : ℕ
    pub mask_of : entry l_mask_lib k (s.next_bal_index_lib k) ≡ some mask
    pub bits :
        (b : ℕ)
        → b < 8
        → test_bit s'.resources b ≡ (test_bit s.resources b && not (test_bit mask b))
    pub size : ℕ
    pub size_of : get_elem? l_res_size k ≡ some size
    pub advanced :
        s'.next_bal_index_lib ≡ update s.next_bal_index_lib k ((s.next_bal_index_lib k + 1) % size)

  -- The position of train `k` is `p`, and its next resource is freed exactly if it stands where it
  -- frees it.
  pub record Moved (k : ℕ) (p : Position F) (s s' : RbcState F) : Type 0 where
    pub placed : s'.pos_trains ≡ update s.pos_trains k p
    pub same_req : s'.next_bal_index_req ≡ s.next_bal_index_req
    pub locks :
        (Frees k p s × Unlocked k s s')
        ⊎ ((¬ Frees k p s)
            × (s'.resources ≡ s.resources)
            × (s'.next_bal_index_lib ≡ s.next_bal_index_lib))

  -- The report was read and stored for train `k`.
  pub record Stored (recv m : Message) (s s' : RbcState F) : Type 0 where
    pub asked : recv.code ≡ pos 101
    pub answer : m.code ≡ pos 201
    pub text_0 : List ℕ
    pub text_1 : List ℕ
    pub data_0 : recv.data_0 ≡ some text_0
    pub data_1 : recv.data_1 ≡ some text_1
    pub bal : ℤ
    pub bal_of : strtol text_0 ≡ some bal
    pub pos_r : F
    pub pos_r_of : t.strtod text_1 ≡ some pos_r
    pub k : ℕ
    pub train : slot recv.train_id ≡ some k
    pub known : recv.train_id ≤ℤ pos 3
    pub stored : store_position k bal pos_r s ≡ some s'
    pub moved : Moved k (record { bal = to_int bal; pos_r = pos_r }) s s'

  -- The reply carries the end of authority of train `k` in the state after the request.
  pub record Granted (fails : ℕ → Bool) (recv m : Message) (s s' : RbcState F) : Type 0 where
    pub asked : recv.code ≡ pos 102
    pub answer : m.code ≡ pos 202
    pub k : ℕ
    pub train : slot recv.train_id ≡ some k
    pub known : recv.train_id ≤ℤ pos 3
    pub resources :
        ((ask_resources fails k s ≡ some not_due) × (s' ≡ s))
        ⊎ ((mask : ℕ) × ((result : ℕ) × (ask_resources fails k s ≡ some (locked mask result s'))))
    pub resource : ℤ
    pub resource_of : entry l_res_req k (s'.next_bal_index_req k) ≡ some resource
    pub eoa : Position F
    pub eoa_of : next_eoa k s'.pos_trains resource chemins ≡ some eoa
    pub data_0 : m.data_0 ≡ some (take 9 (print_int eoa.bal))
    pub data_1 : m.data_1 ≡ some (take 9 (t.print_whole eoa.pos_r))

  pub record Refused (recv m : Message) (s s' : RbcState F) : Type 0 where
    pub same : s' ≡ s
    pub no_data : m.data_0 ≡ none
    pub answer : Reason F recv m.code

  pub data Outcome (fails : ℕ → Bool) (recv m : Message) (s s' : RbcState F) : Type 0 where
    refused : Refused recv m s s' → Outcome fails recv m s s'
    stored_position : Stored recv m s s' → Outcome fails recv m s s'
    granted_authority : Granted fails recv m s s' → Outcome fails recv m s s'
