-- ===== src/Rbc/Answers.antt =====
-- `handle_request` of app/RBC/src/requests_handler.c answers the reports and the movement requests of
-- the three trains, in every state that is sound.
use projet_commun_unirail.Prelude.{
  ℕ, zero, suc, ◌+◌, ◌%◌, ◌≡◌, refl, ap, ◌∙◌, ◌⊎◌, inl, inr, Bool, true, false, some, List, ◌>>=◌,
  get_elem?, update, take, arith,
}
use projet_commun_unirail.Prelude.Int.{ℤ, pos, ◌-ℤ◌, leb_ℤ}
use projet_commun_unirail.Float.{Float, FloatText, ◌≼◌, IsOrdered}
use projet_commun_unirail.Track.{Position, chemins, slot}
use projet_commun_unirail.Eoa.{is_before, Authority, next_eoa-Authority}
use projet_commun_unirail.Can.{entry}
use projet_commun_unirail.Resources.{
  l_res_req, l_res_size, RbcState, Asked, not_due, waiting, locked, ask_resources,
  ask_resources-IsLocked, IsWaiting, ask_resources-waiting,
}
use projet_commun_unirail.Comm.{Message, print_int, strtol, to_int}
use projet_commun_unirail.Rbc.Handler.{
  replied, blocked, nb_trains, reply, store_position, handle_report, send_eoa, handle_movement,
  handle_code, handle_request,
}
use projet_commun_unirail.Rbc.Sound.{
  IsPlaced, IsSound, IsLocked-IsSound, ask_resources-Returns, free_resources-Returns,
  free_resources-IsSound, free_resources-pos_trains,
}
use projet_commun_unirail.Rbc.Cells.{update_lem, cell}

-- The reply that is still to be filled in.
abbrev pub addressed : Message → Message → Message
addressed recv send = record send { train_id = recv.train_id; req_id = recv.req_id }

update_self : {A : Type 0} (cells : ℕ → A) (k : ℕ) (a : A) → update cells k a k ≡ a
update_self cells k a = ground arith

-- The guard lets the three trains pass.
is_known :
    (k size : ℕ)
    → get_elem? l_res_size k ≡ some size
    → leb_ℤ nb_trains (pos (suc k) -ℤ pos 1) ≡ false
unfolding ◌-ℤ◌
is_known zero size e = refl
is_known (suc zero) size e = refl
is_known (suc (suc zero)) size e = refl
is_known (suc (suc (suc k))) size e = cc

module _ {F : Type 0} ⦃f : Float F⦄ ⦃t : FloatText F⦄ where
  -- The answer to a movement request of train `k`: the position that is sent, with what it promises.
  pub record Answer (k : ℕ) (recv : Message) (s : RbcState F) (m : Message) (s' : RbcState F)
      : Type 0 where
    pub req_id : m.req_id ≡ recv.req_id
    pub train_id : m.train_id ≡ recv.train_id
    pub code : m.code ≡ pos 202
    pub eoa : Position F
    pub data_0 : m.data_0 ≡ some (take 9 (print_int eoa.bal))
    pub data_1 : m.data_1 ≡ some (take 9 (t.print_whole eoa.pos_r))
    pub resource : ℤ
    pub resource_of : entry l_res_req k (s'.next_bal_index_req k) ≡ some resource
    pub chemin : List ℤ
    pub chemin_of : get_elem? chemins k ≡ some chemin
    pub authority :
        Authority chemin resource
          (s.pos_trains k)
          (s.pos_trains ((k + 1) % 3))
          (s.pos_trains ((k + 2) % 3))
          eoa
    pub sound : IsSound s'

  -- The two other trains of `k`, when both stand in front on its balise, are in the order of the tests.
  abbrev pub IsQueued : ℕ → (ℕ → Position F) → Type 0
  IsQueued k trains =
      let p1 = trains ((k + 1) % 3) in
      let p2 = trains ((k + 2) % 3) in
      is_before (trains k) (trains k).bal p1 ≡ true
      → is_before (trains k) (trains k).bal p2 ≡ true
      → p1.pos_r ≼ p2.pos_r

  module _ (laws : IsOrdered F) (k size : ℕ) (recv send : Message)
      (size_of : get_elem? l_res_size k ≡ some size) where
    send_eoa-Answer :
        (s s' : RbcState F)
        → IsSound s'
        → s'.pos_trains ≡ s.pos_trains
        → IsQueued k s.pos_trains
        → send.req_id ≡ recv.req_id
        → send.train_id ≡ recv.train_id
        → (m : Message) × (send_eoa k send s' ≡ some (replied m s')) × Answer k recv s m s'
    unfolding send_eoa
    send_eoa-Answer s s' sound same queued req_id train_id =
        let c = cell k (s'.next_bal_index_req k) size size_of (sound.req k size size_of) in
        let here = (sound.placed k).on_route c.route.1 in
        let (eoa, found, authority) =
          next_eoa-Authority laws k s'.pos_trains c.req.0 chemins c.route.0 here.0 c.req_on.0
            c.route.1 here.1 c.req_on.1 (sound.placed _).positive (sound.placed _).positive
            (rw same queued) in
        (
          _,
          rw (c.req.1, ◌>>=◌) (rw (found, ◌>>=◌)),
          record {
            req_id = req_id;
            train_id = train_id;
            code = refl;
            eoa = eoa;
            data_0 = refl;
            data_1 = refl;
            resource = c.req.0;
            resource_of = c.req.1;
            chemin = c.route.0;
            chemin_of = c.route.1;
            authority = rw same at authority;
            sound = sound;
          },
        )

    -- Request 102 once the resources were asked for.
    movement_asked :
        (fails : ℕ → Bool) (s : RbcState F) (a : Asked F)
        → IsSound s
        → IsQueued k s.pos_trains
        → send.req_id ≡ recv.req_id
        → send.train_id ≡ recv.train_id
        → slot recv.train_id ≡ some k
        → ask_resources fails k s ≡ some a
        → ((mask : ℕ) × IsWaiting k mask s
            × (handle_movement fails recv send s ≡ some (blocked mask)))
          ⊎ ((m : Message) × ((s' : RbcState F) × (handle_movement fails recv send s
                  ≡ some (replied m s'))
                × Answer k recv s m s'))
    unfolding handle_movement
    movement_asked fails s not_due sound queued req_id train_id train e =
        let (m, sends, answer) = send_eoa-Answer s s sound refl queued req_id train_id in
        inr (m, (s, rw (train, ◌>>=◌) (rw (e, ◌>>=◌) sends), answer))
    movement_asked fails s (waiting mask) sound queued req_id train_id train e =
        inl (mask, ask_resources-waiting fails k mask 0 s s e, rw (train, ◌>>=◌) (rw (e, ◌>>=◌)))
    movement_asked fails s (locked mask result s') sound queued req_id train_id train e =
        let (_, did) = ask_resources-IsLocked fails k mask result s s' e in
        let (m, sends, answer) =
          send_eoa-Answer s s' (IsLocked-IsSound fails k mask result s s' did sound) did.same_pos
            queued req_id train_id in
        inr (m, (s', rw (train, ◌>>=◌) (rw (e, ◌>>=◌) sends), answer))

  module _ (k size : ℕ) (recv send : Message) (size_of : get_elem? l_res_size k ≡ some size)
      (train : recv.train_id ≡ pos (suc k)) where
    handle_request_code :
        (fails : ℕ → Bool) (s : RbcState F)
        → handle_request fails recv send s ≡ handle_code fails recv (addressed recv send) s
    unfolding handle_request
    handle_request_code fails s = rw train (rw (is_known k size size_of))

    -- In a sound state, with the two other trains in the order of the tests if both stand in front
    -- on its balise, request 102 of a train from 1 to 3 has one of two ends. Either its thread waits for the
    -- mask of the counter of the train, which is due, and a bit of that mask is taken. Or it is answered with code 202 and an end of authority
    -- that lies beyond neither other train nor beyond the next resource, in a state that is sound.
    pub handle_request-Answer :
        IsOrdered F
        → (fails : ℕ → Bool) (s : RbcState F) → recv.code ≡ pos 102
        → IsSound s
        → IsQueued k s.pos_trains
        → ((mask : ℕ) × IsWaiting k mask s
            × (handle_request fails recv send s ≡ some (blocked mask)))
          ⊎ ((m : Message) × ((s' : RbcState F) × (handle_request fails recv send s
                  ≡ some (replied m s'))
                × Answer k recv s m s'))
    unfolding handle_code
    handle_request-Answer laws fails s code sound queued =
        let (a, asked) = ask_resources-Returns fails k size s sound size_of in
        let movement : handle_request fails recv send s
            ≡ handle_movement fails recv (addressed recv send) s =
          handle_request_code fails s ∙ rw code in
        rw movement (
          movement_asked laws k size recv (addressed recv send) size_of fails s a sound queued refl
            refl (rw train) asked)

    -- In a sound state, request 101 of a train from 1 to 3 with two texts that are read, for a
    -- position on its route at an offset that is not below zero, is answered with code 201; that
    -- position is stored for the train, and the state stays sound.
    pub handle_request-stores :
        (fails : ℕ → Bool) (s : RbcState F) (text_0 text_1 : List ℕ) (bal : ℤ) (pos_r : F)
        → recv.code ≡ pos 101
        → recv.data_0 ≡ some text_0
        → recv.data_1 ≡ some text_1
        → strtol text_0 ≡ some bal
        → t.strtod text_1 ≡ some pos_r
        → IsPlaced k (record { bal = to_int bal; pos_r = pos_r })
        → IsSound s
        → (s' : RbcState F) × (handle_request fails recv send s
            ≡ some (replied (reply 201 (addressed recv send)) s'))
          × (s'.pos_trains k ≡ record { bal = to_int bal; pos_r = pos_r })
          × IsSound s'
    unfolding handle_code handle_report store_position
    handle_request-stores fails s text_0 text_1 bal pos_r code data_0 data_1 bal_of pos_r_of there
          sound =
        let p : Position F = record { bal = to_int bal; pos_r = pos_r } in
        let s1 : RbcState F = record s { pos_trains = update s.pos_trains k p } in
        let sound1 : IsSound s1 = record {
          placed = update_lem IsPlaced s.pos_trains k p sound.placed there;
          req = sound.req;
          lib = sound.lib;
        } in
        let (s', freed) = free_resources-Returns fails k size s1 sound1 size_of in
        let report : handle_request fails recv send s ≡ handle_report recv (addressed recv send) s =
          handle_request_code fails s ∙ rw code in
        (
          s',
          report
              ∙ rw (data_0, ◌>>=◌)
                  (rw bal_of (rw (data_1, ◌>>=◌) (rw pos_r_of (rw train (rw (freed, ◌>>=◌)))))),
          ap (λ places. places k) (free_resources-pos_trains k s1 s' freed)
              ∙ update_self s.pos_trains k p,
          free_resources-IsSound k s1 s' freed sound1,
        )
