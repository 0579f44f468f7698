-- ===== src/Evc/Authorities.antt =====
-- A request of app/EVC/src/eoa_handler.c on its way through app/utility/src/comm.c and app/RBC/src, and
-- the end of authority on its way back.
use projet_commun_unirail.Prelude.{
  ℕ, suc, ◌<◌, ◌^◌, ◌≡◌, sym, ap, ◌∙◌, Bool, true, false, none, some, List, [], ◌>>=◌, take, arith,
}
use projet_commun_unirail.Prelude.Int.{ℤ, pos}
use projet_commun_unirail.Float.{Float, FloatText}
use projet_commun_unirail.Track.{Position}
use projet_commun_unirail.Resources.{RbcState}
use projet_commun_unirail.Comm.{
  Message, Mailbox, IsToken, IsCarried, send_data, receive_data, receive_data-send_data, print_int,
  print_int-IsToken, IsToken-take, length-take_le,
}
use projet_commun_unirail.Rbc.{
  Granted, handle_request-Outcome, replied, handle_request, no_request, handle_and_respond,
  serve_datagram,
}
use projet_commun_unirail.Evc.Thresholds.{EoaHandler, asking, eoa_round, read_eoa}
use projet_commun_unirail.Evc.Position.{read_eoa-print_int}
use projet_commun_unirail.Evc.Connection.{take_request-deliver}

-- Request 102.
abbrev pub movement : ℤ → ℤ → Message
movement req_id train_id = record {
  req_id = req_id;
  train_id = train_id;
  code = pos 102;
  data_0 = none;
  data_1 = none;
}

module _ {F : Type 0} ⦃f : Float F⦄ ⦃t : FloatText F⦄ (fails : ℕ → Bool) where
  -- The reply of the RBC, sent and read.
  Granted-received :
      (k req : ℕ) (send m old' : Message) (s s' : RbcState F)
      → handle_request fails (movement (pos req) (pos (suc k))) send s ≡ some (replied m s')
      → (granted : Granted fails (movement (pos req) (pos (suc k))) m s s') → k < 3
      → req < 2 ^ 31
      → IsToken (take 9 (t.print_whole granted.eoa.pos_r))
      → (receive_data (send_data m) old' ≡ some m) × (m.req_id ≡ pos req)
  Granted-received k req send m old' s s' handled granted low small plain =
      let ((number, train), _) =
        handle_request-Outcome fails (movement (pos req) (pos (suc k))) send m s s' handled in
      let eoa = granted.eoa in
      let carried : IsCarried (some (take 9 (print_int eoa.bal)))
          (some (take 9 (t.print_whole eoa.pos_r))) =
        (
          IsToken-take 8 (print_int eoa.bal) (print_int-IsToken eoa.bal),
          plain,
          omega (
            arith,
            length-take_le 9 (print_int eoa.bal),
            length-take_le 9 (t.print_whole eoa.pos_r),
          ),
        ) in
      (
        receive_data-send_data m old'
            (record {
              req_id = rw number (ground arith);
              train_id = rw train (ground arith);
              code = rw granted.answer (ground arith);
            })
            (rw granted.data_0 (rw granted.data_1 carried)),
        number,
      )

  -- The request, from the socket of the RBC to the reply.
  serve_datagram-movement :
      (k req : ℕ) (send m old : Message) (s s' : RbcState F) (adr : ℕ) (box : Mailbox)
      → handle_request fails (movement (pos req) (pos (suc k))) send s ≡ some (replied m s')
      → k < 3
      → req < 2 ^ 31
      → box.message_list ≡ []
      → serve_datagram fails (send_data (movement (pos req) (pos (suc k)))) adr old send box s
        ≡ some ((send_data m, adr), (record box { pending_request = no_request adr }, s'))
  unfolding serve_datagram handle_and_respond
  serve_datagram-movement k req send m old s s' adr box handled low small free =
      let recv = movement (pos req) (pos (suc k)) in
      let sent =
        receive_data-send_data recv old
          (record { req_id = ground arith; train_id = ground arith; code = ground arith }) tt in
      rw (sent, ◌>>=◌) (rw (take_request-deliver recv adr box free, ◌>>=◌) (rw (handled, ◌>>=◌)))

  -- A round of a train from 1 to 3 asks, and the RBC, of which no thread waits, grants the end of
  -- authority that it found for that request, at a balise of one to nine digits and with an offset
  -- whose text is a token that is read as a number. Then the request goes over the wire and is answered to
  -- its sender, the train reads the reply with its own request number and stores the balise of that
  -- end of authority with the offset that was read, and the first such reply lets it drive.
  pub authority_is_stored :
      {D : Type 0} ⦃g : Float D⦄
      → (widen : F → D) (chemin_id : ℤ) (k req n : ℕ) (local_pos : Position F)
        (w v : EoaHandler F D) (send m old old' : Message) (s s' : RbcState F) (adr : ℕ)
        (box : Mailbox) (pos_r : F)
      → eoa_round widen chemin_id (pos (suc k)) (pos req) local_pos w
        ≡ some (asking (movement (pos req) (pos (suc k))) v)
      → handle_request fails (movement (pos req) (pos (suc k))) send s ≡ some (replied m s')
      → (granted : Granted fails (movement (pos req) (pos (suc k))) m s s')
      → granted.eoa.bal ≡ pos n
      → n < 10 ^ 9
      → k < 3
      → req < 2 ^ 31
      → IsToken (take 9 (t.print_whole granted.eoa.pos_r))
      → t.strtod (take 9 (t.print_whole granted.eoa.pos_r)) ≡ some pos_r
      → box.message_list ≡ []
      → (answer : List ℕ) × (u : EoaHandler F D) × (serve_datagram fails
            (send_data (movement (pos req) (pos (suc k))))
            adr
            old
            send
            box
            s
          ≡ some ((answer, adr), (record box { pending_request = no_request adr }, s')))
        × (receive_data answer old' ≡ some m)
        × (m.req_id ≡ pos req)
        × (read_eoa m v ≡ some u)
        × (u.eoa ≡ record { bal = granted.eoa.bal; pos_r = pos_r })
        × (v.initialized ≡ false → u.eoa_initialized ≡ true)
  authority_is_stored widen chemin_id k req n local_pos w v send m old old' s s' adr box pos_r asked
        handled granted bal hi low small plain read free =
      let (received, number) =
        Granted-received k req send m old' s s' handled granted low small plain in
      let (u, stored, eoa, drives) =
        read_eoa-print_int m v n (take 9 (t.print_whole granted.eoa.pos_r)) pos_r granted.answer
          (granted.data_0 ∙ ap (λ z. some (take 9 (print_int z))) bal) granted.data_1 hi read in
      (
        send_data m,
        u,
        serve_datagram-movement k req send m old s s' adr box handled low small free,
        received,
        number,
        stored,
        eoa ∙ ap (λ z. record { bal = z; pos_r = pos_r }) (sym bal),
        drives,
      )
