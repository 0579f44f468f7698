-- ===== src/Evc/Reports.antt =====
-- A report of app/EVC/src/position.c on its way through app/utility/src/comm.c and app/RBC/src, and
-- back.
use projet_commun_unirail.Prelude.{
  ℕ, zero, suc, ◌<◌, ◌^◌, ◌≡◌, refl, ap, ◌∙◌, Bool, true, false, Option, none, some, List, [],
  ◌>>=◌, get_elem?, take, arith,
}
use projet_commun_unirail.Prelude.Int.{ℤ, pos, ◌==ℤ◌}
use projet_commun_unirail.Float.{Float, FloatText}
use projet_commun_unirail.Track.{Position}
use projet_commun_unirail.Resources.{RbcState, l_res_size}
use projet_commun_unirail.Comm.{
  Text, Message, Mailbox, IsToken, IsCarried, HasInts, buff_send, append_data, send_data,
  receive_data, receive_data-send_data, print_int, print_int-IsToken, IsToken-take, length-take_le,
  strtol-take, to_int, to_int_int,
}
use projet_commun_unirail.Rbc.{
  IsPlaced, IsSound, handle_request-stores, no_request, handle_and_respond, serve_datagram,
}
use projet_commun_unirail.Evc.Position.{Reporter, acknowledge, position_report}
use projet_commun_unirail.Evc.Connection.{take_request-deliver}

-- What stands behind a NULL is not sent.
send_data-null :
    (req_id train_id code : ℤ) (data_1 : Option Text)
    → send_data (record {
      req_id = req_id;
      train_id = train_id;
      code = code;
      data_0 = none;
      data_1 = data_1;
    })
      ≡ send_data (record {
        req_id = req_id;
        train_id = train_id;
        code = code;
        data_0 = none;
        data_1 = none;
      })
unfolding send_data buff_send append_data
send_data-null req_id train_id code data_1 = refl

-- The report, and what its sender reads as the answer.
abbrev pub report_of : {F : Type 0} ⦃t : FloatText F⦄ → ℕ → ℕ → Position F → Message
report_of ⦃t⦄ k req local_pos = record {
  req_id = pos req;
  train_id = pos (suc k);
  code = pos 101;
  data_0 = some (take 9 (print_int local_pos.bal));
  data_1 = some (take 9 (t.print_hundredths local_pos.pos_r));
}

abbrev pub acknowledged : ℕ → ℕ → Message
acknowledged k req = record {
  req_id = pos req;
  train_id = pos (suc k);
  code = pos 201;
  data_0 = none;
  data_1 = none;
}

acknowledge-acknowledged :
    (k req : ℕ) (r : Reporter)
    → r.initialized ≡ false
    → (acknowledge (acknowledged k req) r).pos_initialized ≡ true
unfolding acknowledge
acknowledge-acknowledged k req r first = rw first refl

train_below : (k size : ℕ) → get_elem? l_res_size k ≡ some size → k < 3
train_below zero size e = omega arith
train_below (suc zero) size e = omega arith
train_below (suc (suc zero)) size e = omega arith
train_below (suc (suc (suc k))) size e = cc

module _ {F : Type 0} ⦃f : Float F⦄ ⦃t : FloatText F⦄ where
  report_of-IsCarried :
      (local_pos : Position F)
      → IsToken (take 9 (t.print_hundredths local_pos.pos_r))
      → IsCarried
          (some (take 9 (print_int local_pos.bal)))
          (some (take 9 (t.print_hundredths local_pos.pos_r)))
  report_of-IsCarried local_pos plain = (
    IsToken-take 8 (print_int local_pos.bal) (print_int-IsToken local_pos.bal),
    plain,
    omega (
      arith,
      length-take_le 9 (print_int local_pos.bal),
      length-take_le 9 (t.print_hundredths local_pos.pos_r),
    ),
  )

  report_of-HasInts :
      (k req : ℕ) (local_pos : Position F)
      → k < 3
      → req < 2 ^ 31
      → HasInts (report_of k req local_pos)
  report_of-HasInts k req local_pos low small = record {
    req_id = ground arith;
    train_id = ground arith;
    code = ground arith;
  }

  position_report-report_of :
      (k req n : ℕ) (local_pos : Position F)
      → local_pos.bal ≡ pos n
      → 0 < n
      → position_report (pos (suc k)) (pos req) local_pos ≡ some (report_of k req local_pos)
  unfolding position_report
  position_report-report_of k req n local_pos e lo =
      let known : (local_pos.bal ==ℤ pos 0) ≡ false = rw e (ground arith) in
      rw (known, position_report)

  -- What the RBC makes of the report once it is delivered.
  handle_and_respond-report_of :
      (fails : ℕ → Bool) (k size req n : ℕ) (local_pos : Position F) (pos_r : F) (adr : ℕ)
      (send : Message) (s : RbcState F)
      → get_elem? l_res_size k ≡ some size
      → local_pos.bal ≡ pos n
      → n < 10 ^ 9
      → t.strtod (take 9 (t.print_hundredths local_pos.pos_r)) ≡ some pos_r
      → IsPlaced k (record { bal = pos n; pos_r = pos_r })
      → IsSound s
      → (s' : RbcState F) × (handle_and_respond fails
            (record { recv_message = report_of k req local_pos; client_adr = adr })
            send
            s
          ≡ some ((send_data (acknowledged k req), adr), s'))
        × (s'.pos_trains k ≡ record { bal = pos n; pos_r = pos_r })
        × IsSound s'
  unfolding handle_and_respond
  handle_and_respond-report_of fails k size req n local_pos pos_r adr send s size_of e hi read there
        sound =
      let int : to_int (pos n) ≡ pos n = to_int_int (pos n) (ground arith) in
      let (s', handled, stored, sound') =
        handle_request-stores k size (report_of k req local_pos) send size_of refl fails s
          (take 9 (print_int local_pos.bal)) (take 9 (t.print_hundredths local_pos.pos_r)) (pos n)
          pos_r refl refl refl (rw e (strtol-take n hi)) read (rw int there) sound in
      (
        s',
        rw (handled, ◌>>=◌)
            (ap (λ bytes. some ((bytes, adr), s'))
              (send_data-null (pos req) (pos (suc k)) (pos 201) send.data_1)),
        stored ∙ ap (λ z. record { bal = z; pos_r = pos_r }) int,
        sound',
      )

  -- A train from 1 to 3 stands at a balise of one to nine digits, on its route; the text of its offset
  -- is a token that is read back as a number from 0 up. While no thread of the RBC waits, its
  -- report goes over the wire and is served: the RBC, in a sound state, stores the balise and the
  -- offset that was read for that train, stays sound, and sends an answer to the sender. The train
  -- reads it with its own request number, and as its first one it lets the requests of authority
  -- start.
  pub report_is_stored :
      (fails : ℕ → Bool) (k size req n : ℕ) (local_pos : Position F) (pos_r : F) (adr : ℕ)
      (old send old' : Message) (box : Mailbox) (s : RbcState F)
      → get_elem? l_res_size k ≡ some size
      → local_pos.bal ≡ pos n
      → 0 < n
      → n < 10 ^ 9
      → req < 2 ^ 31
      → IsToken (take 9 (t.print_hundredths local_pos.pos_r))
      → t.strtod (take 9 (t.print_hundredths local_pos.pos_r)) ≡ some pos_r
      → IsPlaced k (record { bal = pos n; pos_r = pos_r })
      → IsSound s
      → box.message_list ≡ []
      → (m : Message) × (answer : List ℕ) × (reply : Message) × (s' : RbcState F) × (position_report
            (pos (suc k))
            (pos req)
            local_pos
          ≡ some m)
        × (serve_datagram fails (send_data m) adr old send box s
            ≡ some ((answer, adr), (record box { pending_request = no_request adr }, s')))
        × (s'.pos_trains k ≡ record { bal = pos n; pos_r = pos_r })
        × IsSound s'
        × (receive_data answer old' ≡ some reply)
        × (reply.req_id ≡ m.req_id)
        × ((r : Reporter) → r.initialized ≡ false → (acknowledge reply r).pos_initialized ≡ true)
  unfolding serve_datagram
  report_is_stored fails k size req n local_pos pos_r adr old send old' box s size_of e lo hi small
        plain read there sound free =
      let m = report_of k req local_pos in
      let low = train_below k size size_of in
      let sent =
        receive_data-send_data m old (report_of-HasInts k req local_pos low small)
          (report_of-IsCarried local_pos plain) in
      let (s', answered, stored, sound') =
        handle_and_respond-report_of fails k size req n local_pos pos_r adr send s size_of e hi read
          there sound in
      (
        m,
        send_data (acknowledged k req),
        acknowledged k req,
        s',
        position_report-report_of k req n local_pos e lo,
        rw (sent, ◌>>=◌) (rw (take_request-deliver m adr box free, ◌>>=◌) (rw (answered, ◌>>=◌))),
        stored,
        sound',
        receive_data-send_data (acknowledged k req) old'
            (record { req_id = ground arith; train_id = ground arith; code = ground arith }) tt,
        refl,
        acknowledge-acknowledged k req,
      )
