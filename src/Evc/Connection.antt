-- ===== src/Evc/Connection.antt =====
-- The first dialogue of a train with the RBC: app/EVC/src/main.c over app/utility/src/comm.c with the
-- listener, the loop and the handler of the RBC.
use projet_commun_unirail.Prelude.{
  ℕ, ◌≡◌, refl, ap, ◌∙◌, inl, inr, Bool-cases, if◌then◌else◌, Bool, true, false, Option, none, some,
  List, [], ◌>>=◌, arith,
}
use projet_commun_unirail.Prelude.Int.{ℤ, pos, ◌==ℤ◌, ◌-ℤ◌, leb_ℤ}
use projet_commun_unirail.Float.{Float, FloatText}
use projet_commun_unirail.Resources.{RbcState}
use projet_commun_unirail.Comm.{
  Message, HasInts, IsInt, buff_send, append_data, send_data, receive_data, receive_data-send_data,
  copy_message, copy_message_lem, find_waiting, Mailbox, deliver, deliver-none,
}
use projet_commun_unirail.Rbc.{
  nb_trains, handle_code, handle_request, no_request, take_request, handle_and_respond,
  serve_datagram,
}

-- `init_message` of `main`, and its test of the reply. `data_1` is not set.
abbrev pub init_message : ℤ → ℤ → Option (List ℕ) → Message
init_message req_id train_id data_1 = record {
  req_id = req_id;
  train_id = train_id;
  code = pos 100;
  data_0 = none;
  data_1 = data_1;
}

abbrev pub is_connected : Message → Bool
is_connected m = m.code ==ℤ pos 200

-- The reply that lets the train start.
abbrev pub welcome : ℤ → ℤ → Message
welcome req_id train_id = record {
  req_id = req_id;
  train_id = train_id;
  code = pos 200;
  data_0 = none;
  data_1 = none;
}

-- The reply that stops it.
abbrev pub refusal : ℤ → ℤ → Message
refusal req_id train_id = record (welcome req_id train_id) { code = pos 404 }

abbrev pub first_reply : ℤ → ℤ → Message
first_reply req_id train_id =
    if leb_ℤ nb_trains (train_id -ℤ pos 1) then refusal req_id train_id else welcome req_id train_id

-- The train reads that reply as it is.
pub receive_data-first_reply :
    (req_id train_id : ℤ) (old : Message)
    → IsInt req_id
    → IsInt train_id
    → receive_data (send_data (first_reply req_id train_id)) old
      ≡ some (first_reply req_id train_id)
receive_data-first_reply req_id train_id old h k =
    elim (Bool-cases (leb_ℤ nb_trains (train_id -ℤ pos 1))) [
      | inl unknown ↦ rw unknown (
          receive_data-send_data (refusal req_id train_id) old
            (record { req_id = h; train_id = k; code = ground arith }) tt)
      | inr known ↦ rw known (
          receive_data-send_data (welcome req_id train_id) old
            (record { req_id = h; train_id = k; code = ground arith }) tt)
    ]

-- What stands behind the first NULL is not sent.
send_data-init_message :
    (req_id train_id : ℤ) (data_1 : Option (List ℕ))
    → send_data (init_message req_id train_id data_1)
      ≡ send_data (init_message req_id train_id none)
unfolding send_data buff_send append_data
send_data-init_message req_id train_id data_1 = refl

init_message-HasInts :
    (req_id train_id : ℤ)
    → IsInt req_id
    → IsInt train_id
    → HasInts (init_message req_id train_id none)
init_message-HasInts req_id train_id h k = record { req_id = h; train_id = k; code = ground arith }

-- With no thread that waits, a message is delivered and taken over as it is.
pub take_request-deliver :
    (m : Message) (adr : ℕ) (box : Mailbox)
    → box.message_list ≡ []
    → take_request (deliver m adr box)
      ≡ some (
        record { recv_message = m; client_adr = adr },
        record box { pending_request = no_request adr },
      )
unfolding take_request find_waiting
take_request-deliver m adr box e =
    let free : find_waiting m box.message_list ≡ none = rw e in
    let twice = ap copy_message (copy_message_lem m) ∙ copy_message_lem m in
    ap take_request (deliver-none m adr box free)
    ∙ ap
        (λ c. some (
          record { recv_message = c; client_adr = adr },
          record box { pending_request = no_request adr },
        ))
        twice

module _ {F : Type 0} ⦃f : Float F⦄ ⦃t : FloatText F⦄ (fails : ℕ → Bool) where
  -- Where the request of a known train goes once it is delivered.
  handle_init :
      (req_id train_id : ℤ) (adr : ℕ) (send : Message) (s : RbcState F)
      → leb_ℤ nb_trains (train_id -ℤ pos 1) ≡ false
      → handle_and_respond fails
          (record { recv_message = init_message req_id train_id none; client_adr = adr })
          send
          s
        ≡ some ((send_data (welcome req_id train_id), adr), s)
  unfolding handle_and_respond handle_request handle_code
  handle_init req_id train_id adr send s known = rw known

  -- The same for a train that it does not know.
  handle_unknown :
      (req_id train_id : ℤ) (adr : ℕ) (send : Message) (s : RbcState F)
      → leb_ℤ nb_trains (train_id -ℤ pos 1) ≡ true
      → handle_and_respond fails
          (record { recv_message = init_message req_id train_id none; client_adr = adr })
          send
          s
        ≡ some ((send_data (refusal req_id train_id), adr), s)
  unfolding handle_and_respond handle_request send_data buff_send append_data
  handle_unknown req_id train_id adr send s unknown = rw unknown

  -- The reply depends on the number of the train alone.
  handle_first :
      (req_id train_id : ℤ) (adr : ℕ) (send : Message) (s : RbcState F)
      → handle_and_respond fails
          (record { recv_message = init_message req_id train_id none; client_adr = adr })
          send
          s
        ≡ some ((send_data (first_reply req_id train_id), adr), s)
  handle_first req_id train_id adr send s =
      elim (Bool-cases (leb_ℤ nb_trains (train_id -ℤ pos 1))) [
        | inl unknown ↦ rw unknown (handle_unknown req_id train_id adr send s unknown)
        | inr known ↦ rw known (handle_init req_id train_id adr send s known)
      ]

  -- While no thread of the RBC waits, the first message of a train is delivered, taken over and
  -- answered to its sender, and the RBC keeps its state, whatever the buffers held before.
  pub serve_datagram-init_message :
      (req_id train_id : ℤ) (data_1 : Option (List ℕ)) (adr : ℕ) (old send : Message)
      (box : Mailbox) (s : RbcState F)
      → IsInt req_id
      → IsInt train_id
      → box.message_list ≡ []
      → serve_datagram fails (send_data (init_message req_id train_id data_1)) adr old send box s
        ≡ some (
          (send_data (first_reply req_id train_id), adr),
          (record box { pending_request = no_request adr }, s),
        )
  unfolding serve_datagram
  serve_datagram-init_message req_id train_id data_1 adr old send box s h k free =
      let m = init_message req_id train_id none in
      let read = receive_data-send_data m old (init_message-HasInts req_id train_id h k) tt in
      rw (send_data-init_message req_id train_id data_1) (
        rw (read, ◌>>=◌)
          (rw (take_request-deliver m adr box free, ◌>>=◌)
            (rw (handle_first req_id train_id adr send s, ◌>>=◌))))
