-- ===== src/Evc/Launch.antt =====
-- app/EVC/src/main.c: from the arguments to the threads, and the stop of a train. The sockets are
-- outside: the result of `init_can_socket` is an argument, and so is the datagram that answers.
use projet_commun_unirail.Prelude.{
  ◌+◌, ◌++◌, ℕ, ◌<◌, ◌^◌, ◌≡◌, refl, ap, inl, inr, Bool, false, Option, none, some, List, [], ◌∷◌,
  ◌>>=◌, if◌then◌else◌, Bool-cases, arith,
}
use projet_commun_unirail.Prelude.Int.{ℤ, pos, negsuc, ◌==ℤ◌, ◌-ℤ◌, leb_ℤ}
use projet_commun_unirail.Float.{Float, FloatText}
use projet_commun_unirail.Can.{CanFrame, Bus}
use projet_commun_unirail.Comm.{
  Text, Message, strtol, atoi, to_int, IsInt, generate_unique_req_id, send_data, receive_data,
  Mailbox,
}
use projet_commun_unirail.Resources.{RbcState}
use projet_commun_unirail.Rbc.{nb_trains, no_request, serve_datagram}
use projet_commun_unirail.Evc.Speed.{mc_consigne_vitesse}
use projet_commun_unirail.Evc.Bytes.{ordered_speed, mc_consigne_vitesse-ordered_speed}
use projet_commun_unirail.Evc.Wiring.{Evc, wire}
use projet_commun_unirail.Evc.Connection.{
  init_message, is_connected, first_reply, receive_data-first_reply, serve_datagram-init_message,
}

-- What `main` keeps of its arguments: the number of the train, which is also the one of its route,
-- the tours, and what `setup_udp_client` is given.
pub record Launch : Type 0 where
  pub train_id : ℤ
  pub chemin_id : ℤ
  pub mission : ℤ
  pub server_ip : Text
  pub server_port : ℤ
  pub client_port : ℤ
  pub init_message : Message

-- `main` up to its first message.
pub data Begun : Type 0 where
  usage : Begun
  no_can_socket : Begun
  asking : Launch → List ℕ → Begun

-- There are six texts with the name of the program. `data_1` is what stands behind the first entry of
-- the message, which is not set.
unfoldable pub begin_evc : List Text → ℤ → ℕ → Option Text → Begun
begin_evc (name ∷ id ∷ tours ∷ ip ∷ server ∷ client ∷ []) can_socket next_req_id data_1 =
    let train_id = atoi id in
    let message = init_message (generate_unique_req_id next_req_id).0 train_id data_1 in
    if can_socket ==ℤ negsuc 0
    then no_can_socket
    else asking
        (record {
          train_id = train_id;
          chemin_id = train_id;
          mission = atoi tours;
          server_ip = ip;
          server_port = atoi server;
          client_port = atoi client;
          init_message = message;
        })
        (send_data message)
begin_evc argv can_socket next_req_id data_1 = usage

-- `main` from the reply on: the code that stops it, or the objects of its threads.
pub data Connected : Type 0 where
  refused : ℤ → Connected
  running : Launch → Evc → Connected

-- `send_message` is the buffer of `requests_handler`.
unfoldable pub finish_evc : Launch → List ℕ → Message → Option Connected
finish_evc launch datagram send_message = do
  reply ← receive_data datagram launch.init_message
  some (
      if is_connected reply
      then running (record launch { init_message = reply }) (wire send_message launch.mission)
      else refused reply.code)

-- `stop_train`, the handler of SIGINT: an order of 0, then the program ends.
unfoldable pub stop_train : (ℕ → Bool) → List ℤ → Bus → Bus
stop_train fails rest bus = (mc_consigne_vitesse fails rest (pos 0) bus).1

IsInt-to_int : (z : ℤ) → IsInt (to_int z)
IsInt-to_int (pos n) = ground arith
IsInt-to_int (negsuc n) = ground arith

IsInt-atoi : (t : Text) → IsInt (atoi t)
unfolding atoi
IsInt-atoi t = elim (strtol t) as (λ o. IsInt (elim o [ none ↦ pos 0 | some z ↦ to_int z ])) [
  | none ↦ (omega arith, omega arith)
  | some z ↦ IsInt-to_int z
]

abbrev pub launch_of : Text → Text → Text → Text → Text → ℕ → Option Text → Launch
launch_of id tours ip server client n data_1 = record {
  train_id = atoi id;
  chemin_id = atoi id;
  mission = atoi tours;
  server_ip = ip;
  server_port = atoi server;
  client_port = atoi client;
  init_message = init_message (pos n) (atoi id) data_1;
}

-- What becomes of a launch: the RBC knows the numbers up to 3.
abbrev pub outcome : Launch → ℕ → Message → Connected
outcome launch n send_message =
    if leb_ℤ nb_trains (launch.train_id -ℤ pos 1)
    then refused (pos 404)
    else running (record launch { init_message = first_reply (pos n) launch.train_id })
        (wire send_message launch.mission)

begin_evc-asking :
    (name id tours ip server client : Text) (can_socket : ℤ) (n : ℕ) (data_1 : Option Text)
    → (can_socket ==ℤ negsuc 0) ≡ false
    → begin_evc (name ∷ id ∷ tours ∷ ip ∷ server ∷ client ∷ []) can_socket n data_1
      ≡ asking
          (launch_of id tours ip server client n data_1)
          (send_data (init_message (pos n) (atoi id) data_1))
unfolding begin_evc generate_unique_req_id
begin_evc-asking name id tours ip server client can_socket n data_1 opened = rw opened refl

finish_evc-first_reply :
    (launch : Launch) (n : ℕ) (send_message : Message)
    → n < 2 ^ 31
    → IsInt launch.train_id
    → finish_evc launch (send_data (first_reply (pos n) launch.train_id)) send_message
      ≡ some (outcome launch n send_message)
unfolding finish_evc
finish_evc-first_reply launch n send_message small int =
    rw
      (
        receive_data-first_reply (pos n) launch.train_id launch.init_message (small, omega arith)
            int,
        ◌>>=◌,
      )
      (elim (Bool-cases (leb_ℤ nb_trains (launch.train_id -ℤ pos 1))) [
        | inl unknown ↦ rw unknown refl
        | inr known ↦ rw known refl
      ])

module _ {F : Type 0} ⦃f : Float F⦄ ⦃t : FloatText F⦄ (fails : ℕ → Bool) where
  -- A train that is started with five arguments, and whose CAN socket opens, meets an RBC of which no
  -- thread waits: its first message is delivered and answered to its sender, the RBC keeps its
  -- state, and the train reads the reply. It stops with code 404 if its number is above the trains
  -- of the RBC; otherwise it starts its threads with the tours that were given.
  pub evc_connects :
      (name id tours ip server client : Text) (can_socket : ℤ) (n : ℕ) (data_1 : Option Text)
      (adr : ℕ) (old send send_message : Message) (box : Mailbox) (s : RbcState F)
      → (can_socket ==ℤ negsuc 0) ≡ false
      → n < 2 ^ 31
      → box.message_list ≡ []
      → (launch : Launch) × (datagram : List ℕ) × (reply : List ℕ) × (begin_evc
            (name ∷ id ∷ tours ∷ ip ∷ server ∷ client ∷ [])
            can_socket
            n
            data_1
          ≡ asking launch datagram)
        × (launch.train_id ≡ atoi id)
        × (launch.mission ≡ atoi tours)
        × (serve_datagram fails datagram adr old send box s
            ≡ some ((reply, adr), (record box { pending_request = no_request adr }, s)))
        × (finish_evc launch reply send_message ≡ some (outcome launch n send_message))
  evc_connects name id tours ip server client can_socket n data_1 adr old send send_message box s
        opened small free =
      let launch = launch_of id tours ip server client n data_1 in
      (
        launch,
        send_data (init_message (pos n) (atoi id) data_1),
        send_data (first_reply (pos n) (atoi id)),
        begin_evc-asking name id tours ip server client can_socket n data_1 opened,
        refl,
        refl,
        serve_datagram-init_message fails (pos n) (atoi id) data_1 adr old send box s
            (small, omega arith) (IsInt-atoi id) free,
        finish_evc-first_reply launch n send_message small (IsInt-atoi id),
      )

-- The write of the stop order goes through: the last frame on the bus orders 0.
stop_train-ordered_speed :
    (fails : ℕ → Bool) (rest : List ℤ) (bus : Bus)
    → fails bus.writes ≡ false
    → (frame : CanFrame) × (stop_train fails rest bus
        ≡ record { sent = bus.sent ++ frame ∷ []; writes = bus.writes + 1 })
      × (ordered_speed frame ≡ some (pos 0))
unfolding stop_train
stop_train-ordered_speed fails rest bus ok =
    let (frame, written, _, _, read) =
      mc_consigne_vitesse-ordered_speed fails rest (pos 0) bus ok (omega arith) in
    (frame, ap (λ r. r.1) written, read)
