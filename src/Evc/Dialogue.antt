-- ===== src/Evc/Dialogue.antt =====
-- app/MissionSupervisor/src/main.c, its whole loop over the lines that are entered, and the answer that
-- app/EVC/src/requests_handler.c gives to its missions.
use projet_commun_unirail.Prelude.{
  ℕ, ◌+◌, ◌<◌, ◌^◌, ◌≡◌, refl, sym, ◌⊎◌, Bool, Option, none, some, List, [], ◌∷◌, ◌>>=◌, length,
  get_elem?, arith,
}
use mathlib.Core.Path.{subst}
use projet_commun_unirail.Prelude.Int.{ℤ, pos, ◌==ℤ◌, ◌≤ℤ◌}
use projet_commun_unirail.Track.{slot}
use projet_commun_unirail.Comm.{
  Text, Message, atoi, generate_unique_req_id, IsInt, IsToken, IsCarried, send_data, receive_data,
  receive_data-send_data,
}
use projet_commun_unirail.Evc.Missions.{
  quit, wrong_train, wrong_mission, sent, chop, enter_mission, handle_request,
}
use projet_commun_unirail.Evc.Supervisor.{
  Stores, mission_message, mission_reply, handle_request-mission_message, sent-cases, IsInt-train,
  enter_mission-received,
}

-- The bytes of 192.168.1.1, in front of two digits.
abbrev pub subnet : ℕ → ℕ → Text
subnet c d = b'1' ∷ b'9' ∷ b'2' ∷ b'.' ∷ b'1' ∷ b'6' ∷ b'8' ∷ b'.' ∷ b'1' ∷ b'.' ∷ b'1' ∷ c ∷ d ∷ []

abbrev pub ip_trains : List Text
ip_trains = subnet b'5' b'1' ∷ subnet b'7' b'3' ∷ subnet b'7' b'2' ∷ []

-- The address for a train; `none` is a read outside the array.
abbrev pub ip_train : ℤ → Option Text
ip_train train_id = slot train_id >>= λ k. get_elem? ip_trains k

-- The test of the response.
abbrev pub is_confirmed : Message → Bool
is_confirmed response = response.code ==ℤ pos 203

-- What a run does, in order: a message to an address and its response, up to the end of the input, a
-- message that nobody answers, or a response that cannot be read.
pub data Session : Type 0 where
  left : Session
  awaits : Option Text → Message → Session
  failed : Option Text → Message → Session
  exchanged : Option Text → Message → Message → Session → Session

-- The loop of `main`, over the lines that `fgets` gives and the datagrams that answer, in order. After
-- the last line `fgets` fails, which ends the loop wherever it stands. `response n` is what the
-- variable `response` holds before the answer to request `n`.
unfoldable pub supervise : List Text → List (List ℕ) → (ℕ → Message) → ℕ → Session
supervise [] datagrams response next_req_id = left
supervise (line_train ∷ []) datagrams response next_req_id = left
supervise (line_train ∷ line_mission ∷ lines) datagrams response next_req_id =
    elim (enter_mission line_train line_mission next_req_id) [
      | quit ↦ left
      | wrong_train ↦ supervise (line_mission ∷ lines) datagrams response next_req_id
      | wrong_mission ↦ supervise lines datagrams response next_req_id
      | sent m ↦ elim datagrams [
        | [] ↦ awaits (ip_train m.train_id) m
        | datagram ∷ rest ↦ elim (receive_data datagram (response next_req_id)) [
          | none ↦ failed (ip_train m.train_id) m
          | some r ↦
              exchanged (ip_train m.train_id) m r
                (supervise lines rest response (generate_unique_req_id next_req_id).1)
        ]
      ]
    ]

-- Where each train is reached.
abbrev pub IsAddress : ℤ → Option Text → Type 0
IsAddress train_id to =
    ((train_id ≡ pos 1) × (to ≡ some (subnet b'5' b'1')))
    ⊎ (((train_id ≡ pos 2) × (to ≡ some (subnet b'7' b'3')))
        ⊎ ((train_id ≡ pos 3) × (to ≡ some (subnet b'7' b'2'))))

-- A mission with number `n` to an address of the list, which the handler of the train would store.
pub record IsOrder (n : ℕ) (to : Option Text) (m : Message) : Type 0 where
  pub number : m.req_id ≡ pos n
  pub code : m.code ≡ pos 103
  pub low : pos 1 ≤ℤ m.train_id
  pub high : m.train_id ≤ℤ pos 3
  pub address : IsAddress m.train_id to
  pub tours :
      (text : Text) × (m.data_0 ≡ some text)
      × (pos 1 ≤ℤ atoi text)
      × ((send : Message) (mission : ℤ) → Stores m send mission (atoi text))

-- The messages of a session, numbered from `n` on; each but the last was answered.
abbrev pub Orders : ℕ → Session → Type 0
Orders n left = Unit
Orders n (awaits to m) = IsOrder n to m
Orders n (failed to m) = IsOrder n to m
Orders n (exchanged to m r session) = IsOrder n to m × Orders (n + 1) session

-- The handler's reply, read by the supervisor, and the number that is stored.
abbrev pub Answers : Message → Message → Message → ℤ → ℤ → Type 0
Answers m send response mission entered =
    (reply : Message) × (handle_request m send mission ≡ some (reply, entered))
    × (receive_data (send_data reply) response ≡ some reply)
    × (is_confirmed reply ≡ (send.code ==ℤ pos 203))

message-answered :
    (line_train line_mission : Text) (n : ℕ) (send response : Message) (mission : ℤ)
    → n < 2 ^ 31
    → pos 1 ≤ℤ atoi (chop line_train)
    → atoi (chop line_train) ≤ℤ pos 3
    → pos 1 ≤ℤ atoi (chop line_mission)
    → IsInt send.code
    → IsCarried send.data_0 send.data_1
    → Answers
        (mission_message line_train line_mission n)
        send
        response
        mission
        (atoi (chop line_mission))
message-answered line_train line_mission n send response mission small low high enough code
      carried =
    let m = mission_message line_train line_mission n in
    (
      mission_reply m send,
      handle_request-mission_message line_train line_mission n send mission enough,
      receive_data-send_data (mission_reply m send) response
          (record { req_id = ground arith; train_id = IsInt-train _ low high; code = code })
          carried,
      refl,
    )

-- A mission whose text is a token that fits the buffer is received as it was sent. When it is given
-- to `handle_request` directly, with a reply buffer that holds an int code and data that can be sent,
-- the handler stores the number that was entered and its reply comes back as it is: the supervisor
-- takes it for a success exactly if that buffer held code 203 before. In the program the listener
-- never hands a mission to the handler, and the buffer of the reply is not initialised.
pub enter_mission-answered :
    (line_train line_mission : Text) (n : ℕ) (m old send response : Message) (mission : ℤ)
    → enter_mission line_train line_mission n ≡ sent m
    → n < 2 ^ 31
    → IsToken (chop line_mission)
    → length (chop line_mission) + 1 < 100
    → IsInt send.code
    → IsCarried send.data_0 send.data_1
    → (receive_data (send_data m) old ≡ some m)
      × Answers m send response mission (atoi (chop line_mission))
enter_mission-answered line_train line_mission n m old send response mission e small token short
      code carried =
    let (same, low, high, enough) = sent-cases line_train line_mission n m e in
    (
      enter_mission-received line_train line_mission n m old e small token short,
      subst (λ m. Answers m send response mission (atoi (chop line_mission))) (sym same)
          (message-answered line_train line_mission n send response mission small low high enough
            code carried),
    )
