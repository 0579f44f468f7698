-- ===== src/Evc/Supervisor.antt =====
-- A mission that app/MissionSupervisor/src/main.c sends, and what app/EVC/src/requests_handler.c makes of
-- it.
use projet_commun_unirail.Prelude.{
  ℕ, ◌+◌, ◌<◌, ◌^◌, ◌≡◌, refl, sym, ap, ◌∙◌, inl, inr, ◌||◌, Option, none, some, ◌>>=◌, Bool-cases,
  length, arith,
}
use projet_commun_unirail.Prelude.Int.{ℤ, pos, negsuc, ltb_ℤ, ◌≤ℤ◌}
use mathlib.Core.Path.{subst}
use projet_commun_unirail.Comm.{
  Text, Message, strtol, atoi, to_int, generate_unique_req_id, IsInt, IsToken, send_data,
  receive_data, receive_data-send_data,
}
use projet_commun_unirail.Evc.Missions.{
  sent, chop, is_zero, enter_mission, handle_mission, handle_request,
}

abbrev value : Option ℤ → ℤ
value none = pos 0
value (some z) = to_int z

value_read : (o : Option ℤ) → pos 1 ≤ℤ value o → (z : ℤ) × (o ≡ some z) × (to_int z ≡ value o)
value_read none h = absurd (omega arith)
value_read (some z) h = (z, refl, refl)

atoi-value : (t : Text) → atoi t ≡ value (strtol t)
unfolding atoi
atoi-value t = elim (strtol t) as (λ o. elim o [ none ↦ pos 0 | some z ↦ to_int z ] ≡ value o) [
  | none ↦ refl
  | some z ↦ refl
]

pub IsInt-train : (z : ℤ) → pos 1 ≤ℤ z → z ≤ℤ pos 3 → IsInt z
IsInt-train (pos n) low high = ground arith
IsInt-train (negsuc n) low high = ground arith

-- The message that is sent.
abbrev pub mission_message : Text → Text → ℕ → Message
mission_message line_train line_mission next_req_id = record {
  req_id = pos next_req_id;
  train_id = atoi (chop line_train);
  code = pos 103;
  data_0 = some (chop line_mission);
  data_1 = none;
}

pub sent-cases :
    (line_train line_mission : Text) (next_req_id : ℕ) (m : Message)
    → enter_mission line_train line_mission next_req_id ≡ sent m
    → (m ≡ mission_message line_train line_mission next_req_id)
      × (pos 1 ≤ℤ atoi (chop line_train))
      × (atoi (chop line_train) ≤ℤ pos 3)
      × (pos 1 ≤ℤ atoi (chop line_mission))
unfolding enter_mission generate_unique_req_id
sent-cases line_train line_mission next_req_id m e =
    let train_id = atoi (chop line_train) in
    elim (Bool-cases (is_zero (chop line_train))) [
      | inl zero_entered ↦ absurd (let wrong = rw zero_entered at e in cc)
      | inr other ↦ elim (Bool-cases (ltb_ℤ train_id (pos 1) || ltb_ℤ (pos 3) train_id)) [
        | inl outside ↦ absurd (let wrong = rw outside at (rw other at e) in cc)
        | inr inside ↦ elim (Bool-cases (ltb_ℤ (atoi (chop line_mission)) (pos 1))) [
          | inl few ↦ absurd (let wrong = rw few at (rw inside at (rw other at e)) in cc)
          | inr enough ↦
              let same = rw enough at (rw inside at (rw other at e)) in
              (cc, ground arith, ground arith, ground arith)
        ]
      ]
    ]

abbrev pub Stores : Message → Message → ℤ → ℤ → Type 0
Stores m send mission entered =
    (reply : Message) × (handle_request m send mission ≡ some (reply, entered))
    × (reply.code ≡ send.code)

-- The reply of the handler: what its buffer held, with the numbers of the request.
abbrev pub mission_reply : Message → Message → Message
mission_reply m send = record send { train_id = m.train_id; req_id = m.req_id }

pub handle_request-mission_message :
    (line_train line_mission : Text) (next_req_id : ℕ) (send : Message) (mission : ℤ)
    → pos 1 ≤ℤ atoi (chop line_mission)
    → handle_request (mission_message line_train line_mission next_req_id) send mission
      ≡ some (
        mission_reply (mission_message line_train line_mission next_req_id) send,
        atoi (chop line_mission),
      )
unfolding handle_request handle_mission
handle_request-mission_message line_train line_mission next_req_id send mission enough =
    let (z, number, stored) =
      value_read (strtol (chop line_mission)) (rw (atoi-value (chop line_mission)) at enough) in
    rw (number, ◌>>=◌)
      (ap (λ w. some (mission_reply (mission_message line_train line_mission next_req_id) send, w))
        (stored ∙ sym (atoi-value (chop line_mission))))

message-Stores :
    (line_train line_mission : Text) (next_req_id : ℕ) (send : Message) (mission : ℤ)
    → pos 1 ≤ℤ atoi (chop line_mission)
    → Stores
        (mission_message line_train line_mission next_req_id)
        send
        mission
        (atoi (chop line_mission))
message-Stores line_train line_mission next_req_id send mission enough = (
  mission_reply (mission_message line_train line_mission next_req_id) send,
  handle_request-mission_message line_train line_mission next_req_id send mission enough,
  refl,
)

-- A mission that the supervisor sends is for a train from 1 to 3 and asks for at least one tour; the
-- handler of the train reads it and stores the number that was entered, and its reply has the code
-- that its buffer held before.
pub enter_mission-Stores :
    (line_train line_mission : Text) (next_req_id : ℕ) (m send : Message) (mission : ℤ)
    → enter_mission line_train line_mission next_req_id ≡ sent m
    → (pos 1 ≤ℤ m.train_id)
      × (m.train_id ≤ℤ pos 3)
      × (pos 1 ≤ℤ atoi (chop line_mission))
      × Stores m send mission (atoi (chop line_mission))
enter_mission-Stores line_train line_mission next_req_id m send mission e =
    let (same, low, high, enough) = sent-cases line_train line_mission next_req_id m e in
    let entered = atoi (chop line_mission) in
    subst
      (λ m.
        (pos 1 ≤ℤ m.train_id)
        × (m.train_id ≤ℤ pos 3)
        × (pos 1 ≤ℤ entered)
        × Stores m send mission entered)
      (sym same)
      (low, high, enough, message-Stores line_train line_mission next_req_id send mission enough)

-- A mission that the supervisor sends arrives as it was sent, when its text is a token that fits the buffer.
pub enter_mission-received :
    (line_train line_mission : Text) (next_req_id : ℕ) (m old : Message)
    → enter_mission line_train line_mission next_req_id ≡ sent m
    → next_req_id < 2 ^ 31
    → IsToken (chop line_mission)
    → length (chop line_mission) + 1 < 100
    → receive_data (send_data m) old ≡ some m
enter_mission-received line_train line_mission next_req_id m old e small token short =
    let (same, low, high, _) = sent-cases line_train line_mission next_req_id m e in
    rw same (
      receive_data-send_data (mission_message line_train line_mission next_req_id) old
        (record { req_id = ground arith; train_id = IsInt-train _ low high; code = ground arith })
        (token, short))
