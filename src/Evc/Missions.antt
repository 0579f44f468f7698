-- ===== src/Evc/Missions.antt =====
-- app/EVC/src/requests_handler.c, `handle_request`, and one round of app/MissionSupervisor/src/main.c.
-- The reply goes over what `send_message` held before; `none` is a read through NULL.
use projet_commun_unirail.Prelude.{
  ℕ, ◌≡◌, ◌≢◌, refl, inl, inr, Bool, false, ◌||◌, Option, none, some, [], ◌∷◌, ◌>>=◌, if◌then◌else◌,
  ◌==◌, >>=-eq-some, Option-cases, Bool-cases,
}
use mathlib.Core.Option.{some-injective}
use projet_commun_unirail.Prelude.Int.{ℤ, pos, ◌==ℤ◌, ==ℤ_iff, ltb_ℤ}
use projet_commun_unirail.Comm.{Text, Message, strtol, atoi, to_int, generate_unique_req_id}

-- Request 103; without a number `strtol` gives 0, which is stored all the same.
unfoldable pub handle_mission : Message → Message → Option (Message × ℤ)
handle_mission recv send = do
  data_0 ← recv.data_0
  elim (strtol data_0) [
    | none ↦ some (record send { code = pos 403; data_0 = none }, pos 0)
    | some local_mission ↦ some (send, to_int local_mission)
  ]

unfoldable pub handle_request : Message → Message → ℤ → Option (Message × ℤ)
handle_request recv send mission =
    let send' : Message = record send { train_id = recv.train_id; req_id = recv.req_id } in
    if recv.code ==ℤ pos 103
    then handle_mission recv send'
    else some (record send' { code = pos 400; data_0 = none }, mission)

-- What `handle_request` did.
pub data Mission (recv send m : Message) (mission mission' : ℤ) : Type 0 where
  set :
      (text : Text) (z : ℤ)
      → recv.code ≡ pos 103
      → recv.data_0 ≡ some text
      → strtol text ≡ some z
      → mission' ≡ to_int z
      → m.code ≡ send.code
      → Mission recv send m mission mission'
  unread :
      (text : Text)
      → recv.code ≡ pos 103
      → recv.data_0 ≡ some text
      → strtol text ≡ none
      → mission' ≡ pos 0
      → m.code ≡ pos 403
      → Mission recv send m mission mission'
  unknown :
      recv.code ≢ pos 103
      → mission' ≡ mission
      → m.code ≡ pos 400
      → m.data_0 ≡ none
      → Mission recv send m mission mission'

abbrev pub IsReply : Message → Message → Type 0
IsReply recv m = (m.req_id ≡ recv.req_id) × (m.train_id ≡ recv.train_id)

of_result : (P : Message × ℤ → Type 0) {r0 r : Message × ℤ} → Option.some r0 ≡ some r → P r0 → P r
of_result P e h = rw (← some-injective _ _ e) h

-- A reply of the train repeats the request number and the train. A mission that is read is stored, and
-- the reply keeps the code that its buffer held; a mission that is not read is refused with
-- code 403, and 0 is stored; any other request is refused with code 400 and stores nothing.
pub handle_request-Mission :
    (recv send m : Message) (mission mission' : ℤ)
    → handle_request recv send mission ≡ some (m, mission')
    → IsReply recv m × Mission recv send m mission mission'
unfolding handle_request handle_mission
handle_request-Mission recv send m mission mission' e = elim (Bool-cases (recv.code ==ℤ pos 103)) [
  | inl asked ↦
      let code = (==ℤ_iff _ _).0 asked in
      let (text, data_0, rest) = >>=-eq-some recv.data_0 _ (rw asked at e) in
      elim (Option-cases (strtol text)) [
        | inl no_number ↦
            of_result (λ r. IsReply recv r.0 × Mission recv send r.0 mission r.1)
              (rw no_number at rest) ((refl, refl), unread text code data_0 no_number refl refl)
        | inr (z, number) ↦
            of_result (λ r. IsReply recv r.0 × Mission recv send r.0 mission r.1)
              (rw number at rest) ((refl, refl), set text z code data_0 number refl refl)
      ]
  | inr other ↦
      of_result (λ r. IsReply recv r.0 × Mission recv send r.0 mission r.1) (rw other at e)
        ((refl, refl), unknown (λ asked. cc ((==ℤ_iff _ _).1 asked)) refl refl refl)
]

-- One round of the loop of the supervisor, from the two lines that were entered.
pub data Entered : Type 0 where
  quit : Entered
  wrong_train : Entered
  wrong_mission : Entered
  sent : Message → Entered

-- The line without its last character, the newline.
unfoldable pub chop : Text → Text
chop [] = []
chop (c ∷ []) = []
chop (c ∷ d ∷ ds) = c ∷ chop (d ∷ ds)

abbrev pub is_zero : Text → Bool
is_zero (c ∷ []) = c == b'0'
is_zero _ = false

unfoldable pub enter_mission : Text → Text → ℕ → Entered
enter_mission line_train line_mission next_req_id =
    let input_train = chop line_train in
    let input_mission = chop line_mission in
    let train_id = atoi input_train in
    if is_zero input_train
    then quit
    else if ltb_ℤ train_id (pos 1) || ltb_ℤ (pos 3) train_id
    then wrong_train
    else if ltb_ℤ (atoi input_mission) (pos 1)
    then wrong_mission
    else sent (record {
      req_id = (generate_unique_req_id next_req_id).0;
      train_id = train_id;
      code = pos 103;
      data_0 = some input_mission;
      data_1 = none;
    })
