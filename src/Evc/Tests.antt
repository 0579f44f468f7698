-- ===== src/Evc/Tests.antt =====
-- Missions at concrete values.
use projet_commun_unirail.Prelude.{
  ◌+◌, ◌<◌, ◌≡◌, refl, false, none, some, List, [], ◌∷◌, length, arith,
}
use projet_commun_unirail.Prelude.Int.{pos, ◌≤ℤ◌}
use projet_commun_unirail.Comm.{
  Text, Message, IsToken, send_data, receive_data, strtol, atoi, read_signed, read_nat, read_digits,
  skip_spaces, generate_unique_req_id, received, buff_send, print_int, print_nat, print_digits,
  append_data, read_message, strtok, skip_colons, c_string, after_token, read_data, token,
}
use projet_commun_unirail.Evc.Missions.{
  sent, chop, enter_mission, handle_mission, handle_request, IsReply, Mission,
  handle_request-Mission,
}
use projet_commun_unirail.Evc.Dialogue.{
  ip_train, left, exchanged, supervise, Answers, enter_mission-answered,
}
use projet_commun_unirail.Evc.Wiring.{
  Evc, no_message, wire, EvcReach, here, later, communicated, toured, no_mission_is_served,
}

-- Train 2, 3 tours.
abbrev line_train : Text
line_train = b'2' ∷ 10 ∷ []

abbrev line_mission : Text
line_mission = b'3' ∷ 10 ∷ []

abbrev order : Message
order = record {
  req_id = pos 1;
  train_id = pos 2;
  code = pos 103;
  data_0 = some (b'3' ∷ []);
  data_1 = none;
}

entered : enter_mission line_train line_mission 1 ≡ sent order
unfolding enter_mission chop atoi strtol read_signed read_nat read_digits skip_spaces
    generate_unique_req_id
entered = refl

-- Nobody has the number 7; then train 2 gets 3 tours, its answer comes, and the input ends.
abbrev lines : List Text
lines = (b'7' ∷ 10 ∷ []) ∷ line_train ∷ line_mission ∷ []

abbrev answered : Message
answered = record order { code = pos 203; data_0 = none }

supervise_run :
    supervise lines (send_data answered ∷ []) (λ n. no_message) 1
    ≡ exchanged (ip_train (pos 2)) order answered left
unfolding supervise enter_mission chop atoi strtol read_signed read_nat read_digits skip_spaces
    generate_unique_req_id receive_data send_data buff_send print_int print_nat print_digits
    append_data read_message strtok skip_colons c_string after_token read_data token
supervise_run = refl

IsToken-mission : IsToken (chop line_mission)
unfolding chop
IsToken-mission = record { first = _; others = _; shape = refl; plain = ground arith }

short_mission : length (chop line_mission) + 1 < 100
unfolding chop
short_mission = omega arith

enter_mission-answered_example :
    (receive_data (send_data order) no_message ≡ some order)
    × Answers order no_message no_message (pos 0) (atoi (chop line_mission))
enter_mission-answered_example =
    enter_mission-answered line_train line_mission 1 order no_message no_message no_message (pos 0)
      entered (omega arith) IsToken-mission short_mission (omega arith, omega arith) tt

handled :
    handle_request order no_message (pos 0)
    ≡ some (record no_message { req_id = pos 1; train_id = pos 2 }, pos 3)
unfolding handle_request handle_mission strtol read_signed read_nat read_digits skip_spaces
handled = refl

handle_request-Mission_example :
    IsReply order (record no_message { req_id = pos 1; train_id = pos 2 })
    × Mission order no_message
        (record no_message { req_id = pos 1; train_id = pos 2 })
        (pos 0)
        (pos 3)
handle_request-Mission_example = handle_request-Mission order no_message _ (pos 0) (pos 3) handled

-- The order arrives, and a tour ends.
EvcReach-later : (e : Evc) × EvcReach (wire no_message (pos 1)) e
EvcReach-later = (_, later (later here (communicated _ (received order 5))) toured)

no_mission_is_served_example :
    (EvcReach-later.0.rha.ready ≡ false) × (EvcReach-later.0.mission ≤ℤ pos 1)
no_mission_is_served_example =
    no_mission_is_served no_message (pos 1) EvcReach-later.0 EvcReach-later.1
