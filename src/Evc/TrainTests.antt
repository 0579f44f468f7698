-- ===== src/Evc/TrainTests.antt =====
-- The requests and the start of a train at concrete values, over exact tenths.
use projet_commun_unirail.Prelude.{◌≡◌, refl, true, false, none, some, List, ℕ, [], ◌∷◌, arith}
use projet_commun_unirail.Prelude.Int.{pos, ◌-ℤ◌, ◌+ℤ◌}
use projet_commun_unirail.Float.{Tenths, tenths_float, Tenths-IsStrict}
use projet_commun_unirail.Track.{
  seek, get_distance, distance_loop, section_length, find_arc, is_behind,
}
use projet_commun_unirail.Comm.{
  Mailbox, Text, Message, tenths_text, strtol, atoi, read_signed, read_nat, read_digits,
  skip_spaces,
}
use projet_commun_unirail.Resources.{RbcState, init_trains}
use projet_commun_unirail.Rbc.{no_request, serve_datagram}
use projet_commun_unirail.Evc.Connection.{welcome}
use projet_commun_unirail.Evc.Wiring.{wire}
use projet_commun_unirail.Evc.Launch.{
  Launch, launch_of, begin_evc, asking, finish_evc, running, refused, outcome, evc_connects,
}
use projet_commun_unirail.Evc.Samples.{quiet, no_fault, at}
use projet_commun_unirail.Evc.Thresholds.{
  EoaHandler, Round, wants_request, update_distance, eoa_round,
}
use projet_commun_unirail.Evc.Requests.{IsLate, late_requests}
use projet_commun_unirail.Evc.Requests

-- 10 m before the end of authority, after a request at 20 m.
abbrev handler : EoaHandler Tenths Tenths
handler = record {
  distance = some (pos 20_000);
  last_distance_triggered = some (pos 20_000);
  request_new_eoa = false;
  initialized = true;
  eoa = at (pos 1) (pos 9_000);
  eoa_initialized = true;
}

handler-IsLate : IsLate handler
handler-IsLate = record { no_request = refl; low = ground arith }

abbrev request : Message
request = record { req_id = pos 4; train_id = pos 1; code = pos 102; data_0 = none; data_1 = none }

abbrev after_request : EoaHandler Tenths Tenths
after_request = record handler {
  distance = some (pos 8_000);
  last_distance_triggered = some (pos 8_000);
}

eoa_round-request :
    eoa_round (λ x. x) (pos 1) (pos 1) (pos 4) (at (pos 1) (pos 1_000)) handler
    ≡ some (Round.asking request after_request)
unfolding eoa_round update_distance wants_request get_distance distance_loop section_length seek
    find_arc is_behind ◌-ℤ◌ ◌+ℤ◌
eoa_round-request = refl

late_requests_example : tenths_float.lt (some (pos 8_000)) (some (pos 10_000)) ≡ true
late_requests_example =
    late_requests (λ x. x) (pos 1) (pos 1) Tenths-IsStrict handler handler after_request (pos 4)
      (at (pos 1) (pos 1_000)) request handler-IsLate Requests.here eoa_round-request

abbrev no_text : Message
no_text = record { req_id = pos 0; train_id = pos 0; code = pos 0; data_0 = none; data_1 = none }

abbrev empty_box : Mailbox
empty_box = record { message_list = []; pending_request = no_request 0 }

abbrev rbc : RbcState Tenths
rbc = init_trains quiet

-- Train 2, for 5 tours, and a train 9.
abbrev two : Text
two = b'2' ∷ []

abbrev nine : Text
nine = b'9' ∷ []

abbrev five : Text
five = b'5' ∷ []

abbrev train_of : Text → Launch
train_of id = launch_of id five [] two two 1 none

evc_connects_example :
    (launch : Launch) × (datagram : List ℕ) × (reply : List ℕ) × (begin_evc
        ([] ∷ two ∷ five ∷ [] ∷ two ∷ two ∷ [])
        (pos 3)
        1
        none
      ≡ asking launch datagram)
    × (launch.train_id ≡ atoi two)
    × (launch.mission ≡ atoi five)
    × (serve_datagram no_fault datagram 5 no_text no_text empty_box rbc
        ≡ some ((reply, 5), (record empty_box { pending_request = no_request 5 }, rbc)))
    × (finish_evc launch reply no_text ≡ some (outcome launch 1 no_text))
evc_connects_example =
    evc_connects no_fault [] two five [] two two (pos 3) 1 none 5 no_text no_text no_text empty_box
      rbc refl (omega arith) refl

two_runs :
    outcome (train_of two) 1 no_text
    ≡ running
        (record (train_of two) { init_message = welcome (pos 1) (pos 2) })
        (wire no_text (pos 5))
unfolding atoi strtol read_signed read_nat read_digits skip_spaces ◌-ℤ◌
two_runs = refl

nine_stops : outcome (train_of nine) 1 no_text ≡ refused (pos 404)
unfolding atoi strtol read_signed read_nat read_digits skip_spaces ◌-ℤ◌
nine_stops = refl
