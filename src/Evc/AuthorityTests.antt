-- ===== src/Evc/AuthorityTests.antt =====
-- The first request of train 2 to the RBC at its start, over exact tenths.
use projet_commun_unirail.Prelude.{
  ℕ, List, ◌≡◌, refl, false, true, none, some, [], ◌∷◌, inr, take, arith,
}
use projet_commun_unirail.Prelude.Int.{pos, negsuc, ◌-ℤ◌}
use projet_commun_unirail.Float.{Tenths, tenths_float}
use projet_commun_unirail.Can.{
  set_all_switch, switch_loop, set_switch, set_switch_straight, set_switch_turn, send_can_data,
}
use projet_commun_unirail.Resources.{
  RbcState, init_trains, ask_resources, is_due, resource_to_lock, take_resources, lock_ressources,
  grant,
}
use projet_commun_unirail.Track.{seek}
use projet_commun_unirail.Eoa.{next_eoa, objective_loop, any_set, min_pos_r}
use projet_commun_unirail.Comm.{
  Message, Mailbox, IsToken, send_data, receive_data, tenths_text, print_int, print_nat,
  print_digits, round_tenths, read_signed_tenths, read_tenths, first_decimal, after_digits,
  read_nat, read_digits, skip_spaces,
}
use projet_commun_unirail.Rbc.{
  replied, handle_request, handle_code, handle_movement, send_eoa, Granted, no_request,
  serve_datagram,
}
use projet_commun_unirail.Evc.Samples.{quiet, no_fault, at}
use projet_commun_unirail.Evc.Thresholds.{
  EoaHandler, asking, start_handler, eoa_round, update_distance, wants_request, read_eoa,
}
use projet_commun_unirail.Evc.Authorities.{movement, authority_is_stored}

abbrev no_text : Message
no_text = record { req_id = pos 0; train_id = pos 0; code = pos 0; data_0 = none; data_1 = none }

abbrev empty_box : Mailbox
empty_box = record { message_list = []; pending_request = no_request 0 }

abbrev rbc : RbcState Tenths
rbc = init_trains quiet

-- Before the first end of authority, and after the request.
abbrev handler : EoaHandler Tenths Tenths
handler = start_handler (at (negsuc 0) (pos 0)) (some (pos 0))

abbrev waiting_handler : EoaHandler Tenths Tenths
waiting_handler = record handler { request_new_eoa = false; last_distance_triggered = some (pos 0) }

asked :
    eoa_round (λ x. x) (pos 2) (pos 2) (pos 7) (at (pos 21) (pos 0)) handler
    ≡ some (asking (movement (pos 7) (pos 2)) waiting_handler)
unfolding eoa_round update_distance wants_request
asked = refl

unfoldable handled :
    (m : Message) × ((s' : RbcState Tenths) × (handle_request no_fault
          (movement (pos 7) (pos 2))
          no_text
          rbc
        ≡ some (replied m s')))
unfolding handle_request handle_code handle_movement send_eoa ask_resources is_due resource_to_lock
    take_resources lock_ressources grant set_all_switch switch_loop set_switch set_switch_straight
    set_switch_turn send_can_data next_eoa objective_loop any_set min_pos_r seek print_int print_nat
    print_digits round_tenths ◌-ℤ◌
handled = (_, (_, refl))

-- It locks its first resource, and may go to balise 17.
unfoldable granted : Granted no_fault (movement (pos 7) (pos 2)) handled.0 rbc handled.1.0
unfolding handled ask_resources is_due resource_to_lock take_resources lock_ressources grant
    set_all_switch switch_loop set_switch set_switch_straight set_switch_turn send_can_data next_eoa
    objective_loop any_set min_pos_r seek print_int print_nat print_digits round_tenths
granted = record {
  asked = refl;
  answer = refl;
  k = 1;
  train = refl;
  known = omega arith;
  resources = inr (2, (0, refl));
  resource = pos 17;
  resource_of = refl;
  eoa = at (pos 17) (pos 0);
  eoa_of = refl;
  data_0 = refl;
  data_1 = refl;
}

zero-IsToken : IsToken (take 9 (tenths_text.print_whole (some (pos 0))))
unfolding print_nat print_digits round_tenths
zero-IsToken = record { first = b' '; others = b'0' ∷ []; shape = refl; plain = ground arith }

zero_read :
    tenths_text.strtod (take 9 (tenths_text.print_whole (some (pos 0)))) ≡ some (some (pos 0))
unfolding print_nat print_digits round_tenths read_signed_tenths read_tenths first_decimal
    after_digits read_nat read_digits skip_spaces
zero_read = refl

authority_is_stored_example :
    (answer : List ℕ) × (u : EoaHandler Tenths Tenths) × (serve_datagram no_fault
        (send_data (movement (pos 7) (pos 2)))
        5
        no_text
        no_text
        empty_box
        rbc
      ≡ some ((answer, 5), (record empty_box { pending_request = no_request 5 }, handled.1.0)))
    × (receive_data answer no_text ≡ some handled.0)
    × (handled.0.req_id ≡ pos 7)
    × (read_eoa handled.0 waiting_handler ≡ some u)
    × (u.eoa ≡ at (pos 17) (pos 0))
    × (false ≡ false → u.eoa_initialized ≡ true)
unfolding granted
authority_is_stored_example =
    authority_is_stored no_fault (λ x. x) (pos 2) 1 7 17 (at (pos 21) (pos 0)) handler
      waiting_handler no_text handled.0 no_text no_text rbc handled.1.0 5 empty_box (some (pos 0))
      asked handled.1.1 granted refl (omega arith) (omega arith) (omega arith) zero-IsToken
      zero_read refl
