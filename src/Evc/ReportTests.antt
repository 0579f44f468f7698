-- ===== src/Evc/ReportTests.antt =====
-- A report of train 1 to the RBC at its start, over exact tenths.
use projet_commun_unirail.Prelude.{
  ℕ, List, ◌≡◌, refl, false, true, none, some, [], ◌∷◌, take, arith,
}
use mathlib.Core.Option.{some-injective}
use projet_commun_unirail.Prelude.Int.{pos}
use projet_commun_unirail.Float.{Tenths, tenths_float, Tenths-IsOrdered}
use projet_commun_unirail.Resources.{RbcState, init_trains}
use projet_commun_unirail.Comm.{
  Message, Mailbox, IsToken, send_data, receive_data, tenths_text, print_nat, print_digits,
  read_signed_tenths, read_tenths, first_decimal, after_digits, read_nat, read_digits, skip_spaces,
}
use projet_commun_unirail.Rbc.{IsPlaced, IsSound, init_trains-IsSound, no_request, serve_datagram}
use projet_commun_unirail.Evc.Samples.{quiet, no_fault, at}
use projet_commun_unirail.Evc.Position.{Reporter, acknowledge, position_report}
use projet_commun_unirail.Evc.Reports.{report_is_stored}

abbrev no_text : Message
no_text = record { req_id = pos 0; train_id = pos 0; code = pos 0; data_0 = none; data_1 = none }

abbrev empty_box : Mailbox
empty_box = record { message_list = []; pending_request = no_request 0 }

abbrev rbc : RbcState Tenths
rbc = init_trains quiet

-- 3.5 behind balise 2.
offset-IsToken : IsToken (take 9 (tenths_text.print_hundredths (some (pos 35))))
unfolding print_nat print_digits
offset-IsToken = record {
  first = b'3';
  others = b'.' ∷ b'5' ∷ b'0' ∷ [];
  shape = refl;
  plain = ground arith;
}

offset_read :
    tenths_text.strtod (take 9 (tenths_text.print_hundredths (some (pos 35))))
    ≡ some (some (pos 35))
unfolding print_nat print_digits read_signed_tenths read_tenths first_decimal after_digits read_nat
    read_digits skip_spaces
offset_read = refl

at_balise_2 : IsPlaced 0 (at (pos 2) (pos 35))
at_balise_2 = record { on_route = λ e. (1, rw (← some-injective _ _ e)); positive = ground arith }

report_is_stored_example :
    (m : Message) × (answer : List ℕ) × (reply : Message) × (s' : RbcState Tenths)
    × (position_report (pos 1) (pos 7) (at (pos 2) (pos 35)) ≡ some m)
    × (serve_datagram no_fault (send_data m) 5 no_text no_text empty_box rbc
        ≡ some ((answer, 5), (record empty_box { pending_request = no_request 5 }, s')))
    × (s'.pos_trains 0 ≡ at (pos 2) (pos 35))
    × IsSound s'
    × (receive_data answer no_text ≡ some reply)
    × (reply.req_id ≡ m.req_id)
    × ((r : Reporter) → r.initialized ≡ false → (acknowledge reply r).pos_initialized ≡ true)
report_is_stored_example =
    report_is_stored no_fault 0 2 7 2 (at (pos 2) (pos 35)) (some (pos 35)) 5 no_text no_text
      no_text empty_box rbc refl refl (omega arith) (omega arith) (omega arith) offset-IsToken
      offset_read at_balise_2 (init_trains-IsSound Tenths-IsOrdered quiet) refl
