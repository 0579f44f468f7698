-- ===== src/Comm/Tests.antt =====
-- Messages of app/utility/src/comm.c at concrete values.
use projet_commun_unirail.Prelude.{
  ℕ, List, ◌≢◌, ◌⊎◌, true, false, ◌≤◌, ◌≡◌, refl, none, some, [], ◌∷◌, length, arith,
}
use projet_commun_unirail.Prelude.Int.{pos, negsuc}
use projet_commun_unirail.Comm.Messages.{
  Message, copy_message, append_data, buff_send, send_data, c_string, skip_colons, token,
  after_token, cut, strtok, read_data, read_message, receive_data,
}
use projet_commun_unirail.Comm.Numbers.{
  print_int, print_nat, print_digits, atoi, strtol, read_signed, read_nat, read_digits, skip_spaces,
}
use projet_commun_unirail.Comm.Listener.{
  PendingMessage, PendingRequest, Mailbox, find_waiting, deliver, enqueue, find_entry, unlink,
  Reach, here, later, enqueued, received,
}
use projet_commun_unirail.Comm.Routing.{IsAwaited, Routed, deliver_lem}
use projet_commun_unirail.Comm.Delivery.{wait_for_response_lem}
use projet_commun_unirail.Comm.RoundTrip.{
  HasInts, IsCarried, send_data_bounds, receive_data-send_data,
}

-- A position report: balise 12, at 34.5.
abbrev report : Message
report = record {
  req_id = pos 7;
  train_id = pos 2;
  code = pos 101;
  data_0 = some (b'1' ∷ b'2' ∷ []);
  data_1 = some (b'3' ∷ b'4' ∷ b'.' ∷ b'5' ∷ []);
}

abbrev blank : Message
blank = record { req_id = pos 0; train_id = pos 0; code = pos 0; data_0 = none; data_1 = none }

report-HasInts : HasInts report
report-HasInts = record { req_id = ground arith; train_id = ground arith; code = ground arith }

report-IsCarried : IsCarried report.data_0 report.data_1
report-IsCarried = (
  record { first = _; others = _; shape = refl; plain = ground arith },
  record { first = _; others = _; shape = refl; plain = ground arith },
  omega arith,
)

report_text :
    buff_send report
    ≡ b'7' ∷ b':' ∷ b'2' ∷ b':' ∷ b'1' ∷ b'0' ∷ b'1' ∷ b':' ∷ b'1' ∷ b'2' ∷ b':' ∷ b'3' ∷ b'4'
      ∷ b'.' ∷ b'5' ∷ b':' ∷ []
unfolding buff_send print_int print_nat print_digits append_data
report_text = refl

-- A text without a second number gives code 500.
malformed :
    receive_data (b'7' ∷ b':' ∷ 0 ∷ []) report
    ≡ some (record report { req_id = pos 7; train_id = negsuc 0; code = pos 500 })
unfolding receive_data c_string read_message strtok cut skip_colons token after_token read_data atoi
    strtol read_signed read_nat read_digits skip_spaces
malformed = refl

send_data_bounds_example :
    (length (send_data report) ≤ 136)
    × ((r : Message) × (receive_data (send_data report) blank ≡ some r))
send_data_bounds_example = send_data_bounds report blank report-HasInts

receive_data-send_data_example : receive_data (send_data report) blank ≡ some report
receive_data-send_data_example = receive_data-send_data report blank report-HasInts report-IsCarried

-- A thread waits for the response to request 7, and it comes.
abbrev idle : PendingRequest
idle = record { message = blank; recv_adr = 0; ready = false }

abbrev nobody : Mailbox
nobody = record { message_list = []; pending_request = idle }

abbrev answered : PendingMessage
answered = record { address = 1; req_id = pos 7; message = report; ready = true }

abbrev waited : Mailbox
waited = record { message_list = answered ∷ []; pending_request = idle }

Reach-waited : Reach nobody waited
unfolding enqueue deliver find_waiting copy_message
Reach-waited = later (later here (enqueued 1 (pos 7) blank tt)) (received report 5)

entry_found : find_entry 1 waited.message_list ≡ some answered
unfolding find_entry
entry_found = refl

wait_for_response_lem_example :
    ((report.req_id ≡ pos 7) ⊎ (report.code ≡ negsuc 0))
    × (find_entry 1 (unlink 1 waited.message_list) ≡ none)
    × ((a : ℕ)
        → a ≢ 1
        → find_entry a (unlink 1 waited.message_list) ≡ find_entry a waited.message_list)
wait_for_response_lem_example =
    wait_for_response_lem idle waited 1 answered Reach-waited entry_found refl

deliver_lem_example :
    ((¬ IsAwaited blank waited.message_list)
      × (deliver blank 5 waited ≡ record waited {
        pending_request = record { message = blank; recv_adr = 5; ready = true };
      }))
    ⊎ ((qs : List PendingMessage) × (deliver blank 5 waited ≡ record waited { message_list = qs })
        × Routed blank waited.message_list qs)
deliver_lem_example = deliver_lem blank 5 waited
