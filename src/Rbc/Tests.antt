-- ===== src/Rbc/Tests.antt =====
-- Requests to the RBC at concrete values.
use projet_commun_unirail.Prelude.{ℕ, ◌≡◌, ◌⊎◌, refl, Bool, false, none, some, [], ◌∷◌, arith}
use mathlib.Core.Option.{some-injective}
use projet_commun_unirail.Prelude.Int.{pos, ◌-ℤ◌, ◌*ℤ◌}
use projet_commun_unirail.Float.{Tenths, tenths_float, Tenths-IsOrdered}
use projet_commun_unirail.Can.{
  Bus, set_all_switch, switch_loop, set_switch, set_switch_straight, set_switch_turn, send_can_data,
}
use projet_commun_unirail.Resources.{
  World, RbcState, init_trains, IsWaiting, ask_resources, is_due, resource_to_lock, take_resources,
  lock_ressources, grant, free_resources, is_freeing, give_back, unlock_ressources,
}
use projet_commun_unirail.Track.{seek}
use projet_commun_unirail.Eoa.{next_eoa, objective_loop, any_set, min_pos_r}
use projet_commun_unirail.Comm.{
  Message, tenths_text, strtol, read_signed, read_nat, read_digits, skip_spaces, read_signed_tenths,
  read_tenths, first_decimal, after_digits, print_int, print_nat, print_digits, round_tenths,
}
use projet_commun_unirail.Rbc.Handler.{
  handle_report, store_position, replied, blocked, handle_request, handle_code, handle_movement,
  send_eoa, reply,
}
use projet_commun_unirail.Rbc.Outcomes.{IsEcho, Outcome}
use projet_commun_unirail.Rbc.Replies.{handle_request-Outcome}
use projet_commun_unirail.Rbc.Refinement.{Goes, handle_request-Goes}
use projet_commun_unirail.Rbc.Sound.{IsPlaced, IsSound, init_trains-IsSound}
use projet_commun_unirail.Rbc.Answers.{
  Answer, addressed, handle_request-Answer, handle_request-stores,
}

abbrev quiet : Bus
quiet = record { sent = []; writes = 0 }

abbrev no_fault : ℕ → Bool
no_fault _ = false

abbrev begin : RbcState Tenths
begin = init_trains quiet

begin-IsSound : IsSound begin
begin-IsSound = init_trains-IsSound Tenths-IsOrdered quiet

abbrev blank : Message
blank = record { req_id = pos 0; train_id = pos 0; code = pos 0; data_0 = none; data_1 = none }

-- Train 1 asks how far it may run.
abbrev movement : Message
movement = record blank { req_id = pos 7; train_id = pos 1; code = pos 102 }

-- Train 1 reports balise 2, at 3.5.
abbrev report : Message
report = record {
  req_id = pos 8;
  train_id = pos 1;
  code = pos 101;
  data_0 = some (b'2' ∷ []);
  data_1 = some (b'3' ∷ b'.' ∷ b'5' ∷ []);
}

-- A train that is not one of the three.
abbrev stranger : Message
stranger = record movement { train_id = pos 4 }

stranger_refused :
    handle_request no_fault stranger blank begin
    ≡ some (replied (reply 404 (addressed stranger blank)) begin)
unfolding handle_request ◌-ℤ◌
stranger_refused = refl

handle_request-Answer_example :
    ((mask : ℕ) × IsWaiting 0 mask begin
      × (handle_request no_fault movement blank begin ≡ some (blocked mask)))
    ⊎ ((m : Message) × ((s' : RbcState Tenths) × (handle_request no_fault movement blank begin
            ≡ some (replied m s'))
          × Answer 0 movement begin m s'))
handle_request-Answer_example =
    handle_request-Answer 0 2 movement blank refl refl Tenths-IsOrdered no_fault begin refl
      begin-IsSound (λ front. ground arith)

strtol-report : strtol (b'2' ∷ []) ≡ some (pos 2)
unfolding strtol read_signed read_nat read_digits skip_spaces
strtol-report = refl

strtod-report : tenths_text.strtod (b'3' ∷ b'.' ∷ b'5' ∷ []) ≡ some (some (pos 35))
unfolding read_signed_tenths read_tenths first_decimal after_digits read_nat read_digits skip_spaces
strtod-report = refl

IsPlaced-report : IsPlaced 0 (record { bal = pos 2; pos_r = some (pos 35) })
IsPlaced-report = record {
  on_route = λ e. (1, rw (← some-injective _ _ e));
  positive = ground arith;
}

handle_request-stores_example :
    (s' : RbcState Tenths) × (handle_request no_fault report blank begin
      ≡ some (replied (reply 201 (addressed report blank)) s'))
    × (s'.pos_trains 0 ≡ record { bal = pos 2; pos_r = some (pos 35) })
    × IsSound s'
handle_request-stores_example =
    handle_request-stores 0 2 report blank refl refl no_fault begin (b'2' ∷ [])
      (b'3' ∷ b'.' ∷ b'5' ∷ []) (pos 2) (some (pos 35)) refl refl refl strtol-report strtod-report
      IsPlaced-report begin-IsSound

abbrev world : World Tenths
world = record { rbc = begin; held = λ _. 0 }

-- Train 2 stands where it asks for its first resource, and gets it.
abbrev second : Message
second = record movement { train_id = pos 2 }

handle_request-second :
    (m : Message) × ((s' : RbcState Tenths) × (handle_request no_fault second blank begin
        ≡ some (replied m s')))
unfolding handle_request handle_code handle_movement send_eoa ask_resources is_due resource_to_lock
    take_resources lock_ressources grant set_all_switch switch_loop set_switch set_switch_straight
    set_switch_turn send_can_data next_eoa objective_loop any_set min_pos_r seek print_int print_nat
    print_digits round_tenths ◌-ℤ◌
handle_request-second = (_, (_, refl))

-- Train 2 reports balise 17, where it frees its first resource.
abbrev leaves : Message
leaves = record report {
  train_id = pos 2;
  data_0 = some (b'1' ∷ b'7' ∷ []);
  data_1 = some (b'0' ∷ []);
}

handle_request-leaves :
    (m : Message) × ((s' : RbcState Tenths) × (handle_request no_fault leaves blank begin
        ≡ some (replied m s')))
unfolding handle_request handle_code handle_report store_position free_resources is_freeing
    give_back unlock_ressources strtol read_signed read_nat read_digits skip_spaces
    read_signed_tenths read_tenths first_decimal after_digits ◌-ℤ◌ ◌*ℤ◌
handle_request-leaves = (_, (_, refl))

leaves_counter : handle_request-leaves.1.0.next_bal_index_lib 1 ≡ 1
unfolding handle_request-leaves
leaves_counter = refl

handle_request-Goes_example :
    Goes no_fault leaves handle_request-leaves.0 world handle_request-leaves.1.0
handle_request-Goes_example =
    handle_request-Goes no_fault world leaves blank handle_request-leaves.0
      handle_request-leaves.1.0 handle_request-leaves.1.1

handle_request-Outcome_example :
    IsEcho second handle_request-second.0
    × Outcome no_fault second handle_request-second.0 begin handle_request-second.1.0
handle_request-Outcome_example =
    handle_request-Outcome no_fault second blank handle_request-second.0 begin
      handle_request-second.1.0 handle_request-second.1.1
