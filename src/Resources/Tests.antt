-- ===== src/Resources/Tests.antt =====
-- Requests and releases of resources on concrete states.
use projet_commun_unirail.Prelude.{
  ℕ, ◌<◌, ◌≡◌, refl, ◌↔◌, Bool, true, false, Option, none, some, [], update, bit_or, bit_and, arith,
  length,
}
use projet_commun_unirail.Prelude.Bits.{test_bit, complement}
use projet_commun_unirail.Prelude.Int.{ℤ, pos}
use projet_commun_unirail.Float.{Tenths, tenths_float}
use projet_commun_unirail.Can.{
  Bus, entry, send_can_data, set_all_switch, switch_loop, set_switch, set_switch_straight,
  set_switch_turn,
}
use projet_commun_unirail.Track.{Position, chemin1}
use projet_commun_unirail.Resources.Masks.{lock_ressources, unlock_ressources}
use projet_commun_unirail.Resources.Place.{IsPlace, resource_to_lock_iff}
use projet_commun_unirail.Resources.Requests.{
  RbcState, Asked, waiting, locked, take_resources, grant, resource_to_lock, free_resources,
  is_freeing, give_back,
}
use projet_commun_unirail.Resources.System.{
  World, place, start, granted, freed, Reach, AllOwn, here, later,
}
use projet_commun_unirail.Resources.Effects.{IsFreed}
use projet_commun_unirail.Resources.Tables.{l_mask_req}
use projet_commun_unirail.Resources.Exclusion.{mutual_exclusion}
use projet_commun_unirail.Resources.Leak.{last_section_never_freed}

abbrev quiet : Bus
quiet = record { sent = []; writes = 0 }

abbrev no_fault : ℕ → Bool
no_fault _ = false

-- The state after a lock that is taken, and the state as it was for any other answer.
abbrev state_of : RbcState Tenths → Option (Asked Tenths) → RbcState Tenths
state_of s (some (locked _ _ s')) = s'
state_of s _ = s

abbrev begin : World Tenths
begin = start no_fault quiet

-- Train `k` takes its next lock.
lock_next : ℕ → ℕ → World Tenths → World Tenths
unfolding take_resources lock_ressources grant set_all_switch switch_loop set_switch
    set_switch_straight set_switch_turn send_can_data
lock_next k mask w = record {
  rbc = state_of w.rbc (take_resources no_fault k w.rbc);
  held = update w.held k (bit_or (w.held k) mask);
}

abbrev once : World Tenths
once = lock_next 1 0b00010 begin

abbrev twice : World Tenths
twice = lock_next 1 0b00100 once

first_masks : twice.rbc.resources ≡ 0b00110
unfolding lock_next
first_masks = refl

-- Train `k` reports a position where it frees `mask`.
abbrev freed_state : RbcState Tenths → Option (RbcState Tenths) → RbcState Tenths
freed_state s (some s') = s'
freed_state s none = s

abbrev at : ℤ → Position Tenths
at bal = record { bal = bal; pos_r = some (pos 0) }

free_next : ℕ → ℕ → ℤ → World Tenths → World Tenths
unfolding free_resources is_freeing give_back unlock_ressources
free_next k mask bal w = record {
  rbc = freed_state w.rbc (free_resources k (place no_fault k (at bal) w.rbc));
  held = update w.held k (bit_and (w.held k) (complement 8 mask));
}

-- Then train 0 takes its first lock, and train 1 comes to balise 17.
abbrev shared : World Tenths
shared = lock_next 0 0b01000 twice

abbrev given_back : World Tenths
given_back = free_next 1 0b00010 (pos 17) shared

shared_masks : (shared.rbc.resources ≡ 0b01110) × (given_back.rbc.resources ≡ 0b01100)
unfolding lock_next free_next
shared_masks = (refl, refl)

freed_17 : free_resources 1 (place no_fault 1 (at (pos 17)) shared.rbc) ≡ some given_back.rbc
unfolding lock_next free_next free_resources is_freeing give_back unlock_ressources
freed_17 = refl

IsFreed-17 : IsFreed 1 0b00010 (place no_fault 1 (at (pos 17)) shared.rbc) given_back.rbc
unfolding lock_next free_next free_resources is_freeing give_back unlock_ressources
IsFreed-17 = record {
  mask_of = refl;
  given = refl;
  size = 3;
  size_of = refl;
  advanced = refl;
  same_req = refl;
  same_pos = refl;
}

Reach-given_back : (r : Reach no_fault begin given_back) × AllOwn no_fault r
unfolding lock_next free_next
Reach-given_back = (
  later
      (later (later (later here (granted 1 0b00010 0 _ refl)) (granted 1 0b00100 0 _ refl))
        (granted 0 0b01000 0 _ refl))
      (freed 1 0b00010 (at (pos 17)) _ freed_17 IsFreed-17),
  ((((tt, tt), tt), tt), refl),
)

mutual_exclusion_example :
    ((test_bit given_back.rbc.resources 2 ≡ true)
      ↔ ((k : ℕ) × (test_bit (given_back.held k) 2 ≡ true)))
    × ((j k : ℕ)
        → test_bit (given_back.held j) 2 ≡ true
        → test_bit (given_back.held k) 2 ≡ true
        → j ≡ k)
mutual_exclusion_example = mutual_exclusion no_fault quiet 2 Reach-given_back.0 Reach-given_back.1

-- Train 1 takes its three locks and gives the first one back.
abbrev thrice : World Tenths
thrice = lock_next 1 0b11000 twice

abbrev freed_first : World Tenths
freed_first = free_next 1 0b00010 (pos 17) thrice

Reach-twice : (r : Reach no_fault begin twice) × AllOwn no_fault r
unfolding lock_next
Reach-twice =
    (later (later here (granted 1 0b00010 0 _ refl)) (granted 1 0b00100 0 _ refl), ((tt, tt), tt))

third_lock : take_resources no_fault 1 twice.rbc ≡ some (locked 0b11000 0 thrice.rbc)
unfolding lock_next
third_lock = refl

Reach-freed_first :
    (r : Reach no_fault
      (record { rbc = thrice.rbc; held = update twice.held 1 (bit_or (twice.held 1) 0b11000) })
      freed_first)
    × AllOwn no_fault r
unfolding lock_next free_next free_resources is_freeing give_back unlock_ressources
Reach-freed_first = (
  later here (
      freed 1 0b00010 (at (pos 17)) _ refl (record {
        mask_of = refl;
        given = refl;
        size = 3;
        size_of = refl;
        advanced = refl;
        same_req = refl;
        same_pos = refl;
      })),
  (tt, refl),
)

third_counter : twice.rbc.next_bal_index_req 1 ≡ 2
unfolding lock_next
third_counter = refl

next_of_2 : entry l_mask_req 2 (freed_first.rbc.next_bal_index_req 2) ≡ some 0b10000
unfolding lock_next free_next
next_of_2 = refl

last_section_never_freed_example :
    take_resources no_fault 2 freed_first.rbc ≡ some (waiting 0b10000)
last_section_never_freed_example =
    last_section_never_freed no_fault quiet 0b11000 0 thrice.rbc Reach-twice.0 Reach-twice.1
      third_counter third_lock Reach-freed_first.0 Reach-freed_first.1 2 0b10000 next_of_2 refl

-- A report of train 2 without the lock frees bit 4 of train 1 all the same.
abbrev stranger : World Tenths
stranger = free_next 2 0b10000 (pos 27) thrice

stranger_frees :
    (test_bit thrice.rbc.resources 4 ≡ true)
    × (test_bit stranger.rbc.resources 4 ≡ false)
    × (test_bit (stranger.held 1) 4 ≡ true)
unfolding lock_next free_next
stranger_frees = (refl, refl, refl)

resource_to_lock_iff_example :
    (b : Bool) × (resource_to_lock (length chemin1) 0 chemin1 (pos 2) (pos 3) ≡ some b)
    × ((b ≡ true) ↔ ((j : ℕ) × (j < length chemin1) × IsPlace chemin1 (pos 2) (pos 3) j))
resource_to_lock_iff_example = resource_to_lock_iff chemin1 (pos 2) (pos 3) (omega arith)
