-- ===== src/Resources/Requests.antt =====
-- app/RBC/src/ressources.c, `ask_resources` and `free_resources`; app/RBC/src/trains.c, the state
-- that they share. The mutexes of the positions and the debug output have no part in the values.
use projet_commun_unirail.Prelude.{
  ℕ, zero, suc, ◌+◌, ◌-◌, ◌%◌, Bool, true, false, ◌&&◌, ◌||◌, Option, none, some, List, ◌>>=◌,
  if◌then◌else◌, length, get_elem?, update,
}
use projet_commun_unirail.Prelude.Int.{ℤ, pos, ◌==ℤ◌}
use projet_commun_unirail.Float.{Float}
use projet_commun_unirail.Track.{Position, chemins}
use projet_commun_unirail.Can.{Bus, entry, set_all_switch}
use projet_commun_unirail.Resources.Tables.{
  l_res_req, l_res_lib, l_mask_req, l_mask_lib, l_res_size,
}
use projet_commun_unirail.Resources.Masks.{lock_ressources, unlock_ressources}

-- The globals of the RBC, by train number from 0 to 2.
pub record RbcState (F : Type 0) : Type 0 where
  pub pos_trains : ℕ → Position F
  pub next_bal_index_req : ℕ → ℕ
  pub next_bal_index_lib : ℕ → ℕ
  pub resources : ℕ
  pub bus : Bus

-- How a request for resources ends: nothing was due, the thread waits for a lock, or the lock was
-- taken. The last also carries the result of `set_all_switch`, which the program drops.
pub data Asked (F : Type 0) : Type 0 where
  not_due : Asked F
  waiting : ℕ → Asked F
  locked : ℕ → ℕ → RbcState F → Asked F

-- The loop of `ask_resources` from index `i`, with `left` rounds to go.
unfoldable pub resource_to_lock : ℕ → ℕ → List ℤ → ℤ → ℤ → Option Bool
resource_to_lock zero i chemin bal res = some false
resource_to_lock (suc left) i chemin bal res = do
  before ← get_elem? chemin ((i + length chemin - 1) % length chemin)
  here ← get_elem? chemin i
  elim ((bal ==ℤ before || bal ==ℤ here) && res ==ℤ here) [
    | true ↦ some true
    | false ↦ resource_to_lock left (i + 1) chemin bal res
  ]

module _ {F : Type 0} ⦃f : Float F⦄ where
  -- `init_trains`; the counters and the resources start at zero.
  abbrev pub init_trains : Bus → RbcState F
  init_trains bus = record {
    pos_trains = λ k. record {
      bal = elim k [ zero ↦ pos 1 | suc k ↦ elim k [ zero ↦ pos 21 | suc _ ↦ pos 22 ] ];
      pos_r = f.tenths (pos 0);
    };
    next_bal_index_req = λ _. 0;
    next_bal_index_lib = λ _. 0;
    resources = 0b000000;
    bus = bus;
  }

  -- Whether the train stands where it asks for its next resource.
  unfoldable pub is_due : ℕ → RbcState F → Option Bool
  is_due no_train s = do
    chemin ← get_elem? chemins no_train
    res ← entry l_res_req no_train (s.next_bal_index_req no_train)
    found ← resource_to_lock (length chemin) 0 chemin (s.pos_trains no_train).bal res
    some (found && f.le (f.tenths (pos 0)) (s.pos_trains no_train).pos_r)

  -- After the lock: the switches, then the counter.
  unfoldable pub grant : (ℕ → Bool) → ℕ → ℕ → ℕ → RbcState F → Option (Asked F)
  grant fails no_train mask taken s = do
    let index = s.next_bal_index_req no_train
    set ← set_all_switch fails no_train index s.bus
    size ← get_elem? l_res_size no_train
    some (
        locked mask set.0 (record s {
          resources = taken;
          bus = set.1;
          next_bal_index_req = update s.next_bal_index_req no_train ((index + 1) % size);
        }))

  -- The lock of the next resource, once it is due.
  unfoldable pub take_resources : (ℕ → Bool) → ℕ → RbcState F → Option (Asked F)
  take_resources fails no_train s = do
    mask ← entry l_mask_req no_train (s.next_bal_index_req no_train)
    elim (lock_ressources mask s.resources) [
      | none ↦ some (waiting mask)
      | some taken ↦ grant fails no_train mask taken s
    ]

  unfoldable pub ask_resources : (ℕ → Bool) → ℕ → RbcState F → Option (Asked F)
  ask_resources fails no_train s = do
    due ← is_due no_train s
    if due then take_resources fails no_train s else some not_due

  -- Whether the train stands where it frees its next resource.
  unfoldable pub is_freeing : ℕ → RbcState F → Option Bool
  is_freeing no_train s = do
    res ← entry l_res_lib no_train (s.next_bal_index_lib no_train)
    let p = s.pos_trains no_train
    some (p.bal ==ℤ res && f.le (f.tenths (pos 0)) p.pos_r)

  -- The unlock of the resource, once the train has left it.
  unfoldable pub give_back : ℕ → RbcState F → Option (RbcState F)
  give_back no_train s = do
    let index = s.next_bal_index_lib no_train
    mask ← entry l_mask_lib no_train index
    size ← get_elem? l_res_size no_train
    some (record s {
      resources = unlock_ressources mask s.resources;
      next_bal_index_lib = update s.next_bal_index_lib no_train ((index + 1) % size);
    })

  unfoldable pub free_resources : ℕ → RbcState F → Option (RbcState F)
  free_resources no_train s = do
    freeing ← is_freeing no_train s
    if freeing then give_back no_train s else some s
