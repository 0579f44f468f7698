-- ===== src/Can/Switches.antt =====
-- app/utility/src/can_infra.c: the switch commands of each route and `set_all_switch`.
use projet_commun_unirail.Prelude.{
  ℕ, zero, suc, ◌+◌, Bool, Option, some, List, [], ◌∷◌, ◌>>=◌, if◌then◌else◌, ◌==◌, get_elem?,
}
use projet_commun_unirail.Prelude.Int.{ℤ, pos}
use projet_commun_unirail.Can.Frames.{Bus, send_can_data}

-- `commande_aig`: a switch and its direction, 0 for straight and 1 for the branch.
pub record CommandeAig : Type 0 where
  pub name : ℕ
  pub dir : ℕ

abbrev pub aig : ℕ → ℕ → CommandeAig
aig name dir = record { name = name; dir = dir }

abbrev pub command_aig_t1_r4 : List CommandeAig
command_aig_t1_r4 =
    aig 0x1a2 1 ∷ aig 0x192 1 ∷ aig 0x212 0 ∷ aig 0x202 0 ∷ aig 0x1d2 1 ∷ aig 0x1e2 1 ∷ []

abbrev pub command_aig_t1_r1 : List CommandeAig
command_aig_t1_r1 = aig 0x112 1 ∷ aig 0x102 0 ∷ []

abbrev pub command_aig_t2_r2 : List CommandeAig
command_aig_t2_r2 = aig 0x132 0 ∷ aig 0x142 0 ∷ []

abbrev pub command_aig_t2_r3 : List CommandeAig
command_aig_t2_r3 = aig 0x152 0 ∷ aig 0x162 0 ∷ []

abbrev pub command_aig_t2_r4 : List CommandeAig
command_aig_t2_r4 = aig 0x192 0 ∷ aig 0x212 1 ∷ aig 0x1f2 0 ∷ aig 0x1b2 1 ∷ aig 0x182 0 ∷ []

abbrev pub command_aig_t3_r5 : List CommandeAig
command_aig_t3_r5 = aig 0x1b2 0 ∷ aig 0x1f2 1 ∷ []

abbrev pub command_aig_t3_r3 : List CommandeAig
command_aig_t3_r3 = aig 0x152 1 ∷ aig 0x162 0 ∷ []

abbrev pub command_aig_t3_r4 : List CommandeAig
command_aig_t3_r4 = aig 0x192 0 ∷ aig 0x212 0 ∷ aig 0x202 0 ∷ aig 0x1d2 1 ∷ aig 0x1e2 1 ∷ []

abbrev pub command_aig_t2_r1_2 : List CommandeAig
command_aig_t2_r1_2 = aig 0x102 0 ∷ aig 0x112 0 ∷ aig 0x122 1 ∷ aig 0x132 1 ∷ aig 0x142 1 ∷ []

abbrev pub all_command_aig : List (List (List CommandeAig))
all_command_aig =
    (command_aig_t1_r4 ∷ command_aig_t1_r1 ∷ [])
    ∷ (command_aig_t2_r2 ∷ command_aig_t2_r3 ∷ command_aig_t2_r4 ∷ [])
    ∷ (command_aig_t3_r5 ∷ command_aig_t3_r3 ∷ command_aig_t3_r4 ∷ command_aig_t2_r1_2 ∷ [])
    ∷ []

abbrev pub length_bal : List (List ℕ)
length_bal = (6 ∷ 2 ∷ []) ∷ (2 ∷ 2 ∷ 5 ∷ []) ∷ (2 ∷ 2 ∷ 5 ∷ 5 ∷ []) ∷ []

-- A cell of a table of rows; a read outside is a fault.
abbrev pub entry {ℓ} : {A : Type ℓ} → List (List A) → ℕ → ℕ → Option A
entry rows k i = get_elem? rows k >>= λ row. get_elem? row i

-- The data of a positioning order: `W`, the mode, and zeros.
abbrev pub order : ℕ → List ℤ
order turn_mode = pos 0x57 ∷ pos turn_mode ∷ pos 0 ∷ pos 0 ∷ pos 0 ∷ pos 0 ∷ pos 0 ∷ pos 0 ∷ []

module _ (fails : ℕ → Bool) where
  unfoldable pub set_switch_straight : ℕ → Bus → ℕ × Bus
  set_switch_straight aig_name = send_can_data fails aig_name 3 (order 0)

  unfoldable pub set_switch_turn : ℕ → Bus → ℕ × Bus
  set_switch_turn aig_name = send_can_data fails aig_name 3 (order 1)

  -- One round of the loop of `set_all_switch`.
  unfoldable pub set_switch : CommandeAig → Bus → ℕ × Bus
  set_switch command bus =
      if command.dir == 1
      then set_switch_turn command.name bus
      else set_switch_straight command.name bus

  -- The loop, with `left` commands to go: it stops at the first error.
  unfoldable pub switch_loop : List CommandeAig → ℕ → ℕ → Bus → Option (ℕ × Bus)
  switch_loop commands zero i bus = some (0, bus)
  switch_loop commands (suc left) i bus = do
    command ← get_elem? commands i
    let (result, bus') = set_switch command bus
    elim result [ zero ↦ switch_loop commands left (i + 1) bus' | suc _ ↦ some (1, bus') ]

  unfoldable pub set_all_switch : ℕ → ℕ → Bus → Option (ℕ × Bus)
  set_all_switch num_train next_bal_index bus = do
    commands ← entry all_command_aig num_train next_bal_index
    longueur ← entry length_bal num_train next_bal_index
    switch_loop commands longueur 0 bus
