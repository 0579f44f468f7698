-- ===== src/Eoa/Calculator.antt =====
-- app/RBC/src/eoa_calculator.c, `next_eoa`: the end of authority of one train. The lock that it
-- takes and the debug output have no part in the value.
use projet_commun_unirail.Prelude.{
  ℕ, zero, suc, ◌+◌, ◌%◌, Bool, true, false, ◌&&◌, ◌||◌, Option, none, some, List, [], ◌∷◌, ◌>>=◌,
  if◌then◌else◌, length, get_elem?,
}
use projet_commun_unirail.Prelude.Int.{ℤ, pos, ◌==ℤ◌}
use projet_commun_unirail.Float.{Float}
use projet_commun_unirail.Track.{Position, seek}

module _ {F : Type 0} ⦃f : Float F⦄ where
  -- One entry of `objectif_sur_balise` with the entry of `list_pos_r`.
  abbrev pub objective : Bool → F → Bool × F
  objective set pos_r = (set, if set then pos_r else f.tenths (pos 0))

  -- The three entries at a balise: the resource, then the two other trains.
  abbrev pub objectives : ℤ → Position F → Position F → ℤ → List (Bool × F)
  objectives next_balise p1 p2 bal =
      objective (next_balise ==ℤ bal) (f.tenths (pos 0))
      ∷ objective (p1.bal ==ℤ bal) p1.pos_r
      ∷ objective (p2.bal ==ℤ bal) p2.pos_r
      ∷ []

  unfoldable pub any_set : List (Bool × F) → Bool
  any_set [] = false
  any_set ((set, pos_r) ∷ os) = set || any_set os

  -- The loop over `j`, from `min_pos_r` on.
  unfoldable pub min_pos_r : F → List (Bool × F) → F
  min_pos_r least [] = least
  min_pos_r least ((set, pos_r) ∷ os) =
      min_pos_r (if set && f.le pos_r least then pos_r else least) os

  -- `while (1)`, from the index `num_balise_check`.
  unfoldable pub objective_loop : ℕ → List ℤ → ℤ → Position F → Position F → ℕ → Option (Position F)
  objective_loop zero chemin next_balise p1 p2 i = none
  objective_loop (suc fuel) chemin next_balise p1 p2 i =
      let i' = (i + 1) % length chemin in
      get_elem? chemin i' >>= λ bal. elim (any_set (objectives next_balise p1 p2 bal)) [
        | true ↦ some (record {
          bal = bal;
          pos_r = min_pos_r (f.tenths (pos 10_000_000_000)) (objectives next_balise p1 p2 bal);
        })
        | false ↦ objective_loop fuel chemin next_balise p1 p2 i'
      ]

  -- A train of the balise that is not behind the position.
  abbrev pub is_before : Position F → ℤ → Position F → Bool
  is_before current bal p = p.bal ==ℤ bal && f.le current.pos_r p.pos_r

  -- The special cases on the balise of the train, then the loop.
  unfoldable pub next_eoa : ℕ → (ℕ → Position F) → ℤ → List (List ℤ) → Option (Position F)
  next_eoa num_train pos_trains next_balise chemins = do
    let current = pos_trains num_train
    let p1 = pos_trains ((num_train + 1) % 3)
    let p2 = pos_trains ((num_train + 2) % 3)
    chemin ← get_elem? chemins num_train
    i ← seek current.bal chemin 0
    bal ← get_elem? chemin i
    if next_balise ==ℤ bal && f.le current.pos_r (f.tenths (pos 0))
        then some (record { bal = next_balise; pos_r = f.tenths (pos 0) })
        else if is_before current bal p1
        then some p1
        else if is_before current bal p2
        then some p2
        else objective_loop (length chemin) chemin next_balise p1 p2 i
