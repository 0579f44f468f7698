-- ===== src/Rbc/Cells.antt =====
-- What the tables of app/utility/src/const_chemins.c and app/utility/src/map.c hold for each counter of a
-- train.
use projet_commun_unirail.Prelude.{
  ℕ, zero, suc, ◌+◌, ◌%◌, ◌<◌, ◌≡◌, refl, sym, ◌∙◌, inl, inr, some, List, ◌==◌, Bool-cases, Returns,
  length, get_elem?, update, arith,
}
use native.Mathlib.Nat.{mod-lt}
use mathlib.Core.Option.{some-injective}
use projet_commun_unirail.Prelude.Int.{ℤ}
use projet_commun_unirail.Track.{chemins}
use projet_commun_unirail.Can.{entry, all_command_aig}
use projet_commun_unirail.Resources.{l_res_req, l_res_lib, l_mask_req, l_mask_lib, l_res_size}

-- A balise of a route.
abbrev pub IsOn : ℤ → List ℤ → Type 0
IsOn bal chemin = (a : ℕ) × (get_elem? chemin a ≡ some bal)

-- What the tables hold for counter `i` of train `k`.
pub record Cell (k i : ℕ) : Type 0 where
  pub route : Returns (get_elem? chemins k)
  pub positive : 0 < length route.0
  pub req : Returns (entry l_res_req k i)
  pub req_on : IsOn req.0 route.0
  pub lib : Returns (entry l_res_lib k i)
  pub mask_req : Returns (entry l_mask_req k i)
  pub mask_lib : Returns (entry l_mask_lib k i)
  pub commands : Returns (entry all_command_aig k i)

-- The tables have a cell for each counter below `L_res_size`.
pub cell : (k i size : ℕ) → get_elem? l_res_size k ≡ some size → i < size → Cell k i
cell zero zero size e p = record {
  route = (_, refl);
  positive = omega arith;
  req = (_, refl);
  req_on = (2, refl);
  lib = (_, refl);
  mask_req = (_, refl);
  mask_lib = (_, refl);
  commands = (_, refl);
}
cell zero (suc zero) size e p = record {
  route = (_, refl);
  positive = omega arith;
  req = (_, refl);
  req_on = (7, refl);
  lib = (_, refl);
  mask_req = (_, refl);
  mask_lib = (_, refl);
  commands = (_, refl);
}
cell zero (suc (suc i)) size e p = absurd (let three = some-injective _ _ e in omega arith)
cell (suc zero) zero size e p = record {
  route = (_, refl);
  positive = omega arith;
  req = (_, refl);
  req_on = (0, refl);
  lib = (_, refl);
  mask_req = (_, refl);
  mask_lib = (_, refl);
  commands = (_, refl);
}
cell (suc zero) (suc zero) size e p = record {
  route = (_, refl);
  positive = omega arith;
  req = (_, refl);
  req_on = (1, refl);
  lib = (_, refl);
  mask_req = (_, refl);
  mask_lib = (_, refl);
  commands = (_, refl);
}
cell (suc zero) (suc (suc zero)) size e p = record {
  route = (_, refl);
  positive = omega arith;
  req = (_, refl);
  req_on = (2, refl);
  lib = (_, refl);
  mask_req = (_, refl);
  mask_lib = (_, refl);
  commands = (_, refl);
}
cell (suc zero) (suc (suc (suc i))) size e p =
    absurd (let three = some-injective _ _ e in omega arith)
cell (suc (suc zero)) zero size e p = record {
  route = (_, refl);
  positive = omega arith;
  req = (_, refl);
  req_on = (2, refl);
  lib = (_, refl);
  mask_req = (_, refl);
  mask_lib = (_, refl);
  commands = (_, refl);
}
cell (suc (suc zero)) (suc zero) size e p = record {
  route = (_, refl);
  positive = omega arith;
  req = (_, refl);
  req_on = (9, refl);
  lib = (_, refl);
  mask_req = (_, refl);
  mask_lib = (_, refl);
  commands = (_, refl);
}
cell (suc (suc zero)) (suc (suc zero)) size e p = record {
  route = (_, refl);
  positive = omega arith;
  req = (_, refl);
  req_on = (10, refl);
  lib = (_, refl);
  mask_req = (_, refl);
  mask_lib = (_, refl);
  commands = (_, refl);
}
cell (suc (suc zero)) (suc (suc (suc zero))) size e p = record {
  route = (_, refl);
  positive = omega arith;
  req = (_, refl);
  req_on = (15, refl);
  lib = (_, refl);
  mask_req = (_, refl);
  mask_lib = (_, refl);
  commands = (_, refl);
}
cell (suc (suc zero)) (suc (suc (suc (suc i)))) size e p =
    absurd (let three = some-injective _ _ e in omega arith)
cell (suc (suc (suc k))) i size e p = cc

pub update_lem {ℓ κ} :
    {A : Type ℓ} (P : ℕ → A → Type κ) (g : ℕ → A) (k : ℕ) (a : A)
    → ((j : ℕ) → P j (g j))
    → P k a
    → (j : ℕ) → P j (update g k a j)
update_lem P g k a h p j = elim (Bool-cases (k == j)) [
  | inl same ↦ rw same (let e : k ≡ j = ground arith in rw e at p)
  | inr other ↦ rw other (h j)
]

-- A counter within the tables of train `k`.
abbrev pub IsIndex : ℕ → ℕ → Type 0
IsIndex k i = (size : ℕ) → get_elem? l_res_size k ≡ some size → i < size

pub IsIndex-next :
    (k i size : ℕ) → get_elem? l_res_size k ≡ some size → i < size → IsIndex k ((i + 1) % size)
IsIndex-next k i size e p size' e' =
    let same = some-injective _ _ (sym e ∙ e') in rw (← same) (mod-lt (i + 1) (omega arith))

pub first-IsIndex : (k : ℕ) → IsIndex k 0
first-IsIndex zero size e = (let two = some-injective _ _ e in omega arith)
first-IsIndex (suc zero) size e = (let three = some-injective _ _ e in omega arith)
first-IsIndex (suc (suc zero)) size e = (let four = some-injective _ _ e in omega arith)
first-IsIndex (suc (suc (suc k))) size e = cc
