-- ===== src/Eoa/Search.antt =====
-- The loop of `next_eoa`: it stops, at the first balise of the route that carries an objective.
use mathlib.Core.Option.{some-injective}
use native.Mathlib.Nat.{mod-eq_of_lt, mod_self}
use native.Mathlib.Decide.{dec_lt}
use projet_commun_unirail.Prelude.{
  ℕ, zero, suc, ◌+◌, ◌%◌, ◌≤◌, ◌<◌, ◌≡◌, refl, sym, ap, ◌∙◌, ◌≢◌, Bool, true, false, some, List,
  ◌>>=◌, length, get_elem?, get_elem?_lt, arith, Bool-cases, inl, inr,
}
use projet_commun_unirail.Prelude.Int.{ℤ, pos, ==ℤ_iff}
use projet_commun_unirail.Float.{Float}
use projet_commun_unirail.Track.{Position, next_index, next_index-lt, gap, gap-next_index}
use projet_commun_unirail.Eoa.Calculator.{objectives, any_set, min_pos_r, objective_loop}

-- `bal` is the first balise from index `i` on that passes the test, `k` sections further.
abbrev pub FirstHit : List ℤ → (ℤ → Bool) → ℤ → ℕ → ℕ → Type 0
FirstHit chemin test bal zero i = (get_elem? chemin i ≡ some bal) × (test bal ≡ true)
FirstHit chemin test bal (suc k) i =
    ((b : ℤ) × (get_elem? chemin i ≡ some b) × (test b ≡ false))
    × FirstHit chemin test bal k (next_index chemin i)

mod_next :
    (chemin : List ℤ) (i : ℕ) → i < length chemin → (i + 1) % length chemin ≡ next_index chemin i
mod_next chemin i h = elim (dec_lt (i + 1) (length chemin)) [
  | yes inside ↦ mod-eq_of_lt inside ∙ ground arith
  | no last ↦
      let full : i + 1 ≡ length chemin = omega arith in
      ap (λ j. j % length chemin) full ∙ mod_self (length chemin) ∙ ground arith
]

module _ {F : Type 0} ⦃f : Float F⦄ (chemin : List ℤ) (next_balise : ℤ) (p1 p2 : Position F) where
  -- Whether a balise carries the resource or one of the other trains.
  abbrev pub is_blocked : ℤ → Bool
  is_blocked bal = any_set (objectives next_balise p1 p2 bal)

  pub next_balise-is_blocked : (bal : ℤ) → bal ≡ next_balise → is_blocked bal ≡ true
  unfolding any_set
  next_balise-is_blocked bal e = ground (arith, ==ℤ_iff next_balise bal)

  -- What the loop returns from index `i`.
  pub record FoundWithin (most i : ℕ) (r : Position F) : Type 0 where
    pub sections : ℕ
    pub sections_le : sections ≤ most
    pub first : FirstHit chemin is_blocked r.bal sections (next_index chemin i)
    pub offset :
        r.pos_r ≡ min_pos_r (f.tenths (pos 10_000_000_000)) (objectives next_balise p1 p2 r.bal)

  apart_of_free :
      (i m : ℕ) {bal : ℤ}
      → get_elem? chemin m ≡ some next_balise
      → get_elem? chemin i ≡ some bal
      → is_blocked bal ≡ false
      → i ≢ m
  apart_of_free i m {bal} at_m at free same =
      let met = some-injective _ _ (sym at ∙ ap (get_elem? chemin) same ∙ at_m) in
      cc (next_balise-is_blocked bal met)

  objective_loop_hit :
      (fuel i : ℕ) {bal : ℤ}
      → i < length chemin
      → get_elem? chemin (next_index chemin i) ≡ some bal
      → is_blocked bal ≡ true
      → objective_loop (suc fuel) chemin next_balise p1 p2 i
        ≡ some (record {
          bal = bal;
          pos_r = min_pos_r (f.tenths (pos 10_000_000_000)) (objectives next_balise p1 p2 bal);
        })
  unfolding objective_loop
  objective_loop_hit fuel i h at hit = rw (mod_next chemin i h, at, ◌>>=◌) (rw hit)

  objective_loop_skip :
      (fuel i : ℕ) {bal : ℤ}
      → i < length chemin
      → get_elem? chemin (next_index chemin i) ≡ some bal
      → is_blocked bal ≡ false
      → objective_loop (suc fuel) chemin next_balise p1 p2 i
        ≡ objective_loop fuel chemin next_balise p1 p2 (next_index chemin i)
  unfolding objective_loop
  objective_loop_skip fuel i h at free =
      rw (mod_next chemin i h, at, ◌>>=◌)
        (rw free (ap (objective_loop fuel chemin next_balise p1 p2) (mod_next chemin i h)))

  pub objective_loop-Found :
      (fuel i m : ℕ)
      → i < length chemin
      → m < length chemin
      → get_elem? chemin m ≡ some next_balise
      → gap (length chemin) (next_index chemin i) m < fuel
      → (r : Position F) × (objective_loop fuel chemin next_balise p1 p2 i ≡ some r)
        × FoundWithin (gap (length chemin) (next_index chemin i) m) i r
  objective_loop-Found zero i m p q at_m h = absurd (omega arith)
  objective_loop-Found (suc fuel) i m p q at_m h =
      let i' : ℕ = next_index chemin i in
      let i'_lt = next_index-lt chemin i p in
      let (bal, at) = get_elem?_lt chemin i' i'_lt in
      elim (Bool-cases (is_blocked bal)) [
        | inl hit ↦ (
          _,
          objective_loop_hit fuel i p at hit,
          record { sections = 0; sections_le = omega arith; first = (at, hit); offset = refl },
        )
        | inr free ↦
            let apart = apart_of_free i' m at_m at free in
            let shorter = gap-next_index chemin i' m i'_lt q apart in
            let (r, rest, found) = objective_loop-Found fuel i' m i'_lt q at_m (omega arith) in
            (
              r,
              objective_loop_skip fuel i p at free ∙ rest,
              record {
                sections = suc found.sections;
                sections_le = omega (arith, found.sections_le);
                first = ((bal, at, free), found.first);
                offset = found.offset;
              },
            )
      ]
