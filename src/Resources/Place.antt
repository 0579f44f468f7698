-- ===== src/Resources/Place.antt =====
-- Where `ask_resources` of app/RBC/src/ressources.c finds that a request is due: on the balise of
-- the resource, or on the balise before it on the route.
use projet_commun_unirail.Prelude.{
  ℕ, zero, suc, ◌+◌, ◌-◌, ◌%◌, ◌<◌, ◌≤◌, ◌≡◌, refl, sym, ap, ◌∙◌, ◌⊎◌, inl, inr, ◌↔◌, Bool, true,
  false, ◌&&◌, ◌||◌, some, List, ◌>>=◌, length, get_elem?, get_elem?_lt, arith, Bool-cases,
}
use mathlib.Core.Option.{some-injective}
use native.Mathlib.Decide.{ℕ_discrete}
use native.Mathlib.Nat.{mod-lt}
use projet_commun_unirail.Prelude.Int.{ℤ, ◌==ℤ◌, ==ℤ_iff}
use projet_commun_unirail.Resources.Requests.{resource_to_lock}

-- The index before `j`, cyclically.
abbrev pub index_before : List ℤ → ℕ → ℕ
index_before chemin j = (j + length chemin - 1) % length chemin

-- The resource stands at index `j`, and the train there or one balise before.
pub record IsPlace (chemin : List ℤ) (bal res : ℤ) (j : ℕ) : Type 0 where
  pub resource : get_elem? chemin j ≡ some res
  pub train :
      (get_elem? chemin j ≡ some bal) ⊎ (get_elem? chemin (index_before chemin j) ≡ some bal)

module _ (chemin : List ℤ) (bal res : ℤ) where
  -- The test at one index tells whether it is such a place.
  test_iff :
      (j : ℕ) {here before : ℤ}
      → get_elem? chemin j ≡ some here
      → get_elem? chemin (index_before chemin j) ≡ some before
      → (((bal ==ℤ before || bal ==ℤ here) && res ==ℤ here) ≡ true) ↔ IsPlace chemin bal res j
  test_iff j {here} {before} at prev = (
    λ h. record {
      resource = at ∙ ap some (sym ((==ℤ_iff res here).0 (ground arith)));
      train = elim (Bool-cases (bal ==ℤ here)) [
        | inl same ↦ inl (at ∙ ap some (sym ((==ℤ_iff bal here).0 same)))
        | inr other ↦ inr (prev ∙ ap some (sym ((==ℤ_iff bal before).0 (ground arith))))
      ];
    },
    λ p.
        let on : res ≡ here = some-injective _ _ (sym p.resource ∙ at) in
        elim p.train [
          | inl t ↦
              let e : bal ≡ here = some-injective _ _ (sym t ∙ at) in
              ground (arith, ==ℤ_iff res here, ==ℤ_iff bal here)
          | inr t ↦
              let e : bal ≡ before = some-injective _ _ (sym t ∙ prev) in
              ground (arith, ==ℤ_iff res here, ==ℤ_iff bal before)
        ],
  )

  resource_to_lock_from :
      (left i : ℕ)
      → i + left ≡ length chemin
      → (b : Bool) × (resource_to_lock left i chemin bal res ≡ some b)
        × (b ≡ true → (j : ℕ) × (j < length chemin) × IsPlace chemin bal res j)
        × (b ≡ false → (j : ℕ) → i ≤ j → j < length chemin → ¬ IsPlace chemin bal res j)
  unfolding resource_to_lock
  resource_to_lock_from zero i e = (false, refl, (λ h. cc), λ _ j lo hi. absurd (omega arith))
  resource_to_lock_from (suc left) i e =
      let (here, at) = get_elem?_lt chemin i (omega arith) in
      let (before, prev) = get_elem?_lt chemin (index_before chemin i) (mod-lt _ (omega arith)) in
      elim (Bool-cases ((bal ==ℤ before || bal ==ℤ here) && res ==ℤ here)) [
        | inl hit ↦ (
          true,
          rw (prev, ◌>>=◌) (rw (at, ◌>>=◌) (rw hit)),
          (λ _. (i, omega arith, (test_iff i at prev).0 hit)),
          λ h. cc,
        )
        | inr miss ↦
            let (b, rest, found, none_left) = resource_to_lock_from left (i + 1) (omega arith) in
            (
              b,
              rw (prev, ◌>>=◌) (rw (at, ◌>>=◌) (rw miss rest)),
              found,
              λ h j lo hi. elim (ℕ_discrete i j) [
                | yes same ↦ λ p. cc ((test_iff i at prev).1 (rw same p))
                | no other ↦ none_left h j (omega arith) hi
              ],
            )
      ]

  -- On a route that is not empty the loop of `ask_resources` ends with no read outside it, and it
  -- answers true exactly when the route has an index that holds the resource balise while the train
  -- stands on that balise or on the one before it, cyclically.
  pub resource_to_lock_iff :
      0 < length chemin
      → (b : Bool) × (resource_to_lock (length chemin) 0 chemin bal res ≡ some b)
        × ((b ≡ true) ↔ ((j : ℕ) × (j < length chemin) × IsPlace chemin bal res j))
  resource_to_lock_iff positive =
      let (b, ends, found, none_left) = resource_to_lock_from (length chemin) 0 (omega arith) in
      (
        b,
        ends,
        (
          found,
          λ place. elim (Bool-cases b) [
            | inl set ↦ set
            | inr clear ↦ absurd (none_left clear place.0 (omega arith) place.1 place.2)
          ],
        ),
      )
