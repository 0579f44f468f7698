-- ===== src/Track/Route.antt =====
-- Walking along a route: how many sections `get_distance` adds up, and that it ends.
use projet_commun_unirail.Prelude.{
  ℕ, zero, suc, ◌+◌, ◌-◌, ◌≤◌, ◌<◌, ◌≡◌, ap, sym, ◌∙◌, ◌≢◌, inl, inr, Bool, true, false, not, ◌||◌,
  Option, some, List, ◌>>=◌, if◌then◌else◌, length, get_elem?, arith, Bool-cases, ltb, Returns,
  get_elem?_lt,
}
use projet_commun_unirail.Prelude.Int.{ℤ, pos, ◌==ℤ◌, ==ℤ_iff}
use mathlib.Core.Option.{some-injective}
use projet_commun_unirail.Float.{Float}
use projet_commun_unirail.Track.Distance.{next_index, section_length, distance_loop}

-- `bal` stands at index `i` or is first met after `k` more sections.
abbrev pub FirstAhead : List ℤ → ℤ → ℕ → ℕ → Type 0
FirstAhead chemin bal zero i = get_elem? chemin i ≡ some bal
FirstAhead chemin bal (suc k) i =
    ((b : ℤ) × (get_elem? chemin i ≡ some b) × ((b ==ℤ bal) ≡ false))
    × FirstAhead chemin bal k (next_index chemin i)

-- Every section of the route is in the table of arcs.
abbrev pub IsCharted : List ℤ → Type 0
IsCharted chemin = (i : ℕ) → i < length chemin → Returns (section_length chemin i)

-- How many sections lead from index `i` to index `m` of a route of `n` balises.
abbrev pub gap : ℕ → ℕ → ℕ → ℕ
gap n i m = if ltb m i then m + n - i else m - i

pub next_index-lt :
    (chemin : List ℤ) (i : ℕ) → i < length chemin → next_index chemin i < length chemin
next_index-lt chemin i p = ground arith

pub gap-next_index :
    (chemin : List ℤ) (i m : ℕ)
    → i < length chemin
    → m < length chemin
    → i ≢ m
    → suc (gap (length chemin) (next_index chemin i) m) ≡ gap (length chemin) i m
gap-next_index chemin i m p q apart = ground arith

-- Where another balise stands is another place.
apart_of_test :
    (chemin : List ℤ) (i m : ℕ) {here bal : ℤ}
    → get_elem? chemin i ≡ some here
    → get_elem? chemin m ≡ some bal
    → (here ==ℤ bal) ≡ false
    → i ≢ m
apart_of_test chemin i m {here} {bal} at e more same =
    let met : here ≡ bal = some-injective _ _ (sym at ∙ ap (get_elem? chemin) same ∙ e) in
    cc ((==ℤ_iff here bal).1 met)

module _ {F : Type 0} ⦃f : Float F⦄ where
  -- The sum of `k` section lengths from index `i` on, added to `distance` in order.
  unfoldable pub add_sections : List ℤ → ℕ → ℕ → F → Option F
  add_sections chemin zero i distance = some distance
  add_sections chemin (suc k) i distance = section_length chemin i >>= λ len.
      add_sections chemin k (next_index chemin i) (f.add distance (f.tenths (pos len)))

  -- What the loop has computed: the sections up to the first balise that is met.
  pub record Walk (chemin : List ℤ) (bal2 : ℤ) (i most : ℕ) (distance : F) (r : Option F)
      : Type 0 where
    pub sections : ℕ
    pub sections_le : sections ≤ most
    pub ahead : FirstAhead chemin bal2 sections i
    pub walked : r ≡ add_sections chemin sections i distance
    pub returns : Returns r

  module _ (fuel : ℕ) (chemin : List ℤ) (bal2 : ℤ) (i : ℕ) (distance : F) {here : ℤ} where
    distance_loop_stop :
        get_elem? chemin i ≡ some here
        → (here ==ℤ bal2) ≡ true
        → distance_loop (suc fuel) chemin bal2 i false distance ≡ some distance
    unfolding distance_loop
    distance_loop_stop at stop = ground arith

    pub distance_loop_step :
        (first : Bool) {len : ℕ}
        → get_elem? chemin i ≡ some here
        → (not (here ==ℤ bal2) || first) ≡ true
        → section_length chemin i ≡ some len
        → distance_loop (suc fuel) chemin bal2 i first distance
          ≡ distance_loop fuel chemin bal2
              (next_index chemin i)
              false
              (f.add distance (f.tenths (pos len)))
    unfolding distance_loop
    distance_loop_step first at more e = ground arith

  pub distance_loop-Walk :
      (fuel : ℕ) (chemin : List ℤ) (bal2 : ℤ) (i m : ℕ) (distance : F)
      → IsCharted chemin
      → i < length chemin
      → m < length chemin
      → get_elem? chemin m ≡ some bal2
      → gap (length chemin) i m < fuel
      → Walk chemin bal2 i
          (gap (length chemin) i m)
          distance
          (distance_loop fuel chemin bal2 i false distance)
  unfolding add_sections
  distance_loop-Walk zero chemin bal2 i m distance c p q e h = absurd (omega arith)
  distance_loop-Walk (suc fuel) chemin bal2 i m distance c p q e h =
      let (here, at) = get_elem?_lt chemin i p in
      elim (Bool-cases (here ==ℤ bal2)) [
        | inl stop ↦
            let ends = distance_loop_stop fuel chemin bal2 i distance at stop in
            record {
              sections = 0;
              sections_le = omega arith;
              ahead = at ∙ ap some ((==ℤ_iff here bal2).0 stop);
              walked = ends;
              returns = (distance, ends);
            }
        | inr more ↦
            let (len, charted) = c i p in
            let i' : ℕ = next_index chemin i in
            let goes = distance_loop_step fuel chemin bal2 i distance false at (rw more) charted in
            let apart = apart_of_test chemin i m at e more in
            let rest =
              distance_loop-Walk fuel chemin bal2 i' m (f.add distance (f.tenths (pos len))) c
                (next_index-lt chemin i p) q e
                (omega (arith, gap-next_index chemin i m p q apart)) in
            record {
              sections = suc rest.sections;
              sections_le = omega (arith, rest.sections_le, gap-next_index chemin i m p q apart);
              ahead = ((here, at, more), rest.ahead);
              walked = goes ∙ rest.walked ∙ rw charted;
              returns = (rest.returns.0, goes ∙ rest.returns.1);
            }
      ]
