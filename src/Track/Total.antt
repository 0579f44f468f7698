-- ===== src/Track/Total.antt =====
-- `get_distance` on the routes of app/utility/src/map.c.
use projet_commun_unirail.Prelude.{
  ℕ, zero, suc, ◌+◌, ◌≤◌, ◌<◌, ◌≡◌, refl, ap, sym, ◌∙◌, Bool, true, false, not, ◌&&◌, ◌||◌, Option,
  none, some, List, [], ◌∷◌, ◌>>=◌, length, get_elem?, arith, Bool-cases, Returns, inl, inr,
}
use projet_commun_unirail.Prelude.Int.{ℤ, pos, ◌==ℤ◌, ==ℤ_iff}
use mathlib.Core.Option.{some-injective}
use native.Mathlib.Numerals.{add-one}
use native.Mathlib.Decide.{ℕ_discrete}
use projet_commun_unirail.Float.{Float, tenths_float}
use projet_commun_unirail.Track.Tables.{Position, chemins, chemin1, chemin2, chemin3, seek}
use projet_commun_unirail.Track.Distance.{
  next_index, section_length, distance_loop, is_behind, get_distance,
}
use projet_commun_unirail.Track.Route.{
  FirstAhead, IsCharted, gap, add_sections, distance_loop-Walk, distance_loop_step, next_index-lt,
}

is_some : Option ℕ → Bool
is_some none = false
is_some (some a) = true

charted_below : ℕ → List ℤ → Bool
unfolding is_some
charted_below zero chemin = true
charted_below (suc n) chemin = is_some (section_length chemin n) && charted_below n chemin

charted_below_sound :
    (n : ℕ) (chemin : List ℤ)
    → charted_below n chemin ≡ true
    → (i : ℕ) → i < n
    → Returns (section_length chemin i)
unfolding charted_below
charted_below_sound zero chemin h i p = absurd (omega arith)
charted_below_sound (suc n) chemin h i p = elim (ℕ_discrete i n) [
  | yes same ↦ rw same (ground arith)
  | no other ↦ charted_below_sound n chemin (ground arith) i (omega arith)
]

-- Every two neighbours on a route are the ends of an arc.
pub chemins-IsCharted :
    (k : ℕ) {chemin : List ℤ} → get_elem? chemins k ≡ some chemin → IsCharted chemin
unfolding charted_below section_length
chemins-IsCharted zero e = rw (← some-injective _ _ e) (charted_below_sound 8 chemin1 refl)
chemins-IsCharted (suc zero) e = rw (← some-injective _ _ e) (charted_below_sound 8 chemin2 refl)
chemins-IsCharted (suc (suc zero)) e =
    rw (← some-injective _ _ e) (charted_below_sound 16 chemin3 refl)
chemins-IsCharted (suc (suc (suc k))) e = cc

pub gap-le : (n i j : ℕ) → i < n → j < n → gap n i j < n
gap-le n i j p q = ground arith

gap-tour :
    (chemin : List ℤ) (i : ℕ)
    → i < length chemin
    → gap (length chemin) (next_index chemin i) i < length chemin
gap-tour chemin i p = gap-le (length chemin) (next_index chemin i) i (next_index-lt chemin i p) p

-- A balise of the route is found, at an index that holds it.
pub seek_finds :
    (bal : ℤ) (chemin : List ℤ) (a base : ℕ)
    → get_elem? chemin a ≡ some bal
    → (i : ℕ) × (seek bal chemin base ≡ some (base + i))
      × (i < length chemin)
      × (get_elem? chemin i ≡ some bal)
unfolding seek
seek_finds bal [] a base h = cc
seek_finds bal (c ∷ cs) zero base h =
    let met = (==ℤ_iff c bal).1 (some-injective _ _ h) in
    (0, rw met (ap some (omega arith)), omega arith, h)
seek_finds bal (c ∷ cs) (suc a) base h = elim (Bool-cases (c ==ℤ bal)) [
  | inl met ↦ (0, rw met (ap some (omega arith)), omega arith, ap some ((==ℤ_iff c bal).0 met))
  | inr other ↦
      let (i, found, below, at) = seek_finds bal cs a (base + 1) h in
      (suc i, rw other (found ∙ ap some (omega arith)), omega arith, at)
]

module _ {F : Type 0} ⦃f : Float F⦄ where
  -- What `get_distance` has computed: the sections from the first position to the second, or a
  -- whole tour and back to the balise when the second position lies behind.
  pub record Journey (chemin : List ℤ) (p q : Position F) (r : Option F) : Type 0 where
    pub index : ℕ
    pub start : get_elem? chemin index ≡ some p.bal
    pub sections : ℕ
    pub sections_le : sections ≤ length chemin
    pub ahead : is_behind p q ≡ false → FirstAhead chemin q.bal sections index
    pub around :
        is_behind p q ≡ true
        → (k : ℕ) × (sections ≡ suc k) × FirstAhead chemin q.bal k (next_index chemin index)
    pub walked : r ≡ add_sections chemin sections index (f.sub q.pos_r p.pos_r)
    pub returns : Returns r

  is_behind-same_bal : (p q : Position F) → is_behind p q ≡ true → p.bal ≡ q.bal
  unfolding is_behind
  is_behind-same_bal p q h = ground (arith, ==ℤ_iff p.bal q.bal)

  get_distance_loop :
      (k : ℕ) (chemin : List ℤ) (p q : Position F) (i : ℕ)
      → get_elem? chemins k ≡ some chemin
      → seek p.bal chemin 0 ≡ some i
      → get_distance p q (pos (suc k))
        ≡ distance_loop (length chemin + 1) chemin q.bal i (is_behind p q) (f.sub q.pos_r p.pos_r)
  unfolding get_distance
  get_distance_loop k chemin p q i e s = rw (e, ◌>>=◌) (rw (s, ◌>>=◌))

  module _ (chemin : List ℤ) (p q : Position F) (i : ℕ) (charted : IsCharted chemin)
      (i_lt : i < length chemin) (at_i : get_elem? chemin i ≡ some p.bal) where
    leg :
        (j : ℕ)
        → j < length chemin
        → get_elem? chemin j ≡ some q.bal
        → is_behind p q ≡ false
        → Journey chemin p q
            (distance_loop (length chemin + 1) chemin q.bal i false (f.sub q.pos_r p.pos_r))
    leg j j_lt at_j before =
        let walk =
          distance_loop-Walk (length chemin + 1) chemin q.bal i j (f.sub q.pos_r p.pos_r) charted
            i_lt j_lt at_j (omega (arith, gap-le (length chemin) i j i_lt j_lt)) in
        record {
          index = i;
          start = at_i;
          sections = walk.sections;
          sections_le = omega (arith, walk.sections_le, gap-le (length chemin) i j i_lt j_lt);
          ahead = λ _. walk.ahead;
          around = λ behind. cc;
          walked = walk.walked;
          returns = walk.returns;
        }

    tour :
        is_behind p q ≡ true
        → Journey chemin p q
            (distance_loop (length chemin + 1) chemin q.bal i true (f.sub q.pos_r p.pos_r))
    unfolding add_sections
    tour behind =
        let same = is_behind-same_bal p q behind in
        let (len, one) = charted i i_lt in
        let i' : ℕ = next_index chemin i in
        let near = gap-tour chemin i i_lt in
        let start = f.add (f.sub q.pos_r p.pos_r) (f.tenths (pos len)) in
        let walk =
          distance_loop-Walk (length chemin) chemin q.bal i' i start charted
            (next_index-lt chemin i i_lt) i_lt (at_i ∙ ap some same) near in
        let forced : (not (p.bal ==ℤ q.bal) || true) ≡ true = ground arith in
        let goes =
          distance_loop_step (length chemin) chemin q.bal i (f.sub q.pos_r p.pos_r) true at_i forced
            one in
        let enough =
          ap (λ n. distance_loop n chemin q.bal i true (f.sub q.pos_r p.pos_r))
            (add-one (length chemin)) in
        record {
          index = i;
          start = at_i;
          sections = suc walk.sections;
          sections_le = omega (arith, walk.sections_le, near);
          ahead = λ before. cc;
          around = λ _. (walk.sections, refl, walk.ahead);
          walked = enough ∙ goes ∙ walk.walked ∙ sym (rw (one, ◌>>=◌));
          returns = (walk.returns.0, enough ∙ goes ∙ walk.returns.1);
        }

  -- On each of the three routes `get_distance` returns for any two balises of the route, and its
  -- result is the difference of the offsets plus the lengths of the sections up to the first
  -- meeting with the second balise, at most once round the route; when the second position lies
  -- behind on the same balise, the tour is forced.
  pub get_distance-Journey :
      (k : ℕ) (chemin : List ℤ) (p q : Position F) (a m : ℕ)
      → get_elem? chemins k ≡ some chemin
      → get_elem? chemin a ≡ some p.bal
      → get_elem? chemin m ≡ some q.bal
      → Journey chemin p q (get_distance p q (pos (suc k)))
  get_distance-Journey k chemin p q a m e at_p at_q =
      let (i, found, i_lt, at_i) = seek_finds p.bal chemin a 0 at_p in
      let (j, _, j_lt, at_j) = seek_finds q.bal chemin m 0 at_q in
      let charted = chemins-IsCharted k e in
      rw (get_distance_loop k chemin p q i e (found ∙ ap some (omega arith)))
        (elim (Bool-cases (is_behind p q)) [
          | inl behind ↦ rw behind (tour chemin p q i charted i_lt at_i behind)
          | inr before ↦ rw before (leg chemin p q i charted i_lt at_i j j_lt at_j before)
        ])
