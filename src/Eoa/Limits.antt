-- ===== src/Eoa/Limits.antt =====
-- What the end of authority that `next_eoa` returns promises: no other train and no resource that
-- is not granted lies between the train and its end of authority.
use mathlib.Core.Option.{some-injective}
use projet_commun_unirail.Prelude.{
  ℕ, zero, suc, ◌≤◌, ◌<◌, ◌≡◌, ◌≢◌, sym, ◌∙◌, ◌⊎◌, Bool, true, false, Option, some, List,
  if◌then◌else◌, length, get_elem?, arith,
}
use projet_commun_unirail.Prelude.Int.{ℤ, pos, ◌==ℤ◌, ==ℤ_iff}
use projet_commun_unirail.Float.{Float, ◌≼◌, IsOrdered}
use projet_commun_unirail.Track.{Position, next_index}
use projet_commun_unirail.Eoa.Calculator.{objectives, any_set, min_pos_r}
use projet_commun_unirail.Eoa.Nearest.{min_pos_r-BelowAll}
use projet_commun_unirail.Eoa.Search.{FirstHit}

-- The balise `k` sections further along the route.
abbrev pub stop_at : List ℤ → ℕ → ℕ → Option ℤ
stop_at chemin zero i = get_elem? chemin i
stop_at chemin (suc k) i = stop_at chemin k (next_index chemin i)

pub FirstHit-stop_at :
    (chemin : List ℤ) (test : ℤ → Bool) (bal : ℤ) (k i : ℕ)
    → FirstHit chemin test bal k i
    → (stop_at chemin k i ≡ some bal) × (test bal ≡ true)
FirstHit-stop_at chemin test bal zero i h = h
FirstHit-stop_at chemin test bal (suc k) i h =
    FirstHit-stop_at chemin test bal k (next_index chemin i) h.1

pub FirstHit-before :
    (chemin : List ℤ) (test : ℤ → Bool) (bal : ℤ) (k i j : ℕ) {b : ℤ}
    → FirstHit chemin test bal k i
    → j < k
    → stop_at chemin j i ≡ some b
    → test b ≡ false
FirstHit-before chemin test bal zero i j h p e = absurd (omega arith)
FirstHit-before chemin test bal (suc k) i zero {b} h p e =
    let same = some-injective _ _ (sym e ∙ h.0.1) in rw same h.0.2
FirstHit-before chemin test bal (suc k) i (suc j) h p e =
    FirstHit-before chemin test bal k (next_index chemin i) j h.1 (omega arith) e

module _ {F : Type 0} ⦃f : Float F⦄ where
  -- The end of authority `r`, `sections` further than the train at `index`, is not beyond the train
  -- `p`: it passes no balise of `p`, it is not past `p` on the balise where it lies, and if it leaves
  -- the balise of the train then `p` is not in front there.
  pub record NotBeyond (chemin : List ℤ) (current p : Position F) (index sections : ℕ)
      (r : Position F) : Type 0 where
    pub passes : (j : ℕ) → 0 < j → j < sections → stop_at chemin j index ≢ some p.bal
    pub same_balise : p.bal ≡ r.bal → (0 < sections) ⊎ (current.pos_r ≼ p.pos_r) → r.pos_r ≼ p.pos_r
    pub leaves : 0 < sections → p.bal ≡ current.bal → f.le current.pos_r p.pos_r ≡ false

  pub record Authority (chemin : List ℤ) (next_balise : ℤ) (current p1 p2 r : Position F)
      : Type 0 where
    pub index : ℕ
    pub here : get_elem? chemin index ≡ some current.bal
    pub sections : ℕ
    pub sections_le : sections ≤ length chemin
    pub stops : stop_at chemin sections index ≡ some r.bal
    pub before_resource : (j : ℕ) → 0 < j → j < sections → stop_at chemin j index ≢ some next_balise
    pub at_resource : 0 < sections → next_balise ≡ r.bal → r.pos_r ≼ f.tenths (pos 0)
    -- A resource on the balise of the train, which is not past it, is where the train stays.
    pub on_resource :
        next_balise ≡ current.bal
        → current.pos_r ≼ f.tenths (pos 0)
        → (sections ≡ 0) × (r.pos_r ≼ f.tenths (pos 0))
    pub before_1 : NotBeyond chemin current p1 index sections r
    pub before_2 : NotBeyond chemin current p2 index sections r

  module _ (next_balise : ℤ) (p1 p2 : Position F) (b : ℤ) where
    pub free_of_test :
        any_set (objectives next_balise p1 p2 b) ≡ false
        → (next_balise ≢ b) × (p1.bal ≢ b) × (p2.bal ≢ b)
    unfolding any_set
    free_of_test h = (
      λ e. ground (arith, ==ℤ_iff next_balise b),
      λ e. ground (arith, ==ℤ_iff p1.bal b),
      λ e. ground (arith, ==ℤ_iff p2.bal b),
    )

    module _ (laws : IsOrdered F) (number_1 : p1.pos_r ≼ p1.pos_r)
        (number_2 : p2.pos_r ≼ p2.pos_r) where
      set_or_zero :
          (set : Bool) (x : F) → x ≼ x → let y = if set then x else f.tenths (pos 0) in y ≼ y
      set_or_zero true x h = h
      set_or_zero false x h = laws.tenths_refl _

      pub min_pos_r-least :
          let least = min_pos_r (f.tenths (pos 10_000_000_000)) (objectives next_balise p1 p2 b) in
          (next_balise ≡ b → least ≼ f.tenths (pos 0))
          × (p1.bal ≡ b → least ≼ p1.pos_r)
          × (p2.bal ≡ b → least ≼ p2.pos_r)
      min_pos_r-least =
          let os = objectives next_balise p1 p2 b in
          let (_, (resource, (first, (second, _)))) =
            min_pos_r-BelowAll laws (f.tenths (pos 10_000_000_000)) os (laws.tenths_refl _) (
              set_or_zero (next_balise ==ℤ b) (f.tenths (pos 0)) (laws.tenths_refl _),
              (
                set_or_zero (p1.bal ==ℤ b) p1.pos_r number_1,
                (set_or_zero (p2.bal ==ℤ b) p2.pos_r number_2, tt),
              ),
            ) in
          (
            λ e. ground (arith, ==ℤ_iff next_balise b, resource),
            λ e. ground (arith, ==ℤ_iff p1.bal b, first),
            λ e. ground (arith, ==ℤ_iff p2.bal b, second),
          )
