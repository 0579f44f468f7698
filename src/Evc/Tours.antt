-- ===== src/Evc/Tours.antt =====
-- How the loop of app/EVC/src/automatique.c counts tours, over any sequence of frames.
use projet_commun_unirail.Prelude.{
  ℕ, suc, ◌≡◌, refl, sym, ◌∙◌, inl, inr, Bool, true, false, Option, none, some, List, [], ◌∷◌,
  ◌>>=◌, if◌then◌else◌, ◌==◌, >>=-eq-some, Bool-cases, get_elem?, arith,
}
use mathlib.Core.Path.{subst}
use mathlib.Core.Option.{some-injective}
use projet_commun_unirail.Prelude.Int.{ℤ, pos, ◌==ℤ◌, ◌-ℤ◌, -ℤ_parts, eq_of_parts}
use projet_commun_unirail.Float.{Float, FloatMath}
use projet_commun_unirail.Can.{CanFrame}
use projet_commun_unirail.Evc.Drive.{Driven, report_frame-Driven}
use projet_commun_unirail.Evc.Loop.{Train, pass_balise, report_frame, boucle_round}

-- The balises without immediate repeats, from the last one on.
abbrev pub collapse : ℤ → List ℤ → List ℤ
collapse last [] = []
collapse last (b ∷ bs) = if b ==ℤ last then collapse last bs else b ∷ collapse b bs

abbrev pub count : ℤ → List ℤ → ℕ
count start [] = 0
count start (b ∷ bs) = if b ==ℤ start then suc (count start bs) else count start bs

-- The tours that a sequence of balises ends.
abbrev pub tours : ℤ → ℤ → List ℤ → ℕ
tours start last bs = count start (collapse last bs)

-- The balise that a read tells.
abbrev pub balise_of : Option CanFrame → Option ℤ
balise_of none = none
balise_of (some frame) = elim (frame.can_id == 0x30) [
  | true ↦ get_elem? frame.bytes 5 >>= λ bal. some (pos bal)
  | false ↦ none
]

balise_of-some :
    (frame : CanFrame) {bal : ℕ}
    → (frame.can_id == 0x30) ≡ true
    → get_elem? frame.bytes 5 ≡ some bal
    → balise_of (some frame) ≡ some (pos bal)
balise_of-some frame e at = rw (e, balise_of) (rw (at, ◌>>=◌))

balise_of-none : (frame : CanFrame) → (frame.can_id == 0x30) ≡ false → balise_of (some frame) ≡ none
balise_of-none frame e = rw (e, balise_of)

abbrev pub prepend : Option ℤ → List ℤ → List ℤ
prepend none bs = bs
prepend (some b) bs = b ∷ bs

less_one : (a : ℤ) (n : ℕ) → (a -ℤ pos 1) -ℤ pos n ≡ a -ℤ pos (suc n)
less_one a n =
    eq_of_parts _ _
      (omega (arith, -ℤ_parts a (pos 1), -ℤ_parts (a -ℤ pos 1) (pos n), -ℤ_parts a (pos (suc n))))

less_none : (a : ℤ) → a -ℤ pos 0 ≡ a
less_none a = eq_of_parts _ _ (omega (arith, -ℤ_parts a (pos 0)))

module _ {F D : Type 0} ⦃f : Float F⦄ ⦃g : Float D⦄ (h : FloatMath F D) (fails : ℕ → Bool)
    (rest : List ℤ) (chemin_id start : ℤ) where
  -- The rounds for a sequence of reads.
  unfoldable pub boucle : List (Option CanFrame × D) → Train F D → Option (Train F D)
  boucle [] s = some s
  boucle ((read, elapsed_time) ∷ reads) s =
      boucle_round h fails rest chemin_id start read elapsed_time s >>= λ s1. boucle reads s1

  abbrev pub balises : List (Option CanFrame × D) → List ℤ
  balises [] = []
  balises ((read, elapsed_time) ∷ reads) = prepend (balise_of read) (balises reads)

  -- What a round does to the count.
  abbrev Counts : Option ℤ → Train F D → Train F D → Type 0
  Counts b s s' =
      (bs : List ℤ)
      → s'.mission -ℤ pos (tours start s'.last_balise bs)
        ≡ s.mission -ℤ pos (tours start s.last_balise (prepend b bs))

  pass_balise-Counts : (bal : ℤ) (s : Train F D) → Counts (some bal) s (pass_balise start bal s)
  unfolding pass_balise
  pass_balise-Counts bal s bs = elim (Bool-cases (bal ==ℤ s.last_balise)) [
    | inl same ↦ rw same
    | inr new ↦ elim (Bool-cases (bal ==ℤ start)) [
      | inl first ↦ rw new (rw first (less_one s.mission (tours start bal bs)))
      | inr other ↦ rw new (rw other)
    ]
  ]

  Counts-same :
      (s s' : Train F D)
      → s'.mission ≡ s.mission
      → s'.last_balise ≡ s.last_balise
      → Counts none s s'
  Counts-same s s' mission last bs = rw mission (rw last)

  -- What a round does, by the kind of its frame.
  module _ (frame : CanFrame) (elapsed_time : D) (s : Train F D) where
    abbrev entering : Train F D
    entering = record s { local_mission = s.mission }

    abbrev round : Option (Train F D)
    round = boucle_round h fails rest chemin_id start (some frame) elapsed_time s

    pub round_balise :
        (frame.can_id == 0x30) ≡ true
        → round ≡ (get_elem? frame.bytes 5 >>= λ bal. some (pass_balise start (pos bal) entering))
    unfolding boucle_round
    round_balise e = rw (e, boucle_round)

    round_report :
        (frame.can_id == 0x30) ≡ false
        → (frame.can_id == 0x2f) ≡ true
        → round ≡ report_frame h fails rest chemin_id start frame elapsed_time entering
    unfolding boucle_round
    round_report e e' = rw (e, boucle_round) (rw e')

    pub round_other :
        (frame.can_id == 0x30) ≡ false → (frame.can_id == 0x2f) ≡ false → round ≡ some entering
    unfolding boucle_round
    round_other e e' = rw (e, boucle_round) (rw e')

  boucle_round-Counts :
      (read : Option CanFrame) (elapsed_time : D) (s s' : Train F D)
      → boucle_round h fails rest chemin_id start read elapsed_time s ≡ some s'
      → Counts (balise_of read) s s'
  unfolding boucle_round
  boucle_round-Counts none elapsed_time s s' e = rw (← some-injective _ _ e) (λ bs. refl)
  boucle_round-Counts (some frame) elapsed_time s s' e =
      let s0 : Train F D = record s { local_mission = s.mission } in
      elim (Bool-cases (frame.can_id == 0x30)) [
        | inl balise ↦
            let (bal, bal_of, e1) =
              >>=-eq-some (get_elem? frame.bytes 5) _
                (sym (round_balise frame elapsed_time s balise) ∙ e) in
            subst (λ b. Counts b s s') (sym (balise_of-some frame balise bal_of))
              (rw (← some-injective _ _ e1) (pass_balise-Counts (pos bal) s0))
        | inr other ↦ elim (Bool-cases (frame.can_id == 0x2f)) [
          | inl report ↦
              let driven =
                report_frame-Driven h fails rest chemin_id start frame elapsed_time s0 s'
                  (sym (round_report frame elapsed_time s other report) ∙ e) in
              subst (λ b. Counts b s s') (sym (balise_of-none frame other))
                (Counts-same s s' driven.mission driven.last_balise)
          | inr ignored ↦
              let same =
                some-injective _ _ (sym (round_other frame elapsed_time s other ignored) ∙ e) in
              subst (λ b. Counts b s s') (sym (balise_of-none frame other))
                (rw (← same) (λ bs. refl))
        ]
      ]

  -- Over any sequence of reads that the loop goes through, the mission goes down by the number of
  -- times that the balises, without immediate repeats of one balise, come to the start of the route.
  pub boucle-tours :
      (reads : List (Option CanFrame × D)) (s s' : Train F D)
      → boucle reads s ≡ some s'
      → s'.mission ≡ s.mission -ℤ pos (tours start s.last_balise (balises reads))
  unfolding boucle
  boucle-tours [] s s' e = rw (← some-injective _ _ e) (sym (less_none s.mission))
  boucle-tours ((read, elapsed_time) ∷ reads) s s' e =
      let (s1, first, e1) =
        >>=-eq-some (boucle_round h fails rest chemin_id start read elapsed_time s) _ e in
      boucle-tours reads s1 s' e1 ∙ boucle_round-Counts read elapsed_time s s1 first (balises reads)

  -- A round for a frame 0x02F that returns puts the position of the frame, on the balise as it was, in
  -- the shared position. The first one orders nothing; every later one orders one speed, that is at
  -- most the limit of that position.
  pub boucle_round-Driven :
      (frame : CanFrame) (elapsed_time : D) (s s' : Train F D)
      → frame.can_id ≡ 0x2f
      → boucle_round h fails rest chemin_id start (some frame) elapsed_time s ≡ some s'
      → Driven h fails rest chemin_id start frame (record s { local_mission = s.mission }) s'
  boucle_round-Driven frame elapsed_time s s' report e =
      let other : (frame.can_id == 0x30) ≡ false = ground arith in
      let found : (frame.can_id == 0x2f) ≡ true = ground arith in
      report_frame-Driven h fails rest chemin_id start frame elapsed_time
        (record s { local_mission = s.mission }) s'
        (sym (round_report frame elapsed_time s other found) ∙ e)
