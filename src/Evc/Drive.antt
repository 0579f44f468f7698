-- ===== src/Evc/Drive.antt =====
-- What a frame 0x02F does in the loop of app/EVC/src/automatique.c: the speed that is ordered.
use projet_commun_unirail.Prelude.{
  ℕ, ◌≡◌, refl, sym, ap, ◌∙◌, ◌⊎◌, inl, inr, Bool, true, false, some, List, >>=-eq-some, Bool-cases,
  arith,
}
use mathlib.Core.Option.{some-injective}
use projet_commun_unirail.Prelude.Int.{ℤ, pos, ltb_ℤ, ◌≤ℤ◌}
use projet_commun_unirail.Float.{Float, FloatMath}
use projet_commun_unirail.Track.{Position, get_distance}
use projet_commun_unirail.Can.{CanFrame}
use projet_commun_unirail.Evc.Speed.{
  mc_consigne_vitesse, read_speed_from_frame, read_relative_pos_from_frame, compute_new_speed,
  get_limit_speed,
}
use projet_commun_unirail.Evc.Loop.{Train, measure, order_speed, report_frame, dist}

-- The computation of a speed leaves these as they were.
pub record SameTrain {F D : Type 0} (s s' : Train F D) : Type 0 where
  pub pos_current : s'.pos_current ≡ s.pos_current
  pub position : s'.position ≡ s.position
  pub last_balise : s'.last_balise ≡ s.last_balise
  pub mission : s'.mission ≡ s.mission
  pub bus : s'.bus ≡ s.bus

same_refl : {F D : Type 0} {s : Train F D} → SameTrain s s
same_refl = record {
  pos_current = refl;
  position = refl;
  last_balise = refl;
  mission = refl;
  bus = refl;
}

module _ {F D : Type 0} ⦃f : Float F⦄ ⦃g : Float D⦄ (h : FloatMath F D) (fails : ℕ → Bool)
    (rest : List ℤ) (chemin_id start : ℤ) where
  measure-SameTrain :
      (s s' : Train F D) → measure h fails rest chemin_id start s ≡ some s' → SameTrain s s'
  unfolding measure
  measure-SameTrain s s' e = elim (Bool-cases (ltb_ℤ s.eoa.bal (pos 1))) [
    | inl no_eoa ↦ rw (← some-injective _ _ (rw (no_eoa, measure) at e)) same_refl
    | inr has_eoa ↦
        let (_, _, e1) =
          >>=-eq-some (get_distance s.pos_current s.eoa chemin_id) _ (rw (has_eoa, measure) at e) in
        let (_, _, e2) =
          >>=-eq-some
            (get_distance s.pos_current (record { bal = start; pos_r = f.tenths (pos 0) })
              chemin_id)
            _ e1 in
        rw (← some-injective _ _ e2) (record {
          pos_current = refl;
          position = refl;
          last_balise = refl;
          mission = refl;
          bus = refl;
        })
  ]

  order_speed_lem :
      (current_speed : ℤ) (elapsed_time : D) (s : Train F D) {r : ℤ × Train F D}
      → order_speed h fails rest chemin_id start current_speed elapsed_time s ≡ some r
      → SameTrain s r.1
        × ((limit : ℤ) × (get_limit_speed h s.pos_current chemin_id ≡ some limit) × (r.0 ≤ℤ limit))
  unfolding order_speed
  order_speed_lem current_speed elapsed_time s e =
      let (limit, limit_of, e1) = >>=-eq-some (get_limit_speed h s.pos_current chemin_id) _ e in
      let (goal, _, e2) = >>=-eq-some (h.to_int (dist h fails rest chemin_id start s)) _ e1 in
      let (next, _, e3) =
        >>=-eq-some (compute_new_speed h current_speed goal elapsed_time s.retenue_sur_vitesse) _
          e2 in
      elim (Bool-cases (ltb_ℤ limit next.0)) [
        | inl fast ↦ rw (← some-injective _ _ (rw fast at e3)) (
          record {
            pos_current = refl;
            position = refl;
            last_balise = refl;
            mission = refl;
            bus = refl;
          },
          (limit, limit_of, omega arith),
        )
        | inr slow ↦ rw (← some-injective _ _ (rw slow at e3)) (
          record {
            pos_current = refl;
            position = refl;
            last_balise = refl;
            mission = refl;
            bus = refl;
          },
          (limit, limit_of, ground arith),
        )
      ]

  -- The position is that of the frame, on the balise as it was, and it is shared. Before the first such
  -- frame nothing is ordered; then a speed is, that is at most the limit of the position.
  pub record Driven (frame : CanFrame) (s s' : Train F D) : Type 0 where
    pub bal : s'.pos_current.bal ≡ s.pos_current.bal
    pub pos_r : read_relative_pos_from_frame h frame ≡ some s'.pos_current.pos_r
    pub shared : s'.position ≡ s'.pos_current
    pub last_balise : s'.last_balise ≡ s.last_balise
    pub mission : s'.mission ≡ s.mission
    pub order :
        ((s.initialized ≡ false) × (s'.initialized ≡ true) × (s'.bus ≡ s.bus))
        ⊎ ((s.initialized ≡ true)
            × ((speed : ℤ) × ((limit : ℤ) × (get_limit_speed h s'.pos_current chemin_id
                    ≡ some limit)
                  × (speed ≤ℤ limit)
                  × (s'.bus ≡ (mc_consigne_vitesse fails rest speed s.bus).1))))

  pub report_frame-Driven :
      (frame : CanFrame) (elapsed_time : D) (s s' : Train F D)
      → report_frame h fails rest chemin_id start frame elapsed_time s ≡ some s'
      → Driven frame s s'
  unfolding report_frame
  report_frame-Driven frame elapsed_time s s' e =
      let (pos_r, pos_r_of, e1) = >>=-eq-some (read_relative_pos_from_frame h frame) _ e in
      let (current_speed, _, e2) = >>=-eq-some (read_speed_from_frame frame) _ e1 in
      let here : Position F = record { bal = s.pos_current.bal; pos_r = pos_r } in
      let s1 : Train F D = record s { pos_current = here; position = here } in
      elim (Bool-cases s.initialized) [
        | inl ready ↦
            let (s2, measured, e3) =
              >>=-eq-some (measure h fails rest chemin_id start s1) _ (rw ready at e2) in
            let (next, ordered, e4) =
              >>=-eq-some (order_speed h fails rest chemin_id start current_speed elapsed_time s2) _
                e3 in
            let kept = measure-SameTrain s1 s2 measured in
            let (same, (limit, limit_of, below)) =
              order_speed_lem current_speed elapsed_time s2 ordered in
            rw (← some-injective _ _ e4) (record {
              bal = ap (λ p. p.bal) (same.pos_current ∙ kept.pos_current);
              pos_r = pos_r_of ∙ ap (λ p. some p.pos_r) (sym (same.pos_current ∙ kept.pos_current));
              shared = same.position ∙ kept.position ∙ sym (same.pos_current ∙ kept.pos_current);
              last_balise = same.last_balise ∙ kept.last_balise;
              mission = same.mission ∙ kept.mission;
              order = inr (
                ready,
                (
                  next.0,
                  (
                    limit,
                    ap (λ p. get_limit_speed h p chemin_id) same.pos_current ∙ limit_of,
                    below,
                    ap (λ bus. (mc_consigne_vitesse fails rest next.0 bus).1) (same.bus ∙ kept.bus),
                  ),
                ),
              );
            })
        | inr first ↦ rw (← some-injective _ _ (rw first at e2)) (record {
          bal = refl;
          pos_r = pos_r_of;
          shared = refl;
          last_balise = refl;
          mission = refl;
          order = inl (first, refl, refl);
        })
      ]
