-- ===== src/Evc/Flags.antt =====
-- Flags of a train that stay set: the rounds of app/EVC/src/position.c and app/EVC/src/eoa_handler.c.
use projet_commun_unirail.Prelude.{
  ◌≡◌, inl, inr, Bool, true, not, ◌&&◌, some, Bool-cases, Option-cases, >>=-eq-some,
}
use mathlib.Core.Option.{some-injective}
use projet_commun_unirail.Prelude.Int.{ℤ, pos, negsuc, ◌==ℤ◌}
use projet_commun_unirail.Float.{Float, FloatText}
use projet_commun_unirail.Track.{Position, get_distance}
use projet_commun_unirail.Comm.{Message, strtol, to_int}
use projet_commun_unirail.Evc.Thresholds.{
  EoaHandler, Round, idle, asking, wants_request, update_distance, eoa_round, finish_init, read_eoa,
}
use projet_commun_unirail.Evc.Position.{Reporter, acknowledge}

-- A flag that stays set.
abbrev pub Grows : Bool → Bool → Type 0
Grows a b = a ≡ true → b ≡ true

pub acknowledge-Grows :
    (recv : Message) (s : Reporter) → Grows s.pos_initialized (acknowledge recv s).pos_initialized
unfolding acknowledge
acknowledge-Grows recv s h = elim (Bool-cases (recv.code ==ℤ pos 201 && not s.initialized)) [
  | inl first ↦ rw (first, acknowledge)
  | inr other ↦ rw (other, acknowledge) h
]

module _ {F D : Type 0} ⦃t : FloatText F⦄ where
  finish_init-Grows : (s : EoaHandler F D) → Grows s.eoa_initialized (finish_init s).eoa_initialized
  unfolding finish_init
  finish_init-Grows s h = elim (Bool-cases s.initialized) [
    | inl done ↦ rw (done, finish_init) h
    | inr first ↦ rw (first, finish_init)
  ]

  pub read_eoa-Grows :
      (recv : Message) (s s' : EoaHandler F D)
      → read_eoa recv s ≡ some s'
      → Grows s.eoa_initialized s'.eoa_initialized
  unfolding read_eoa
  read_eoa-Grows recv s s' e = elim (Bool-cases (recv.code ==ℤ pos 202)) [
    | inr refused ↦ rw (← some-injective _ _ (rw (refused, read_eoa) at e)) (finish_init-Grows s)
    | inl granted ↦
        let (data_0, _, e1) = >>=-eq-some recv.data_0 _ (rw (granted, read_eoa) at e) in
        elim (Option-cases (strtol data_0)) [
          | inl unread ↦ rw (← some-injective _ _ (rw unread at e1)) (λ set. set)
          | inr (bal, bal_of) ↦
              let (data_1, _, e2) = >>=-eq-some recv.data_1 _ (rw bal_of at e1) in
              elim (Option-cases (t.strtod data_1)) [
                | inl unread ↦ rw (← some-injective _ _ (rw unread at e2)) (λ set. set)
                | inr (pos_r, pos_r_of) ↦ rw (← some-injective _ _ (rw pos_r_of at e2)) (
                    finish_init-Grows
                      (record s { eoa = record { bal = to_int bal; pos_r = pos_r } }))
              ]
        ]
  ]

-- The handler after a round, asking or not.
abbrev pub after_round : {F D : Type 0} → Round F D → EoaHandler F D
after_round (idle s) = s
after_round (asking m s) = s

module _ {F D : Type 0} ⦃f : Float F⦄ ⦃g : Float D⦄ (widen : F → D) (chemin_id train_id req_id : ℤ)
    (local_pos : Position F) where
  update_distance-eoa_initialized :
      (s s' : EoaHandler F D)
      → update_distance widen chemin_id local_pos s ≡ some s'
      → s'.eoa_initialized ≡ s.eoa_initialized
  unfolding update_distance
  update_distance-eoa_initialized s s' e = elim (Bool-cases (s.eoa.bal ==ℤ negsuc 0)) [
    | inl no_eoa ↦ rw (← some-injective _ _ (rw (no_eoa, update_distance) at e))
    | inr has_eoa ↦
        let (_, _, e1) =
          >>=-eq-some (get_distance local_pos s.eoa chemin_id) _
            (rw (has_eoa, update_distance) at e) in
        rw (← some-injective _ _ e1)
  ]

  pub eoa_round-eoa_initialized :
      (s : EoaHandler F D) (r : Round F D)
      → eoa_round widen chemin_id train_id req_id local_pos s ≡ some r
      → (after_round r).eoa_initialized ≡ s.eoa_initialized
  unfolding eoa_round
  eoa_round-eoa_initialized s r e = elim (Bool-cases (local_pos.bal ==ℤ pos 0)) [
    | inl unknown ↦ rw (← some-injective _ _ (rw (unknown, eoa_round) at e))
    | inr known ↦
        let (s1, moved, e1) =
          >>=-eq-some (update_distance widen chemin_id local_pos s) _
            (rw (known, eoa_round) at e) in
        let same = update_distance-eoa_initialized s s1 moved in
        elim (Bool-cases (wants_request s1)) [
          | inl wish ↦ rw (← some-injective _ _ (rw wish at e1)) same
          | inr no_wish ↦ rw (← some-injective _ _ (rw no_wish at e1)) same
        ]
  ]
