-- ===== src/Rbc/Refinement.antt =====
-- Each answer of `handle_request` of app/RBC/src/requests_handler.c is a step of the resource system, so
-- that what holds of the system holds of the requests.
use projet_commun_unirail.Prelude.{
  ℕ, ◌≡◌, ◌≢◌, ◌⊎◌, ap, ◌∙◌, refl, sym, false, inl, inr, Bool, some, Bool-cases, >>=-eq-some,
}
use projet_commun_unirail.Prelude.Int.{ℤ, pos, ◌==ℤ◌, ==ℤ_iff}
use projet_commun_unirail.Float.{Float, FloatText}
use projet_commun_unirail.Track.{Position, slot}
use projet_commun_unirail.Resources.{
  RbcState, not_due, locked, is_due, take_resources, ask_resources, free_resources,
  free_resources-cases, World, Step, granted, reported, freed, place,
}
use projet_commun_unirail.Comm.{Message, to_int}
use projet_commun_unirail.Rbc.Handler.{replied, store_position, handle_request}
use projet_commun_unirail.Rbc.Outcomes.{
  Reason, unknown_train, unread_report, connected, unknown_code, refused, stored_position,
  granted_authority,
}
use projet_commun_unirail.Rbc.Replies.{handle_request-Outcome}

-- The train and the code of a request.
abbrev pub IsFrom : Message → ℕ × ℤ → Type 0
IsFrom recv (k, code) = (slot recv.train_id ≡ some k) × (recv.code ≡ code)

-- Codes that the test tells apart are different.
other : {a b : ℤ} → a ≡ b → (a ==ℤ b) ≡ false → ⊥
other e apart = (let equal = (==ℤ_iff _ _).1 e in cc)

module _ {F : Type 0} ⦃f : Float F⦄ ⦃t : FloatText F⦄ (fails : ℕ → Bool) where
  ask-take :
      (k mask result : ℕ) (s s' : RbcState F)
      → ask_resources fails k s ≡ some (locked mask result s')
      → take_resources fails k s ≡ some (locked mask result s')
  unfolding ask_resources
  ask-take k mask result s s' e =
      let (due, due_of, rest) = >>=-eq-some (is_due k s) _ e in
      elim (Bool-cases due) [
        | inl now ↦ rw now at rest
        | inr not_yet ↦
            (let wrong : some not_due ≡ some (locked mask result s') = rw not_yet at rest in cc)
      ]

  -- The train and the code of the request that a step of the system comes from.
  abbrev pub request_of : {w v : World F} → Step fails w v → ℕ × ℤ
  request_of (granted k mask result s e) = (k, pos 102)
  request_of (reported k p e) = (k, pos 101)
  request_of (freed k mask p s e did) = (k, pos 101)

  -- The state stays, which code 201 rules out, or one step for the train and the kind of the request
  -- leads to `s'`.
  abbrev pub Goes : Message → Message → World F → RbcState F → Type 0
  Goes recv m w s' =
      ((s' ≡ w.rbc) × (m.code ≢ pos 201))
      ⊎ ((held : ℕ → ℕ) × ((st : Step fails w (record { rbc = s'; held = held })) × IsFrom recv
              (request_of st)))

  stored-Goes :
      (w : World F) (recv m : Message) (k : ℕ) (p : Position F) (s' : RbcState F)
      → IsFrom recv (k, pos 101)
      → free_resources k (place fails k p w.rbc) ≡ some s'
      → Goes recv m w s'
  stored-Goes w recv m k p s' from e = elim (free_resources-cases k (place fails k p w.rbc) s' e) [
    | inl (_, same) ↦ rw same (inr (w.held, (reported k p (e ∙ ap some same), from)))
    | inr (_, (mask, did)) ↦ inr (_, (freed k mask p s' e did, from))
  ]

  Reason-code : {recv : Message} {code : ℤ} → Reason F recv code → code ≢ pos 201
  Reason-code (unknown_train answer high) stored = other (sym answer ∙ stored) refl
  Reason-code (unread_report answer asked known unread) stored = other (sym answer ∙ stored) refl
  Reason-code (connected answer asked known) stored = other (sym answer ∙ stored) refl
  Reason-code (unknown_code answer no_connection no_report no_movement known) stored =
      other (sym answer ∙ stored) refl

  -- Every reply of the RBC leaves its state as it was, which code 201 rules out, or is one step of the
  -- resource system, for the train of the request: a report or a release for request 101, a grant for
  -- request 102.
  pub handle_request-Goes :
      (w : World F) (recv send m : Message) (s' : RbcState F)
      → handle_request fails recv send w.rbc ≡ some (replied m s')
      → Goes recv m w s'
  unfolding store_position
  handle_request-Goes w recv send m s' e =
      elim (handle_request-Outcome fails recv send m w.rbc s' e).1 [
        | refused r ↦ inl (r.same, Reason-code r.answer)
        | stored_position r ↦
            stored-Goes w recv m r.k (record { bal = to_int r.bal; pos_r = r.pos_r }) s'
              (r.train, r.asked) r.stored
        | granted_authority r ↦ elim r.resources [
          | inl (_, same) ↦ inl (same, λ stored. other (sym r.answer ∙ stored) refl)
          | inr (mask, (result, asked)) ↦ inr (
            _,
            (
              granted r.k mask result s' (ask-take r.k mask result w.rbc s' asked),
              (r.train, r.asked),
            ),
          )
        ]
      ]
