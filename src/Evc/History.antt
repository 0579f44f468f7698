-- ===== src/Evc/History.antt =====
-- The steps behind the flags of a train: app/EVC/src/position.c, app/EVC/src/eoa_handler.c and
-- app/EVC/src/automatique.c from their start by app/EVC/src/main.c.
use projet_commun_unirail.Prelude.{
  ℕ, ◌≡◌, refl, ◌∙◌, sym, ◌⊎◌, inl, inr, Bool, true, false, not, ◌&&◌, Option, some, List,
  Bool-cases, arith, >>=-eq-some,
}
use mathlib.Core.Option.{some-injective}
use projet_commun_unirail.Prelude.Int.{ℤ, pos, ◌==ℤ◌, ==ℤ_iff}
use projet_commun_unirail.Float.{Float, FloatMath, FloatText}
use projet_commun_unirail.Track.{Position}
use projet_commun_unirail.Can.{CanFrame, Bus}
use projet_commun_unirail.Comm.{Message}
use projet_commun_unirail.Evc.Speed.{mc_consigne_vitesse}
use projet_commun_unirail.Evc.Thresholds.{
  EoaHandler, Round, idle, asking, wants_request, update_distance, eoa_round,
}
use projet_commun_unirail.Evc.Position.{Reporter, acknowledge}
use projet_commun_unirail.Evc.Flags.{eoa_round-eoa_initialized}
use projet_commun_unirail.Evc.Startup.{
  Threads, ThreadStep, acknowledged, asked, rested, drove, ThreadReach, here, later, InOrder,
  ThreadReach-InOrder,
}
use projet_commun_unirail.Evc.Standstill.{start_threads, start_threads_lem, ThreadReach-bus}

-- Only code 201 sets the flag of the first position.
acknowledge-code :
    (recv : Message) (s : Reporter)
    → (acknowledge recv s).pos_initialized ≡ true
    → (s.pos_initialized ≡ true) ⊎ (recv.code ≡ pos 201)
unfolding acknowledge
acknowledge-code recv s set = elim (Bool-cases (recv.code ==ℤ pos 201 && not s.initialized)) [
  | inl first ↦ inr ((==ℤ_iff recv.code (pos 201)).0 (ground arith))
  | inr other ↦ inl (rw (other, acknowledge) at set)
]

-- A round that asks sends request 102.
abbrev AsksMovement : {F D : Type 0} → Round F D → Type 0
AsksMovement (idle s) = Unit
AsksMovement (asking m s) = m.code ≡ pos 102

eoa_round-AsksMovement :
    {F D : Type 0} ⦃f : Float F⦄ ⦃g : Float D⦄ (widen : F → D) (chemin_id train_id req_id : ℤ)
    (local_pos : Position F) (s : EoaHandler F D) (r : Round F D)
    → eoa_round widen chemin_id train_id req_id local_pos s ≡ some r
    → AsksMovement r
unfolding eoa_round
eoa_round-AsksMovement widen chemin_id train_id req_id local_pos s r e =
    elim (Bool-cases (local_pos.bal ==ℤ pos 0)) [
      | inl unknown ↦ rw (← some-injective _ _ (rw (unknown, eoa_round) at e)) tt
      | inr known ↦
          let (s1, moved, e1) =
            >>=-eq-some (update_distance widen chemin_id local_pos s) _
              (rw (known, eoa_round) at e) in
          elim (Bool-cases (wants_request s1)) [
            | inl wish ↦ rw (← some-injective _ _ (rw wish at e1)) refl
            | inr no_wish ↦ rw (← some-injective _ _ (rw no_wish at e1)) tt
          ]
    ]

module _ {F D : Type 0} ⦃f : Float F⦄ ⦃g : Float D⦄ ⦃t : FloatText F⦄ (h : FloatMath F D)
    (fails : ℕ → Bool) (rest : List ℤ) (chemin_id start train_id : ℤ) where
  abbrev Step : Threads F D → Threads F D → Type 0
  Step = ThreadStep h fails rest chemin_id start train_id

  abbrev Trace : Threads F D → Threads F D → Type 0
  Trace = ThreadReach h fails rest chemin_id start train_id

  -- The RBC acknowledged a position.
  abbrev pub IsAck : {w v : Threads F D} → Step w v → Type 0
  IsAck (acknowledged recv) = recv.code ≡ pos 201
  IsAck (asked req_id local_pos m recv v u let_go e read) = ⊥
  IsAck (rested req_id local_pos u let_go e) = ⊥
  IsAck (drove read elapsed_time s waits e) = ⊥

  -- Request 102 was sent, and its reply read.
  abbrev pub IsAsk : {w v : Threads F D} → Step w v → Type 0
  IsAsk (acknowledged recv) = ⊥
  IsAsk (asked req_id local_pos m recv v u let_go e read) = m.code ≡ pos 102
  IsAsk (rested req_id local_pos u let_go e) = ⊥
  IsAsk (drove read elapsed_time s waits e) = ⊥

  abbrev pub HasAck : {w v : Threads F D} → Trace w v → Type 0
  HasAck here = ⊥
  HasAck (later r st) = HasAck r ⊎ IsAck st

  abbrev pub HasAsk : {w v : Threads F D} → Trace w v → Type 0
  HasAsk here = ⊥
  HasAsk (later r st) = HasAsk r ⊎ IsAsk st

  -- Each request comes behind an acknowledged position, and the loop starts to drive behind a request.
  abbrev pub InSequence : {w v : Threads F D} → Trace w v → Type 0
  InSequence here = Unit
  InSequence {v = u} (later {v} r st) =
      InSequence r
      × (IsAsk st → HasAck r)
      × (v.train.initialized ≡ false → u.train.initialized ≡ true → HasAsk r)

  -- The flags are down.
  abbrev IsIdle : Threads F D → Type 0
  IsIdle w =
      (w.train.initialized ≡ false)
      × (w.handler.eoa_initialized ≡ false)
      × (w.reporter.pos_initialized ≡ false)

  Trace-HasAck :
      {w v : Threads F D}
      → IsIdle w
      → (r : Trace w v) → v.reporter.pos_initialized ≡ true
      → HasAck r
  Trace-HasAck idle_start here set = cc
  Trace-HasAck idle_start (later {v} r (acknowledged recv)) set =
      elim (acknowledge-code recv v.reporter set) [
        | inl before ↦ inl (Trace-HasAck idle_start r before)
        | inr code ↦ inr code
      ]
  Trace-HasAck idle_start (later r (asked req_id local_pos m recv v u let_go e read)) set =
      inl (Trace-HasAck idle_start r set)
  Trace-HasAck idle_start (later r (rested req_id local_pos u let_go e)) set =
      inl (Trace-HasAck idle_start r set)
  Trace-HasAck idle_start (later r (drove read elapsed_time s waits e)) set =
      inl (Trace-HasAck idle_start r set)

  Trace-HasAsk :
      {w v : Threads F D} → IsIdle w → (r : Trace w v) → v.handler.eoa_initialized ≡ true → HasAsk r
  Trace-HasAsk idle_start here set = cc
  Trace-HasAsk idle_start (later r (acknowledged recv)) set = inl (Trace-HasAsk idle_start r set)
  Trace-HasAsk idle_start (later {v = mid} r (asked req_id local_pos m recv v u let_go e read))
        set =
      inr (
        eoa_round-AsksMovement h.widen chemin_id train_id req_id local_pos mid.handler (asking m v)
          e)
  Trace-HasAsk idle_start (later {v = mid} r (rested req_id local_pos u let_go e)) set = inl (
      Trace-HasAsk idle_start r (
        sym (
          eoa_round-eoa_initialized h.widen chemin_id train_id req_id local_pos mid.handler (idle u)
            e)
        ∙ set))
  Trace-HasAsk idle_start (later r (drove read elapsed_time s waits e)) set =
      inl (Trace-HasAsk idle_start r set)

  ask_follows :
      {w v u : Threads F D} → IsIdle w → (r : Trace w v) → (st : Step v u) → IsAsk st → HasAck r
  ask_follows idle_start r (acknowledged recv) ask = absurd ask
  ask_follows idle_start r (asked req_id local_pos m recv v u let_go e read) ask =
      Trace-HasAck idle_start r let_go
  ask_follows idle_start r (rested req_id local_pos u let_go e) ask = absurd ask
  ask_follows idle_start r (drove read elapsed_time s waits e) ask = absurd ask

  drive_follows :
      {w v u : Threads F D}
      → IsIdle w
      → (r : Trace w v) → (st : Step v u) → InOrder h fails rest chemin_id start train_id u
      → v.train.initialized ≡ false
      → u.train.initialized ≡ true
      → HasAsk r
  drive_follows idle_start r (acknowledged recv) order before set = cc
  drive_follows idle_start r (asked req_id local_pos m recv v u let_go e read) order before set = cc
  drive_follows idle_start r (rested req_id local_pos u let_go e) order before set = cc
  drive_follows idle_start r (drove read elapsed_time s waits e) order before set =
      Trace-HasAsk idle_start r (order.driving set)

  Trace-InSequence : {w v : Threads F D} → IsIdle w → (r : Trace w v) → InSequence r
  Trace-InSequence idle_start here = tt
  Trace-InSequence {w} {v = u} idle_start (later r st) = (
    Trace-InSequence idle_start r,
    ask_follows idle_start r st,
    drive_follows idle_start r st (
        ThreadReach-InOrder h fails rest chemin_id start train_id w u idle_start.0 idle_start.1
          (later r st)),
  )

  -- From the start of the threads, in any order of their steps, with any frames, positions and replies:
  -- each request for an end of authority comes behind a reply with code 201 to a position, and the
  -- loop starts to drive behind a request 102 whose reply was read; while the flag of that reply is
  -- down nothing is ordered on the bus but the 20 and the 0 of the search of the first balise.
  pub start_threads-InSequence :
      (reads : List (Option CanFrame)) (distance : D) (dist_eoa dist_start : F) (mission : ℤ)
      (bus : Bus) (w v : Threads F D)
      → start_threads fails rest reads distance dist_eoa dist_start mission bus ≡ some w
      → (r : Trace w v)
      → InSequence r
        × (v.reporter.pos_initialized ≡ true → HasAck r)
        × (v.handler.eoa_initialized ≡ true → HasAsk r)
        × (v.train.initialized ≡ true → v.handler.eoa_initialized ≡ true)
        × (v.handler.eoa_initialized ≡ false
            → v.train.bus
              ≡ (mc_consigne_vitesse fails rest
                  (pos 0)
                  (mc_consigne_vitesse fails rest (pos 20) bus).1).1)
  start_threads-InSequence reads distance dist_eoa dist_start mission bus w v e r =
      let (idle_train, idle_handler, idle_reporter, ordered) =
        start_threads_lem h fails rest chemin_id start train_id reads distance dist_eoa dist_start
          mission bus w e in
      let idle_start : IsIdle w = (idle_train, idle_handler, idle_reporter) in
      (
        Trace-InSequence idle_start r,
        Trace-HasAck idle_start r,
        Trace-HasAsk idle_start r,
        (ThreadReach-InOrder h fails rest chemin_id start train_id w v idle_train idle_handler
            r).driving,
        λ down.
            ThreadReach-bus h fails rest chemin_id start train_id w v idle_train idle_handler r down
            ∙ ordered,
      )
