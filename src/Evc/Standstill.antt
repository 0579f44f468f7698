-- ===== src/Evc/Standstill.antt =====
-- The start of the threads by app/EVC/src/main.c, and the orders of
-- app/EVC/src/automatique.c before there is an end of authority.
use projet_commun_unirail.Prelude.{
  ℕ, ◌≡◌, refl, sym, ◌∙◌, inl, inr, Bool, false, Option, none, some, List, ◌==◌, ◌>>=◌, Bool-cases,
  >>=-eq-some, get_elem?, arith,
}
use mathlib.Core.Option.{some-injective}
use projet_commun_unirail.Prelude.Int.{ℤ, pos, negsuc, ◌==ℤ◌}
use projet_commun_unirail.Float.{Float, FloatMath, FloatText}
use projet_commun_unirail.Track.{Position}
use projet_commun_unirail.Can.{CanFrame, Bus}
use projet_commun_unirail.Evc.Speed.{mc_consigne_vitesse}
use projet_commun_unirail.Evc.Loop.{Train, init_train, pass_balise, boucle_round, begin_loop}
use projet_commun_unirail.Evc.Tours.{round_balise, round_other, boucle_round-Driven}
use projet_commun_unirail.Evc.Thresholds.{start_handler, idle, asking}
use projet_commun_unirail.Evc.Flags.{Grows, read_eoa-Grows, eoa_round-eoa_initialized}
use projet_commun_unirail.Evc.Startup.{
  Threads, ThreadStep, acknowledged, asked, rested, drove, ThreadReach, here, later, InOrder,
  ThreadReach-InOrder,
}

-- The objects of the threads once `boucle_automatique` has found the first balise. `eoa` of the program
-- starts at balise -1; the distances are what their variables held.
unfoldable pub start_threads :
    {F D : Type 0} ⦃f : Float F⦄ ⦃g : Float D⦄
    → (ℕ → Bool)
    → List ℤ
    → List (Option CanFrame)
    → D
    → F
    → F
    → ℤ
    → Bus
    → Option (Threads F D)
start_threads ⦃f⦄ ⦃g⦄ fails rest reads distance dist_eoa dist_start mission bus = do
  let eoa : Position _ = record { bal = negsuc 0; pos_r = f.tenths (pos 0) }
  train ← begin_loop fails rest reads dist_eoa dist_start eoa mission bus
  some (record {
    reporter = record { initialized = false; pos_initialized = false };
    handler = start_handler eoa distance;
    train = train;
  })

false_below : {a b : Bool} → Grows a b → b ≡ false → a ≡ false
false_below {a} grows down = elim (Bool-cases a) [
  | inl set ↦ absurd (let up = grows set in cc)
  | inr unset ↦ unset
]

module _ {F D : Type 0} ⦃f : Float F⦄ ⦃g : Float D⦄ ⦃t : FloatText F⦄ (h : FloatMath F D)
    (fails : ℕ → Bool) (rest : List ℤ) (chemin_id start train_id : ℤ) where
  pass_balise-bus : (bal : ℤ) (s : Train F D) → (pass_balise start bal s).bus ≡ s.bus
  unfolding pass_balise
  pass_balise-bus bal s = elim (Bool-cases (bal ==ℤ s.last_balise)) [
    | inl same ↦ rw (same, pass_balise)
    | inr new ↦ elim (Bool-cases (bal ==ℤ start)) [
      | inl first ↦ rw (new, pass_balise) (rw first)
      | inr other ↦ rw (new, pass_balise) (rw other)
    ]
  ]

  -- Before its first frame 0x02F a train is ordered nothing.
  boucle_round-bus :
      (read : Option CanFrame) (elapsed_time : D) (s s' : Train F D)
      → s.initialized ≡ false
      → boucle_round h fails rest chemin_id start read elapsed_time s ≡ some s'
      → s'.bus ≡ s.bus
  unfolding boucle_round
  boucle_round-bus none elapsed_time s s' unset e = rw (← some-injective _ _ e)
  boucle_round-bus (some frame) elapsed_time s s' unset e =
      elim (Bool-cases (frame.can_id == 0x30)) [
        | inl balise ↦
            let (bal, _, e1) =
              >>=-eq-some (get_elem? frame.bytes 5) _
                (sym (round_balise h fails rest chemin_id start frame elapsed_time s balise) ∙ e) in
            rw (← some-injective _ _ e1)
              (pass_balise-bus (pos bal) (record s { local_mission = s.mission }))
        | inr ignored ↦ elim (Bool-cases (frame.can_id == 0x2f)) [
          | inr other ↦
              let same = some-injective _ _ (
                sym (round_other h fails rest chemin_id start frame elapsed_time s ignored other)
                ∙ e) in
              rw (← same)
          | inl report ↦
              elim (boucle_round-Driven h fails rest chemin_id start frame elapsed_time s s'
                (ground arith) e).order [ inl (_, _, same) ↦ same | inr (set, _) ↦ absurd cc ]
        ]
      ]

  pub start_threads_lem :
      (reads : List (Option CanFrame)) (distance : D) (dist_eoa dist_start : F) (mission : ℤ)
      (bus : Bus) (w : Threads F D)
      → start_threads fails rest reads distance dist_eoa dist_start mission bus ≡ some w
      → (w.train.initialized ≡ false)
        × (w.handler.eoa_initialized ≡ false)
        × (w.reporter.pos_initialized ≡ false)
        × (w.train.bus
            ≡ (mc_consigne_vitesse fails rest
                (pos 0)
                (mc_consigne_vitesse fails rest (pos 20) bus).1).1)
  unfolding start_threads begin_loop
  start_threads_lem reads distance dist_eoa dist_start mission bus w e =
      let (train, found, e1) =
        >>=-eq-some
          (begin_loop fails rest reads dist_eoa dist_start
            (record { bal = negsuc 0; pos_r = f.tenths (pos 0) }) mission bus)
          _ e in
      let (bal, _, e2) = >>=-eq-some (init_train reads) _ found in
      rw (← some-injective _ _ e1) (rw (← some-injective _ _ e2) (refl, refl, refl, refl))

  -- While no end of authority is there, a step orders nothing.
  ThreadStep-bus :
      {w v : Threads F D}
      → ThreadStep h fails rest chemin_id start train_id w v
      → InOrder h fails rest chemin_id start train_id w
      → v.handler.eoa_initialized ≡ false
      → (w.handler.eoa_initialized ≡ false) × (v.train.bus ≡ w.train.bus)
  ThreadStep-bus (acknowledged recv) order down = (down, refl)
  ThreadStep-bus {w} (asked req_id local_pos m recv v u let_go e read) order down =
      let asked_down = false_below (read_eoa-Grows recv v u read) down in
      (
        sym (
              eoa_round-eoa_initialized h.widen chemin_id train_id req_id local_pos w.handler
                (asking m v) e)
            ∙ asked_down,
        refl,
      )
  ThreadStep-bus {w} (rested req_id local_pos u let_go e) order down = (
    sym (eoa_round-eoa_initialized h.widen chemin_id train_id req_id local_pos w.handler (idle u) e)
        ∙ down,
    refl,
  )
  ThreadStep-bus {w} (drove read elapsed_time s waits e) order down = (
    down,
    boucle_round-bus read elapsed_time (record w.train { eoa = w.handler.eoa }) s
        (false_below order.driving down) e,
  )

  pub ThreadReach-bus :
      (w v : Threads F D)
      → w.train.initialized ≡ false
      → w.handler.eoa_initialized ≡ false
      → ThreadReach h fails rest chemin_id start train_id w v
      → v.handler.eoa_initialized ≡ false
      → v.train.bus ≡ w.train.bus
  ThreadReach-bus w v idle_train idle_handler here down = refl
  ThreadReach-bus w v idle_train idle_handler (later {v = mid} r s) down =
      let order =
        ThreadReach-InOrder h fails rest chemin_id start train_id w mid idle_train idle_handler r in
      let (down', same) = ThreadStep-bus s order down in
      same ∙ ThreadReach-bus w mid idle_train idle_handler r down'
