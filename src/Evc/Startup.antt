-- ===== src/Evc/Startup.antt =====
-- The start-up order of the threads of a train: app/EVC/src/position.c, app/EVC/src/eoa_handler.c and
-- app/EVC/src/automatique.c wait for each other by the flags that app/EVC/src/main.c gives them.
use projet_commun_unirail.Prelude.{
  ℕ, ◌≡◌, refl, sym, ◌∙◌, inl, inr, Bool, true, false, Option, none, some, List, ◌==◌, Bool-cases,
  >>=-eq-some, get_elem?, arith,
}
use mathlib.Core.Option.{some-injective}
use projet_commun_unirail.Prelude.Int.{ℤ, pos, ◌==ℤ◌}
use projet_commun_unirail.Float.{Float, FloatMath, FloatText}
use projet_commun_unirail.Track.{Position}
use projet_commun_unirail.Can.{CanFrame}
use projet_commun_unirail.Comm.{Message}
use projet_commun_unirail.Evc.Loop.{Train, pass_balise, boucle_round}
use projet_commun_unirail.Evc.Tours.{round_balise, round_other}
use projet_commun_unirail.Evc.Thresholds.{EoaHandler, idle, asking, eoa_round, read_eoa}
use projet_commun_unirail.Evc.Position.{Reporter, acknowledge}
use projet_commun_unirail.Evc.Flags.{
  Grows, acknowledge-Grows, read_eoa-Grows, eoa_round-eoa_initialized,
}

-- The three threads. The end of authority that the loop reads is the one of the handler.
pub record Threads (F D : Type 0) : Type 0 where
  pub reporter : Reporter
  pub handler : EoaHandler F D
  pub train : Train F D

module _ {F D : Type 0} ⦃f : Float F⦄ ⦃g : Float D⦄ ⦃t : FloatText F⦄ (h : FloatMath F D)
    (fails : ℕ → Bool) (rest : List ℤ) (chemin_id start train_id : ℤ) where
  -- The threads in any order, each from the point where its flag lets it go.
  pub data ThreadStep (w : Threads F D) : Threads F D → Type 0 where
    acknowledged :
        (recv : Message) → ThreadStep w (record w { reporter = acknowledge recv w.reporter })
    asked :
        (req_id : ℤ) (local_pos : Position F) (m recv : Message) (v u : EoaHandler F D)
        → w.reporter.pos_initialized ≡ true
        → eoa_round h.widen chemin_id train_id req_id local_pos w.handler ≡ some (asking m v)
        → read_eoa recv v ≡ some u
        → ThreadStep w (record w { handler = u })
    rested :
        (req_id : ℤ) (local_pos : Position F) (u : EoaHandler F D)
        → w.reporter.pos_initialized ≡ true
        → eoa_round h.widen chemin_id train_id req_id local_pos w.handler ≡ some (idle u)
        → ThreadStep w (record w { handler = u })
    drove :
        (read : Option CanFrame) (elapsed_time : D) (s : Train F D)
        → ((frame : CanFrame)
            → read ≡ some frame
            → frame.can_id ≡ 0x2f
            → w.train.initialized ≡ false
            → w.handler.eoa_initialized ≡ true)
        → boucle_round h fails rest chemin_id start read elapsed_time
            (record w.train { eoa = w.handler.eoa })
          ≡ some s
        → ThreadStep w (record w { train = s })

  pub data ThreadReach (w : Threads F D) : Threads F D → Type 0 where
    here : ThreadReach w w
    later : {v u : Threads F D} → ThreadReach w v → ThreadStep v u → ThreadReach w u

  -- The loop drives only after the first end of authority was asked for, and that only after the
  -- first position was acknowledged.
  pub record InOrder (w : Threads F D) : Type 0 where
    pub driving : Grows w.train.initialized w.handler.eoa_initialized
    pub asking : Grows w.handler.eoa_initialized w.reporter.pos_initialized

  pass_balise-initialized :
      (bal : ℤ) (s : Train F D) → (pass_balise start bal s).initialized ≡ s.initialized
  unfolding pass_balise
  pass_balise-initialized bal s = elim (Bool-cases (bal ==ℤ s.last_balise)) [
    | inl same ↦ rw (same, pass_balise)
    | inr new ↦ elim (Bool-cases (bal ==ℤ start)) [
      | inl first ↦ rw (new, pass_balise) (rw first)
      | inr other ↦ rw (new, pass_balise) (rw other)
    ]
  ]

  -- Only a frame 0x02F can end the wait of the loop.
  boucle_round-initialized :
      (frame : CanFrame) (elapsed_time : D) (s s' : Train F D)
      → (frame.can_id == 0x2f) ≡ false
      → boucle_round h fails rest chemin_id start (some frame) elapsed_time s ≡ some s'
      → s'.initialized ≡ s.initialized
  boucle_round-initialized frame elapsed_time s s' other e =
      elim (Bool-cases (frame.can_id == 0x30)) [
        | inl balise ↦
            let (bal, _, e1) =
              >>=-eq-some (get_elem? frame.bytes 5) _
                (sym (round_balise h fails rest chemin_id start frame elapsed_time s balise) ∙ e) in
            rw (← some-injective _ _ e1)
              (pass_balise-initialized (pos bal) (record s { local_mission = s.mission }))
        | inr ignored ↦
            let same = some-injective _ _ (
              sym (round_other h fails rest chemin_id start frame elapsed_time s ignored other)
              ∙ e) in
            rw (← same)
      ]

  round-initialized :
      (read : Option CanFrame) (elapsed_time : D) (s s' : Train F D) (ready : Bool)
      → ((frame : CanFrame)
          → read ≡ some frame
          → frame.can_id ≡ 0x2f
          → s.initialized ≡ false
          → ready ≡ true)
      → Grows s.initialized ready
      → boucle_round h fails rest chemin_id start read elapsed_time s ≡ some s'
      → Grows s'.initialized ready
  unfolding boucle_round
  round-initialized none elapsed_time s s' ready waits before e = rw (← some-injective _ _ e) before
  round-initialized (some frame) elapsed_time s s' ready waits before e =
      elim (Bool-cases (frame.can_id == 0x2f)) [
        | inr other ↦ rw (boucle_round-initialized frame elapsed_time s s' other e) before
        | inl report ↦ elim (Bool-cases s.initialized) [
          | inl set ↦ λ _. before set
          | inr unset ↦ λ _. waits frame refl (ground arith) unset
        ]
      ]

  ThreadStep-InOrder : {w v : Threads F D} → ThreadStep w v → InOrder w → InOrder v
  ThreadStep-InOrder {w} (acknowledged recv) order = record {
    driving = order.driving;
    asking = λ set. acknowledge-Grows recv w.reporter (order.asking set);
  }
  ThreadStep-InOrder {w} (asked req_id local_pos m recv v u let_go e read) order = record {
    driving = λ set. read_eoa-Grows recv v u read (
        eoa_round-eoa_initialized h.widen chemin_id train_id req_id local_pos w.handler (asking m v)
          e
        ∙ order.driving set);
    asking = λ _. let_go;
  }
  ThreadStep-InOrder {w} (rested req_id local_pos u let_go e) order = record {
    driving = λ set.
        eoa_round-eoa_initialized h.widen chemin_id train_id req_id local_pos w.handler (idle u) e
        ∙ order.driving set;
    asking = λ _. let_go;
  }
  ThreadStep-InOrder {w} (drove read elapsed_time s waits e) order = record {
    driving =
        round-initialized read elapsed_time (record w.train { eoa = w.handler.eoa }) s
          w.handler.eoa_initialized waits order.driving e;
    asking = order.asking;
  }

  -- From a start with the three flags down, in any order of the threads, with any frames, positions and
  -- replies: the loop drives only once the first end of authority was asked for and answered, and that
  -- is so only once the RBC acknowledged the first position.
  pub ThreadReach-InOrder :
      (w v : Threads F D)
      → w.train.initialized ≡ false
      → w.handler.eoa_initialized ≡ false
      → ThreadReach w v
      → InOrder v
  ThreadReach-InOrder w v idle_train idle_handler here = record {
    driving = λ set. cc;
    asking = λ set. cc;
  }
  ThreadReach-InOrder w v idle_train idle_handler (later r s) =
      ThreadStep-InOrder s (ThreadReach-InOrder w _ idle_train idle_handler r)
