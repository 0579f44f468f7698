-- ===== src/Evc/Loop.antt =====
-- app/EVC/src/automatique.c, `boucle_automatique` and `init_train`: a round of the loop for the frame
-- that it reads. The frames are outside, `none` for a read that fails. The positions and the mission are shared
-- with the other threads; their locks make the reads and writes of a round atomic.
use projet_commun_unirail.Prelude.{
  ℕ, Bool, true, false, ◌||◌, Option, none, some, List, [], ◌∷◌, ◌>>=◌, if◌then◌else◌, ◌==◌,
  get_elem?,
}
use projet_commun_unirail.Prelude.Int.{ℤ, pos, ◌==ℤ◌, ◌-ℤ◌, ltb_ℤ}
use projet_commun_unirail.Float.{Float, FloatMath}
use projet_commun_unirail.Track.{Position, get_distance}
use projet_commun_unirail.Can.{CanFrame, Bus}
use projet_commun_unirail.Evc.Speed.{
  mc_consigne_vitesse, read_speed_from_frame, read_relative_pos_from_frame, compute_new_speed,
  get_limit_speed,
}

-- `init_train`, after its order: the first balise that is not 0, or 0 for a read that fails; `none` while it
-- waits for frames.
unfoldable pub init_train : List (Option CanFrame) → Option ℕ
init_train [] = none
init_train (none ∷ frames) = some 0
init_train (some frame ∷ frames) =
    let rest = init_train frames in
    if frame.can_id == 0x30
    then (get_elem? frame.bytes 5 >>= λ bal. if bal == 0 then rest else some bal)
    else rest

-- The variables of the loop, the shared `position`, `eoa` and `mission`, and the bus.
pub record Train (F D : Type 0) : Type 0 where
  pub pos_current : Position F
  pub last_balise : ℤ
  pub initialized : Bool
  pub local_mission : ℤ
  pub retenue_sur_vitesse : D
  pub dist_eoa : F
  pub dist_start : F
  pub position : Position F
  pub eoa : Position F
  pub mission : ℤ
  pub bus : Bus

module _ {F D : Type 0} where
  -- A balise: a new one at the start of the route ends a tour.
  unfoldable pub pass_balise : ℤ → ℤ → Train F D → Train F D
  pass_balise start bal s =
      let moved : Train F D = record s { pos_current = record s.pos_current { bal = bal } } in
      if bal ==ℤ s.last_balise
      then moved
      else if bal ==ℤ start
      then record moved {
        mission = s.mission -ℤ pos 1;
        local_mission = s.local_mission -ℤ pos 1;
        last_balise = bal;
      }
      else record moved { last_balise = bal }

  module _ ⦃f : Float F⦄ ⦃g : Float D⦄ (h : FloatMath F D) (fails : ℕ → Bool) (rest : List ℤ)
      (chemin_id start : ℤ) where
    abbrev pub start_pos : Position F
    start_pos = record { bal = start; pos_r = f.tenths (pos 0) }

    -- The two distances; without an end of authority they keep what they held.
    unfoldable pub measure : Train F D → Option (Train F D)
    measure s = elim (ltb_ℤ s.eoa.bal (pos 1)) [
      | true ↦ some s
      | false ↦ do
        dist_eoa ← get_distance s.pos_current s.eoa chemin_id
        dist_start ← get_distance s.pos_current start_pos chemin_id
        some (record s { dist_eoa = dist_eoa; dist_start = dist_start })
    ]

    -- The distance to the goal.
    abbrev pub dist : Train F D → F
    dist s =
        if ltb_ℤ (pos 0) s.local_mission || f.lt s.dist_eoa s.dist_start
        then s.dist_eoa
        else s.dist_start

    -- The speed to order, cut to the limit.
    unfoldable pub order_speed : ℤ → D → Train F D → Option (ℤ × Train F D)
    order_speed current_speed elapsed_time s = do
      speed_limit ← get_limit_speed h s.pos_current chemin_id
      goal ← h.to_int (dist s)
      next ← compute_new_speed h current_speed goal elapsed_time s.retenue_sur_vitesse
      some (
          if ltb_ℤ speed_limit next.0
          then (speed_limit, record s { retenue_sur_vitesse = h.of_int_double speed_limit })
          else (next.0, record s { retenue_sur_vitesse = next.1 }))

    -- The frame 0x02F: the position is shared, and after the first such frame, which waits for the
    -- first end of authority, a speed is ordered.
    unfoldable pub report_frame : CanFrame → D → Train F D → Option (Train F D)
    report_frame frame elapsed_time s = do
      pos_r ← read_relative_pos_from_frame h frame
      current_speed ← read_speed_from_frame frame
      let here : Position F = record { bal = s.pos_current.bal; pos_r = pos_r }
      let s1 : Train F D = record s { pos_current = here; position = here }
      elim s.initialized [
        | false ↦ some (record s1 { initialized = true })
        | true ↦ do
          s2 ← measure s1
          next ← order_speed current_speed elapsed_time s2
          some (record next.1 { bus = (mc_consigne_vitesse fails rest next.0 next.1.bus).1 })
      ]

    -- One round, with the time since the last frame 0x02F.
    unfoldable pub boucle_round : Option CanFrame → D → Train F D → Option (Train F D)
    boucle_round read elapsed_time s =
        let s0 : Train F D = record s { local_mission = s.mission } in
        elim read [
          | none ↦ some s0
          | some frame ↦ elim (frame.can_id == 0x30) [
            | true ↦ get_elem? frame.bytes 5 >>= λ bal. some (pass_balise start (pos bal) s0)
            | false ↦ if frame.can_id == 0x2f then report_frame frame elapsed_time s0 else some s0
          ]
        ]

-- The start of `boucle_automatique`: an order of 20, the search of the first balise, an order of 0. The
-- distances are what their variables held.
unfoldable pub begin_loop :
    {F D : Type 0} ⦃f : Float F⦄ ⦃g : Float D⦄
    → (ℕ → Bool)
    → List ℤ
    → List (Option CanFrame)
    → F
    → F
    → Position F
    → ℤ
    → Bus
    → Option (Train F D)
begin_loop ⦃f⦄ ⦃g⦄ fails rest reads dist_eoa dist_start eoa mission bus = do
  let searching = (mc_consigne_vitesse fails rest (pos 20) bus).1
  init_balise ← init_train reads
  some (record {
    pos_current = record { bal = pos init_balise; pos_r = f.tenths (pos 0) };
    last_balise = pos init_balise;
    initialized = false;
    local_mission = pos 0;
    retenue_sur_vitesse = g.tenths (pos 0);
    dist_eoa = dist_eoa;
    dist_start = dist_start;
    position = record { bal = pos 0; pos_r = f.tenths (pos 0) };
    eoa = eoa;
    mission = mission;
    bus = (mc_consigne_vitesse fails rest (pos 0) searching).1;
  })
