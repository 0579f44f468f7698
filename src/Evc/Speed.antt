-- ===== src/Evc/Speed.antt =====
-- app/EVC/src/automatique.c: speed orders and reports on the CAN bus, the speed limit of a position,
-- and the speed to order next.
use projet_commun_unirail.Prelude.{
  ℕ, ◌+◌, ◌-◌, ◌*◌, ◌%◌, Bool, true, false, ◌&&◌, Option, some, List, ◌∷◌, ◌>>=◌, if◌then◌else◌,
  ltb, length, get_elem?, bit_or,
}
use projet_commun_unirail.Prelude.Int.{ℤ, pos, negsuc, ◌-ℤ◌, ◌*ℤ◌, ltb_ℤ, leb_ℤ}
use projet_commun_unirail.Float.{Float, FloatMath}
use projet_commun_unirail.Track.{Position, b1, b2, d, chemins, v_limits, slot, seek, find_arc}
use projet_commun_unirail.Can.{CanFrame, Bus, send_can_data}

-- `mc_consigneVitesse`. `rest` is what the other six entries of its array hold, which it does not set.
unfoldable pub mc_consigne_vitesse : (ℕ → Bool) → List ℤ → ℤ → Bus → ℕ × Bus
mc_consigne_vitesse fails rest speed =
    let forward = ltb_ℤ (pos 0) speed in
    send_can_data fails 0x17 2
      ((if forward then speed else pos 0 -ℤ speed) ∷ (if forward then pos 1 else pos 0) ∷ rest)

-- Entry 1 of the frame, as a signed byte.
unfoldable pub read_speed_from_frame : CanFrame → Option ℤ
read_speed_from_frame frame = do
  b ← get_elem? frame.bytes 1
  some (if ltb 127 b then pos 0 -ℤ pos (255 - b + 1) else pos b)

abbrev pub no_limit : ℤ
no_limit = pos 100_000_000

module _ {F D : Type 0} ⦃f : Float F⦄ ⦃g : Float D⦄ (h : FloatMath F D) where
  -- Entries 2 and 3 of the frame, as a word.
  unfoldable pub read_relative_pos_from_frame : CanFrame → Option F
  read_relative_pos_from_frame frame = do
    low ← get_elem? frame.bytes 2
    high ← get_elem? frame.bytes 3
    let wd = bit_or (high * 256 % 65536) low
    some (h.narrow (h.mul_double (h.of_int_double (pos (10 * wd))) h.pas_roue_codeuse))

  abbrev pub max_acceleration : F
  max_acceleration = f.tenths (pos 100)

  abbrev pub max_deacceleration : F
  max_deacceleration = f.tenths (negsuc 99)

  -- 10 * n / (2 * a), with the int `n`.
  abbrev pub run_up : ℤ → F → F
  run_up n a = h.div (h.of_int n) (h.mul (h.of_int (pos 2)) a)

  -- `sqrtf(v * v + 0.2 * a * x)`
  abbrev pub speed_after : ℤ → F → F → F
  speed_after v a x = h.sqrt (
      h.narrow (
        g.add (h.of_int_double (v *ℤ v))
          (h.mul_double (h.mul_double (g.tenths (pos 2)) (h.widen a)) (h.widen x))))

  -- `compute_new_speed`: the speed, and the new `retenue_sur_vitesse`.
  unfoldable pub compute_new_speed : ℤ → ℤ → D → D → Option (ℤ × D)
  compute_new_speed v dist elapsed_time retenue =
      let dist_freinage = run_up (negsuc 9 *ℤ (v *ℤ v)) max_deacceleration in
      let retenue' = g.add retenue (h.mul_double (h.widen max_acceleration) elapsed_time) in
      elim (f.le (h.of_int dist) dist_freinage) [
        | true ↦ do
          speed ← h.to_int (speed_after v max_deacceleration (f.sub dist_freinage (h.of_int dist)))
          some (speed, h.of_int_double v)
        | false ↦ do speed ← h.to_int_double retenue'; some (speed, retenue')
      ]

  -- The limit before the end of a section of length `len` in tenths, when the next one is slower.
  unfoldable pub limit_next : F → ℤ → ℤ → ℕ → Option ℤ
  limit_next pos_r v1 v_next len =
      let length_cm = f.tenths (pos len) in
      let debut =
        f.sub length_cm (run_up (pos 10 *ℤ (v_next *ℤ v_next -ℤ v1 *ℤ v1)) max_deacceleration) in
      if f.lt pos_r debut
      then some v1
      else if f.lt length_cm pos_r
      then some v_next
      else h.to_int (speed_after v1 max_deacceleration (f.sub pos_r debut))

  -- The limit from the start of a section, when the last one is slower.
  unfoldable pub limit_last : F → ℤ → ℤ → Option ℤ
  limit_last pos_r v1 v_last =
      let fin = run_up (pos 10 *ℤ (v1 *ℤ v1 -ℤ v_last *ℤ v_last)) max_acceleration in
      if f.lt fin pos_r
      then some v1
      else h.to_int (speed_after v_last max_acceleration (f.sub fin pos_r))

  -- The limits of the last, the present and the next section, and the length of the present one
  -- where the code looks it up.
  unfoldable pub limit_of : F → ℤ → ℤ → ℤ → Option ℕ → Option ℤ
  limit_of pos_r v_last v1 v_next len = if leb_ℤ v1 v_next && leb_ℤ v1 v_last then some v1 else do
    next ← (if ltb_ℤ v_next v1 then (len >>= λ l. limit_next pos_r v1 v_next l) else some no_limit)
    last ← (if ltb_ℤ v_last v1 then limit_last pos_r v1 v_last else some no_limit)
    some (if ltb_ℤ next last then next else last)

  unfoldable pub get_limit_speed : Position F → ℤ → Option ℤ
  get_limit_speed current chemin_id = do
    k ← slot chemin_id
    chemin ← get_elem? chemins k
    limits ← get_elem? v_limits k
    i ← seek current.bal chemin 0
    let n = length chemin
    v_last ← get_elem? limits ((i + n - 1) % n)
    v1 ← get_elem? limits i
    v_next ← get_elem? limits ((i + 1) % n)
    here ← get_elem? chemin i
    there ← get_elem? chemin ((i + 1) % n)
    limit_of current.pos_r (pos v_last) (pos v1) (pos v_next)
        (find_arc here there b1 b2 0 >>= λ j. get_elem? d j)
