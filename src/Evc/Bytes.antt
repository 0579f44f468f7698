-- ===== src/Evc/Bytes.antt =====
-- The speed of app/EVC/src/automatique.c in the frames of the bus, and the search of the first balise.
use projet_commun_unirail.Prelude.{
  ℕ, zero, suc, ◌+◌, ◌-◌, ◌≤◌, ◌<◌, ◌≡◌, ◌≢◌, refl, sym, ap, ◌∙◌, ◌⊎◌, inl, inr, Bool, false,
  Option, none, some, List, [], ◌∷◌, ◌++◌, ◌>>=◌, if◌then◌else◌, ltb, ◌==◌, >>=-eq-some, Bool-cases,
  get_elem?, All, arith,
}
use mathlib.Core.Option.{some-injective}
use projet_commun_unirail.Prelude.Int.{ℤ, pos, negsuc, ◌-ℤ◌, ltb_ℤ, ◌≤ℤ◌, pos_part, neg_part}
use projet_commun_unirail.Can.{CanFrame, Bus, byte, frame_of, send_can_data}
use projet_commun_unirail.Evc.Speed.{mc_consigne_vitesse, read_speed_from_frame}
use projet_commun_unirail.Evc.Loop.{init_train}

-- An order as its receiver reads it: the value, and 1 for forward.
abbrev pub ordered_speed : CanFrame → Option ℤ
ordered_speed frame = do
  value ← get_elem? frame.bytes 0
  forward ← get_elem? frame.bytes 1
  some (if forward == 1 then pos value else pos 0 -ℤ pos value)

abbrev order_frame : List ℤ → ℤ → CanFrame
order_frame rest speed =
    let forward = ltb_ℤ (pos 0) speed in
    frame_of 0x17 2
      ((if forward then speed else pos 0 -ℤ speed) ∷ (if forward then pos 1 else pos 0) ∷ rest)

order_written :
    (fails : ℕ → Bool) (rest : List ℤ) (speed : ℤ) (bus : Bus)
    → fails bus.writes ≡ false
    → mc_consigne_vitesse fails rest speed bus
      ≡ (0, record { sent = bus.sent ++ order_frame rest speed ∷ []; writes = bus.writes + 1 })
unfolding mc_consigne_vitesse send_can_data
order_written fails rest speed bus ok = rw ok

ordered_speed-order_frame :
    (rest : List ℤ) (speed : ℤ)
    → pos_part speed + neg_part speed ≤ 255
    → ordered_speed (order_frame rest speed) ≡ some speed
unfolding ◌-ℤ◌
ordered_speed-order_frame rest (pos zero) h = refl
ordered_speed-order_frame rest (pos (suc n)) h = ground arith
ordered_speed-order_frame rest (negsuc n) h = ground arith

-- When the write goes through, an order of a speed from -255 to 255 puts one frame on the bus, with
-- the identifier 0x17 and two bytes, from which the speed is read back.
pub mc_consigne_vitesse-ordered_speed :
    (fails : ℕ → Bool) (rest : List ℤ) (speed : ℤ) (bus : Bus)
    → fails bus.writes ≡ false
    → pos_part speed + neg_part speed ≤ 255
    → (frame : CanFrame) × (mc_consigne_vitesse fails rest speed bus
        ≡ (0, record { sent = bus.sent ++ frame ∷ []; writes = bus.writes + 1 }))
      × (frame.can_id ≡ 0x17)
      × (frame.can_dlc ≡ 2)
      × (ordered_speed frame ≡ some speed)
mc_consigne_vitesse-ordered_speed fails rest speed bus ok h =
    let frame = order_frame rest speed in
    (
      frame,
      order_written fails rest speed bus ok,
      refl,
      refl,
      ordered_speed-order_frame rest speed h,
    )

-- The speed that is read is byte 1 as a signed byte.
pub read_speed_from_frame-byte :
    (frame : CanFrame) (b : ℕ)
    → get_elem? frame.bytes 1 ≡ some b
    → b < 256
    → (speed : ℤ) × (read_speed_from_frame frame ≡ some speed)
      × (byte speed ≡ b)
      × (negsuc 127 ≤ℤ speed)
      × (speed ≤ℤ pos 127)
unfolding read_speed_from_frame ◌-ℤ◌
read_speed_from_frame-byte frame b e h = elim (Bool-cases (ltb 127 b)) [
  | inl negative ↦ (
    pos 0 -ℤ pos (255 - b + 1),
    rw (e, ◌>>=◌) (rw negative),
    ground arith,
    ground arith,
    ground arith,
  )
  | inr positive ↦ (pos b, rw (e, ◌>>=◌) (rw positive), omega arith, omega arith, ground arith)
]

-- Whether a read is not the end of the search.
abbrev pub IsPassed : Option CanFrame → Type 0
IsPassed none = ⊥
IsPassed (some frame) = frame.can_id ≡ 0x30 → get_elem? frame.bytes 5 ≡ some 0

-- The result of the search of the first balise: the first one that is not 0, or 0 for a read that fails.
pub record Found (frames : List (Option CanFrame)) (bal : ℕ) : Type 0 where
  pub before : List (Option CanFrame)
  pub end : Option CanFrame
  pub behind : List (Option CanFrame)
  pub reads : frames ≡ before ++ end ∷ behind
  pub passed : All IsPassed before
  pub ends :
      ((end ≡ none) × (bal ≡ 0))
      ⊎ ((frame : CanFrame) × (end ≡ some frame)
          × (frame.can_id ≡ 0x30)
          × (get_elem? frame.bytes 5 ≡ some bal)
          × (bal ≢ 0))

step_over :
    (read : Option CanFrame) (frames : List (Option CanFrame)) (bal : ℕ)
    → IsPassed read
    → Found frames bal
    → Found (read ∷ frames) bal
step_over read frames bal h found = record {
  before = read ∷ found.before;
  end = found.end;
  behind = found.behind;
  reads = ap (◌∷◌ read) found.reads;
  passed = (h, found.passed);
  ends = found.ends;
}

-- When the search ends, the reads before its end were frames of another kind or the balise 0, and
-- it ends at the first read that fails, with 0, or at the first other balise, with its number.
pub init_train-Found :
    (frames : List (Option CanFrame)) (bal : ℕ) → init_train frames ≡ some bal → Found frames bal
unfolding init_train
init_train-Found [] bal e = cc
init_train-Found (none ∷ frames) bal e = record {
  before = [];
  end = none;
  behind = frames;
  reads = refl;
  passed = tt;
  ends = inl (refl, sym (some-injective _ _ e));
}
init_train-Found (some frame ∷ frames) bal e = elim (Bool-cases (frame.can_id == 0x30)) [
  | inl balise ↦
      let (b, b_of, e1) = >>=-eq-some (get_elem? frame.bytes 5) _ (rw balise at e) in
      elim (Bool-cases (b == 0)) [
        | inl zero_balise ↦
            step_over (some frame) frames bal (λ _. b_of ∙ ap some (ground arith))
              (init_train-Found frames bal (rw zero_balise at e1))
        | inr other ↦ record {
          before = [];
          end = some frame;
          behind = frames;
          reads = refl;
          passed = tt;
          ends = inr (frame, refl, ground arith, b_of ∙ (rw other at e1), ground arith);
        }
      ]
  | inr other ↦
      step_over (some frame) frames bal (λ same. absurd (ground arith))
        (init_train-Found frames bal (rw other at e))
]
