-- ===== src/Can/Orders.antt =====
-- What `set_all_switch` of app/utility/src/can_infra.c writes on the bus, with and without a fault.
use mathlib.Core.List.{append_assoc, append-nil}
use projet_commun_unirail.Prelude.{
  ℕ, zero, suc, ◌+◌, ◌<◌, ◌≡◌, sym, ap, ◌∙◌, Bool, true, false, some, List, [], ◌∷◌, ◌++◌, map,
  ◌>>=◌, if◌then◌else◌, ◌==◌, length, get_elem?, get_elem?-append, get_elem?-map, >>=-eq-some, take,
  arith, length-append, Returns, Bool-cases, inl, inr, refl,
}
use projet_commun_unirail.Can.Frames.{CanFrame, Bus, frame_of, send_can_data}
use projet_commun_unirail.Can.Switches.{
  CommandeAig, all_command_aig, entry, order, set_switch, set_switch_turn, set_switch_straight,
  switch_loop, set_all_switch,
}

-- The frame that positions one switch: mode 1 for direction 1, and 0 for any other.
abbrev pub position_frame : CommandeAig → CanFrame
position_frame c = frame_of c.name 3 (order (if c.dir == 1 then 1 else 0))

-- The bus after the frames `fs` went through.
abbrev pub after : Bus → List CanFrame → ℕ → Bus
after bus fs attempts = record { sent = bus.sent ++ fs; writes = bus.writes + attempts }

entry-map {ℓ κ} :
    {A : Type ℓ} {B : Type κ} (g : A → B) (rows : List (List A)) (k i : ℕ) {a : A}
    → entry rows k i ≡ some a
    → entry (map (map g) rows) k i ≡ some (g a)
entry-map g rows k i e =
    let (row, at_k, at_i) = >>=-eq-some (get_elem? rows k) (λ row. get_elem? row i) e in
    rw (get_elem?-map (map g) rows k at_k, ◌>>=◌) (get_elem?-map g row i at_i)

module _ (fails : ℕ → Bool) where
  set_switch_ok :
      (c : CommandeAig) (bus : Bus)
      → fails bus.writes ≡ false
      → set_switch fails c bus ≡ (0, after bus (position_frame c ∷ []) 1)
  unfolding set_switch set_switch_turn set_switch_straight send_can_data
  set_switch_ok c bus ok = ground arith

  set_switch_fault :
      (c : CommandeAig) (bus : Bus)
      → fails bus.writes ≡ true
      → set_switch fails c bus ≡ (1, record bus { writes = bus.writes + 1 })
  unfolding set_switch set_switch_turn set_switch_straight send_can_data
  set_switch_fault c bus fault = ground arith

  module _ (commands : List CommandeAig) (left i : ℕ) (bus : Bus) {c : CommandeAig}
      (at : get_elem? commands i ≡ some c) where
    switch_loop_ok :
        fails bus.writes ≡ false
        → switch_loop fails commands (suc left) i bus
          ≡ switch_loop fails commands left (i + 1) (after bus (position_frame c ∷ []) 1)
    unfolding switch_loop
    switch_loop_ok ok =
        let e = set_switch_ok c bus ok in
        rw (at, ◌>>=◌) (rw e (ap (λ p. switch_loop fails commands left (i + 1) p.1) e))

    switch_loop_fault :
        fails bus.writes ≡ true
        → switch_loop fails commands (suc left) i bus
          ≡ some (1, record bus { writes = bus.writes + 1 })
    unfolding switch_loop
    switch_loop_fault fault =
        let e = set_switch_fault c bus fault in rw (at, ◌>>=◌) (rw e (ap (λ p. some (1, p.1)) e))

  -- The first `n` writes from number `w` on go through.
  abbrev pub Through : ℕ → ℕ → Type 0
  Through n w = (j : ℕ) → j < n → fails (w + j) ≡ false

  Through-tail : (n w : ℕ) → Through (suc n) w → Through n (w + 1)
  Through-tail n w ok j p =
      let e : w + 1 + j ≡ w + suc j = omega arith in rw e (ok (suc j) (omega arith))

  Through-head : (n w : ℕ) → Through (suc n) w → fails w ≡ false
  Through-head n w ok = let e : w + 0 ≡ w = omega arith in rw e at (ok 0 (omega arith))

  switch_loop_next :
      (done : List CommandeAig) (c : CommandeAig) (rest : List CommandeAig) (left : ℕ) (bus : Bus)
      → switch_loop fails (done ++ c ∷ rest) left (length done + 1) bus
        ≡ switch_loop fails ((done ++ c ∷ []) ++ rest) left (length (done ++ c ∷ [])) bus
  switch_loop_next done c rest left bus =
      rw (append_assoc done (c ∷ []) rest, length-append done (c ∷ []))

  after_nil : (bus : Bus) (n : ℕ) → after bus [] n ≡ record bus { writes = bus.writes + n }
  after_nil bus n = rw (append-nil bus.sent)

  after_cons :
      (bus : Bus) (f : CanFrame) (fs : List CanFrame) (n : ℕ)
      → after (after bus (f ∷ []) 1) fs n ≡ after bus (f ∷ fs) (suc n)
  after_cons bus f fs n =
      let e : bus.writes + 1 + n ≡ bus.writes + suc n = omega arith in
      rw (append_assoc bus.sent (f ∷ []) fs, e)

  switch_loop_complete :
      (done rest : List CommandeAig) (bus : Bus)
      → Through (length rest) bus.writes
      → switch_loop fails (done ++ rest) (length rest) (length done) bus
        ≡ some (0, after bus (map position_frame rest) (length rest))
  unfolding switch_loop
  switch_loop_complete done [] bus ok =
      let e : bus.writes + 0 ≡ bus.writes = omega arith in
      ap (λ b. some (0, b)) (sym (after_nil bus 0 ∙ rw e))
  switch_loop_complete done (c ∷ rest) bus ok =
      let bus' : Bus = after bus (position_frame c ∷ []) 1 in
      switch_loop_ok (done ++ c ∷ rest) (length rest) (length done) bus
        (get_elem?-append done c rest) (Through-head _ _ ok)
      ∙ switch_loop_next done c rest (length rest) bus'
      ∙ switch_loop_complete (done ++ c ∷ []) rest bus' (Through-tail _ _ ok)
      ∙ ap (λ b. some (0, b))
          (after_cons bus (position_frame c) (map position_frame rest) (length rest))

  switch_loop_stops :
      (done rest : List CommandeAig) (k : ℕ) (bus : Bus)
      → k < length rest
      → Through k bus.writes
      → fails (bus.writes + k) ≡ true
      → switch_loop fails (done ++ rest) (length rest) (length done) bus
        ≡ some (1, after bus (take k (map position_frame rest)) (k + 1))
  switch_loop_stops done [] k bus p ok fault = absurd (omega arith)
  switch_loop_stops done (c ∷ rest) zero bus p ok fault =
      let e : bus.writes + 0 ≡ bus.writes = omega arith in
      switch_loop_fault (done ++ c ∷ rest) (length rest) (length done) bus
        (get_elem?-append done c rest) (rw e at fault)
      ∙ ap (λ b. some (1, b)) (sym (after_nil bus 1))
  switch_loop_stops done (c ∷ rest) (suc k) bus p ok fault =
      let bus' : Bus = after bus (position_frame c ∷ []) 1 in
      let e : bus.writes + suc k ≡ bus.writes + 1 + k = omega arith in
      switch_loop_ok (done ++ c ∷ rest) (length rest) (length done) bus
        (get_elem?-append done c rest) (Through-head _ _ ok)
      ∙ switch_loop_next done c rest (length rest) bus'
      ∙ switch_loop_stops (done ++ c ∷ []) rest k bus' (omega arith) (Through-tail _ _ ok)
          (rw e at fault)
      ∙ ap (λ b. some (1, b))
          (after_cons bus (position_frame c) (take k (map position_frame rest)) (k + 1)
            ∙ ap (after bus (position_frame c ∷ take k (map position_frame rest))) (omega arith))

  switch_loop-Returns :
      (done rest : List CommandeAig) (bus : Bus)
      → Returns (switch_loop fails (done ++ rest) (length rest) (length done) bus)
  unfolding switch_loop
  switch_loop-Returns done [] bus = (_, refl)
  switch_loop-Returns done (c ∷ rest) bus = elim (Bool-cases (fails bus.writes)) [
    | inl fault ↦ (
      _,
      switch_loop_fault (done ++ c ∷ rest) (length rest) (length done) bus
          (get_elem?-append done c rest) fault,
    )
    | inr ok ↦
        let bus' : Bus = after bus (position_frame c ∷ []) 1 in
        let (r, e) = switch_loop-Returns (done ++ c ∷ []) rest bus' in
        (
          r,
          switch_loop_ok (done ++ c ∷ rest) (length rest) (length done) bus
                (get_elem?-append done c rest) ok
              ∙ switch_loop_next done c rest (length rest) bus'
              ∙ e,
        )
  ]

  -- The lengths of `length_bal` are those of the command lists.
  set_all_switch_loop :
      (k i : ℕ) (commands : List CommandeAig) (bus : Bus)
      → entry all_command_aig k i ≡ some commands
      → set_all_switch fails k i bus ≡ switch_loop fails commands (length commands) 0 bus
  unfolding set_all_switch
  set_all_switch_loop k i commands bus e =
      rw (e, ◌>>=◌) (rw (entry-map length all_command_aig k i e, ◌>>=◌))

  -- On the sections of the tables `set_all_switch` returns, whatever fails.
  pub set_all_switch-Returns :
      (k i : ℕ) (commands : List CommandeAig) (bus : Bus)
      → entry all_command_aig k i ≡ some commands
      → Returns (set_all_switch fails k i bus)
  set_all_switch-Returns k i commands bus e =
      let (r, returns) = switch_loop-Returns [] commands bus in
      (r, set_all_switch_loop k i commands bus e ∙ returns)

  -- When no write fails, `set_all_switch` returns 0 and has written one positioning frame for each
  -- command of the section, in the order of the table and with the direction of the table.
  pub set_all_switch_complete :
      (k i : ℕ) (commands : List CommandeAig) (bus : Bus)
      → entry all_command_aig k i ≡ some commands
      → Through (length commands) bus.writes
      → set_all_switch fails k i bus
        ≡ some (0, after bus (map position_frame commands) (length commands))
  set_all_switch_complete k i commands bus e ok =
      set_all_switch_loop k i commands bus e ∙ switch_loop_complete [] commands bus ok

  -- When the write of command `n` is the first to fail, `set_all_switch` returns 1 and has written
  -- the frames of the `n` commands before it and no other.
  pub set_all_switch_stops :
      (k i n : ℕ) (commands : List CommandeAig) (bus : Bus)
      → entry all_command_aig k i ≡ some commands
      → n < length commands
      → Through n bus.writes
      → fails (bus.writes + n) ≡ true
      → set_all_switch fails k i bus
        ≡ some (1, after bus (take n (map position_frame commands)) (n + 1))
  set_all_switch_stops k i n commands bus e p ok fault =
      set_all_switch_loop k i commands bus e ∙ switch_loop_stops [] commands n bus p ok fault
