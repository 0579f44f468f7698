-- ===== src/Evc/Position.antt =====
-- app/EVC/src/position.c, `report_position`: the report of a round and what its reply does.
use projet_commun_unirail.Prelude.{
  ℕ, ◌<◌, ◌^◌, ◌≡◌, refl, ap, ◌∙◌, inl, inr, Bool, true, false, not, ◌&&◌, Option, none, some,
  ◌>>=◌, if◌then◌else◌, take, Bool-cases, arith,
}
use projet_commun_unirail.Prelude.Int.{ℤ, pos, ◌==ℤ◌}
use projet_commun_unirail.Float.{FloatText}
use projet_commun_unirail.Track.{Position}
use projet_commun_unirail.Comm.{Text, Message, print_int, strtol, to_int, strtol-take, to_int_int}
use projet_commun_unirail.Evc.Thresholds.{EoaHandler, finish_init, read_eoa}

-- The flag of the thread, and the flag that the handler of the end of authority waits for.
pub record Reporter : Type 0 where
  pub initialized : Bool
  pub pos_initialized : Bool

-- Code 201 to the first report lets the requests of authority start.
unfoldable pub acknowledge : Message → Reporter → Reporter
acknowledge recv s =
    if recv.code ==ℤ pos 201 && not s.initialized
    then record { initialized = true; pos_initialized = true }
    else s

module _ {F : Type 0} ⦃t : FloatText F⦄ where
  -- The report of a round; before the first balise there is none.
  unfoldable pub position_report : ℤ → ℤ → Position F → Option Message
  position_report train_id req_id local_pos =
      if local_pos.bal ==ℤ pos 0
      then none
      else some (record {
        req_id = req_id;
        train_id = train_id;
        code = pos 101;
        data_0 = some (take 9 (print_int local_pos.bal));
        data_1 = some (take 9 (t.print_hundredths local_pos.pos_r));
      })

  -- A balise of one to nine digits is reported, with code 101 and the number of the train, and the
  -- text of the balise is read back as that balise.
  pub position_report-strtol :
      (train_id req_id : ℤ) (local_pos : Position F) (n : ℕ)
      → local_pos.bal ≡ pos n
      → 0 < n
      → n < 10 ^ 9
      → (m : Message) × (position_report train_id req_id local_pos ≡ some m)
        × (m.code ≡ pos 101)
        × (m.train_id ≡ train_id)
        × (m.req_id ≡ req_id)
        × ((text : Text) × (m.data_0 ≡ some text) × (strtol text ≡ some local_pos.bal))
  unfolding position_report
  position_report-strtol train_id req_id local_pos n e lo hi =
      let known : (local_pos.bal ==ℤ pos 0) ≡ false = rw e (ground arith) in
      let m : Message = record {
        req_id = req_id;
        train_id = train_id;
        code = pos 101;
        data_0 = some (take 9 (print_int local_pos.bal));
        data_1 = some (take 9 (t.print_hundredths local_pos.pos_r));
      } in
      (
        m,
        rw (known, position_report),
        refl,
        refl,
        refl,
        (take 9 (print_int local_pos.bal), refl, rw e (strtol-take n hi)),
      )

module _ {F D : Type 0} ⦃t : FloatText F⦄ where
  finish_init_lem :
      (s : EoaHandler F D)
      → ((finish_init s).eoa ≡ s.eoa)
        × (s.initialized ≡ false → (finish_init s).eoa_initialized ≡ true)
  unfolding finish_init
  finish_init_lem s = elim (Bool-cases s.initialized) [
    | inl done ↦ (rw (done, finish_init), λ first. cc)
    | inr first ↦ (rw (first, finish_init), λ _. rw (first, finish_init))
  ]

  -- The train stores the balise that the RBC wrote into a reply with code 202, when it has at most
  -- nine digits and the text of the offset is read, and the first such reply lets it drive.
  pub read_eoa-print_int :
      (recv : Message) (s : EoaHandler F D) (n : ℕ) (text : Text) (pos_r : F)
      → recv.code ≡ pos 202
      → recv.data_0 ≡ some (take 9 (print_int (pos n)))
      → recv.data_1 ≡ some text
      → n < 10 ^ 9
      → t.strtod text ≡ some pos_r
      → (s' : EoaHandler F D) × (read_eoa recv s ≡ some s')
        × (s'.eoa ≡ record { bal = pos n; pos_r = pos_r })
        × (s.initialized ≡ false → s'.eoa_initialized ≡ true)
  unfolding read_eoa
  read_eoa-print_int recv s n text pos_r code data_0 data_1 hi read =
      let stored : EoaHandler F D = record s {
        eoa = record { bal = to_int (pos n); pos_r = pos_r };
      } in
      let (kept, drives) = finish_init_lem stored in
      (
        finish_init stored,
        rw (code, read_eoa)
            (rw (data_0, ◌>>=◌) (rw (strtol-take n hi) (rw (data_1, ◌>>=◌) (rw read)))),
        kept ∙ ap (λ z. record { bal = z; pos_r = pos_r }) (to_int_int (pos n) (ground arith)),
        drives,
      )
