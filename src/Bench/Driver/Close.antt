-- ===== src/Bench/Driver/Close.antt =====
-- The waiting loop of `canLinux_close`.
use mathlib.Core.List.{append-nil}
use projet_commun_unirail.Prelude.{
  ℕ, zero, suc, ◌+◌, ◌-◌, ◌≡◌, ◌≤◌, ◌<◌, refl, ap, sym, ◌∙◌, Bool, true, false, some, ◌⊎◌, inl, inr,
  List, [], ◌∷◌, ◌++◌, map, length, length-append, arith,
}
use projet_commun_unirail.Can.{CanFrame}
use projet_commun_unirail.Bench.Message.{Can1Msg}
use projet_commun_unirail.Bench.Driver.{
  CanBufferPrio, Driver, all_vide, rounds, close_loop, can_linux_close,
}
use projet_commun_unirail.Bench.Driver.Line.{
  frame_view, queued, IsBuffer, IsDriver, sent, waiting, pending, next_message_lem,
}
use projet_commun_unirail.Bench.Driver.Order.{task_send-Round}

module _ (fails : ℕ → Bool) (works : (n : ℕ) → fails n ≡ false) where
  rounds_lem :
      (n : ℕ) (d : Driver)
      → IsDriver d
      → (d' : Driver) × (rounds fails n d ≡ some d')
        × IsDriver d'
        × (sent d' ++ pending d' ≡ sent d ++ pending d)
        × (length (pending d') ≡ length (pending d) - n)
        × (d'.buffer.running ≡ d.buffer.running)
  unfolding rounds
  rounds_lem zero d v = (d, refl, v, refl, omega arith, refl)
  rounds_lem (suc n) d v =
      let (d1, done, round) = task_send-Round fails d v in
      let (d', rest, v', line, count, running) = rounds_lem n d1 round.valid in
      let fewer = round.fewer (works d.bus.writes) in
      (
        d',
        rw done rest,
        v',
        line ∙ round.line,
        omega (arith, count, fewer),
        running ∙ round.running,
      )

  all_vide-queued :
      (d : Driver)
      → IsDriver d
      → ((all_vide d.buffer ≡ true) × (queued d.buffer ≡ []))
        ⊎ ((all_vide d.buffer ≡ false) × (0 < length (pending d)))
  all_vide-queued d v = elim (next_message_lem d.buffer d.send_can_msg v.buffers v.array) [
    | inl empty ↦ inl empty
    | inr (full, b', out, head, taken, same, held, vb, w, short, kept) ↦ inr (
      full,
      rw held (omega (arith, length-append (waiting d) (map frame_view (head ∷ queued b')))),
    )
  ]

  close_loop_lem :
      (pauses : ℕ → ℕ) (fuel i : ℕ) (d : Driver)
      → ((k : ℕ) → 1 ≤ pauses k)
      → length (pending d) < fuel
      → IsDriver d
      → (d' : Driver) × (close_loop fails pauses fuel i d ≡ some d')
        × (queued d'.buffer ≡ [])
        × (sent d' ++ waiting d' ≡ sent d ++ pending d)
        × (d'.buffer.running ≡ d.buffer.running)
  unfolding close_loop
  close_loop_lem pauses zero i d busy h v = absurd (omega arith)
  close_loop_lem pauses (suc fuel) i d busy h v = elim (all_vide-queued d v) [
    | inl (empty, nothing) ↦ (
      d,
      rw (empty, close_loop),
      nothing,
      ap (λ (t : List CanFrame). sent d ++ t)
          (sym (
            ap (λ (q : List Can1Msg). waiting d ++ map frame_view q) nothing
            ∙ append-nil (waiting d))),
      refl,
    )
    | inr (full, some_left) ↦
        let (d1, paused, v1, line, count, running) = rounds_lem (pauses i) d v in
        let (d', done, nothing, line', running') =
          close_loop_lem pauses fuel (i + 1) d1 busy (omega (arith, busy i, count)) v1 in
        (d', rw (full, close_loop) (rw paused done), nothing, line' ∙ line, running' ∙ running)
  ]

-- `canLinux_close` on a driver in order that runs ends, if no write fails any more and the sender makes at
-- least one round during each pause: the queues are empty then, every frame that waited has been
-- sent, in order, but for one that may still wait for another attempt, and the driver does not
-- run. As many tests as frames that wait and one more are enough.
pub can_linux_close_ends :
    (fails : ℕ → Bool) (pauses : ℕ → ℕ) (fuel : ℕ) (d : Driver)
    → ((n : ℕ) → fails n ≡ false)
    → ((k : ℕ) → 1 ≤ pauses k)
    → length (pending d) < fuel
    → d.buffer.running ≡ true
    → IsDriver d
    → (d' : Driver) × (can_linux_close fails pauses fuel d ≡ some d')
      × (queued d'.buffer ≡ [])
      × (sent d' ++ waiting d' ≡ sent d ++ pending d)
      × (d'.buffer.running ≡ false)
unfolding can_linux_close
can_linux_close_ends fails pauses fuel d works busy h runs v =
    let b : CanBufferPrio = record d.buffer { running = false } in
    let vb : IsBuffer b = record {
      high = v.buffers.high;
      medium = v.buffers.medium;
      low = v.buffers.low;
      rest = v.buffers.rest;
      short = v.buffers.short;
    } in
    let (d', done, nothing, line, running) =
      close_loop_lem fails works pauses fuel 0 (record d { buffer = b }) busy h
        (record { buffers = vb; frame = v.frame; array = v.array }) in
    (d', rw runs done, nothing, line, running)
