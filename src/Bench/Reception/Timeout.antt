-- ===== src/Bench/Reception/Timeout.antt =====
-- The waiting loop of `canLinux_receive`.
use projet_commun_unirail.Prelude.{
  ℕ, zero, suc, ◌+◌, ◌≡◌, ◌≤◌, ◌<◌, refl, ◌∙◌, Bool, true, false, Option, none, some, Option-cases,
  Returns, >>=-Returns, inl, inr, ◌>>=◌, ltb, lt→ltb, length, arith,
}
use projet_commun_unirail.Can.{CanFrame}
use projet_commun_unirail.Bench.Message.{Can1Msg}
use projet_commun_unirail.Bench.Copies.{overwrite, overwrite-Done}
use projet_commun_unirail.Bench.Reception.{read_into, elapsed, receive_loop, can_linux_receive}

-- The first frame among `n` attempts to read from number `i` on.
pub first_read : (ℕ → Option CanFrame) → ℕ → ℕ → Option CanFrame
first_read reads zero i = none
first_read reads (suc n) i = elim (reads i) [
  | some frame ↦ some frame
  | none ↦ first_read reads n (i + 1)
]

-- What the call should give: that frame in the message, or the message as it was.
pub outcome : Option CanFrame → Can1Msg → Option (Bool × Can1Msg)
outcome none m = some (false, m)
outcome (some frame) m = read_into frame m >>= λ m'. some (true, m')

module _ (reads : ℕ → Option CanFrame) (clock : ℕ → ℕ) (time_out : ℕ) (m : Can1Msg) where
  receive_loop_lem :
      (n i fuel : ℕ)
      → n < fuel
      → ((k : ℕ) → i ≤ k → k < i + n → elapsed (clock 0) (clock k) < time_out)
      → time_out ≤ elapsed (clock 0) (clock (i + n))
      → receive_loop reads clock fuel i (clock 0) (clock i) time_out m
        ≡ outcome (first_read reads n i) m
  unfolding receive_loop first_read outcome
  receive_loop_lem n i zero h early late = absurd (omega arith)
  receive_loop_lem zero i (suc fuel) h early late =
      let over : ltb (elapsed (clock 0) (clock i)) time_out ≡ false =
        (let same : i + 0 ≡ i = omega arith in let late' = rw same at late in ground arith) in
      rw (over, receive_loop)
  receive_loop_lem (suc n) i (suc fuel) h early late =
      let open_now : ltb (elapsed (clock 0) (clock i)) time_out ≡ true =
        lt→ltb _ _ (early i (omega arith) (omega arith)) in
      elim (Option-cases (reads i)) [
        | inl nothing ↦
            rw (open_now, receive_loop)
              (rw (nothing, receive_loop, first_read)
                (receive_loop_lem n (i + 1) fuel (omega arith)
                  (λ k p q. early k (omega arith) (omega arith))
                  (let same : i + suc n ≡ i + 1 + n = omega arith in rw same at late)))
        | inr (frame, some_frame) ↦
            rw (open_now, receive_loop) (rw (some_frame, receive_loop, first_read))
      ]

read_into-Returns :
    (frame : CanFrame) (m : Can1Msg)
    → length frame.bytes ≡ 8
    → length m.bytes ≡ 9
    → Returns (read_into frame m)
unfolding read_into
read_into-Returns frame m h w =
    let (bytes, done, long, same) =
      overwrite-Done 8 frame.bytes m.bytes (omega (arith, h)) (omega arith) in
    >>=-Returns (overwrite 8 frame.bytes m.bytes) _ done (_, refl)

outcome-Returns :
    (o : Option CanFrame) (m : Can1Msg)
    → ((f : CanFrame) → o ≡ some f → length f.bytes ≡ 8)
    → length m.bytes ≡ 9
    → Returns (outcome o m)
unfolding outcome
outcome-Returns none m h w = ((false, m), refl)
outcome-Returns (some frame) m h w =
    let (m', read) = read_into-Returns frame m (h frame refl) w in
    >>=-Returns (read_into frame m) (λ m'. some (true, m')) read ((true, m'), refl)

first_read-bytes :
    (reads : ℕ → Option CanFrame) (n i : ℕ)
    → ((k : ℕ) (f : CanFrame) → reads k ≡ some f → length f.bytes ≡ 8)
    → (f : CanFrame) → first_read reads n i ≡ some f
    → length f.bytes ≡ 8
unfolding first_read
first_read-bytes reads zero i h f e = cc
first_read-bytes reads (suc n) i h f e = elim (Option-cases (reads i)) [
  | inl nothing ↦ first_read-bytes reads n (i + 1) h f (rw (nothing, first_read) at e)
  | inr (frame, got) ↦ h i f (got ∙ rw (got, first_read) at e)
]

-- When the clock reaches the time-out at its reading number `n`, and not before, the call returns
-- after at most `n` attempts to read: with true and the first frame that they gave in the message,
-- or with false and the message as it was if they gave none. The frames have 8 bytes of data.
pub can_linux_receive_ends :
    (reads : ℕ → Option CanFrame) (clock : ℕ → ℕ) (n fuel time_out : ℕ) (m : Can1Msg)
    → n < fuel
    → ((k : ℕ) → k < n → elapsed (clock 0) (clock k) < time_out)
    → time_out ≤ elapsed (clock 0) (clock n)
    → ((k : ℕ) (f : CanFrame) → reads k ≡ some f → length f.bytes ≡ 8)
    → length m.bytes ≡ 9
    → (can_linux_receive reads clock fuel time_out m ≡ outcome (first_read reads n 0) m)
      × Returns (can_linux_receive reads clock fuel time_out m)
unfolding can_linux_receive
can_linux_receive_ends reads clock n fuel time_out m h early late whole w =
    let same : 0 + n ≡ n = omega arith in
    let call : can_linux_receive reads clock fuel time_out m ≡ outcome (first_read reads n 0) m =
      receive_loop_lem reads clock time_out m n 0 fuel h (λ k p q. early k (omega arith))
        (rw same late) in
    (call, rw call (outcome-Returns (first_read reads n 0) m (first_read-bytes reads n 0 whole) w))
