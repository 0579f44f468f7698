-- ===== src/Bench/Driver/Order.antt =====
-- What a round of the sender and a call of `canLinux_transmit` do to the line of frames.
use mathlib.Core.List.{append_assoc, map-append}
use projet_commun_unirail.Prelude.{
  ℕ, ◌-◌, ◌≡◌, ◌≤◌, refl, ap, ◌∙◌, Bool, false, not, inl, inr, Bool-cases, some, List, [], ◌∷◌,
  ◌++◌, map, if◌then◌else◌, length, arith,
}
use projet_commun_unirail.Can.{CanFrame, Bus}
use projet_commun_unirail.Bench.Message.{Can1Msg}
use projet_commun_unirail.Bench.Copies.{overwrite-Done}
use projet_commun_unirail.Bench.Fifo.Refine.{HasArray}
use projet_commun_unirail.Bench.Driver.{Driver, can_id_of, write_frame, fill_frame, task_send}
use projet_commun_unirail.Bench.Driver.Line.{
  payload, frame_view, frame_view-view, queued, IsDriver, sent, pending, next_message_lem,
}

fill_frame_lem :
    (m : Can1Msg) (frame : CanFrame)
    → m.dlc ≤ 8
    → HasArray m
    → length frame.bytes ≡ 8
    → (frame' : CanFrame) × (fill_frame m frame ≡ some frame')
      × (payload frame' ≡ frame_view m)
      × (length frame'.bytes ≡ 8)
unfolding fill_frame
fill_frame_lem m frame h w e =
    let (bytes, done, long, same) =
      overwrite-Done m.dlc m.bytes frame.bytes (omega arith) (omega arith) in
    (
      record { can_id = can_id_of m; can_dlc = m.dlc; bytes = bytes },
      rw done,
      ap
          (λ (bs : List ℕ).
            let f : CanFrame = record { can_id = can_id_of m; can_dlc = m.dlc; bytes = bs } in f)
          same,
      long ∙ e,
    )

-- A frame that is written is sent, or waits again; `rest` waits behind it.
write_frame_lem :
    (fails : ℕ → Bool) (frame : CanFrame) (bus : Bus) (rest : List CanFrame)
    → let (ok, bus') = write_frame fails frame bus in
      map payload bus'.sent ++ ((if not ok then payload frame ∷ [] else []) ++ rest)
      ≡ map payload bus.sent ++ (payload frame ∷ rest)
unfolding write_frame
write_frame_lem fails frame bus rest = elim (Bool-cases (fails bus.writes)) [
  | inl bad ↦ rw bad
  | inr good ↦
      rw (good, map-append payload bus.sent (frame ∷ []))
        (append_assoc (map payload bus.sent) (payload frame ∷ []) rest)
]

write_frame_ok :
    (fails : ℕ → Bool) (frame : CanFrame) (bus : Bus)
    → (write_frame fails frame bus).0 ≡ not (fails bus.writes)
unfolding write_frame
write_frame_ok fails frame bus = elim (Bool-cases (fails bus.writes)) [
  | inl bad ↦ rw bad
  | inr good ↦ rw good
]

-- What a round leaves.
pub record Round (fails : ℕ → Bool) (d d' : Driver) : Type 0 where
  pub valid : IsDriver d'
  pub line : sent d' ++ pending d' ≡ sent d ++ pending d
  pub free : d'.locked ≡ false
  pub running : d'.buffer.running ≡ d.buffer.running
  pub fewer : fails d.bus.writes ≡ false → length (pending d') ≡ length (pending d) - 1

-- From a driver in order a round returns and sends nothing out of turn: the frames that the bus has taken, followed by the frame that
-- waits for another attempt and by the messages of the queues from the most urgent one on, are the
-- same frames in the same order before and after it, whether its write fails or not. A write that
-- does not fail shortens what waits by one frame, if there is one.
pub task_send-Round :
    (fails : ℕ → Bool) (d : Driver)
    → IsDriver d
    → (d' : Driver) × (task_send fails d ≡ some d') × Round fails d d'
unfolding task_send
task_send-Round fails d v = elim (Bool-cases d.resend) [
  | inl again ↦
      let written = write_frame fails d.frame_t d.bus in
      (
        record d { locked = false; resend = not written.0; bus = written.1 },
        rw again,
        record {
          valid = record { buffers = v.buffers; frame = v.frame; array = v.array };
          line =
              rw again (write_frame_lem fails d.frame_t d.bus (map frame_view (queued d.buffer)));
          free = refl;
          running = refl;
          fewer = λ good. rw (again, write_frame_ok fails d.frame_t d.bus, good) (omega arith);
        },
      )
  | inr fresh ↦ elim (next_message_lem d.buffer d.send_can_msg v.buffers v.array) [
    | inl (empty, nothing) ↦ (
      record d { locked = false },
      rw (fresh, empty),
      record {
        valid = record { buffers = v.buffers; frame = v.frame; array = v.array };
        line = refl;
        free = refl;
        running = refl;
        fewer = λ good. rw (fresh, nothing);
      },
    )
    | inr (some_left, b', out, head, taken, same, held, vb, w', short, kept) ↦
        let size : out.dlc ≡ head.dlc = ap (λ (x : Can1Msg). x.dlc) same in
        let (frame, filled, carried, long) =
          fill_frame_lem out d.frame_t (rw size short) w' v.frame in
        let written = write_frame fails frame d.bus in
        let first : payload frame ≡ frame_view head =
          carried ∙ frame_view-view head out short same in
        (
          record {
            buffer = b';
            locked = false;
            frame_t = frame;
            resend = not written.0;
            send_can_msg = out;
            bus = written.1;
          },
          rw (fresh, some_left, taken, filled),
          record {
            valid = record { buffers = vb; frame = long; array = w' };
            line =
                rw (fresh, held)
                  (write_frame_lem fails frame d.bus (map frame_view (queued b'))
                    ∙ ap (λ (f : CanFrame). sent d ++ (f ∷ map frame_view (queued b'))) first);
            free = refl;
            running = kept;
            fewer = λ good. rw (fresh, held, write_frame_ok fails frame d.bus, good) (omega arith);
          },
        )
  ]
]
