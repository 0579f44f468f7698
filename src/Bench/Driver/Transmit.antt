-- ===== src/Bench/Driver/Transmit.antt =====
-- What a call of `canLinux_transmit` does to the line of frames.
use projet_commun_unirail.Prelude.{
  ◌≡◌, refl, Bool, false, not, ◌&&◌, Bool-cases, inl, inr, List, [], ◌∷◌, ◌++◌, map, if◌then◌else◌,
  ltb, All, All-append, length,
}
use projet_commun_unirail.Bench.Message.{Can1Msg}
use projet_commun_unirail.Bench.Fifo.{Fifo}
use projet_commun_unirail.Bench.Fifo.Refine.{HasArray, contents, enfiler_lem}
use projet_commun_unirail.Bench.Driver.{
  Priority, priority_high, priority_medium, priority_low, priority_none, CanBufferPrio, Driver,
  enqueue, can_linux_transmit,
}
use projet_commun_unirail.Bench.Driver.Line.{
  frame_view, queued, IsShort, IsBuffer, IsDriver, sent, waiting, pending,
}

-- The queue of a priority.
unfoldable pub file_of : Priority → CanBufferPrio → Fifo
file_of priority_high b = b.file_high
file_of priority_medium b = b.file_medium
file_of priority_low b = b.file_low
file_of priority_none b = b.file_none

-- The line of the queues, with `ms` in place of the queue of the priority.
unfoldable pub within : Priority → CanBufferPrio → List Can1Msg → List Can1Msg
within priority_high b ms =
    ms ++ (contents b.file_medium ++ (contents b.file_low ++ contents b.file_none))
within priority_medium b ms =
    contents b.file_high ++ (ms ++ (contents b.file_low ++ contents b.file_none))
within priority_low b ms =
    contents b.file_high ++ (contents b.file_medium ++ (ms ++ contents b.file_none))
within priority_none b ms =
    contents b.file_high ++ (contents b.file_medium ++ (contents b.file_low ++ ms))

-- The queue of a priority has room for one message more.
unfoldable pub has_room : Priority → CanBufferPrio → Bool
has_room p b = ltb (length (contents (file_of p b))) 19

within-file_of : (p : Priority) (b : CanBufferPrio) → within p b (contents (file_of p b)) ≡ queued b
unfolding within file_of
within-file_of priority_high b = refl
within-file_of priority_medium b = refl
within-file_of priority_low b = refl
within-file_of priority_none b = refl

All-drop {ℓ κ} :
    {A : Type ℓ} (P : A → Type κ) (xs ys : List A) → All P (xs ++ ys) → All P xs × All P ys
All-drop P [] ys h = (tt, h)
All-drop P (x ∷ xs) ys h = let (k, l) = All-drop P xs ys h.1 in ((h.0, k), l)

-- Behind the messages of one priority there is place for others like them.
All-within :
    (p : Priority) (b : CanBufferPrio) (ms ns : List Can1Msg)
    → All IsShort (within p b ms)
    → (All IsShort ms → All IsShort ns)
    → All IsShort (within p b ns)
unfolding within
All-within priority_high b ms ns h k =
    let (here, after) = All-drop IsShort ms _ h in All-append IsShort ns _ (k here) after
All-within priority_medium b ms ns h k =
    let (before, rest) = All-drop IsShort (contents b.file_high) _ h in
    let (here, after) = All-drop IsShort ms _ rest in
    All-append IsShort (contents b.file_high) _ before (All-append IsShort ns _ (k here) after)
All-within priority_low b ms ns h k =
    let (first, rest) = All-drop IsShort (contents b.file_high) _ h in
    let (second, rest') = All-drop IsShort (contents b.file_medium) _ rest in
    let (here, after) = All-drop IsShort ms _ rest' in
    All-append IsShort (contents b.file_high) _ first (
      All-append IsShort (contents b.file_medium) _ second (All-append IsShort ns _ (k here) after))
All-within priority_none b ms ns h k =
    let (first, rest) = All-drop IsShort (contents b.file_high) _ h in
    let (second, rest') = All-drop IsShort (contents b.file_medium) _ rest in
    let (third, here) = All-drop IsShort (contents b.file_low) _ rest' in
    All-append IsShort (contents b.file_high) _ first (
      All-append IsShort (contents b.file_medium) _ second
        (All-append IsShort (contents b.file_low) _ third (k here)))

-- A message goes behind those of its priority, if there is room.
abbrev added : Priority → Can1Msg → CanBufferPrio → List Can1Msg
added p m b = if has_room p b then contents (file_of p b) ++ m ∷ [] else contents (file_of p b)

added-IsShort :
    (p : Priority) (m : Can1Msg) (b : CanBufferPrio)
    → IsBuffer b
    → IsShort m
    → All IsShort (within p b (added p m b))
added-IsShort p m b v h =
    All-within p b (contents (file_of p b)) (added p m b) (rw (within-file_of p b) v.short) (λ all.
      elim (Bool-cases (has_room p b)) [
        | inl room ↦ rw room (All-append IsShort (contents (file_of p b)) (m ∷ []) all (h, tt))
        | inr full ↦ rw full all
      ])

enqueue_lem :
    (p : Priority) (m : Can1Msg) (b : CanBufferPrio)
    → IsBuffer b
    → HasArray m
    → IsShort m
    → ((enqueue p m b).0 ≡ has_room p b)
      × (queued (enqueue p m b).1 ≡ within p b (added p m b))
      × IsBuffer (enqueue p m b).1
unfolding enqueue has_room file_of within
enqueue_lem priority_high m b v w h =
    let (room, line, v') = enfiler_lem b.file_high m v.high w in
    (
      room,
      rw line,
      record {
        high = v';
        medium = v.medium;
        low = v.low;
        rest = v.rest;
        short = rw line (added-IsShort priority_high m b v h);
      },
    )
enqueue_lem priority_medium m b v w h =
    let (room, line, v') = enfiler_lem b.file_medium m v.medium w in
    (
      room,
      rw line,
      record {
        high = v.high;
        medium = v';
        low = v.low;
        rest = v.rest;
        short = rw line (added-IsShort priority_medium m b v h);
      },
    )
enqueue_lem priority_low m b v w h =
    let (room, line, v') = enfiler_lem b.file_low m v.low w in
    (
      room,
      rw line,
      record {
        high = v.high;
        medium = v.medium;
        low = v';
        rest = v.rest;
        short = rw line (added-IsShort priority_low m b v h);
      },
    )
enqueue_lem priority_none m b v w h =
    let (room, line, v') = enfiler_lem b.file_none m v.rest w in
    (
      room,
      rw line,
      record {
        high = v.high;
        medium = v.medium;
        low = v.low;
        rest = v';
        short = rw line (added-IsShort priority_none m b v h);
      },
    )

-- On a driver in order, a message of at most 8 data is accepted exactly when the lock was free, the driver runs and the queue of its
-- priority held fewer than 19 messages. Then it waits behind the messages of its priority and in
-- front of those of a lower one; otherwise nothing that waits changes. Nothing is sent, the queues
-- stay in order, and the lock is free afterwards in any case.
pub can_linux_transmit_lem :
    (p : Priority) (m : Can1Msg) (d : Driver)
    → IsDriver d
    → HasArray m
    → IsShort m
    → let accepted = (not d.locked && d.buffer.running) && has_room p d.buffer in
      let (answer, d') = can_linux_transmit p m d in
      (answer ≡ accepted)
      × (pending d'
          ≡ waiting d
            ++ map frame_view (
                within p d.buffer (
                  if accepted
                  then contents (file_of p d.buffer) ++ m ∷ []
                  else contents (file_of p d.buffer))))
      × (sent d' ≡ sent d)
      × (d'.locked ≡ false)
      × IsDriver d'
unfolding can_linux_transmit
can_linux_transmit_lem p m d v w h = elim (Bool-cases (not d.locked && d.buffer.running)) [
  | inl open_now ↦
      let (room, line, v') = enqueue_lem p m d.buffer v.buffers w h in
      rw open_now
        (room, rw line, refl, refl, record { buffers = v'; frame = v.frame; array = v.array })
  | inr shut ↦ rw shut (
    refl,
    rw (within-file_of p d.buffer),
    refl,
    refl,
    record { buffers = v.buffers; frame = v.frame; array = v.array },
  )
]
