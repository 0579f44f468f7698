-- ===== src/Bench/Driver/Line.antt =====
-- The frames that are sent and those that wait: their order.
use projet_commun_unirail.Prelude.{
  ℕ, zero, suc, ◌≡◌, ◌≤◌, refl, ap, sym, ◌∙◌, true, false, ◌⊎◌, inl, inr, some, List, [], ◌∷◌, ◌++◌,
  map, if◌then◌else◌, All, take, length, arith,
}
use projet_commun_unirail.Can.{CanFrame}
use projet_commun_unirail.Bench.Message.{Can1Msg}
use projet_commun_unirail.Bench.Fifo.{Fifo, is_file_vide, defiler}
use projet_commun_unirail.Bench.Fifo.Refine.{
  HasArray, IsFifo, contents, view, Nat-cases, defiler-cons, is_file_vide_lem,
}
use projet_commun_unirail.Bench.Driver.{CanBufferPrio, Driver, can_id_of, next_message, all_vide}

-- What a frame carries: its data up to its length.
abbrev pub payload : CanFrame → CanFrame
payload f = record f { bytes = take f.can_dlc f.bytes }

-- The frame that a message asks for.
abbrev pub frame_view : Can1Msg → CanFrame
frame_view m = record { can_id = can_id_of m; can_dlc = m.dlc; bytes = take m.dlc m.bytes }

-- The messages of the queues, the most urgent first.
abbrev pub queued : CanBufferPrio → List Can1Msg
queued b =
    contents b.file_high
    ++ (contents b.file_medium ++ (contents b.file_low ++ contents b.file_none))

abbrev pub IsShort : Can1Msg → Type 0
IsShort m = m.dlc ≤ 8

pub record IsBuffer (b : CanBufferPrio) : Type 0 where
  pub high : IsFifo b.file_high
  pub medium : IsFifo b.file_medium
  pub low : IsFifo b.file_low
  pub rest : IsFifo b.file_none
  pub short : All IsShort (queued b)

pub record IsDriver (d : Driver) : Type 0 where
  pub buffers : IsBuffer d.buffer
  pub frame : length d.frame_t.bytes ≡ 8
  pub array : HasArray d.send_can_msg

-- What the bus has taken, and what waits: the frame that failed, and the queues.
abbrev pub sent : Driver → List CanFrame
sent d = map payload d.bus.sent

abbrev pub waiting : Driver → List CanFrame
waiting d = if d.resend then payload d.frame_t ∷ [] else []

abbrev pub pending : Driver → List CanFrame
pending d = waiting d ++ map frame_view (queued d.buffer)

take_short : (n : ℕ) (xs : List ℕ) → n ≤ 8 → take n (take 8 xs) ≡ take n xs
take_short n xs h = go n 8 xs h
  where
    go : (n k : ℕ) (xs : List ℕ) → n ≤ k → take n (take k xs) ≡ take n xs
    go zero k xs h = refl
    go (suc n) zero xs h = absurd (omega arith)
    go (suc n) (suc k) [] h = refl
    go (suc n) (suc k) (x ∷ xs) h = ap (λ t. x ∷ t) (go n k xs (omega arith))

frame_view_short : (m : Can1Msg) → m.dlc ≤ 8 → frame_view (view m) ≡ frame_view m
frame_view_short m h =
    ap
      (λ (bytes : List ℕ).
        let f : CanFrame = record { can_id = can_id_of m; can_dlc = m.dlc; bytes = bytes } in f)
      (take_short m.dlc m.bytes h)

-- A frame is determined by the members of a message that travel.
pub frame_view-view : (m n : Can1Msg) → m.dlc ≤ 8 → view n ≡ view m → frame_view n ≡ frame_view m
frame_view-view m n h e =
    let same : n.dlc ≡ m.dlc = ap (λ (x : Can1Msg). x.dlc) e in
    sym (frame_view_short n (rw same h)) ∙ ap frame_view e ∙ frame_view_short m h

-- The two states of a queue.
fifo_cases :
    (f : Fifo) (m : Can1Msg)
    → IsFifo f
    → HasArray m
    → ((is_file_vide f ≡ true) × (contents f ≡ []))
      ⊎ ((is_file_vide f ≡ false)
          × (out : Can1Msg) × (f' : Fifo) × (defiler f m ≡ some (true, f', out))
          × (head : Can1Msg) × (view out ≡ view head)
          × (contents f ≡ head ∷ contents f')
          × IsFifo f'
          × HasArray out)
fifo_cases f m v w = elim (Nat-cases f.nb_transaction) [
  | inl none_left ↦ inl (is_file_vide_lem f v ∙ rw none_left, rw none_left)
  | inr (n, left) ↦
      let (out, f', done, same, held, v', w') = defiler-cons f m n left v w in
      inr (
        is_file_vide_lem f v ∙ rw left (ground arith),
        out,
        f',
        done,
        f.values f.tete,
        same,
        held,
        v',
        w',
      )
]

-- The message that is taken is the first of the line.
pub next_message_lem :
    (b : CanBufferPrio) (m : Can1Msg)
    → IsBuffer b
    → HasArray m
    → ((all_vide b ≡ true) × (queued b ≡ []))
      ⊎ ((all_vide b ≡ false)
          × (b' : CanBufferPrio) × (out : Can1Msg) × (head : Can1Msg) × (next_message b m
              ≡ some (b', out))
          × (view out ≡ view head)
          × (queued b ≡ head ∷ queued b')
          × IsBuffer b'
          × HasArray out
          × IsShort head
          × (b'.running ≡ b.running))
unfolding next_message all_vide
next_message_lem b m v w = elim (fifo_cases b.file_high m v.high w) [
  | inr (full, out, f', done, head, same, held, v', w') ↦
      let line : queued b
          ≡ head
            ∷ (contents f'
                ++ (contents b.file_medium ++ (contents b.file_low ++ contents b.file_none))) =
        rw held in
      let short : All IsShort (
          head
          ∷ (contents f'
              ++ (contents b.file_medium ++ (contents b.file_low ++ contents b.file_none)))) =
        rw line at v.short in
      inr (
        rw full,
        record b { file_high = f' },
        out,
        head,
        rw (full, done),
        same,
        line,
        record { high = v'; medium = v.medium; low = v.low; rest = v.rest; short = short.1 },
        w',
        short.0,
        refl,
      )
  | inl (vide_high, no_high) ↦ elim (fifo_cases b.file_medium m v.medium w) [
    | inr (full, out, f', done, head, same, held, v', w') ↦
        let line : queued b
            ≡ head
              ∷ (contents b.file_high
                  ++ (contents f' ++ (contents b.file_low ++ contents b.file_none))) =
          rw (no_high, held) in
        let short : All IsShort (
            head
            ∷ (contents b.file_high
                ++ (contents f' ++ (contents b.file_low ++ contents b.file_none)))) =
          rw line at v.short in
        inr (
          rw (vide_high, full),
          record b { file_medium = f' },
          out,
          head,
          rw (vide_high, full, done),
          same,
          line,
          record { high = v.high; medium = v'; low = v.low; rest = v.rest; short = short.1 },
          w',
          short.0,
          refl,
        )
    | inl (vide_medium, no_medium) ↦ elim (fifo_cases b.file_low m v.low w) [
      | inr (full, out, f', done, head, same, held, v', w') ↦
          let line : queued b
              ≡ head
                ∷ (contents b.file_high
                    ++ (contents b.file_medium ++ (contents f' ++ contents b.file_none))) =
            rw (no_high, no_medium, held) in
          let short : All IsShort (
              head
              ∷ (contents b.file_high
                  ++ (contents b.file_medium ++ (contents f' ++ contents b.file_none)))) =
            rw line at v.short in
          inr (
            rw (vide_high, vide_medium, full),
            record b { file_low = f' },
            out,
            head,
            rw (vide_high, vide_medium, full, done),
            same,
            line,
            record { high = v.high; medium = v.medium; low = v'; rest = v.rest; short = short.1 },
            w',
            short.0,
            refl,
          )
      | inl (vide_low, no_low) ↦ elim (fifo_cases b.file_none m v.rest w) [
        | inr (full, out, f', done, head, same, held, v', w') ↦
            let line : queued b
                ≡ head
                  ∷ (contents b.file_high
                      ++ (contents b.file_medium ++ (contents b.file_low ++ contents f'))) =
              rw (no_high, no_medium, no_low, held) in
            let short : All IsShort (
                head
                ∷ (contents b.file_high
                    ++ (contents b.file_medium ++ (contents b.file_low ++ contents f')))) =
              rw line at v.short in
            inr (
              rw (vide_high, vide_medium, vide_low, full),
              record b { file_none = f' },
              out,
              head,
              rw (vide_high, vide_medium, vide_low, full, done),
              same,
              line,
              record { high = v.high; medium = v.medium; low = v.low; rest = v'; short = short.1 },
              w',
              short.0,
              refl,
            )
        | inl (vide_rest, no_rest) ↦ inl (
          rw (vide_high, vide_medium, vide_low, vide_rest),
          rw (no_high, no_medium, no_low, no_rest),
        )
      ]
    ]
  ]
]
