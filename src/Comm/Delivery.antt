-- ===== src/Comm/Delivery.antt =====
-- What a thread that waits in `wait_for_response` of app/utility/src/comm_message_listener.c gets.
use projet_commun_unirail.Prelude.{
  ℕ, ◌≢◌, ◌≡◌, refl, sym, ◌⊎◌, inl, inr, true, false, none, some, List, [], ◌∷◌, ◌==◌, All,
  Bool-cases, Option-cases, arith,
}
use mathlib.Core.Option.{some-injective}
use projet_commun_unirail.Prelude.Int.{negsuc, ◌==ℤ◌, ==ℤ_iff}
use projet_commun_unirail.Comm.Messages.{Message}
use projet_commun_unirail.Comm.Routing.{copy_message_lem, deliver-none, deliver-some}
use projet_commun_unirail.Comm.Listener.{
  PendingMessage, PendingRequest, Mailbox, find_waiting, enqueue, time_out, find_entry, unlink,
  Step, enqueued, received, timed_out, finished, taken, Reach, here, later,
}

-- A thread that may go on has the response to its own request, or the code of a time-out.
abbrev pub IsAnswered : PendingMessage → Type 0
IsAnswered p = p.ready ≡ true → (p.message.req_id ≡ p.req_id) ⊎ (p.message.code ≡ negsuc 0)

-- Every entry is answered, and no two entries have one address.
pub data IsQueue : List PendingMessage → Type 0 where
  empty : IsQueue []
  front :
      {p : PendingMessage} {ps : List PendingMessage}
      → IsAnswered p
      → All (λ q. q.address ≢ p.address) ps
      → IsQueue ps
      → IsQueue (p ∷ ps)

All-find_waiting :
    (m : Message) (a : ℕ) (ps : List PendingMessage) {qs : List PendingMessage}
    → find_waiting m ps ≡ some qs
    → All (λ q. q.address ≢ a) ps
    → All (λ q. q.address ≢ a) qs
unfolding find_waiting
All-find_waiting m a [] e h = cc
All-find_waiting m a (p ∷ ps) e (h, hs) = elim (Bool-cases (p.req_id ==ℤ m.req_id)) [
  | inl hit ↦ rw (← some-injective _ _ (rw hit at e)) (h, hs)
  | inr miss ↦ elim (Option-cases (find_waiting m ps)) [
    | inl none_left ↦ absurd (let wrong = rw none_left at (rw miss at e) in cc)
    | inr (rs, found) ↦
        rw (← some-injective _ _ (rw found at (rw miss at e))) (h, All-find_waiting m a ps found hs)
  ]
]

find_waiting-IsQueue :
    (m : Message) (ps : List PendingMessage) {qs : List PendingMessage}
    → find_waiting m ps ≡ some qs
    → IsQueue ps
    → IsQueue qs
unfolding find_waiting
find_waiting-IsQueue m [] e empty = cc
find_waiting-IsQueue m (p ∷ ps) e (front answered apart queue) =
    elim (Bool-cases (p.req_id ==ℤ m.req_id)) [
      | inl hit ↦
          rw (← some-injective _ _ (rw hit at e))
            (front (λ _. inl (rw (copy_message_lem m) (sym ((==ℤ_iff _ _).0 hit)))) apart queue)
      | inr miss ↦ elim (Option-cases (find_waiting m ps)) [
        | inl none_left ↦ absurd (let wrong = rw none_left at (rw miss at e) in cc)
        | inr (rs, found) ↦ rw (← some-injective _ _ (rw found at (rw miss at e))) (
            front answered (All-find_waiting m p.address ps found apart)
              (find_waiting-IsQueue m ps found queue))
      ]
    ]

All-time_out :
    (address a : ℕ) (ps : List PendingMessage)
    → All (λ q. q.address ≢ a) ps
    → All (λ q. q.address ≢ a) (time_out address ps)
unfolding time_out
All-time_out address a [] h = tt
All-time_out address a (p ∷ ps) (h, hs) = elim (Bool-cases (p.address == address)) [
  | inl hit ↦ rw hit (h, hs)
  | inr miss ↦ rw miss (h, All-time_out address a ps hs)
]

time_out-IsQueue :
    (address : ℕ) (ps : List PendingMessage) → IsQueue ps → IsQueue (time_out address ps)
unfolding time_out
time_out-IsQueue address [] empty = empty
time_out-IsQueue address (p ∷ ps) (front answered apart queue) =
    elim (Bool-cases (p.address == address)) [
      | inl hit ↦ rw hit (front (λ _. inr refl) apart queue)
      | inr miss ↦ rw miss (
          front answered (All-time_out address p.address ps apart)
            (time_out-IsQueue address ps queue))
    ]

All-unlink :
    (address a : ℕ) (ps : List PendingMessage)
    → All (λ q. q.address ≢ a) ps
    → All (λ q. q.address ≢ a) (unlink address ps)
unfolding unlink
All-unlink address a [] h = tt
All-unlink address a (p ∷ ps) (h, hs) = elim (Bool-cases (p.address == address)) [
  | inl hit ↦ rw hit hs
  | inr miss ↦ rw miss (h, All-unlink address a ps hs)
]

unlink-IsQueue : (address : ℕ) (ps : List PendingMessage) → IsQueue ps → IsQueue (unlink address ps)
unfolding unlink
unlink-IsQueue address [] empty = empty
unlink-IsQueue address (p ∷ ps) (front answered apart queue) =
    elim (Bool-cases (p.address == address)) [
      | inl hit ↦ rw hit queue
      | inr miss ↦
          rw miss (
            front answered (All-unlink address p.address ps apart)
              (unlink-IsQueue address ps queue))
    ]

Step-IsQueue : {b c : Mailbox} → Step b c → IsQueue b.message_list → IsQueue c.message_list
unfolding enqueue
Step-IsQueue (enqueued address req_id fresh apart) queue = front (λ ready. cc) apart queue
Step-IsQueue {b} (received m recv_adr) queue = elim (Option-cases (find_waiting m b.message_list)) [
  | inl none_left ↦ rw (deliver-none m recv_adr b none_left) queue
  | inr (qs, found) ↦
      rw (deliver-some m recv_adr b found) (find_waiting-IsQueue m b.message_list found queue)
]
Step-IsQueue {b} (timed_out address) queue = time_out-IsQueue address b.message_list queue
Step-IsQueue {b} (finished address p e ready) queue = unlink-IsQueue address b.message_list queue
Step-IsQueue (taken r) queue = queue

Reach-IsQueue : {b c : Mailbox} → Reach b c → IsQueue b.message_list → IsQueue c.message_list
Reach-IsQueue here queue = queue
Reach-IsQueue (later r s) queue = Step-IsQueue s (Reach-IsQueue r queue)

find_entry-IsAnswered :
    (address : ℕ) (ps : List PendingMessage) (p : PendingMessage)
    → find_entry address ps ≡ some p
    → IsQueue ps
    → (p.address ≡ address) × IsAnswered p
unfolding find_entry
find_entry-IsAnswered address [] p e empty = cc
find_entry-IsAnswered address (q ∷ ps) p e (front answered apart queue) =
    elim (Bool-cases (q.address == address)) [
      | inl hit ↦
          let same = some-injective _ _ (rw hit at e) in rw (← same) (ground arith, answered)
      | inr miss ↦ find_entry-IsAnswered address ps p (rw miss at e) queue
    ]

find_entry-none :
    (address : ℕ) (ps : List PendingMessage)
    → All (λ q. q.address ≢ address) ps
    → find_entry address ps ≡ none
unfolding find_entry
find_entry-none address [] h = refl
find_entry-none address (p ∷ ps) (h, hs) =
    let other : (p.address == address) ≡ false = ground arith in
    rw other (find_entry-none address ps hs)

find_entry-unlink :
    (address : ℕ) (ps : List PendingMessage)
    → IsQueue ps
    → find_entry address (unlink address ps) ≡ none
unfolding unlink find_entry
find_entry-unlink address [] empty = refl
find_entry-unlink address (p ∷ ps) (front answered apart queue) =
    elim (Bool-cases (p.address == address)) [
      | inl hit ↦
          let same : p.address ≡ address = ground arith in
          rw hit (find_entry-none address ps (rw same at apart))
      | inr miss ↦ rw miss (rw miss (find_entry-unlink address ps queue))
    ]

find_entry-unlink_other :
    (address a : ℕ) (ps : List PendingMessage)
    → a ≢ address
    → find_entry a (unlink address ps) ≡ find_entry a ps
unfolding unlink find_entry
find_entry-unlink_other address a [] h = refl
find_entry-unlink_other address a (p ∷ ps) h = elim (Bool-cases (p.address == address)) [
  | inl hit ↦ (let other : (p.address == a) ≡ false = ground arith in rw hit (rw other))
  | inr miss ↦ elim (Bool-cases (p.address == a)) [
    | inl found ↦ rw miss (rw found)
    | inr onward ↦ rw miss (rw onward (find_entry-unlink_other address a ps h))
  ]
]

-- From a list where no thread waits, over any order of waits, datagrams, time-outs and ends: when a
-- thread leaves its wait, it has a message with the number of its own request or the code -1 of a
-- time-out, its entry is off the list, and the entry of every other thread is as it was.
pub wait_for_response_lem :
    (request : PendingRequest) (box : Mailbox) (address : ℕ) (p : PendingMessage)
    → Reach (record { message_list = []; pending_request = request }) box
    → find_entry address box.message_list ≡ some p
    → p.ready ≡ true
    → ((p.message.req_id ≡ p.req_id) ⊎ (p.message.code ≡ negsuc 0))
      × (find_entry address (unlink address box.message_list) ≡ none)
      × ((a : ℕ)
          → a ≢ address
          → find_entry a (unlink address box.message_list) ≡ find_entry a box.message_list)
wait_for_response_lem request box address p r e ready =
    let queue = Reach-IsQueue r empty in
    (
      (find_entry-IsAnswered address box.message_list p e queue).1 ready,
      find_entry-unlink address box.message_list queue,
      λ a h. find_entry-unlink_other address a box.message_list h,
    )
