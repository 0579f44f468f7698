-- ===== src/Comm/Listener.antt =====
-- app/utility/src/comm_message_listener.c: the list of threads that wait for a response, and the
-- request that a server thread has still to take. A waiting thread is known by the address of its
-- entry. The mutexes make each operation here one step; the condition variables wake a thread that
-- then finds `ready` set.
use projet_commun_unirail.Prelude.{
  ℕ, ◌≢◌, ◌≡◌, Bool, true, false, Option, none, some, List, [], ◌∷◌, if◌then◌else◌, ◌==◌, All,
}
use projet_commun_unirail.Prelude.Int.{ℤ, negsuc, ◌==ℤ◌}
use projet_commun_unirail.Comm.Messages.{Message, copy_message}

-- `pending_message_t`, of a thread that waits.
pub record PendingMessage : Type 0 where
  pub address : ℕ
  pub req_id : ℤ
  pub message : Message
  pub ready : Bool

-- `pending_message_t`, of a request; `recv_adr` is the sender.
pub record PendingRequest : Type 0 where
  pub message : Message
  pub recv_adr : ℕ
  pub ready : Bool

pub record Mailbox : Type 0 where
  pub message_list : List PendingMessage
  pub pending_request : PendingRequest

-- The search of `message_listener`; `none` when no entry waits for the message.
unfoldable pub find_waiting : Message → List PendingMessage → Option (List PendingMessage)
find_waiting m [] = none
find_waiting m (p ∷ ps) =
    let rest = find_waiting m ps in
    if p.req_id ==ℤ m.req_id
    then some (record p { message = copy_message m; ready = true } ∷ ps)
    else elim rest [ none ↦ none | some qs ↦ some (p ∷ qs) ]

-- One round of `message_listener`, once a datagram is read.
unfoldable pub deliver : Message → ℕ → Mailbox → Mailbox
deliver m recv_adr box = elim (find_waiting m box.message_list) [
  | none ↦ record box {
    pending_request = record { message = copy_message m; recv_adr = recv_adr; ready = true };
  }
  | some ps ↦ record box { message_list = ps }
]

-- `wait_for_response`, up to the wait; `fresh` is what `malloc` left in the message.
unfoldable pub enqueue : ℕ → ℤ → Message → Mailbox → Mailbox
enqueue address req_id fresh box = record box {
  message_list =
      record { address = address; req_id = req_id; message = fresh; ready = false }
      ∷ box.message_list;
}

-- A wait that times out, also when the response came in between.
unfoldable pub time_out : ℕ → List PendingMessage → List PendingMessage
time_out address [] = []
time_out address (p ∷ ps) =
    if p.address == address
    then record p { message = record p.message { code = negsuc 0; data_0 = none }; ready = true }
      ∷ ps
    else p ∷ time_out address ps

unfoldable pub find_entry : ℕ → List PendingMessage → Option PendingMessage
find_entry address [] = none
find_entry address (p ∷ ps) = if p.address == address then some p else find_entry address ps

-- The end of `wait_for_response`: its entry is taken off the list.
unfoldable pub unlink : ℕ → List PendingMessage → List PendingMessage
unlink address [] = []
unlink address (p ∷ ps) = if p.address == address then ps else p ∷ unlink address ps

-- Any order of the listener, the waiting threads and the server thread.
pub data Step (box : Mailbox) : Mailbox → Type 0 where
  enqueued :
      (address : ℕ) (req_id : ℤ) (fresh : Message)
      → All (λ p. p.address ≢ address) box.message_list
      → Step box (enqueue address req_id fresh box)
  received : (m : Message) (recv_adr : ℕ) → Step box (deliver m recv_adr box)
  timed_out :
      (address : ℕ) → Step box (record box { message_list = time_out address box.message_list })
  finished :
      (address : ℕ) (p : PendingMessage)
      → find_entry address box.message_list ≡ some p
      → p.ready ≡ true
      → Step box (record box { message_list = unlink address box.message_list })
  taken : (r : PendingRequest) → Step box (record box { pending_request = r })

pub data Reach (box : Mailbox) : Mailbox → Type 0 where
  here : Reach box box
  later : {b c : Mailbox} → Reach box b → Step b c → Reach box c
