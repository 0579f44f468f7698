-- ===== src/Rbc/Server.antt =====
-- app/RBC/src/main.c, how its loop takes over the pending request, and `handle_and_respond` of
-- app/RBC/src/requests_handler.c.
use projet_commun_unirail.Prelude.{ℕ, Bool, false, Option, none, some, List, ◌>>=◌, if◌then◌else◌}
use projet_commun_unirail.Prelude.Int.{pos}
use projet_commun_unirail.Float.{Float, FloatText}
use projet_commun_unirail.Resources.{RbcState}
use projet_commun_unirail.Comm.{
  Message, copy_message, send_data, receive_data, PendingRequest, Mailbox, deliver,
}
use projet_commun_unirail.Rbc.Handler.{replied, blocked, handle_request}

-- What the thread of a request is given.
pub record HandleAndRespondArgs : Type 0 where
  pub recv_message : Message
  pub client_adr : ℕ

-- The reset; the address stays.
abbrev pub no_request : ℕ → PendingRequest
no_request recv_adr = record {
  message = record { req_id = pos 0; train_id = pos 0; code = pos 0; data_0 = none; data_1 = none };
  recv_adr = recv_adr;
  ready = false;
}

-- A round of the loop of `main`, once the request is ready; `none` while it waits.
unfoldable pub take_request : Mailbox → Option (HandleAndRespondArgs × Mailbox)
take_request box =
    let r = box.pending_request in
    if r.ready
    then some (
      record { recv_message = copy_message r.message; client_adr = r.recv_adr },
      record box { pending_request = no_request r.recv_adr },
    )
    else none

module _ {F : Type 0} ⦃f : Float F⦄ ⦃t : FloatText F⦄ (fails : ℕ → Bool) where
  -- The bytes that go back, and to whom; `none` while the thread waits for a resource.
  unfoldable pub handle_and_respond :
      HandleAndRespondArgs → Message → RbcState F → Option ((List ℕ × ℕ) × RbcState F)
  handle_and_respond args send s = do
    handled ← handle_request fails args.recv_message send s
    elim handled [ replied m s' ↦ some ((send_data m, args.client_adr), s') | blocked _ ↦ none ]

  -- A datagram from the socket to the reply: the listener, the loop of `main`, and the thread.
  unfoldable pub serve_datagram :
      List ℕ
      → ℕ
      → Message
      → Message
      → Mailbox
      → RbcState F
      → Option ((List ℕ × ℕ) × (Mailbox × RbcState F))
  serve_datagram datagram adr old send box s = do
    recv ← receive_data datagram old
    taken ← take_request (deliver recv adr box)
    answer ← handle_and_respond taken.0 send s
    some (answer.0, (taken.1, answer.1))
