-- ===== src/Rbc/Replies.antt =====
-- What a reply of `handle_request` of app/RBC/src/requests_handler.c says, and what the request did
-- to the state of the RBC.
use projet_commun_unirail.Prelude.{
  ℕ, ◌≡◌, refl, ◌⊎◌, inl, inr, Bool, Option, some, ◌>>=◌, >>=-eq-some, Option-cases, Bool-cases,
  List, arith,
}
use projet_commun_unirail.Prelude.Int.{ℤ, pos, ◌==ℤ◌, ◌-ℤ◌, ◌≤ℤ◌, leb_ℤ, ==ℤ_iff, -ℤ_parts}
use projet_commun_unirail.Float.{Float, FloatText}
use projet_commun_unirail.Track.{chemins, slot}
use projet_commun_unirail.Eoa.{next_eoa}
use projet_commun_unirail.Can.{entry}
use projet_commun_unirail.Resources.{
  RbcState, Asked, not_due, waiting, locked, l_res_req, ask_resources,
}
use projet_commun_unirail.Comm.{Message, strtol}
use projet_commun_unirail.Rbc.Handler.{
  replied, blocked, nb_trains, reply, store_position, handle_report, send_eoa, handle_movement,
  handle_code, handle_request,
}
use projet_commun_unirail.Rbc.Outcomes.{
  IsEcho, Reason, unknown_train, unread_report, connected, unknown_code, Outcome, refused,
  stored_position, granted_authority,
}
use projet_commun_unirail.Rbc.Moves.{store_position-Moved}

module _ {F : Type 0} ⦃f : Float F⦄ ⦃t : FloatText F⦄ where
  module _ (recv send : Message) where
    -- What holds of a reply holds of the reply that the handler gave.
    of_reply :
        (P : Message → RbcState F → Type 0) {m0 m : Message} {s0 s' : RbcState F}
        → Option.some (replied m0 s0) ≡ some (replied m s')
        → P m0 s0
        → P m s'
    of_reply P {m0} {m} {s0} {s'} e h =
        let same_m : m0 ≡ m = cc in let same_s : s0 ≡ s' = cc in rw (← same_m, ← same_s) h

    abbrev Answered : (ℕ → Bool) → RbcState F → Message → RbcState F → Type 0
    Answered fails s m s' = IsEcho send m × Outcome fails recv m s s'

    refusal :
        (fails : ℕ → Bool) (s : RbcState F) (code : ℕ)
        → Reason F recv (pos code)
        → Answered fails s (reply code send) s
    refusal fails s code h =
        ((refl, refl), refused (record { same = refl; no_data = refl; answer = h }))

    module _ (fails : ℕ → Bool) (s : RbcState F) (known : recv.train_id ≤ℤ pos 3) where
      store_answers :
          (text_0 text_1 : List ℕ) (bal : ℤ) (pos_r : F) {m : Message} {s' : RbcState F}
          → recv.code ≡ pos 101
          → recv.data_0 ≡ some text_0
          → recv.data_1 ≡ some text_1
          → strtol text_0 ≡ some bal
          → t.strtod text_1 ≡ some pos_r
          → (do
            k ← slot recv.train_id
            s1 ← store_position k bal pos_r s
            some (replied (reply 201 send) s1))
            ≡ some (replied m s')
          → Answered fails s m s'
      store_answers text_0 text_1 bal pos_r asked data_0 data_1 bal_of pos_r_of e =
          let (k, train, e1) = >>=-eq-some (slot recv.train_id) _ e in
          let (s1, kept, e2) = >>=-eq-some (store_position k bal pos_r s) _ e1 in
          of_reply (Answered fails s) e2 (
            (refl, refl),
            stored_position (record {
              asked = asked;
              answer = refl;
              text_0 = text_0;
              text_1 = text_1;
              data_0 = data_0;
              data_1 = data_1;
              bal = bal;
              bal_of = bal_of;
              pos_r = pos_r;
              pos_r_of = pos_r_of;
              k = k;
              train = train;
              known = known;
              stored = kept;
              moved = store_position-Moved k bal pos_r s s1 kept;
            }),
          )

      report_answers :
          {m : Message} {s' : RbcState F}
          → recv.code ≡ pos 101
          → handle_report recv send s ≡ some (replied m s')
          → Answered fails s m s'
      unfolding handle_report
      report_answers asked e =
          let (text_0, data_0, e1) = >>=-eq-some recv.data_0 _ e in
          elim (Option-cases (strtol text_0)) [
            | inl unread ↦
                of_reply (Answered fails s) (rw unread at e1) (
                  refusal fails s 401 (unread_report refl asked known (text_0, data_0, inl unread)))
            | inr (bal, bal_of) ↦
                let (text_1, data_1, e2) = >>=-eq-some recv.data_1 _ (rw bal_of at e1) in
                elim (Option-cases (t.strtod text_1)) [
                  | inl unread ↦ of_reply (Answered fails s) (rw unread at e2) (
                      refusal fails s 401 (
                        unread_report refl asked known
                          (text_0, data_0, inr (text_1, data_1, unread))))
                  | inr (pos_r, pos_r_of) ↦
                      store_answers text_0 text_1 bal pos_r asked data_0 data_1 bal_of pos_r_of
                        (rw pos_r_of at e2)
                ]
          ]

      eoa_answers :
          (k : ℕ) (s1 : RbcState F) {m : Message} {s' : RbcState F}
          → recv.code ≡ pos 102
          → slot recv.train_id ≡ some k
          → ((ask_resources fails k s ≡ some not_due) × (s1 ≡ s))
            ⊎ ((mask : ℕ) × ((result : ℕ) × (ask_resources fails k s
                    ≡ some (locked mask result s1))))
          → send_eoa k send s1 ≡ some (replied m s')
          → Answered fails s m s'
      unfolding send_eoa
      eoa_answers k s1 asked train resources e =
          let (res, resource_of, e1) =
            >>=-eq-some (entry l_res_req k (s1.next_bal_index_req k)) _ e in
          let (eoa, eoa_of, e2) = >>=-eq-some (next_eoa k s1.pos_trains res chemins) _ e1 in
          of_reply (Answered fails s) e2 (
            (refl, refl),
            granted_authority (record {
              asked = asked;
              answer = refl;
              k = k;
              train = train;
              known = known;
              resources = resources;
              resource = res;
              resource_of = resource_of;
              eoa = eoa;
              eoa_of = eoa_of;
              data_0 = refl;
              data_1 = refl;
            }),
          )

      movement_answers :
          {m : Message} {s' : RbcState F}
          → recv.code ≡ pos 102
          → handle_movement fails recv send s ≡ some (replied m s')
          → Answered fails s m s'
      unfolding handle_movement
      movement_answers asked e =
          let (k, train, e1) = >>=-eq-some (slot recv.train_id) _ e in
          let (a, a_of, e2) = >>=-eq-some (ask_resources fails k s) _ e1 in
          answer_of k train a a_of e2
        where
          answer_of :
              (k : ℕ)
              → slot recv.train_id ≡ some k
              → (a : Asked F) {m : Message} {s' : RbcState F} → ask_resources fails k s ≡ some a
              → elim a [
                | not_due ↦ send_eoa k send s
                | waiting mask ↦ some (blocked mask)
                | locked _ _ s1 ↦ send_eoa k send s1
              ]
                ≡ some (replied m s')
              → Answered fails s m s'
          answer_of k train not_due a_of e = eoa_answers k s asked train (inl (a_of, refl)) e
          answer_of k train (waiting mask) a_of e = cc
          answer_of k train (locked mask result s1) a_of e =
              eoa_answers k s1 asked train (inr (mask, (result, a_of))) e

      code_answers :
          {m : Message} {s' : RbcState F}
          → handle_code fails recv send s ≡ some (replied m s')
          → Answered fails s m s'
      unfolding handle_code
      code_answers e = elim (Bool-cases (recv.code ==ℤ pos 101)) [
        | inl report ↦ report_answers ((==ℤ_iff _ _).0 report) (rw report at e)
        | inr no_report ↦ elim (Bool-cases (recv.code ==ℤ pos 102)) [
          | inl movement ↦
              movement_answers ((==ℤ_iff _ _).0 movement) (rw (no_report, movement) at e)
          | inr no_movement ↦ elim (Bool-cases (recv.code ==ℤ pos 100)) [
            | inl hello ↦ of_reply (Answered fails s) (rw (no_report, no_movement, hello) at e) (
              (refl, refl),
              refused (record {
                same = refl;
                no_data = refl;
                answer = connected refl ((==ℤ_iff _ _).0 hello) known;
              }),
            )
            | inr other ↦ of_reply (Answered fails s) (rw (no_report, no_movement, other) at e) (
                refusal fails s 400 (
                  unknown_code refl (λ e. cc ((==ℤ_iff _ _).1 e)) (λ e. cc ((==ℤ_iff _ _).1 e))
                    (λ e. cc ((==ℤ_iff _ _).1 e)) known))
          ]
        ]
      ]

  -- Every reply repeats the request number and the train of its request, and is of one of three
  -- kinds. A refusal and the answer to request 100 have no data and leave the state as it was: code 404
  -- for a number above 3, and for the others 401 for a report with a text that is not read, 200
  -- for request 100, 400 for a code that is none of 100, 101 and 102. Code 201 to request 101 of a
  -- number up to 3 stored the balise and the offset that both texts give for that train and no other,
  -- and freed its next mask, bit by bit, exactly if it stands where it frees it. Code 202 to request
  -- 102 of a number up to 3 carries the balise and the offset of the end of authority that `next_eoa`
  -- finds for the next resource, after the lock, if one was due.
  pub handle_request-Outcome :
      (fails : ℕ → Bool) (recv send m : Message) (s s' : RbcState F)
      → handle_request fails recv send s ≡ some (replied m s')
      → IsEcho recv m × Outcome fails recv m s s'
  unfolding handle_request
  handle_request-Outcome fails recv send m s s' e =
      let send' : Message = record send { train_id = recv.train_id; req_id = recv.req_id } in
      elim (Bool-cases (leb_ℤ nb_trains (recv.train_id -ℤ pos 1))) [
        | inl unknown ↦ of_reply recv send' (Answered recv send' fails s) (rw unknown at e) (
            refusal recv send' fails s 404
              (unknown_train refl (ground (arith, -ℤ_parts recv.train_id (pos 1)))))
        | inr known ↦
            code_answers recv send' fails s (ground (arith, -ℤ_parts recv.train_id (pos 1)))
              (rw known at e)
      ]
