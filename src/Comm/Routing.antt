-- ===== src/Comm/Routing.antt =====
-- Where `message_listener` of app/utility/src/comm_message_listener.c puts a message.
use projet_commun_unirail.Prelude.{
  ℕ, ◌≡◌, refl, sym, ap, ◌∙◌, ◌⊎◌, inl, inr, true, Option, none, some, List, [], ◌∷◌, ◌++◌,
  Bool-cases, Option-cases,
}
use mathlib.Core.Option.{some-injective}
use projet_commun_unirail.Prelude.Int.{◌==ℤ◌, ==ℤ_iff}
use projet_commun_unirail.Comm.Numbers.{Text}
use projet_commun_unirail.Comm.Messages.{Message, copy_message}
use projet_commun_unirail.Comm.Listener.{PendingMessage, Mailbox, find_waiting, deliver}

copied : (o : Option Text) → elim o [ none ↦ none | some t ↦ some t ] ≡ o
copied none = refl
copied (some t) = refl

-- A copy holds what the message holds.
pub copy_message_lem : (m : Message) → copy_message m ≡ m
unfolding copy_message
copy_message_lem m = λ i. record m { data_0 = copied m.data_0 i; data_1 = copied m.data_1 i }

pub deliver-none :
    (m : Message) (recv_adr : ℕ) (box : Mailbox)
    → find_waiting m box.message_list ≡ none
    → deliver m recv_adr box ≡ record box {
      pending_request = record { message = copy_message m; recv_adr = recv_adr; ready = true };
    }
unfolding deliver
deliver-none m recv_adr box e = rw (e, deliver)

pub deliver-some :
    (m : Message) (recv_adr : ℕ) (box : Mailbox) {qs : List PendingMessage}
    → find_waiting m box.message_list ≡ some qs
    → deliver m recv_adr box ≡ record box { message_list = qs }
unfolding deliver
deliver-some m recv_adr box e = rw (e, deliver)

-- Whether a thread waits for the number of a message.
abbrev pub IsAwaited : Message → List PendingMessage → Type 0
IsAwaited m [] = ⊥
IsAwaited m (p ∷ ps) = (p.req_id ≡ m.req_id) ⊎ IsAwaited m ps

find_waiting-none :
    (m : Message) (ps : List PendingMessage) → find_waiting m ps ≡ none → ¬ IsAwaited m ps
unfolding find_waiting
find_waiting-none m [] e = λ h. h
find_waiting-none m (p ∷ ps) e = elim (Bool-cases (p.req_id ==ℤ m.req_id)) [
  | inl hit ↦ absurd (let wrong = rw hit at e in cc)
  | inr miss ↦ elim (Option-cases (find_waiting m ps)) [
    | inl none_left ↦ λ h. elim h [
      | inl same ↦ cc ((==ℤ_iff p.req_id m.req_id).1 same)
      | inr other ↦ find_waiting-none m ps none_left other
    ]
    | inr (qs, found) ↦ absurd (let wrong = rw found at (rw miss at e) in cc)
  ]
]

-- The entry that a message goes to, and the list before and after.
pub record Routed (m : Message) (ps qs : List PendingMessage) : Type 0 where
  pub before : List PendingMessage
  pub waiting : PendingMessage
  pub behind : List PendingMessage
  pub list : ps ≡ before ++ waiting ∷ behind
  pub first : ¬ IsAwaited m before
  pub same_id : waiting.req_id ≡ m.req_id
  pub result : qs ≡ before ++ record waiting { message = m; ready = true } ∷ behind

find_waiting-Routed :
    (m : Message) (ps : List PendingMessage) {qs : List PendingMessage}
    → find_waiting m ps ≡ some qs
    → Routed m ps qs
unfolding find_waiting
find_waiting-Routed m [] e = cc
find_waiting-Routed m (p ∷ ps) e = elim (Bool-cases (p.req_id ==ℤ m.req_id)) [
  | inl hit ↦ record {
    before = [];
    waiting = p;
    behind = ps;
    list = refl;
    first = λ h. h;
    same_id = (==ℤ_iff _ _).0 hit;
    result =
        sym (some-injective _ _ (rw hit at e))
        ∙ ap (λ c. record p { message = c; ready = true } ∷ ps) (copy_message_lem m);
  }
  | inr miss ↦ elim (Option-cases (find_waiting m ps)) [
    | inl none_left ↦ absurd (let wrong = rw none_left at (rw miss at e) in cc)
    | inr (qs, found) ↦
        let r = find_waiting-Routed m ps found in
        record {
          before = p ∷ r.before;
          waiting = r.waiting;
          behind = r.behind;
          list = ap (◌∷◌ p) r.list;
          first = λ h. elim h [
            | inl same ↦ cc ((==ℤ_iff p.req_id m.req_id).1 same)
            | inr other ↦ r.first other
          ];
          same_id = r.same_id;
          result = sym (some-injective _ _ (rw found at (rw miss at e))) ∙ ap (◌∷◌ p) r.result;
        }
  ]
]

-- A message goes to exactly one place. Either no thread waits for its number, and then it is the
-- pending request, whatever stood there, with the list as it was. Or it goes to the first entry
-- that waits for its number, which alone changes, and the pending request is as it was.
pub deliver_lem :
    (m : Message) (recv_adr : ℕ) (box : Mailbox)
    → ((¬ IsAwaited m box.message_list)
        × (deliver m recv_adr box ≡ record box {
          pending_request = record { message = m; recv_adr = recv_adr; ready = true };
        }))
      ⊎ ((qs : List PendingMessage) × (deliver m recv_adr box ≡ record box { message_list = qs })
          × Routed m box.message_list qs)
deliver_lem m recv_adr box = elim (Option-cases (find_waiting m box.message_list)) [
  | inl none_left ↦ inl (
    find_waiting-none m box.message_list none_left,
    deliver-none m recv_adr box none_left
        ∙ ap
            (λ c. record box {
              pending_request = record { message = c; recv_adr = recv_adr; ready = true };
            })
            (copy_message_lem m),
  )
  | inr (qs, found) ↦
      inr (qs, deliver-some m recv_adr box found, find_waiting-Routed m box.message_list found)
]
