-- ===== src/Evc/Requests.antt =====
-- When `eoa_handler` of app/EVC/src/eoa_handler.c asks again, once it has asked close to the end of its
-- authority.
use projet_commun_unirail.Prelude.{
  ◌≡◌, refl, ◌∙◌, inl, inr, true, false, some, if◌then◌else◌, >>=-eq-some, Bool-cases, Option-cases,
  arith,
}
use mathlib.Core.Option.{some-injective}
use projet_commun_unirail.Prelude.Int.{ℤ, pos, negsuc, ◌==ℤ◌}
use projet_commun_unirail.Float.{Float, FloatText, IsStrict}
use projet_commun_unirail.Track.{Position, get_distance}
use projet_commun_unirail.Comm.{Message, strtol, to_int}
use projet_commun_unirail.Evc.Thresholds.{
  EoaHandler, idle, asking, trigger, wants_request, update_distance, eoa_round, finish_init,
  read_eoa,
}

module _ {F D : Type 0} where
  -- The request flag is down, and the last request was made below 2500.
  pub record IsLate ⦃g : Float D⦄ (s : EoaHandler F D) : Type 0 where
    pub no_request : s.request_new_eoa ≡ false
    pub low : g.lt s.last_distance_triggered (trigger 25_000) ≡ true

  -- The fields that the thresholds read.
  record SameRequest (s s' : EoaHandler F D) : Type 0 where
    request : s'.request_new_eoa ≡ s.request_new_eoa
    last : s'.last_distance_triggered ≡ s.last_distance_triggered

  SameRequest-IsLate :
      ⦃g : Float D⦄ {s s' : EoaHandler F D} → SameRequest s s' → IsLate s → IsLate s'
  SameRequest-IsLate same late = record {
    no_request = same.request ∙ late.no_request;
    low = rw same.last late.low;
  }

module _ {F D : Type 0} ⦃t : FloatText F⦄ where
  finish_init-SameRequest : (s : EoaHandler F D) → SameRequest s (finish_init s)
  unfolding finish_init
  finish_init-SameRequest s = elim (Bool-cases s.initialized) [
    | inl done ↦ rw (done, finish_init) (record { request = refl; last = refl })
    | inr first ↦ rw (first, finish_init) (record { request = refl; last = refl })
  ]

  read_eoa-SameRequest :
      (recv : Message) (s s' : EoaHandler F D) → read_eoa recv s ≡ some s' → SameRequest s s'
  unfolding read_eoa
  read_eoa-SameRequest recv s s' e = elim (Bool-cases (recv.code ==ℤ pos 202)) [
    | inr refused ↦
        rw (← some-injective _ _ (rw (refused, read_eoa) at e)) (finish_init-SameRequest s)
    | inl granted ↦
        let (data_0, _, e1) = >>=-eq-some recv.data_0 _ (rw (granted, read_eoa) at e) in
        elim (Option-cases (strtol data_0)) [
          | inl unread ↦
              rw (← some-injective _ _ (rw unread at e1)) (record { request = refl; last = refl })
          | inr (bal, bal_of) ↦
              let (data_1, _, e2) = >>=-eq-some recv.data_1 _ (rw bal_of at e1) in
              elim (Option-cases (t.strtod data_1)) [
                | inl unread ↦
                    rw (← some-injective _ _ (rw unread at e2))
                      (record { request = refl; last = refl })
                | inr (pos_r, pos_r_of) ↦
                    let s1 : EoaHandler F D = record s {
                      eoa = record { bal = to_int bal; pos_r = pos_r };
                    } in
                    let same = finish_init-SameRequest s1 in
                    rw (← some-injective _ _ (rw pos_r_of at e2))
                      (record { request = same.request; last = same.last })
              ]
        ]
  ]

module _ {F D : Type 0} ⦃f : Float F⦄ ⦃g : Float D⦄ (widen : F → D) where
  update_distance-SameRequest :
      (chemin_id : ℤ) (local_pos : Position F) (s s' : EoaHandler F D)
      → update_distance widen chemin_id local_pos s ≡ some s'
      → SameRequest s s'
  unfolding update_distance
  update_distance-SameRequest chemin_id local_pos s s' e =
      elim (Bool-cases (s.eoa.bal ==ℤ negsuc 0)) [
        | inl no_eoa ↦
            rw (← some-injective _ _ (rw (no_eoa, update_distance) at e))
              (record { request = refl; last = refl })
        | inr has_eoa ↦
            let (_, _, e1) =
              >>=-eq-some (get_distance local_pos s.eoa chemin_id) _
                (rw (has_eoa, update_distance) at e) in
            rw (← some-injective _ _ e1) (record { request = refl; last = refl })
      ]

  module _ (strict : IsStrict D) where
    late_wants :
        (s : EoaHandler F D)
        → IsLate s
        → wants_request s ≡ true
        → g.lt s.distance (trigger 10_000) ≡ true
    unfolding wants_request
    late_wants s late e =
        let last = s.last_distance_triggered in
        let below = strict.lt_le (trigger 25_000) (trigger 50_000) (strict.literal _ _ refl) in
        let second = strict.lt_not_le last (trigger 25_000) late.low in
        let first =
          strict.lt_not_le last (trigger 50_000)
            (strict.lt_trans last (trigger 25_000) _ late.low below) in
        let none_left = late.no_request in ground arith

    asks-IsLate :
        (s s' : EoaHandler F D) (m m' : Message)
        → IsLate s
        → (if wants_request s
            then asking m'
                (record s { request_new_eoa = false; last_distance_triggered = s.distance })
            else idle s)
          ≡ asking m s'
        → (g.lt s'.distance (trigger 10_000) ≡ true) × IsLate s'
    asks-IsLate s s' m m' late e = elim (Bool-cases (wants_request s)) [
      | inr no_wish ↦ absurd (let wrong = rw no_wish at e in cc)
      | inl wish ↦
          let near = late_wants s late wish in
          let at_most = strict.lt_le (trigger 10_000) (trigger 25_000) (strict.literal _ _ refl) in
          let s1 : EoaHandler F D = record s {
            request_new_eoa = false;
            last_distance_triggered = s.distance;
          } in
          let sent = rw wish at e in
          let same : s1 ≡ s' = cc in
          rw (← same)
            (near, record { no_request = refl; low = strict.lt_trans s.distance _ _ near at_most })
    ]

    -- What a late round can do.
    round_of :
        (chemin_id train_id req_id : ℤ) (local_pos : Position F) (s s' : EoaHandler F D)
        (m : Message)
        → IsLate s
        → eoa_round widen chemin_id train_id req_id local_pos s ≡ some (asking m s')
        → (g.lt s'.distance (trigger 10_000) ≡ true) × IsLate s'
    unfolding eoa_round
    round_of chemin_id train_id req_id local_pos s s' m late e =
        elim (Bool-cases (local_pos.bal ==ℤ pos 0)) [
          | inl unknown ↦ absurd (let wrong = rw (unknown, eoa_round) at e in cc)
          | inr known ↦
              let (s1, moved, e1) =
                >>=-eq-some (update_distance widen chemin_id local_pos s) _
                  (rw (known, eoa_round) at e) in
              let same = update_distance-SameRequest chemin_id local_pos s s1 moved in
              asks-IsLate s1 s' m _ (SameRequest-IsLate same late) (some-injective _ _ e1)
        ]

    idle_of :
        (chemin_id train_id req_id : ℤ) (local_pos : Position F) (s s' : EoaHandler F D)
        → eoa_round widen chemin_id train_id req_id local_pos s ≡ some (idle s')
        → SameRequest s s'
    unfolding eoa_round
    idle_of chemin_id train_id req_id local_pos s s' e =
        elim (Bool-cases (local_pos.bal ==ℤ pos 0)) [
          | inl unknown ↦
              let found = some-injective _ _ (rw (unknown, eoa_round) at e) in
              let same : s ≡ s' = cc in rw (← same) (record { request = refl; last = refl })
          | inr known ↦
              let (s1, moved, e1) =
                >>=-eq-some (update_distance widen chemin_id local_pos s) _
                  (rw (known, eoa_round) at e) in
              let kept = update_distance-SameRequest chemin_id local_pos s s1 moved in
              elim (Bool-cases (wants_request s1)) [
                | inl wish ↦ absurd (let wrong = rw wish at e1 in cc)
                | inr no_wish ↦
                    let found = some-injective _ _ (rw no_wish at e1) in
                    let same : s1 ≡ s' = cc in rw (← same) kept
              ]
        ]

  module _ ⦃t : FloatText F⦄ (chemin_id train_id : ℤ) where
    -- The rounds of the handler, with any positions and any replies.
    pub data Rounds (s : EoaHandler F D) : EoaHandler F D → Type 0 where
      here : Rounds s s
      rested :
          {v u : EoaHandler F D}
          → Rounds s v
          → (req_id : ℤ) (local_pos : Position F)
          → eoa_round widen chemin_id train_id req_id local_pos v ≡ some (idle u)
          → Rounds s u
      asked :
          {v w u : EoaHandler F D}
          → Rounds s v
          → (req_id : ℤ) (local_pos : Position F) (m recv : Message)
          → eoa_round widen chemin_id train_id req_id local_pos v ≡ some (asking m w)
          → read_eoa recv w ≡ some u
          → Rounds s u

    Rounds-IsLate : IsStrict D → {s v : EoaHandler F D} → Rounds s v → IsLate s → IsLate v
    Rounds-IsLate strict here late = late
    Rounds-IsLate strict (rested {v} {u} r req_id local_pos e) late =
        SameRequest-IsLate (idle_of strict chemin_id train_id req_id local_pos v u e)
          (Rounds-IsLate strict r late)
    Rounds-IsLate strict (asked {v} {w} {u} r req_id local_pos m recv e read) late =
        SameRequest-IsLate (read_eoa-SameRequest recv w u read)
          (round_of strict chemin_id train_id req_id local_pos v w m (Rounds-IsLate strict r late)
            e).1

    -- Once a request was made below 2500, the handler asks only below 1000: over any later rounds,
    -- with any positions and any new ends of authority, the thresholds 5000 and 2500 have no effect.
    pub late_requests :
        IsStrict D
        → (s v w : EoaHandler F D) (req_id : ℤ) (local_pos : Position F) (m : Message) → IsLate s
        → Rounds s v
        → eoa_round widen chemin_id train_id req_id local_pos v ≡ some (asking m w)
        → g.lt w.distance (trigger 10_000) ≡ true
    late_requests strict s v w req_id local_pos m late r e =
        (round_of strict chemin_id train_id req_id local_pos v w m (Rounds-IsLate strict r late)
          e).0
