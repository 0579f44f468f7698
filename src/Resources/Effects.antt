-- ===== src/Resources/Effects.antt =====
-- The effect of `ask_resources` and `free_resources` of app/RBC/src/ressources.c on the state.
use mathlib.Core.Option.{some-injective}
use projet_commun_unirail.Prelude.{
  ℕ, ◌+◌, ◌%◌, ◌≡◌, ◌≢◌, sym, ap, ◌∙◌, Bool, true, false, some, >>=-eq-some, Option-cases,
  get_elem?, update, Bool-cases, inl, inr, ◌⊎◌,
}
use projet_commun_unirail.Float.{Float}
use projet_commun_unirail.Can.{entry, set_all_switch}
use projet_commun_unirail.Resources.Tables.{l_mask_req, l_mask_lib, l_res_size}
use projet_commun_unirail.Resources.Masks.{
  lock_ressources, unlock_ressources, lock_ressources_blocked,
}
use projet_commun_unirail.Prelude.Bits.{test_bit}
use projet_commun_unirail.Resources.Requests.{
  RbcState, not_due, waiting, locked, is_due, grant, take_resources, ask_resources, is_freeing,
  give_back, free_resources,
}

module _ {F : Type 0} ⦃f : Float F⦄ where
  -- What a lock that was taken did, on the state and on the bus.
  pub record IsLocked (fails : ℕ → Bool) (k mask result : ℕ) (s s' : RbcState F) : Type 0 where
    pub mask_of : entry l_mask_req k (s.next_bal_index_req k) ≡ some mask
    pub taken : lock_ressources mask s.resources ≡ some s'.resources
    pub switched : set_all_switch fails k (s.next_bal_index_req k) s.bus ≡ some (result, s'.bus)
    pub size : ℕ
    pub size_of : get_elem? l_res_size k ≡ some size
    pub advanced :
        s'.next_bal_index_req ≡ update s.next_bal_index_req k ((s.next_bal_index_req k + 1) % size)
    pub same_pos : s'.pos_trains ≡ s.pos_trains
    pub same_lib : s'.next_bal_index_lib ≡ s.next_bal_index_lib

  -- Why a request waits.
  pub record IsWaiting (k mask : ℕ) (s : RbcState F) : Type 0 where
    pub due : is_due k s ≡ some true
    pub mask_of : entry l_mask_req k (s.next_bal_index_req k) ≡ some mask
    pub bit : ℕ
    pub asked : test_bit mask bit ≡ true
    pub taken : test_bit s.resources bit ≡ true

  -- What a release did.
  pub record IsFreed (k mask : ℕ) (s s' : RbcState F) : Type 0 where
    pub mask_of : entry l_mask_lib k (s.next_bal_index_lib k) ≡ some mask
    pub given : s'.resources ≡ unlock_ressources mask s.resources
    pub size : ℕ
    pub size_of : get_elem? l_res_size k ≡ some size
    pub advanced :
        s'.next_bal_index_lib ≡ update s.next_bal_index_lib k ((s.next_bal_index_lib k + 1) % size)
    pub same_req : s'.next_bal_index_req ≡ s.next_bal_index_req
    pub same_pos : s'.pos_trains ≡ s.pos_trains

  module _ (fails : ℕ → Bool) (k mask result : ℕ) (s s' : RbcState F) where
    grant_lem :
        (m taken : ℕ)
        → entry l_mask_req k (s.next_bal_index_req k) ≡ some m
        → lock_ressources m s.resources ≡ some taken
        → grant fails k m taken s ≡ some (locked mask result s')
        → IsLocked fails k mask result s s'
    unfolding grant
    grant_lem m taken mask_of lock e =
        let index = s.next_bal_index_req k in
        let ((r, bus'), switched, e1) = >>=-eq-some (set_all_switch fails k index s.bus) _ e in
        let (size, size_of, e2) = >>=-eq-some (get_elem? l_res_size k) _ e1 in
        let same_mask : m ≡ mask = cc in
        let same_result : r ≡ result = cc in
        let new : RbcState F = record s {
          resources = taken;
          bus = bus';
          next_bal_index_req = update s.next_bal_index_req k ((index + 1) % size);
        } in
        let same : new ≡ s' = cc in
        record {
          mask_of = rw (← same_mask) mask_of;
          taken = rw (← same_mask, ← same) lock;
          switched = rw (← same_result, ← same) switched;
          size = size;
          size_of = size_of;
          advanced = rw (← same);
          same_pos = rw (← same);
          same_lib = rw (← same);
        }

    grant_not_waiting : (m taken : ℕ) → grant fails k m taken s ≢ some (waiting mask)
    unfolding grant
    grant_not_waiting m taken e =
        let index = s.next_bal_index_req k in
        let (_, _, e1) = >>=-eq-some (set_all_switch fails k index s.bus) _ e in
        let (_, _, e2) = >>=-eq-some (get_elem? l_res_size k) _ e1 in cc

    pub take_resources-IsLocked :
        take_resources fails k s ≡ some (locked mask result s') → IsLocked fails k mask result s s'
    unfolding take_resources
    take_resources-IsLocked e =
        let (m, mask_of, rest) = >>=-eq-some (entry l_mask_req k (s.next_bal_index_req k)) _ e in
        elim (Option-cases (lock_ressources m s.resources)) [
          | inl busy ↦
              (let wrong : some (waiting m) ≡ some (locked mask result s') = rw busy at rest in cc)
          | inr (taken, lock) ↦ grant_lem m taken mask_of lock (rw lock at rest)
        ]

    -- A request that was granted: the train stood where it asks, the mask is that of its counter,
    -- all bits of the mask were free and are now set, the switches of the section were ordered, and
    -- the counter of this train alone went on by one, cyclically.
    pub ask_resources-IsLocked :
        ask_resources fails k s ≡ some (locked mask result s')
        → (is_due k s ≡ some true) × IsLocked fails k mask result s s'
    unfolding ask_resources
    ask_resources-IsLocked e =
        let (due, due_of, rest) = >>=-eq-some (is_due k s) _ e in
        elim (Bool-cases due) [
          | inl now ↦ (due_of ∙ ap some now, take_resources-IsLocked (rw now at rest))
          | inr later ↦
              (let wrong : some not_due ≡ some (locked mask result s') = rw later at rest in cc)
        ]

    -- A request that waits is due, and a bit of the mask of its counter is taken.
    pub ask_resources-waiting : ask_resources fails k s ≡ some (waiting mask) → IsWaiting k mask s
    unfolding ask_resources take_resources
    ask_resources-waiting e =
        let (due, due_of, rest) = >>=-eq-some (is_due k s) _ e in
        elim (Bool-cases due) [
          | inr later ↦ (let wrong : some not_due ≡ some (waiting mask) = rw later at rest in cc)
          | inl now ↦
              let (m, mask_of, rest1) =
                >>=-eq-some (entry l_mask_req k (s.next_bal_index_req k)) _ (rw now at rest) in
              elim (Option-cases (lock_ressources m s.resources)) [
                | inr (taken, lock) ↦ absurd (grant_not_waiting m taken (rw lock at rest1))
                | inl busy ↦
                    let same : m ≡ mask =
                      (let e2 : some (waiting m) ≡ some (waiting mask) = rw busy at rest1 in cc) in
                    let (b, set, held) = lock_ressources_blocked m s.resources busy in
                    record {
                      due = due_of ∙ ap some now;
                      mask_of = rw (← same) mask_of;
                      bit = b;
                      asked = rw (← same) set;
                      taken = held;
                    }
              ]
        ]

  module _ (k : ℕ) (s s' : RbcState F) where
    give_back-IsFreed : give_back k s ≡ some s' → (mask : ℕ) × IsFreed k mask s s'
    unfolding give_back
    give_back-IsFreed e =
        let index = s.next_bal_index_lib k in
        let (mask, mask_of, e1) = >>=-eq-some (entry l_mask_lib k index) _ e in
        let (size, size_of, e2) = >>=-eq-some (get_elem? l_res_size k) _ e1 in
        let same = some-injective _ _ e2 in
        (
          mask,
          record {
            mask_of = mask_of;
            given = rw (← same);
            size = size;
            size_of = size_of;
            advanced = rw (← same);
            same_req = rw (← same);
            same_pos = rw (← same);
          },
        )

    -- A call of `free_resources` that returned: either nothing was to be freed and the state is as
    -- before, or the mask of the counter was unlocked and the counter went on.
    pub free_resources-cases :
        free_resources k s ≡ some s'
        → ((is_freeing k s ≡ some false) × (s' ≡ s))
          ⊎ ((is_freeing k s ≡ some true) × ((mask : ℕ) × IsFreed k mask s s'))
    unfolding free_resources
    free_resources-cases e =
        let (freeing, freeing_of, rest) = >>=-eq-some (is_freeing k s) _ e in
        elim (Bool-cases freeing) [
          | inl now ↦ inr (freeing_of ∙ ap some now, give_back-IsFreed (rw now at rest))
          | inr later ↦
              inl (freeing_of ∙ ap some later, sym (some-injective _ _ (rw later at rest)))
        ]
