-- ===== src/Rbc/Sound.antt =====
-- Requests that `handle_request` of app/RBC/src/requests_handler.c surely answers: in a state where
-- the trains stand on their routes and the counters are in their tables, which reports and locks keep.
use projet_commun_unirail.Prelude.{
  ℕ, zero, suc, ◌≡◌, refl, inl, inr, Bool, some, List, Bool-cases, Option-cases, Returns,
  >>=-Returns, get_elem?,
}
use mathlib.Core.Option.{some-injective}
use projet_commun_unirail.Prelude.Int.{ℤ, pos}
use projet_commun_unirail.Float.{Float, ◌≼◌, IsOrdered}
use projet_commun_unirail.Track.{Position, chemins}
use projet_commun_unirail.Can.{Bus, set_all_switch-Returns}
use projet_commun_unirail.Resources.{
  l_res_size, lock_ressources, resource_to_lock_iff, RbcState, not_due, waiting, is_due, grant,
  take_resources, ask_resources, is_freeing, give_back, free_resources, IsLocked,
  free_resources-cases, init_trains,
}
use projet_commun_unirail.Rbc.Cells.{
  IsOn, Cell, cell, update_lem, IsIndex, IsIndex-next, first-IsIndex,
}

module _ {F : Type 0} ⦃f : Float F⦄ where
  -- A position on the route of train `k`, at an offset that is not below zero.
  pub record IsPlaced (k : ℕ) (p : Position F) : Type 0 where
    pub on_route : {chemin : List ℤ} → get_elem? chemins k ≡ some chemin → IsOn p.bal chemin
    pub positive : f.tenths (pos 0) ≼ p.pos_r

  pub record IsSound (s : RbcState F) : Type 0 where
    pub placed : (k : ℕ) → IsPlaced k (s.pos_trains k)
    pub req : (k : ℕ) → IsIndex k (s.next_bal_index_req k)
    pub lib : (k : ℕ) → IsIndex k (s.next_bal_index_lib k)

  pub IsLocked-IsSound :
      (fails : ℕ → Bool) (k mask result : ℕ) (s s' : RbcState F)
      → IsLocked fails k mask result s s'
      → IsSound s
      → IsSound s'
  IsLocked-IsSound fails k mask result s s' did sound = record {
    placed = rw did.same_pos sound.placed;
    req = rw did.advanced (
        update_lem IsIndex s.next_bal_index_req k _ sound.req
          (IsIndex-next k _ did.size did.size_of (sound.req k did.size did.size_of)));
    lib = rw did.same_lib sound.lib;
  }

  module _ (fails : ℕ → Bool) (k size : ℕ) (s : RbcState F) (sound : IsSound s)
      (size_of : get_elem? l_res_size k ≡ some size) where
    abbrev req_cell : Cell k (s.next_bal_index_req k)
    req_cell = cell k (s.next_bal_index_req k) size size_of (sound.req k size size_of)

    is_due-Returns : Returns (is_due k s)
    unfolding is_due
    is_due-Returns =
        let c = req_cell in
        let (b, ends, _) = resource_to_lock_iff c.route.0 (s.pos_trains k).bal c.req.0 c.positive in
        >>=-Returns _ _ c.route.1 (>>=-Returns _ _ c.req.1 (>>=-Returns _ _ ends (_, refl)))

    take_resources-Returns : Returns (take_resources fails k s)
    unfolding take_resources grant
    take_resources-Returns =
        let c = req_cell in
        let (_, switched) =
          set_all_switch-Returns fails k (s.next_bal_index_req k) c.commands.0 s.bus c.commands.1 in
        >>=-Returns _ _ c.mask_req.1
          (elim (Option-cases (lock_ressources c.mask_req.0 s.resources)) [
            | inl busy ↦ rw busy (waiting c.mask_req.0, refl)
            | inr (taken, lock) ↦
                rw lock (>>=-Returns _ _ switched (>>=-Returns _ _ size_of (_, refl)))
          ])

    pub ask_resources-Returns : Returns (ask_resources fails k s)
    unfolding ask_resources
    ask_resources-Returns =
        let (due, due_of) = is_due-Returns in
        >>=-Returns _ _ due_of (elim (Bool-cases due) [
          | inl now ↦ rw now take_resources-Returns
          | inr later ↦ rw later (not_due, refl)
        ])

    lib_cell : Cell k (s.next_bal_index_lib k)
    lib_cell = cell k (s.next_bal_index_lib k) size size_of (sound.lib k size size_of)

    is_freeing-Returns : Returns (is_freeing k s)
    unfolding is_freeing
    is_freeing-Returns = >>=-Returns _ _ lib_cell.lib.1 (_, refl)

    give_back-Returns : Returns (give_back k s)
    unfolding give_back
    give_back-Returns = >>=-Returns _ _ lib_cell.mask_lib.1 (>>=-Returns _ _ size_of (_, refl))

    pub free_resources-Returns : Returns (free_resources k s)
    unfolding free_resources
    free_resources-Returns =
        let (freeing, freeing_of) = is_freeing-Returns in
        >>=-Returns _ _ freeing_of (elim (Bool-cases freeing) [
          | inl now ↦ rw now give_back-Returns
          | inr later ↦ rw later (s, refl)
        ])

  pub free_resources-IsSound :
      (k : ℕ) (s s' : RbcState F) → free_resources k s ≡ some s' → IsSound s → IsSound s'
  free_resources-IsSound k s s' e sound = elim (free_resources-cases k s s' e) [
    | inl (_, same) ↦ rw same sound
    | inr (_, (mask, did)) ↦ record {
      placed = rw did.same_pos sound.placed;
      req = rw did.same_req sound.req;
      lib = rw did.advanced (
          update_lem IsIndex s.next_bal_index_lib k _ sound.lib
            (IsIndex-next k _ did.size did.size_of (sound.lib k did.size did.size_of)));
    }
  ]

  pub free_resources-pos_trains :
      (k : ℕ) (s s' : RbcState F) → free_resources k s ≡ some s' → s'.pos_trains ≡ s.pos_trains
  free_resources-pos_trains k s s' e = elim (free_resources-cases k s s' e) [
    | inl (_, same) ↦ rw same
    | inr (_, (mask, did)) ↦ did.same_pos
  ]

  first_places : IsOrdered F → (bus : Bus) (k : ℕ) → IsPlaced k ((init_trains bus).pos_trains k)
  first_places laws bus zero = record {
    on_route = λ e. (0, rw (← some-injective _ _ e));
    positive = laws.tenths_refl _;
  }
  first_places laws bus (suc zero) = record {
    on_route = λ e. (0, rw (← some-injective _ _ e));
    positive = laws.tenths_refl _;
  }
  first_places laws bus (suc (suc zero)) = record {
    on_route = λ e. (0, rw (← some-injective _ _ e));
    positive = laws.tenths_refl _;
  }
  first_places laws bus (suc (suc (suc k))) = record {
    on_route = λ e. cc;
    positive = laws.tenths_refl _;
  }

  -- The trains start on their routes, with their counters in the tables.
  pub init_trains-IsSound : IsOrdered F → (bus : Bus) → IsSound (init_trains bus)
  init_trains-IsSound laws bus = record {
    placed = first_places laws bus;
    req = first-IsIndex;
    lib = first-IsIndex;
  }
