-- ===== src/Rbc/Moves.antt =====
-- What a stored position does to the locks: `handle_request` of app/RBC/src/requests_handler.c with
-- `free_resources` of app/RBC/src/ressources.c.
use projet_commun_unirail.Prelude.{
  ℕ, ◌≡◌, ◌∙◌, refl, sym, ap, inl, inr, Bool, true, false, ◌&&◌, some, ◌↔◌, update, >>=-eq-some,
  arith,
}
use mathlib.Core.Option.{some-injective}
use projet_commun_unirail.Prelude.Int.{ℤ, pos, ◌==ℤ◌, ==ℤ_iff}
use projet_commun_unirail.Prelude.Bits.{test_bit}
use projet_commun_unirail.Float.{Float, FloatText}
use projet_commun_unirail.Track.{Position}
use projet_commun_unirail.Can.{entry}
use projet_commun_unirail.Comm.{to_int}
use projet_commun_unirail.Resources.{
  RbcState, l_res_lib, is_freeing, free_resources-cases, mask_lib-lt, unlock_ressources_bits,
}
use projet_commun_unirail.Rbc.Handler.{store_position}
use projet_commun_unirail.Rbc.Outcomes.{Frees, Moved}

module _ {F : Type 0} ⦃f : Float F⦄ ⦃t : FloatText F⦄ (k : ℕ) where
  abbrev moved_to : Position F → RbcState F → RbcState F
  moved_to p s = record s { pos_trains = update s.pos_trains k p }

  is_freeing_iff :
      (p : Position F) (s : RbcState F) (b : Bool)
      → is_freeing k (moved_to p s) ≡ some b
      → (b ≡ true) ↔ Frees k p s
  unfolding is_freeing
  is_freeing_iff p s b e =
      let (res, res_of, e1) = >>=-eq-some (entry l_res_lib k (s.next_bal_index_lib k)) _ e in
      let here : update s.pos_trains k p k ≡ p = ground arith in
      let tested : (p.bal ==ℤ res && f.le (f.tenths (pos 0)) p.pos_r) ≡ b =
        some-injective _ _ (rw here at e1) in
      (
        λ set. (res_of ∙ ap some (sym ((==ℤ_iff p.bal res).0 (ground arith))), ground arith),
        λ frees.
            let same : res ≡ p.bal = some-injective _ _ (sym res_of ∙ frees.0) in
            ground (arith, ==ℤ_iff p.bal res, frees.1),
      )

  pub store_position-Moved :
      (bal : ℤ) (pos_r : F) (s s' : RbcState F)
      → store_position k bal pos_r s ≡ some s'
      → Moved k (record { bal = to_int bal; pos_r = pos_r }) s s'
  unfolding store_position
  store_position-Moved bal pos_r s s' e =
      let p : Position F = record { bal = to_int bal; pos_r = pos_r } in
      elim (free_resources-cases k (moved_to p s) s' e) [
        | inl (freeing, same) ↦ rw same (record {
          placed = refl;
          same_req = refl;
          locks =
              inr
                (λ frees. (let set = (is_freeing_iff p s false freeing).1 frees in cc), refl, refl);
        })
        | inr (freeing, (mask, did)) ↦ record {
          placed = did.same_pos;
          same_req = did.same_req;
          locks = inl (
            (is_freeing_iff p s true freeing).0 refl,
            record {
              mask = mask;
              mask_of = did.mask_of;
              bits = λ b small.
                  ap (λ r. test_bit r b) did.given
                  ∙ unlock_ressources_bits mask s.resources b (mask_lib-lt k _ did.mask_of) small;
              size = did.size;
              size_of = did.size_of;
              advanced = did.advanced;
            },
          );
        }
      ]
