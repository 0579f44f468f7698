-- ===== src/Resources/System.antt =====
-- Any sequence of requests and position reports at the RBC, with the masks that each train holds:
-- app/RBC/src/ressources.c as it is called from app/RBC/src/requests_handler.c.
use projet_commun_unirail.Prelude.{ℕ, ◌≡◌, Bool, some, update, bit_and, bit_or}
use projet_commun_unirail.Prelude.Bits.{complement}
use projet_commun_unirail.Float.{Float}
use projet_commun_unirail.Track.{Position}
use projet_commun_unirail.Can.{Bus}
use projet_commun_unirail.Resources.Requests.{
  RbcState, locked, init_trains, take_resources, free_resources,
}
use projet_commun_unirail.Resources.Effects.{IsFreed}

-- `held k` is the union of the masks granted to train `k`, less those that it gave back. It is not
-- stored by the program.
pub record World (F : Type 0) : Type 0 where
  pub rbc : RbcState F
  pub held : ℕ → ℕ

module _ {F : Type 0} ⦃f : Float F⦄ (fails : ℕ → Bool) where
  -- Report 101 writes the position before it frees.
  abbrev pub place : ℕ → Position F → RbcState F → RbcState F
  place k p s = record s { pos_trains = update s.pos_trains k p }

  abbrev pub start : Bus → World F
  start bus = record { rbc = init_trains bus; held = λ _. 0 }

  -- A request that is not due or still waits leaves the state as it was. A lock is taken by a thread
  -- that found its request due, now or at any time before. A release is tested by nothing but the
  -- position of the train.
  pub data Step (w : World F) : World F → Type 0 where
    granted :
        (k mask result : ℕ) (s : RbcState F)
        → take_resources fails k w.rbc ≡ some (locked mask result s)
        → Step w (record { rbc = s; held = update w.held k (bit_or (w.held k) mask) })
    reported :
        (k : ℕ) (p : Position F)
        → free_resources k (place k p w.rbc) ≡ some (place k p w.rbc)
        → Step w (record { rbc = place k p w.rbc; held = w.held })
    freed :
        (k mask : ℕ) (p : Position F) (s : RbcState F)
        → free_resources k (place k p w.rbc) ≡ some s
        → IsFreed k mask (place k p w.rbc) s
        → Step w
            (record { rbc = s; held = update w.held k (bit_and (w.held k) (complement 8 mask)) })

  -- A step that releases no more than its train holds.
  abbrev pub IsOwn : {w v : World F} → Step w v → Type 0
  IsOwn (granted k mask result s e) = Unit
  IsOwn (reported k p e) = Unit
  IsOwn {w} (freed k mask p s e did) = bit_and (w.held k) mask ≡ mask

  pub data Reach (w : World F) : World F → Type 0 where
    here : Reach w w
    later : {v u : World F} → Reach w v → Step v u → Reach w u

  -- Every release on the way is by a train that holds the mask: the trains come to the balise where
  -- they free a section only through that section.
  abbrev pub AllOwn : {w v : World F} → Reach w v → Type 0
  AllOwn here = Unit
  AllOwn (later r st) = AllOwn r × IsOwn st
