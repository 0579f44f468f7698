-- ===== src/Evc/Thresholds.antt =====
-- app/EVC/src/eoa_handler.c: when the train asks for a new end of authority, and what it makes of the
-- reply. `F` is float and `D` is double.
use projet_commun_unirail.Prelude.{
  ℕ, Bool, true, false, ◌&&◌, ◌||◌, Option, none, some, ◌>>=◌, if◌then◌else◌,
}
use projet_commun_unirail.Prelude.Int.{ℤ, pos, negsuc, ◌==ℤ◌}
use projet_commun_unirail.Float.{Float, FloatText}
use projet_commun_unirail.Track.{Position, get_distance}
use projet_commun_unirail.Comm.{Message, strtol, to_int}

-- The variables of `eoa_handler`, the shared end of authority, and the flag for the loop that drives.
pub record EoaHandler (F D : Type 0) : Type 0 where
  pub distance : D
  pub last_distance_triggered : D
  pub request_new_eoa : Bool
  pub initialized : Bool
  pub eoa : Position F
  pub eoa_initialized : Bool

-- A round asks nothing, or sends request 102 and waits.
pub data Round (F D : Type 0) : Type 0 where
  idle : EoaHandler F D → Round F D
  asking : Message → EoaHandler F D → Round F D

module _ {D : Type 0} ⦃g : Float D⦄ where
  abbrev pub trigger : ℕ → D
  trigger n = g.tenths (pos n)

  abbrev pub crosses : D → D → ℕ → Bool
  crosses distance last n = g.lt distance (trigger n) && g.le (trigger n) last

module _ {F D : Type 0} ⦃f : Float F⦄ ⦃g : Float D⦄ where
  -- The start, once the RBC has the first position; `distance` is whatever it held.
  abbrev pub start_handler : Position F → D → EoaHandler F D
  start_handler eoa distance = record {
    distance = distance;
    last_distance_triggered = trigger 50_000;
    request_new_eoa = true;
    initialized = false;
    eoa = eoa;
    eoa_initialized = false;
  }

  -- The tests on `distance_triggers`, 5000, 2500 and 1000.
  unfoldable pub wants_request : EoaHandler F D → Bool
  wants_request s =
      s.request_new_eoa
      || crosses s.distance s.last_distance_triggered 50_000
      || crosses s.distance s.last_distance_triggered 25_000
      || g.lt s.distance (trigger 10_000)

  module _ (widen : F → D) where
    -- The distance to the end of authority; without one it keeps what it held.
    unfoldable pub update_distance : ℤ → Position F → EoaHandler F D → Option (EoaHandler F D)
    update_distance chemin_id local_pos s = elim (s.eoa.bal ==ℤ negsuc 0) [
      | true ↦ some s
      | false ↦ do
        distance ← get_distance local_pos s.eoa chemin_id
        some (record s { distance = widen distance })
    ]

    -- A round up to the wait for the reply.
    unfoldable pub eoa_round : ℤ → ℤ → ℤ → Position F → EoaHandler F D → Option (Round F D)
    eoa_round chemin_id train_id req_id local_pos s = elim (local_pos.bal ==ℤ pos 0) [
      | true ↦ some (idle s)
      | false ↦ do
        s1 ← update_distance chemin_id local_pos s
        some (
            if wants_request s1
            then asking
                (record {
                  req_id = req_id;
                  train_id = train_id;
                  code = pos 102;
                  data_0 = none;
                  data_1 = none;
                })
                (record s1 { request_new_eoa = false; last_distance_triggered = s1.distance })
            else idle s1)
    ]

module _ {F D : Type 0} ⦃t : FloatText F⦄ where
  -- The end of the first request lets the train drive, whatever the reply was.
  unfoldable pub finish_init : EoaHandler F D → EoaHandler F D
  finish_init s =
      if s.initialized then s else record s { initialized = true; eoa_initialized = true }

  -- The rest of the round, with the reply. A text that is not read leaves the round at once.
  unfoldable pub read_eoa : Message → EoaHandler F D → Option (EoaHandler F D)
  read_eoa recv s = elim (recv.code ==ℤ pos 202) [
    | false ↦ some (finish_init s)
    | true ↦ recv.data_0 >>= λ data_0. elim (strtol data_0) [
      | none ↦ some s
      | some bal ↦ recv.data_1 >>= λ data_1. elim (t.strtod data_1) [
        | none ↦ some s
        | some pos_r ↦
            some (finish_init (record s { eoa = record { bal = to_int bal; pos_r = pos_r } }))
      ]
    ]
  ]
