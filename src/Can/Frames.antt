-- ===== src/Can/Frames.antt =====
-- app/utility/src/can.c, `send_can_data`. The bus is outside: `fails n` says whether its write
-- number `n` does not take the whole frame. What was written is kept in order.
use projet_commun_unirail.Prelude.{ℕ, ◌+◌, ◌-◌, ◌%◌, Bool, List, [], ◌∷◌, ◌++◌, map, if◌then◌else◌}
use projet_commun_unirail.Prelude.Int.{ℤ, pos, negsuc}

pub record CanFrame : Type 0 where
  pub can_id : ℕ
  pub can_dlc : ℕ
  pub bytes : List ℕ

pub record Bus : Type 0 where
  pub sent : List CanFrame
  pub writes : ℕ

-- The conversion of an int to an unsigned byte.
abbrev pub byte : ℤ → ℕ
byte (pos n) = n % 256
byte (negsuc n) = 255 - n % 256

abbrev pub frame_of : ℕ → ℕ → List ℤ → CanFrame
frame_of can_id can_dlc content = record {
  can_id = can_id;
  can_dlc = can_dlc;
  bytes = map byte content;
}

-- The result is 1 for a failed write and 0 otherwise.
unfoldable pub send_can_data : (ℕ → Bool) → ℕ → ℕ → List ℤ → Bus → ℕ × Bus
send_can_data fails can_id can_dlc content bus =
    if fails bus.writes then (1, record bus { writes = bus.writes + 1 }) else (
      0,
      record { sent = bus.sent ++ frame_of can_id can_dlc content ∷ []; writes = bus.writes + 1 },
    )
