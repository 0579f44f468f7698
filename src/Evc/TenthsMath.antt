-- ===== src/Evc/TenthsMath.antt =====
-- The operations of the speed control over exact tenths, cut off behind the first decimal: an instance
-- that lets the loop run.
use projet_commun_unirail.Prelude.{
  ℕ, zero, suc, ◌*◌, ◌/◌, Option, none, some, ◌>>=◌, if◌then◌else◌, ltb,
}
use projet_commun_unirail.Prelude.Int.{ℤ, pos, negsuc, ◌*ℤ◌}
use projet_commun_unirail.Float.{FloatMath, Tenths, tenths_float}

-- Towards zero.
abbrev scale_down : ℤ → ℕ → ℤ
scale_down (pos n) k = pos (n / k)
scale_down (negsuc n) k = elim (suc n / k) [ zero ↦ pos 0 | suc q ↦ negsuc q ]

abbrev divide : ℤ → ℤ → Tenths
divide a (pos zero) = none
divide a (pos (suc n)) = some (scale_down a (suc n))
divide a (negsuc n) = some (scale_down (a *ℤ negsuc 0) (suc n))

-- The root, searched upwards from `k`.
abbrev root_from : ℕ → ℕ → ℕ → ℕ
root_from zero k n = k
root_from (suc fuel) k n =
    let further = root_from fuel (suc k) n in if ltb n (suc k * suc k) then k else further

abbrev root : ℤ → Tenths
root (pos n) = some (pos (root_from 2000 0 (n * 10)))
root (negsuc n) = none

abbrev of_ints : (ℤ → ℤ → Tenths) → Tenths → Tenths → Tenths
of_ints op (some a) (some b) = op a b
of_ints op _ _ = none

abbrev whole : Tenths → Option ℤ
whole none = none
whole (some a) = some (scale_down a 10)

abbrev multiply : Tenths → Tenths → Tenths
multiply = of_ints (λ a b. some (scale_down (a *ℤ b) 10))

abbrev pub tenths_math : FloatMath Tenths Tenths
tenths_math = record {
  of_int = λ a. some (a *ℤ pos 10);
  of_int_double = λ a. some (a *ℤ pos 10);
  widen = λ x. x;
  narrow = λ x. x;
  mul = multiply;
  div = of_ints (λ a b. divide (a *ℤ pos 10) b);
  mul_double = multiply;
  sqrt = λ x. x >>= root;
  to_int = whole;
  to_int_double = whole;
  pas_roue_codeuse = some (pos 0);
}
