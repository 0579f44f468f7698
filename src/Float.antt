-- ===== src/Float.antt =====
-- The C floating-point numbers of the program: the literals, the two operations and the two
-- comparisons that positions and distances go through, over any type of values.
use projet_commun_unirail.Prelude.{ℕ, List, ◌≡◌, ◌⊎◌, Bool, true, false, Option, none, some, arith}
use projet_commun_unirail.Prelude.Int.{ℤ, ◌+ℤ◌, ◌-ℤ◌, leb_ℤ, ltb_ℤ}

pub record Float (F : Type 0) : Type 0 where
  -- The number nearest to n / 10: every literal of the sources has at most one decimal.
  pub tenths : ℤ → F
  pub add : F → F → F
  pub sub : F → F → F
  pub le : F → F → Bool
  pub lt : F → F → Bool

infix 4 ◌≼◌
abbrev pub ◌≼◌ : {F : Type 0} ⦃f : Float F⦄ → F → F → Type 0
◌≼◌ ⦃f⦄ x y = f.le x y ≡ true

-- What the standard says of comparisons. A NaN is a value that is not `<=` itself, and the order is
-- total away from it; a literal is a number.
pub record IsOrdered (F : Type 0) ⦃f : Float F⦄ : Type 0 where
  pub tenths_refl : (n : ℤ) → f.tenths n ≼ f.tenths n
  pub refl_of_le : (x y : F) → x ≼ y → (x ≼ x) × (y ≼ y)
  pub le_trans : (x y z : F) → x ≼ y → y ≼ z → x ≼ z
  pub le_total : (x y : F) → x ≼ x → y ≼ y → (x ≼ y) ⊎ (y ≼ x)

-- The laws can be met: exact tenths, with `none` for NaN.
abbrev pub Tenths : Type 0
Tenths = Option ℤ

abbrev on_pair : (ℤ → ℤ → ℤ) → Tenths → Tenths → Tenths
on_pair g (some a) (some b) = some (g a b)
on_pair g _ _ = none

abbrev test_pair : (ℤ → ℤ → Bool) → Tenths → Tenths → Bool
test_pair g (some a) (some b) = g a b
test_pair g _ _ = false

instance abbrev pub tenths_float : Float Tenths
tenths_float = record {
  tenths = λ n. some n;
  add = on_pair ◌+ℤ◌;
  sub = on_pair ◌-ℤ◌;
  le = test_pair leb_ℤ;
  lt = test_pair ltb_ℤ;
}

pub Tenths-IsOrdered : IsOrdered Tenths
Tenths-IsOrdered = ground arith

-- The texts of floating-point numbers: `strtod`, with `none` when nothing is read, and two formats of
-- `printf`.
pub record FloatText (F : Type 0) : Type 0 where
  pub strtod : List ℕ → Option F
  -- `%2.f`, whole numbers.
  pub print_whole : F → List ℕ
  -- `%.2f`, hundredths.
  pub print_hundredths : F → List ℕ

-- What the speed control adds: `F` is float and `D` is double, with the conversions that C makes.
-- The conversions to int have no result for NaN and values out of range.
pub record FloatMath (F D : Type 0) ⦃f : Float F⦄ ⦃d : Float D⦄ : Type 0 where
  pub of_int : ℤ → F
  pub of_int_double : ℤ → D
  pub widen : F → D
  pub narrow : D → F
  pub mul : F → F → F
  pub div : F → F → F
  pub mul_double : D → D → D
  pub sqrt : F → F
  pub to_int : F → Option ℤ
  pub to_int_double : D → Option ℤ
  -- The constant `PAS_ROUE_CODEUSE`, 0.016944.
  pub pas_roue_codeuse : D

-- For numbers, `<` is the opposite of `>=`.
pub record IsStrict (F : Type 0) ⦃f : Float F⦄ : Type 0 where
  pub lt_le : (x y : F) → f.lt x y ≡ true → x ≼ y
  pub lt_not_le : (x y : F) → f.lt x y ≡ true → f.le y x ≡ false
  pub literal : (m n : ℤ) → ltb_ℤ m n ≡ true → f.lt (f.tenths m) (f.tenths n) ≡ true
  pub lt_trans : (x y z : F) → f.lt x y ≡ true → y ≼ z → f.lt x z ≡ true

pub Tenths-IsStrict : IsStrict Tenths
Tenths-IsStrict = ground arith
