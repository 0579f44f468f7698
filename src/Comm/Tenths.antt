-- ===== src/Comm/Tenths.antt =====
-- The C texts of exact tenths, `none` for NaN: an instance that lets the models run.
use projet_commun_unirail.Prelude.{
  ℕ, suc, ◌+◌, ◌-◌, ◌*◌, ◌/◌, ◌%◌, ◌&&◌, ◌||◌, Option, none, some, [], ◌∷◌, ◌++◌, if◌then◌else◌,
  ltb, ◌==◌,
}
use projet_commun_unirail.Prelude.Int.{ℤ, pos, negsuc}
use projet_commun_unirail.Float.{FloatText, Tenths}
use projet_commun_unirail.Comm.Numbers.{
  Text, print_nat, read_nat, is_digit, skip_spaces, map_option, negate,
}

unfoldable pub after_digits : Text → Text
after_digits [] = []
after_digits (c ∷ cs) = if is_digit c then after_digits cs else c ∷ cs

-- The first decimal of a text behind its whole part.
unfoldable pub first_decimal : Text → ℕ
first_decimal [] = 0
first_decimal (c ∷ []) = 0
first_decimal (c ∷ d ∷ ds) = if c == b'.' && is_digit d then d - 48 else 0

unfoldable pub read_tenths : Text → Option ℕ
unfolding first_decimal after_digits
read_tenths t = map_option (λ n. n * 10 + first_decimal (after_digits t)) (read_nat t)

unfoldable pub read_signed_tenths : Text → Option ℤ
read_signed_tenths [] = none
read_signed_tenths (c ∷ cs) =
    if c == b'-' then map_option negate (read_tenths cs) else map_option pos (read_tenths (c ∷ cs))

-- To the nearest whole number, the even one at a half.
unfoldable pub round_tenths : ℕ → ℕ
round_tenths n =
    let q = n / 10 in let r = n % 10 in if ltb 5 r || (r == 5 && q % 2 == 1) then q + 1 else q

abbrev pub pad_two : Text → Text
pad_two [] = b' ' ∷ b' ' ∷ []
pad_two (c ∷ []) = b' ' ∷ c ∷ []
pad_two (c ∷ d ∷ ds) = c ∷ d ∷ ds

abbrev pub on_sign : (ℕ → Text) → Tenths → Text
on_sign g none = b'n' ∷ b'a' ∷ b'n' ∷ []
on_sign g (some (pos n)) = g n
on_sign g (some (negsuc n)) = b'-' ∷ g (suc n)

instance abbrev pub tenths_text : FloatText Tenths
tenths_text = record {
  strtod = λ t. map_option some (read_signed_tenths (skip_spaces t));
  print_whole = λ x. pad_two (on_sign (λ n. print_nat (round_tenths n)) x);
  print_hundredths = on_sign (λ n. print_nat (n / 10) ++ b'.' ∷ (48 + n % 10) ∷ 48 ∷ []);
}
