-- ===== src/Comm/Numbers.antt =====
-- The C library calls on decimal numbers that app/ uses: `%d`, `strtol` in base 10 and `atoi`, over
-- bytes.
use projet_commun_unirail.Prelude.{
  ℕ, zero, suc, ◌+◌, ◌-◌, ◌*◌, ◌/◌, ◌%◌, ◌≤◌, ◌<◌, Bool, ◌&&◌, ◌||◌, Option, none, some, List, [],
  ◌∷◌, ◌^◌, if◌then◌else◌, ltb, leb, ◌==◌,
}
use projet_commun_unirail.Prelude.Int.{ℤ, pos, negsuc, pos_part, neg_part}

abbrev pub Text : Type 0
Text = List ℕ

-- `%u`, digits in front of `rest`. A number below the fuel has enough fuel.
unfoldable pub print_digits : ℕ → ℕ → Text → Text
print_digits zero n rest = rest
print_digits (suc fuel) n rest =
    let more = print_digits fuel (n / 10) ((48 + n % 10) ∷ rest) in
    if ltb n 10 then (48 + n) ∷ rest else more

unfoldable pub print_nat : ℕ → Text
print_nat n = print_digits (suc n) n []

-- `%d`
unfoldable pub print_int : ℤ → Text
print_int (pos n) = print_nat n
print_int (negsuc n) = b'-' ∷ print_nat (suc n)

abbrev pub is_digit : ℕ → Bool
is_digit c = leb b'0' c && leb c b'9'

abbrev pub is_space : ℕ → Bool
is_space c = c == 32 || (leb 9 c && leb c 13)

-- The digits at the start of a text, after the value `acc`.
unfoldable pub read_digits : ℕ → Text → ℕ
read_digits acc [] = acc
read_digits acc (c ∷ cs) = if is_digit c then read_digits (acc * 10 + (c - 48)) cs else acc

-- Digits are wanted; `none` for no conversion.
unfoldable pub read_nat : Text → Option ℕ
read_nat [] = none
read_nat (c ∷ cs) = if is_digit c then some (read_digits (c - 48) cs) else none

abbrev pub negate : ℕ → ℤ
negate zero = pos 0
negate (suc n) = negsuc n

abbrev pub map_option {ℓ κ} : {A : Type ℓ} {B : Type κ} → (A → B) → Option A → Option B
map_option g none = none
map_option g (some a) = some (g a)

unfoldable pub read_signed : Text → Option ℤ
read_signed [] = none
read_signed (c ∷ cs) =
    if c == b'-'
    then map_option negate (read_nat cs)
    else if c == b'+'
    then map_option pos (read_nat cs)
    else map_option pos (read_nat (c ∷ cs))

unfoldable pub skip_spaces : Text → Text
skip_spaces [] = []
skip_spaces (c ∷ cs) = if is_space c then skip_spaces cs else c ∷ cs

-- The range of long, of 64 bits.
abbrev pub clamp_long : ℤ → ℤ
clamp_long (pos n) = pos (if ltb n (2 ^ 63) then n else 2 ^ 63 - 1)
clamp_long (negsuc n) = negsuc (if ltb n (2 ^ 63) then n else 2 ^ 63 - 1)

-- A long stored into an int, of 32 bits.
abbrev pub of_word : ℕ → ℤ
of_word r = if ltb r (2 ^ 31) then pos r else negsuc (2 ^ 32 - 1 - r)

abbrev pub to_int : ℤ → ℤ
to_int (pos n) = of_word (n % 2 ^ 32)
to_int (negsuc n) = of_word (2 ^ 32 - 1 - n % 2 ^ 32)

-- `strtol`; `none` when the end pointer stays at the start.
unfoldable pub strtol : Text → Option ℤ
strtol t = map_option clamp_long (read_signed (skip_spaces t))

-- `atoi`: `strtol` stored into an int.
unfoldable pub atoi : Text → ℤ
atoi t = elim (strtol t) [ none ↦ pos 0 | some z ↦ to_int z ]

-- The range of int.
abbrev pub IsInt : ℤ → Type 0
IsInt z = (pos_part z < 2 ^ 31) × (neg_part z ≤ 2 ^ 31)
