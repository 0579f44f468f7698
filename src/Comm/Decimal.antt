-- ===== src/Comm/Decimal.antt =====
-- Reading back a number that was printed; its length and its characters.
use projet_commun_unirail.Prelude.{
  ℕ, zero, suc, ◌+◌, ◌-◌, ◌*◌, ◌/◌, ◌%◌, ◌^◌, ◌≤◌, ◌<◌, ◌≡◌, refl, sym, ap, ◌∙◌, true, false, some,
  [], ◌∷◌, ltb, ◌==◌, arith, All, length, take, Bool-cases, inl, inr,
}
use native.Mathlib.Nat.{pow-suc}
use projet_commun_unirail.Prelude.Int.{ℤ, pos, negsuc}
use projet_commun_unirail.Comm.Numbers.{
  Text, print_digits, print_nat, print_int, is_digit, is_space, read_digits, read_nat, read_signed,
  skip_spaces, strtol, atoi, map_option, negate, clamp_long, to_int, IsInt,
}

read_digits_step :
    (acc c : ℕ) (rest : Text)
    → c < 10
    → read_digits acc ((48 + c) ∷ rest) ≡ read_digits (acc * 10 + c) rest
unfolding read_digits
read_digits_step acc c rest h =
    let digit : is_digit (48 + c) ≡ true = ground arith in
    let value : 48 + c - 48 ≡ c = omega arith in rw digit (rw value)

-- The digits stand for the number, whatever follows.
read_digits-print_digits :
    (fuel n : ℕ) (rest : Text)
    → n < fuel
    → read_digits 0 (print_digits fuel n rest) ≡ read_digits n rest
unfolding print_digits
read_digits-print_digits zero n rest h = absurd (omega arith)
read_digits-print_digits (suc fuel) n rest h = elim (Bool-cases (ltb n 10)) [
  | inl last ↦
      let none_before : 0 * 10 + n ≡ n = omega arith in
      rw last (read_digits_step 0 n rest (ground arith) ∙ ap (λ m. read_digits m rest) none_before)
  | inr more ↦
      let joined : n / 10 * 10 + n % 10 ≡ n = omega arith in
      rw more (
        read_digits-print_digits fuel (n / 10) ((48 + n % 10) ∷ rest) (ground arith)
        ∙ read_digits_step (n / 10) (n % 10) rest (omega arith)
        ∙ ap (λ m. read_digits m rest) joined)
]

-- A printed number starts with a digit.
print_digits-starts :
    (fuel n : ℕ) (rest : Text)
    → n < fuel
    → (c : ℕ) × ((cs : Text) × (print_digits fuel n rest ≡ c ∷ cs) × (is_digit c ≡ true))
unfolding print_digits
print_digits-starts zero n rest h = absurd (omega arith)
print_digits-starts (suc fuel) n rest h = elim (Bool-cases (ltb n 10)) [
  | inl last ↦ (48 + n, (rest, rw last, ground arith))
  | inr more ↦ rw more (print_digits-starts fuel (n / 10) ((48 + n % 10) ∷ rest) (ground arith))
]

pub All-print_digits {κ} :
    (P : ℕ → Type κ)
    → ((c : ℕ) → is_digit c ≡ true → P c)
    → (fuel n : ℕ) (rest : Text) → n < fuel
    → All P rest
    → All P (print_digits fuel n rest)
unfolding print_digits
All-print_digits P digit zero n rest h all = absurd (omega arith)
All-print_digits P digit (suc fuel) n rest h all = elim (Bool-cases (ltb n 10)) [
  | inl last ↦ rw last (digit (48 + n) (ground arith), all)
  | inr more ↦ rw more (
      All-print_digits P digit fuel (n / 10) ((48 + n % 10) ∷ rest) (ground arith)
        (digit (48 + n % 10) (ground arith), all))
]

length-print_digits :
    (k fuel n : ℕ) (rest : Text)
    → n < fuel
    → n < 10 ^ suc k
    → length (print_digits fuel n rest) ≤ suc k + length rest
unfolding print_digits
length-print_digits k zero n rest h p = absurd (omega arith)
length-print_digits zero (suc fuel) n rest h p = ground arith
length-print_digits (suc k) (suc fuel) n rest h p = elim (Bool-cases (ltb n 10)) [
  | inl last ↦ rw last (omega arith)
  | inr more ↦ rw more (
      omega (
        arith,
        length-print_digits k fuel (n / 10) ((48 + n % 10) ∷ rest) (ground arith)
            (omega (arith, pow-suc 10 (suc k))),
      ))
]

read_nat_digit :
    (c : ℕ) (cs : Text) → is_digit c ≡ true → read_nat (c ∷ cs) ≡ some (read_digits 0 (c ∷ cs))
unfolding read_nat read_digits
read_nat_digit c cs digit =
    let none_before : 0 * 10 + (c - 48) ≡ c - 48 = omega arith in rw digit (rw none_before)

read_nat-print_nat : (n : ℕ) → read_nat (print_nat n) ≡ some n
unfolding print_nat read_digits
read_nat-print_nat n =
    let (c, (cs, e, digit)) = print_digits-starts (suc n) n [] (omega arith) in
    rw e (read_nat_digit c cs digit)
    ∙ ap some (ap (read_digits 0) (sym e) ∙ read_digits-print_digits (suc n) n [] (omega arith))

read_signed_digit :
    (c : ℕ) (cs : Text)
    → is_digit c ≡ true
    → read_signed (skip_spaces (c ∷ cs)) ≡ map_option pos (read_nat (c ∷ cs))
unfolding read_signed skip_spaces
read_signed_digit c cs digit =
    let no_space : is_space c ≡ false = ground arith in
    let no_minus : (c == b'-') ≡ false = ground arith in
    let no_plus : (c == b'+') ≡ false = ground arith in rw no_space (rw no_minus (rw no_plus))

read_signed_minus :
    (cs : Text) → read_signed (skip_spaces (b'-' ∷ cs)) ≡ map_option negate (read_nat cs)
unfolding read_signed skip_spaces
read_signed_minus cs = refl

read_signed-print_nat : (n : ℕ) → read_signed (skip_spaces (print_nat n)) ≡ some (pos n)
unfolding print_nat
read_signed-print_nat n =
    let (c, (cs, e, digit)) = print_digits-starts (suc n) n [] (omega arith) in
    ap (λ t. read_signed (skip_spaces t)) e
    ∙ read_signed_digit c cs digit
    ∙ ap (map_option pos) (ap read_nat (sym e) ∙ read_nat-print_nat n)

read_signed-print_int : (z : ℤ) → read_signed (skip_spaces (print_int z)) ≡ some z
unfolding print_int
read_signed-print_int (pos n) = read_signed-print_nat n
read_signed-print_int (negsuc n) =
    read_signed_minus (print_nat (suc n)) ∙ rw (read_nat-print_nat (suc n))

clamp_long_int : (z : ℤ) → IsInt z → clamp_long z ≡ z
clamp_long_int (pos n) h = ground arith
clamp_long_int (negsuc n) h = ground arith

pub to_int_int : (z : ℤ) → IsInt z → to_int z ≡ z
to_int_int (pos n) h = ground arith
to_int_int (negsuc n) h = ground arith

-- `strtol` and `atoi` read back the ints that `%d` printed.
pub strtol-print_int : (z : ℤ) → IsInt z → strtol (print_int z) ≡ some z
unfolding strtol
strtol-print_int z h =
    ap (map_option clamp_long) (read_signed-print_int z) ∙ ap some (clamp_long_int z h)

pub atoi-print_int : (z : ℤ) → IsInt z → atoi (print_int z) ≡ z
unfolding atoi
atoi-print_int z h = rw (strtol-print_int z h, atoi) (to_int_int z h)

pub All-print_int {κ} :
    (P : ℕ → Type κ) → ((c : ℕ) → is_digit c ≡ true → P c) → P b'-' → (z : ℤ) → All P (print_int z)
unfolding print_int print_nat
All-print_int P digit minus (pos n) = All-print_digits P digit (suc n) n [] (omega arith) tt
All-print_int P digit minus (negsuc n) =
    (minus, All-print_digits P digit (suc (suc n)) (suc n) [] (omega arith) tt)

-- A printed number is not empty.
pub print_int-starts : (z : ℤ) → (c : ℕ) × ((cs : Text) × (print_int z ≡ c ∷ cs))
unfolding print_int print_nat
print_int-starts (pos n) =
    let (c, (cs, e, _)) = print_digits-starts (suc n) n [] (omega arith) in (c, (cs, e))
print_int-starts (negsuc n) = (b'-', (_, refl))

-- An int takes at most eleven characters.
pub length-print_int : (z : ℤ) → IsInt z → length (print_int z) ≤ 11
unfolding print_int print_nat
length-print_int (pos n) h =
    omega (arith, length-print_digits 9 (suc n) n [] (omega arith) (omega arith))
length-print_int (negsuc n) h =
    omega (arith, length-print_digits 9 (suc (suc n)) (suc n) [] (omega arith) (omega arith))

take_all : (n : ℕ) (t : Text) → length t ≤ n → take n t ≡ t
take_all zero [] h = refl
take_all zero (c ∷ cs) h = absurd (omega arith)
take_all (suc n) [] h = refl
take_all (suc n) (c ∷ cs) h = ap (◌∷◌ c) (take_all n cs (omega arith))

-- A buffer of ten bytes holds a number of nine digits, and `strtol` reads it back.
pub strtol-take : (n : ℕ) → n < 10 ^ 9 → strtol (take 9 (print_int (pos n))) ≡ some (pos n)
unfolding print_int print_nat
strtol-take n h =
    ap strtol (
      take_all 9 (print_int (pos n))
        (omega (arith, length-print_digits 8 (suc n) n [] (omega arith) h)))
    ∙ strtol-print_int (pos n) (ground arith)
