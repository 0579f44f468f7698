-- ===== src/Comm/Tokens.antt =====
-- What `strtok` and a C string make of texts without separators and zeros.
use projet_commun_unirail.Prelude.{
  ℕ, zero, suc, ◌≤◌, take, length, ◌≡◌, ◌≢◌, refl, ap, false, none, some, [], ◌∷◌, ◌++◌, ◌==◌, All,
  arith,
}
use projet_commun_unirail.Prelude.Int.{ℤ}
use projet_commun_unirail.Comm.Numbers.{Text, print_int}
use projet_commun_unirail.Comm.Decimal.{All-print_int, print_int-starts}
use projet_commun_unirail.Comm.Messages.{
  colon, c_string, skip_colons, token, after_token, cut, strtok,
}

-- A character that is neither the separator nor the end of a string.
abbrev pub IsPlain : ℕ → Type 0
IsPlain c = (c ≢ colon) × (c ≢ 0)

-- A token: some plain characters.
pub record IsToken (t : Text) : Type 0 where
  pub first : ℕ
  pub others : Text
  pub shape : t ≡ first ∷ others
  pub plain : All IsPlain t

token-append : (t rest : Text) → All IsPlain t → token (t ++ colon ∷ rest) ≡ t
unfolding token
token-append [] rest h = refl
token-append (c ∷ cs) rest (p, h) =
    let other : (c == colon) ≡ false = ground arith in
    rw other (ap (◌∷◌ c) (token-append cs rest h))

after_token-append : (t rest : Text) → All IsPlain t → after_token (t ++ colon ∷ rest) ≡ rest
unfolding after_token
after_token-append [] rest h = refl
after_token-append (c ∷ cs) rest (p, h) =
    let other : (c == colon) ≡ false = ground arith in rw other (after_token-append cs rest h)

pub strtok-append : (t rest : Text) → IsToken t → strtok (t ++ colon ∷ rest) ≡ some (t, rest)
unfolding strtok cut skip_colons
strtok-append [] rest k = (let wrong = k.shape in cc)
strtok-append (c ∷ cs) rest k =
    let plain = k.plain in
    let other : (c == colon) ≡ false = ground arith in
    rw other
      (λ i. some (token-append (c ∷ cs) rest plain i, after_token-append (c ∷ cs) rest plain i))

pub strtok-nil : strtok [] ≡ none
unfolding strtok cut skip_colons
strtok-nil = refl

pub c_string-append_zero : (t : Text) → All (λ c. c ≢ 0) t → c_string (t ++ 0 ∷ []) ≡ t
unfolding c_string
c_string-append_zero [] h = refl
c_string-append_zero (c ∷ cs) (p, h) =
    let other : (c == 0) ≡ false = ground arith in rw other (ap (◌∷◌ c) (c_string-append_zero cs h))

pub print_int-IsToken : (z : ℤ) → IsToken (print_int z)
print_int-IsToken z =
    let (c, (cs, e)) = print_int-starts z in
    record {
      first = c;
      others = cs;
      shape = e;
      plain =
          All-print_int IsPlain (λ c digit. (ground arith, ground arith))
            (ground arith, ground arith) z;
    }

All-take : (P : ℕ → Type 0) (n : ℕ) (xs : Text) → All P xs → All P (take n xs)
All-take P zero xs h = tt
All-take P (suc n) [] h = tt
All-take P (suc n) (x ∷ xs) h = (h.0, All-take P n xs h.1)

pub length-take_le : (n : ℕ) (xs : Text) → length (take n xs) ≤ n
length-take_le zero xs = omega arith
length-take_le (suc n) [] = omega arith
length-take_le (suc n) (x ∷ xs) = omega (arith, length-take_le n xs)

-- The buffers of ten bytes keep a token a token.
pub IsToken-take : (n : ℕ) (t : Text) → IsToken t → IsToken (take (suc n) t)
IsToken-take n [] k = absurd (let wrong = k.shape in cc)
IsToken-take n (c ∷ cs) k = record {
  first = c;
  others = take n cs;
  shape = refl;
  plain = All-take IsPlain (suc n) (c ∷ cs) k.plain;
}
