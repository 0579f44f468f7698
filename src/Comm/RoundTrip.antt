-- ===== src/Comm/RoundTrip.antt =====
-- A message that `send_data` of app/utility/src/comm.c writes is read back by `receive_data`, and
-- fits the buffers of both.
use mathlib.Core.List.{append_assoc}
use projet_commun_unirail.Prelude.{
  ℕ, ◌+◌, ◌≤◌, ◌<◌, ◌≡◌, ◌≢◌, refl, ap, ◌∙◌, true, false, Option, none, some, List, [], ◌∷◌, ◌++◌,
  ltb, leb, All, All-append, All-weaken, arith, length, length-append, ◌||◌, ◌==◌, ◌<◌,
}
use projet_commun_unirail.Comm.Numbers.{Text, print_int, atoi, IsInt}
use projet_commun_unirail.Comm.Decimal.{atoi-print_int, length-print_int}
use projet_commun_unirail.Comm.Messages.{
  Message, colon, append_data, buff_send, send_data, c_string, strtok, read_data, read_message,
  receive_data,
}
use projet_commun_unirail.Comm.Tokens.{
  IsPlain, IsToken, strtok-append, strtok-nil, c_string-append_zero, print_int-IsToken,
}

pub record HasInts (m : Message) : Type 0 where
  pub req_id : IsInt m.req_id
  pub train_id : IsInt m.train_id
  pub code : IsInt m.code

append_data-le :
    (entries : List (Option Text)) (data_str : Text)
    → length data_str ≤ 99
    → length (append_data entries data_str) ≤ 99
unfolding append_data
append_data-le [] data_str h = h
append_data-le (none ∷ entries) data_str h = h
append_data-le (some t ∷ entries) data_str h = ground (
  arith,
  append_data-le entries (data_str ++ (t ++ colon ∷ [])),
  length-append data_str (t ++ colon ∷ []),
  length-append t (colon ∷ []),
)

length-send_data : (m : Message) → HasInts m → length (send_data m) ≤ 136
unfolding send_data buff_send
length-send_data m h =
    let data_str = append_data (m.data_0 ∷ m.data_1 ∷ []) [] in
    let part_3 = print_int m.code ++ colon ∷ data_str in
    let part_2 = print_int m.train_id ++ colon ∷ part_3 in
    omega (
      arith,
      length-append (print_int m.req_id ++ colon ∷ part_2) (0 ∷ []),
      length-append (print_int m.req_id) (colon ∷ part_2),
      length-append (print_int m.train_id) (colon ∷ part_3),
      length-append (print_int m.code) (colon ∷ data_str),
      length-print_int m.req_id h.req_id,
      length-print_int m.train_id h.train_id,
      length-print_int m.code h.code,
      append_data-le (m.data_0 ∷ m.data_1 ∷ []) [] (omega arith),
    )

receive_data_fits :
    (datagram : List ℕ) (old : Message)
    → 0 < length datagram
    → length datagram ≤ 136
    → receive_data datagram old ≡ some (read_message (c_string datagram) old)
unfolding receive_data
receive_data_fits datagram old lo h =
    let fits : (length datagram == 0 || leb 151 (length datagram)) ≡ false = ground arith in rw fits

length-send_data_positive : (m : Message) → 0 < length (send_data m)
unfolding send_data
length-send_data_positive m = omega (arith, length-append (buff_send m) (0 ∷ []))

-- Whatever the data of a message with int fields, `send_data` writes at most 136 bytes into its
-- buffer of 151, the zero included, and `receive_data` stores the datagram without a fault.
pub send_data_bounds :
    (m old : Message)
    → HasInts m
    → (length (send_data m) ≤ 136) × ((r : Message) × (receive_data (send_data m) old ≡ some r))
send_data_bounds m old h =
    let fits = length-send_data m h in
    (fits, (_, receive_data_fits (send_data m) old (length-send_data_positive m) fits))

-- The data that the format carries: tokens, the second only behind the first, within the buffer.
abbrev pub IsCarried : Option Text → Option Text → Type 0
IsCarried none none = Unit
IsCarried none (some e) = ⊥
IsCarried (some d) none = IsToken d × (length d + 1 < 100)
IsCarried (some d) (some e) = IsToken d × IsToken e × (length d + 1 + length e + 1 < 100)

read_numbers :
    (a b c rest : Text) (old : Message)
    → IsToken a
    → IsToken b
    → IsToken c
    → read_message (a ++ colon ∷ (b ++ colon ∷ (c ++ colon ∷ rest))) old
      ≡ read_data (strtok rest) (record old { req_id = atoi a; train_id = atoi b; code = atoi c })
unfolding read_message
read_numbers a b c rest old ta tb tc =
    rw (strtok-append a (b ++ colon ∷ (c ++ colon ∷ rest)) ta, read_message)
      (rw (strtok-append b (c ++ colon ∷ rest) tb) (rw (strtok-append c rest tc)))

append_data_fits :
    (t data_str : Text) (entries : List (Option Text))
    → length data_str + length t + 1 < 100
    → append_data (some t ∷ entries) data_str ≡ append_data entries (data_str ++ (t ++ colon ∷ []))
unfolding append_data
append_data_fits t data_str entries h =
    let fits : ltb (length data_str + length t + 1) 100 ≡ true = ground arith in rw fits

append_data_one :
    (d : Text) (entries : List (Option Text))
    → length d + 1 < 100
    → append_data (some d ∷ entries) [] ≡ append_data entries (d ++ colon ∷ [])
append_data_one d entries h = append_data_fits d [] entries (omega arith)

append_data-nil : (t : Text) → append_data [] t ≡ t
unfolding append_data
append_data-nil t = refl

append_data_two :
    (d e : Text)
    → length d + 1 + length e + 1 < 100
    → append_data (some e ∷ []) (d ++ colon ∷ []) ≡ d ++ colon ∷ (e ++ colon ∷ [])
append_data_two d e h =
    append_data_fits e (d ++ colon ∷ []) [] (omega (arith, length-append d (colon ∷ [])))
    ∙ append_data-nil ((d ++ colon ∷ []) ++ (e ++ colon ∷ []))
    ∙ append_assoc d (colon ∷ []) (e ++ colon ∷ [])

read_data_one :
    (m : Message) (d : Text)
    → read_data (some (d, [])) m ≡ record m { data_0 = some d; data_1 = none }
unfolding read_data
read_data_one m d = rw (strtok-nil, read_data)

read_data_two :
    (m : Message) (d e : Text)
    → IsToken e
    → read_data (some (d, e ++ colon ∷ [])) m ≡ record m { data_0 = some d; data_1 = some e }
unfolding read_data
read_data_two m d e k = rw (strtok-append e [] k, read_data)

append_data-none : (entries : List (Option Text)) (t : Text) → append_data (none ∷ entries) t ≡ t
unfolding append_data
append_data-none entries t = refl

read_data_lem :
    (m : Message) (x y : Option Text)
    → IsCarried x y
    → read_data (strtok (append_data (x ∷ y ∷ []) [])) m ≡ record m { data_0 = x; data_1 = y }
unfolding read_data
read_data_lem m none none h =
    rw (append_data-none (none ∷ []) []) (ap (λ r. read_data r m) strtok-nil)
read_data_lem m none (some e) h = absurd h
read_data_lem m (some d) none (k, h) =
    ap (λ t. read_data (strtok t) m)
      (append_data_one d (none ∷ []) h ∙ append_data-none [] (d ++ colon ∷ []))
    ∙ ap (λ r. read_data r m) (strtok-append d [] k)
    ∙ read_data_one m d
read_data_lem m (some d) (some e) (k, l, h) =
    ap (λ t. read_data (strtok t) m)
      (append_data_one d (some e ∷ []) (omega arith) ∙ append_data_two d e h)
    ∙ ap (λ r. read_data r m) (strtok-append d (e ++ colon ∷ []) k)
    ∙ read_data_two m d e l

not_zero : (c : ℕ) → IsPlain c → c ≢ 0
not_zero c (_, h) = h

colon_not_zero : colon ≢ 0
colon_not_zero = ground arith

-- A token and the separator behind it hold no zero.
piece_without_zero :
    (t rest : Text) → IsToken t → All (λ c. c ≢ 0) rest → All (λ c. c ≢ 0) (t ++ colon ∷ rest)
piece_without_zero t rest k h =
    All-append (λ c. c ≢ 0) t (colon ∷ rest) (All-weaken IsPlain (λ c. c ≢ 0) t not_zero k.plain)
      (colon_not_zero, h)

append_data_without_zero :
    (x y : Option Text) → IsCarried x y → All (λ c. c ≢ 0) (append_data (x ∷ y ∷ []) [])
append_data_without_zero none none h = rw (append_data-none (none ∷ []) []) tt
append_data_without_zero none (some e) h = absurd h
append_data_without_zero (some d) none (k, h) =
    rw (append_data_one d (none ∷ []) h)
      (rw (append_data-none [] (d ++ colon ∷ [])) (piece_without_zero d [] k tt))
append_data_without_zero (some d) (some e) (k, l, h) =
    rw (append_data_one d (some e ∷ []) (omega arith)) (
      rw (append_data_two d e h)
        (piece_without_zero d (e ++ colon ∷ []) k (piece_without_zero e [] l tt)))

buff_send_without_zero :
    (m : Message) → IsCarried m.data_0 m.data_1 → All (λ c. c ≢ 0) (buff_send m)
unfolding buff_send
buff_send_without_zero m h =
    piece_without_zero (print_int m.req_id) _ (print_int-IsToken m.req_id) (
      piece_without_zero (print_int m.train_id) _ (print_int-IsToken m.train_id) (
        piece_without_zero (print_int m.code) _ (print_int-IsToken m.code)
          (append_data_without_zero m.data_0 m.data_1 h)))

read_message-buff_send :
    (m old : Message) → HasInts m → IsCarried m.data_0 m.data_1 → read_message (buff_send m) old ≡ m
unfolding buff_send
read_message-buff_send m old h k =
    read_numbers (print_int m.req_id) (print_int m.train_id) (print_int m.code) _ old
      (print_int-IsToken m.req_id) (print_int-IsToken m.train_id) (print_int-IsToken m.code)
    ∙ read_data_lem _ m.data_0 m.data_1 k
    ∙ (λ i. record {
      req_id = atoi-print_int m.req_id h.req_id i;
      train_id = atoi-print_int m.train_id h.train_id i;
      code = atoi-print_int m.code h.code i;
      data_0 = m.data_0;
      data_1 = m.data_1;
    })

-- `receive_data` reads back what `send_data` sent, whatever its message held before, when the
-- numbers are ints and the data are tokens that fit the buffer.
pub receive_data-send_data :
    (m old : Message)
    → HasInts m
    → IsCarried m.data_0 m.data_1
    → receive_data (send_data m) old ≡ some m
unfolding send_data
receive_data-send_data m old h k =
    receive_data_fits (send_data m) old (length-send_data_positive m) (length-send_data m h)
    ∙ ap (λ t. some (read_message t old))
        (c_string-append_zero (buff_send m) (buff_send_without_zero m k))
    ∙ ap some (read_message-buff_send m old h k)
