-- ===== src/Comm/Messages.antt =====
-- app/utility/src/comm.c: request numbers, `send_data`, `receive_data` and `copy_message`. A C string
-- is the list of its bytes before the zero; the socket is outside, and a datagram is what `send_data`
-- hands to `sendto` or `recvfrom` stores.
use projet_commun_unirail.Prelude.{
  ℕ, ◌+◌, Option, none, some, List, [], ◌∷◌, ◌++◌, if◌then◌else◌, ◌||◌, ltb, leb, ◌==◌, length,
}
use projet_commun_unirail.Prelude.Int.{ℤ, pos, negsuc}
use projet_commun_unirail.Comm.Numbers.{Text, print_int, atoi}

abbrev pub max_octets : ℕ
max_octets = 150

-- `message_t`, with the two entries of `data`; `none` is NULL.
pub record Message : Type 0 where
  pub req_id : ℤ
  pub train_id : ℤ
  pub code : ℤ
  pub data_0 : Option Text
  pub data_1 : Option Text

-- `generate_unique_req_id`: the number and the next value of the counter, which starts at 1.
unfoldable pub generate_unique_req_id : ℕ → ℤ × ℕ
generate_unique_req_id next_req_id = (pos next_req_id, next_req_id + 1)

abbrev pub colon : ℕ
colon = b':'

-- The loop that fills `data_str`, a buffer of MAXOCTETS - 50 bytes.
unfoldable pub append_data : List (Option Text) → Text → Text
append_data [] data_str = data_str
append_data (none ∷ entries) data_str = data_str
append_data (some t ∷ entries) data_str =
    if ltb (length data_str + length t + 1) 100
    then append_data entries (data_str ++ (t ++ colon ∷ []))
    else data_str

-- `sprintf` into `buff_send`.
unfoldable pub buff_send : Message → Text
buff_send m =
    print_int m.req_id
    ++ colon
      ∷ (print_int m.train_id
          ++ colon ∷ (print_int m.code ++ colon ∷ append_data (m.data_0 ∷ m.data_1 ∷ []) []))

-- The bytes of `sendto`: the string and its zero.
unfoldable pub send_data : Message → List ℕ
send_data m = buff_send m ++ 0 ∷ []

-- A buffer read as a C string.
unfoldable pub c_string : List ℕ → Text
c_string [] = []
c_string (c ∷ cs) = if c == 0 then [] else c ∷ c_string cs

-- The pieces of `strtok` for the separator `:`.
unfoldable pub skip_colons : Text → Text
skip_colons [] = []
skip_colons (c ∷ cs) = if c == colon then skip_colons cs else c ∷ cs

unfoldable pub token : Text → Text
token [] = []
token (c ∷ cs) = if c == colon then [] else c ∷ token cs

unfoldable pub after_token : Text → Text
after_token [] = []
after_token (c ∷ cs) = if c == colon then cs else after_token cs

unfoldable pub cut : Text → Option (Text × Text)
cut [] = none
cut (c ∷ cs) = some (token (c ∷ cs), after_token (c ∷ cs))

-- `strtok`: the next token and the text that is left, or NULL.
unfoldable pub strtok : Text → Option (Text × Text)
unfolding cut
strtok t = cut (skip_colons t)

-- The loop over `data`: at most two tokens, and NULL for the rest.
unfoldable pub read_data : Option (Text × Text) → Message → Message
read_data none m = record m { data_0 = none; data_1 = none }
read_data (some (d, s)) m = elim (strtok s) [
  | none ↦ record m { data_0 = some d; data_1 = none }
  | some (e, _) ↦ record m { data_0 = some d; data_1 = some e }
]

-- The three numbers and the data of a message, over what `message` held before. A missing number
-- gives code 500 and leaves the fields behind it as they were.
unfoldable pub read_message : Text → Message → Message
read_message buff m = elim (strtok buff) [
  | none ↦ record m { req_id = negsuc 0; train_id = negsuc 0; code = pos 500 }
  | some (a, s) ↦ elim (strtok s) [
    | none ↦ record m { req_id = atoi a; train_id = negsuc 0; code = pos 500 }
    | some (b, s') ↦ elim (strtok s') [
      | none ↦ record m { req_id = atoi a; train_id = atoi b; code = pos 500 }
      | some (c, s'') ↦
          read_data (strtok s'') (record m { req_id = atoi a; train_id = atoi b; code = atoi c })
    ]
  ]
]

-- `receive_data`: `recvfrom` stores at most MAXOCTETS + 1 bytes, and the zero goes behind them. An
-- empty datagram ends the program; one of that length or more makes the write of the zero fall
-- outside the buffer. Both are `none`.
unfoldable pub receive_data : List ℕ → Message → Option Message
receive_data datagram m =
    if length datagram == 0 || leb (max_octets + 1) (length datagram)
    then none
    else some (read_message (c_string datagram) m)

-- `strdup` gives each text a buffer of its own, with the same bytes.
unfoldable pub copy_message : Message → Message
copy_message src = record {
  req_id = src.req_id;
  train_id = src.train_id;
  code = src.code;
  data_0 = elim src.data_0 [ none ↦ none | some t ↦ some t ];
  data_1 = elim src.data_1 [ none ↦ none | some t ↦ some t ];
}
