-- ===== src/Terminal/Guac.antt =====
-- backend/src/terminal/guac-protocol.ts: the instructions of the Guacamole protocol. A text is the
-- list of its UTF-16 code units; the parser's state is its buffer.
pub mod Digits
pub mod Prefixes
pub mod Streaming
pub mod RoundTrip
use open_bastion.Base.{
  >>=-eq-ok, Bool, Bool-cases, Dict, HttpException, List, Memᴰ, Option, Option-cases, Result,
  Result-cases, String, [], all, any, any-mem, ap, arith, bad_request, conflict, delete_key, drop,
  empty_dict, eq_iff, eq_refl, err, false, forbidden, get_or, guard, guard-eq-ok, head_of,
  if◌then◌else◌, inl, inr, internal_server_error, is_some, is_white_space, leb, length,
  length-append, ltb, ltb→lt, lt→ltb, map, max, mem_cons_cases, mem_of_any, min, none, not,
  not_found, ok, ok-injective, or_throw, or_throw-eq-ok, refl, same_text, same_text_iff, set_key,
  some, str_eq, subst, suc, sym, take, true, unauthorized, zero, zero-cases, ℕ, ◌%◌, ◌&&◌, ◌*◌,
  ◌++◌, ◌+◌, ◌-◌, ◌/◌, ◌<◌, ◌==◌, ◌=s=◌, ◌>>=◌, ◌>>◌, ◌^◌, ◌||◌, ◌↔◌, ◌∙◌, ◌∷◌, ◌≡◌, ◌≢◌, ◌≤◌, ◌⊎◌,
}

pub record Instruction : Type 0 where
  pub opcode : List ℕ
  pub args : List (List ℕ)

-- The digits of `n` before `out`; `fuel` is at least `n`.
unfoldable pub emit : ℕ → ℕ → List ℕ → List ℕ
emit zero n out = out
emit (suc fuel) n out = elim (n == 0) [
  | true ↦ out
  | false ↦ emit fuel (n / 10) ((b'0' + n % 10) ∷ out)
]

-- `${n}`
unfoldable pub decimal : ℕ → List ℕ
unfolding emit
decimal n = if n == 0 then b'0' ∷ [] else emit n n []

unfoldable pub encode_part : List ℕ → List ℕ
encode_part s = decimal (length s) ++ b'.' ∷ s

-- `parts.join(',') + ';'`
unfoldable pub join_parts : List ℕ → List (List ℕ) → List ℕ
unfolding encode_part
join_parts part [] = encode_part part ++ b';' ∷ []
join_parts part (next ∷ rest) = encode_part part ++ b',' ∷ join_parts next rest

unfoldable pub encode_instruction : Instruction → List ℕ
unfolding join_parts
encode_instruction i = join_parts i.opcode i.args

abbrev pub is_digit : ℕ → Bool
is_digit c = leb b'0' c && leb c b'9'

unfoldable pub skip_white : List ℕ → List ℕ
skip_white [] = []
skip_white (c ∷ cs) = let rest = skip_white cs in if is_white_space c then rest else c ∷ cs

-- The number that the digits in front spell, behind `n`.
unfoldable pub digits_value : ℕ → List ℕ → ℕ
digits_value n [] = n
digits_value n (c ∷ cs) =
    let rest = digits_value (n * 10 + (c - b'0')) cs in if is_digit c then rest else n

-- The digits of `parseInt`, `none` for NaN.
unfoldable pub parse_digits : List ℕ → Option ℕ
unfolding digits_value
parse_digits [] = none
parse_digits (c ∷ cs) = if is_digit c then some (digits_value 0 (c ∷ cs)) else none

-- From here on a number is read as Infinity. Below it a length of 2 ^ 53 or more may be rounded, and
-- is longer than any text.
unfoldable pub is_infinite : ℕ → Bool
is_infinite n = leb (2 ^ 1024 - 2 ^ 970) n

abbrev pub finite : Option ℕ → Option ℕ
finite none = none
finite (some n) = if is_infinite n then none else some n

-- `parseInt(lenStr, 10)`, where the test lets it through: `-0` is 0.
unfoldable pub signed_length : List ℕ → Option ℕ
unfolding parse_digits is_infinite
signed_length [] = none
signed_length (c ∷ cs) =
    if c == b'-'
    then (elim (parse_digits cs) [ none ↦ none | some n ↦ if n == 0 then some 0 else none ])
    else if c == b'+'
    then finite (parse_digits cs)
    else finite (parse_digits (c ∷ cs))

unfoldable pub length_prefix : List ℕ → Option ℕ
unfolding skip_white signed_length
length_prefix s = signed_length (skip_white s)

-- The text before the first `.` and after it.
unfoldable pub split_dot : List ℕ → Option (List ℕ × List ℕ)
split_dot [] = none
split_dot (c ∷ cs) =
    let rest = split_dot cs in
    if c == b'.'
    then some ([], cs)
    else (elim rest [ none ↦ none | some (before, after) ↦ some (c ∷ before, after) ])

-- What `tryParseOne` gives: an instruction with what is left of the buffer, null, or an exception.
pub data Parsed : Type 0 where
  complete : Instruction → List ℕ → Parsed
  incomplete malformed : Parsed

-- `{ opcode: args[0] ?? '', args: args.slice(1) }`
abbrev pub instruction_of : List (List ℕ) → Instruction
instruction_of [] = record { opcode = []; args = [] }
instruction_of (opcode ∷ args) = record { opcode = opcode; args = args }

-- The loop, on what of the buffer stands from `pos` on; each round takes two code units at least.
unfoldable pub parse_parts : ℕ → List ℕ → List (List ℕ) → Parsed
unfolding split_dot length_prefix
parse_parts zero rest args = incomplete
parse_parts (suc fuel) rest args = elim (split_dot rest) [
  | none ↦ incomplete
  | some (len_str, after) ↦ elim (length_prefix len_str) [
    | none ↦ malformed
    | some len ↦ elim (drop len after) [
      | [] ↦ incomplete
      | sep ∷ rest' ↦ elim (sep == b';') [
        | true ↦ complete (instruction_of (args ++ take len after ∷ [])) rest'
        | false ↦ elim (sep == b',') [
          | true ↦ parse_parts fuel rest' (args ++ take len after ∷ [])
          | false ↦ malformed
        ]
      ]
    ]
  ]
]

unfoldable pub try_parse_one : List ℕ → Parsed
unfolding parse_parts
try_parse_one buffer = parse_parts (length buffer) buffer []

abbrev pub prepend : Instruction → Option (List Instruction) → Option (List Instruction)
prepend i none = none
prepend i (some out) = some (i ∷ out)

-- The loop of `feed`; `none` is the exception.
unfoldable pub feed_loop : ℕ → List ℕ → List ℕ × Option (List Instruction)
unfolding try_parse_one
feed_loop zero buffer = (buffer, some [])
feed_loop (suc fuel) buffer = elim (try_parse_one buffer) [
  | incomplete ↦ (buffer, some [])
  | malformed ↦ (buffer, none)
  | complete i rest ↦ let (left, out) = feed_loop fuel rest in (left, prepend i out)
]

unfoldable pub feed : List ℕ → List ℕ → List ℕ × Option (List Instruction)
unfolding feed_loop
feed buffer chunk = feed_loop (suc (length (buffer ++ chunk))) (buffer ++ chunk)
