-- ===== src/Auth/Totp.antt =====
-- backend/src/auth/totp.ts: one-time codes. A code is the list of its characters, a digit being its
-- value and any other character 10 or more. `createHmac('sha1', key)` is a parameter.
pub mod Window
use open_bastion.Base.{
  >>=-eq-ok, Bool, Bool-cases, Dict, HttpException, List, Memᴰ, Option, Option-cases, Result,
  String, [], all, any, any-mem, ap, arith, bad_request, conflict, delete_key, drop, empty_dict,
  eq_iff, eq_refl, err, false, forbidden, get_or, guard, guard-eq-ok, head_of, if◌then◌else◌, inl,
  inr, internal_server_error, is_some, leb, length, length-append, ltb, ltb→lt, lt→ltb, map, max,
  mem_of_any, min, none, not, not_found, ok, or_throw, or_throw-eq-ok, refl, same_text,
  same_text_iff, set_key, some, str_eq, subst, suc, sym, take, true, unauthorized, zero, zero-cases,
  ℕ, ◌%◌, ◌&&◌, ◌*◌, ◌++◌, ◌+◌, ◌-◌, ◌/◌, ◌<◌, ◌==◌, ◌=s=◌, ◌>>=◌, ◌>>◌, ◌^◌, ◌||◌, ◌↔◌, ◌∙◌, ◌∷◌,
  ◌≡◌, ◌≢◌, ◌≤◌, ◌⊎◌,
}
use Prim.Native.String.{count as char_count, char_at}
use Prim.Native.Char.{code}

-- A character's place in BASE32_ALPHABET, after `toUpperCase`.
unfoldable pub base32_index : ℕ → Option ℕ
base32_index c =
    if leb 65 c && leb c 90
    then some (c - 65)
    else (if leb 97 c && leb c 122
        then some (c - 97)
        else (if leb 50 c && leb c 55 then some (c - 50 + 26) else none))

-- `replace(/=+$/, '')`
unfoldable pub strip_padding : List ℕ → List ℕ
strip_padding [] = []
strip_padding (c ∷ cs) = elim (strip_padding cs) [
  | [] ↦ if c == 61 then [] else c ∷ []
  | d ∷ ds ↦ c ∷ d ∷ ds
]

-- The loop: `value` is a 32-bit word; `none` is the exception on a foreign character.
unfoldable pub base32_loop : ℕ → ℕ → List ℕ → Option (List ℕ)
unfolding base32_index
base32_loop bits value [] = some []
base32_loop bits value (c ∷ cs) = elim (base32_index c) [
  | none ↦ none
  | some index ↦
      let value' = value * 32 % 2 ^ 32 + index in
      if leb 8 (bits + 5)
      then (elim (base32_loop (bits + 5 - 8) value' cs) [
        | none ↦ none
        | some bytes ↦ some (value' / 2 ^ (bits + 5 - 8) % 256 ∷ bytes)
      ])
      else base32_loop (bits + 5) value' cs
]

unfoldable pub base32_decode : List ℕ → Option (List ℕ)
unfolding strip_padding base32_loop
base32_decode input = base32_loop 0 0 (strip_padding input)

abbrev codes_from : ℕ → ℕ → String → List ℕ
codes_from zero i t = []
codes_from (suc n) i t = code (char_at t i) ∷ codes_from n (i + 1) t

-- The code points of a text.
abbrev pub characters : String → List ℕ
characters t = codes_from (char_count t) 0 t

abbrev pub byte_at : ℕ → List ℕ → ℕ
byte_at n [] = 0
byte_at zero (b ∷ bs) = b
byte_at (suc n) (b ∷ bs) = byte_at n bs

-- `writeBigUInt64BE`
unfoldable pub big_endian : ℕ → ℕ → List ℕ
big_endian zero n = []
big_endian (suc w) n = n / 256 ^ w % 256 ∷ big_endian w n

-- `readUInt32BE(offset) & 0x7fffffff`
unfoldable pub truncated : List ℕ → ℕ
truncated digest =
    let offset = byte_at 19 digest % 16 in
    (byte_at offset digest * 2 ^ 24
      + byte_at (offset + 1) digest * 2 ^ 16
      + byte_at (offset + 2) digest * 2 ^ 8
      + byte_at (offset + 3) digest)
    % 2 ^ 31

-- `code.toString().padStart(digits, '0')` for a number of at most that many digits.
unfoldable pub digits_of : ℕ → ℕ → List ℕ
digits_of zero n = []
digits_of (suc w) n = n / 10 ^ w % 10 ∷ digits_of w n

abbrev pub same_codes : List ℕ → List ℕ → Bool
same_codes [] [] = true
same_codes (a ∷ x) (b ∷ y) = a == b && same_codes x y
same_codes _ _ = false

-- /^\d{6}$/
unfoldable pub is_six_digits : List ℕ → Bool
is_six_digits token = length token == 6 && all (λ c. ltb c 10) token

-- What the loop found, unless it was used, or an older window's.
unfoldable pub unless_replayed : Option ℕ → Option ℕ → Option ℕ
unless_replayed last_used none = none
unless_replayed none (some c) = some c
unless_replayed (some last) (some c) = if leb c last then none else some c

abbrev pub Hmac : Type 0
Hmac = List ℕ → List ℕ → List ℕ

module _ (hmac_sha1 : Hmac) where
  unfoldable pub hotp : String → ℕ → Option (List ℕ)
  unfolding base32_decode big_endian truncated digits_of
  hotp secret counter = elim (base32_decode (characters secret)) [
    | none ↦ none
    | some key ↦ some (digits_of 6 (truncated (hmac_sha1 key (big_endian 8 counter)) % 10 ^ 6))
  ]

  -- One round of the loop over the deltas.
  unfoldable pub try_counter : List ℕ → String → ℕ → Option ℕ → Result (Option ℕ)
  unfolding hotp
  try_counter token secret c matched = elim (hotp secret c) [
    | none ↦ err internal_server_error
    | some candidate ↦ ok (if same_codes candidate token then some c else matched)
  ]

  -- The loop over -1, 0 and 1. At counter 0 the first step writes -1, which is an exception.
  unfoldable pub match_window : List ℕ → String → ℕ → Result (Option ℕ)
  unfolding try_counter
  match_window token secret zero = err internal_server_error
  match_window token secret (suc before) = do
    first ← try_counter token secret before none
    second ← try_counter token secret (before + 1) first
    try_counter token secret (before + 2) second

  -- `Math.floor(Date.now() / 1000 / 30)`, in milliseconds.
  abbrev pub counter_at : ℕ → ℕ
  counter_at now = now / 30_000

  unfoldable pub verify_with_counter : ℕ → List ℕ → String → Option ℕ → Result (Option ℕ)
  unfolding is_six_digits match_window unless_replayed
  verify_with_counter now token secret last_used =
      if not (is_six_digits token) then ok none else (do
        matched ← match_window token secret (counter_at now)
        ok (unless_replayed last_used matched))
