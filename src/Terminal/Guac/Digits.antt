-- ===== src/Terminal/Guac/Digits.antt =====
-- The length prefixes of backend/src/terminal/guac-protocol.ts: what is printed is read back.
use open_bastion.Base.{
  Bool, List, [], all, ap, arith, false, if_true, inl, inr, is_white_space, refl, some, suc, true,
  zero, zero-cases, ℕ, ◌%◌, ◌*◌, ◌++◌, ◌+◌, ◌-◌, ◌/◌, ◌==◌, ◌∙◌, ◌∷◌, ◌≡◌, ◌≢◌, ◌≤◌,
}
use open_bastion.Terminal.Guac.{
  emit, decimal, is_digit, skip_white, digits_value, parse_digits, is_infinite, signed_length,
  length_prefix, split_dot,
}

abbrev starts_digit : List ℕ → Bool
starts_digit [] = false
starts_digit (c ∷ cs) = is_digit c

last_is_digit : (n : ℕ) → is_digit (b'0' + n % 10) ≡ true
last_is_digit n = ground arith

digits_value_last :
    (n : ℕ) (out : List ℕ) → digits_value (n / 10) ((b'0' + n % 10) ∷ out) ≡ digits_value n out
unfolding digits_value
digits_value_last n out =
    let whole : n / 10 * 10 + (b'0' + n % 10 - b'0') ≡ n = omega arith in
    rw (last_is_digit n, whole) refl

emit_step :
    (fuel n : ℕ) (out : List ℕ)
    → n ≢ 0
    → emit (suc fuel) n out ≡ emit fuel (n / 10) ((b'0' + n % 10) ∷ out)
unfolding emit
emit_step fuel n out p = let positive : (n == 0) ≡ false = ground arith in rw (emit, positive) refl

digits_value-emit :
    (fuel n : ℕ) (out : List ℕ) → n ≤ fuel → digits_value 0 (emit fuel n out) ≡ digits_value n out
unfolding emit digits_value
digits_value-emit zero n out h = ap (λ x. digits_value x out) (omega arith)
digits_value-emit (suc fuel) n out h = elim (zero-cases n) [
  | inl z ↦ rw z refl
  | inr p ↦ rw (emit_step fuel n out p) (
      digits_value-emit fuel (n / 10) ((b'0' + n % 10) ∷ out) (omega arith)
      ∙ digits_value_last n out)
]

starts_digit-emit :
    (fuel n : ℕ) (out : List ℕ) → starts_digit out ≡ true → starts_digit (emit fuel n out) ≡ true
unfolding emit
starts_digit-emit zero n out h = h
starts_digit-emit (suc fuel) n out h = elim (zero-cases n) [
  | inl z ↦ rw z h
  | inr p ↦
      rw (emit_step fuel n out p)
        (starts_digit-emit fuel (n / 10) ((b'0' + n % 10) ∷ out) (last_is_digit n))
]

all_digits-emit :
    (fuel n : ℕ) (out : List ℕ) → all is_digit out ≡ true → all is_digit (emit fuel n out) ≡ true
unfolding emit
all_digits-emit zero n out h = h
all_digits-emit (suc fuel) n out h = elim (zero-cases n) [
  | inl z ↦ rw z h
  | inr p ↦
      rw (emit_step fuel n out p)
        (all_digits-emit fuel (n / 10) ((b'0' + n % 10) ∷ out) (rw (last_is_digit n) h))
]

pub split_dot-digits :
    (ds rest : List ℕ) → all is_digit ds ≡ true → split_dot (ds ++ b'.' ∷ rest) ≡ some (ds, rest)
unfolding split_dot
split_dot-digits [] rest h = refl
split_dot-digits (c ∷ cs) rest h =
    let rest_digits : all is_digit cs ≡ true = ground arith in
    let no_dot : (c == b'.') ≡ false = ground arith in
    rw (no_dot, split_dot-digits cs rest rest_digits) refl

parse_digits_step :
    (c : ℕ) (cs : List ℕ)
    → is_digit c ≡ true
    → parse_digits (c ∷ cs) ≡ some (digits_value 0 (c ∷ cs))
unfolding parse_digits
parse_digits_step c cs h = if_true (is_digit c) _ _ h

signed_length-digits :
    (s : List ℕ) (n : ℕ)
    → starts_digit s ≡ true
    → digits_value 0 s ≡ n
    → is_infinite n ≡ false
    → length_prefix s ≡ some n
unfolding length_prefix signed_length skip_white parse_digits
signed_length-digits [] n h e f = cc
signed_length-digits (c ∷ cs) n h e f =
    let not_white : is_white_space c ≡ false = ground arith in
    let no_minus : (c == b'-') ≡ false = ground arith in
    let no_plus : (c == b'+') ≡ false = ground arith in
    rw
      (
        length_prefix,
        skip_white,
        not_white,
        signed_length,
        no_minus,
        no_plus,
        parse_digits_step c cs h,
        e,
        f,
      )
      refl

decimal_step : (n : ℕ) → decimal (suc n) ≡ emit (suc n) (suc n) []
unfolding decimal
decimal_step n = let positive : (suc n == 0) ≡ false = ground arith in rw positive refl

starts_digit-decimal : (n : ℕ) → starts_digit (decimal n) ≡ true
unfolding decimal
starts_digit-decimal zero = refl
starts_digit-decimal (suc n) =
    rw (decimal_step n, emit_step n (suc n) [] (λ z. omega arith))
      (starts_digit-emit n (suc n / 10) ((b'0' + suc n % 10) ∷ []) (last_is_digit (suc n)))

pub all_digits-decimal : (n : ℕ) → all is_digit (decimal n) ≡ true
unfolding decimal
all_digits-decimal zero = refl
all_digits-decimal (suc n) = rw (decimal_step n) (all_digits-emit (suc n) (suc n) [] refl)

digits_value-decimal : (n : ℕ) → digits_value 0 (decimal n) ≡ n
unfolding decimal digits_value
digits_value-decimal zero = refl
digits_value-decimal (suc n) =
    rw (decimal_step n) (digits_value-emit (suc n) (suc n) [] (omega arith))

pub length_prefix-decimal : (n : ℕ) → is_infinite n ≡ false → length_prefix (decimal n) ≡ some n
length_prefix-decimal n h =
    signed_length-digits (decimal n) n (starts_digit-decimal n) (digits_value-decimal n) h
