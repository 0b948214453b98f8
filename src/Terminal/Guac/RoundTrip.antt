-- ===== src/Terminal/Guac/RoundTrip.antt =====
-- What encodeInstruction of backend/src/terminal/guac-protocol.ts writes, the parser reads back.
use open_bastion.Base.{
  List, [], ap, arith, drop, false, length, length-append, none, refl, some, suc, take, zero, ℕ,
  ◌++◌, ◌<◌, ◌∙◌, ◌∷◌, ◌≡◌, ◌≢◌,
}
use mathlib.Core.List.{append_assoc}
use open_bastion.Terminal.Guac.{
  Instruction, decimal, encode_part, join_parts, encode_instruction, is_infinite, split_dot,
  complete, incomplete, instruction_of, parse_parts, try_parse_one, feed,
}
use open_bastion.Terminal.Guac.Digits.{split_dot-digits, all_digits-decimal, length_prefix-decimal}
use open_bastion.Terminal.Guac.Streaming.{
  Runs, stops, takes, Runs-unique, feed-Runs, joined, feed_all, feed_all-feed,
}

-- The length of the text is a number to `parseInt`, as that of any text is.
abbrev pub IsText : List ℕ → Type 0
IsText s = is_infinite (length s) ≡ false

abbrev pub AllText : List (List ℕ) → Type 0
AllText [] = Unit {0}
AllText (s ∷ rest) = IsText s × AllText rest

split_dot-encode_part :
    (s rest : List ℕ) → split_dot (encode_part s ++ rest) ≡ some (decimal (length s), s ++ rest)
unfolding encode_part
split_dot-encode_part s rest =
    ap split_dot (append_assoc (decimal (length s)) (b'.' ∷ s) rest)
    ∙ split_dot-digits (decimal (length s)) (s ++ rest) (all_digits-decimal (length s))

drop-length : (s rest : List ℕ) → drop (length s) (s ++ rest) ≡ rest
drop-length [] rest = refl
drop-length (c ∷ s) rest = drop-length s rest

take-length : (s rest : List ℕ) → take (length s) (s ++ rest) ≡ s
take-length [] rest = refl
take-length (c ∷ s) rest = ap (λ l. c ∷ l) (take-length s rest)

parse_last :
    (fuel : ℕ) (s t : List ℕ) (args : List (List ℕ))
    → IsText s
    → parse_parts (suc fuel) (encode_part s ++ b';' ∷ t) args
      ≡ complete (instruction_of (args ++ s ∷ [])) t
unfolding parse_parts
parse_last fuel s t args h =
    rw
      (
        parse_parts,
        split_dot-encode_part s (b';' ∷ t),
        length_prefix-decimal (length s) h,
        drop-length s (b';' ∷ t),
        take-length s (b';' ∷ t),
      )
      refl

parse_next :
    (fuel : ℕ) (s t : List ℕ) (args : List (List ℕ))
    → IsText s
    → parse_parts (suc fuel) (encode_part s ++ b',' ∷ t) args ≡ parse_parts fuel t (args ++ s ∷ [])
unfolding parse_parts
parse_next fuel s t args h =
    rw
      (
        parse_parts,
        split_dot-encode_part s (b',' ∷ t),
        length_prefix-decimal (length s) h,
        drop-length s (b',' ∷ t),
        take-length s (b',' ∷ t),
      )
      refl

parse_parts-join_parts :
    (fuel : ℕ) (part : List ℕ) (rest args : List (List ℕ)) (t : List ℕ)
    → length rest < fuel
    → IsText part
    → AllText rest
    → parse_parts fuel (join_parts part rest ++ t) args
      ≡ complete (instruction_of (args ++ part ∷ rest)) t
unfolding join_parts
parse_parts-join_parts zero part rest args t h a b = absurd (omega arith)
parse_parts-join_parts (suc fuel) part [] args t h a b =
    ap (λ l. parse_parts (suc fuel) l args) (append_assoc (encode_part part) (b';' ∷ []) t)
    ∙ parse_last fuel part t args a
parse_parts-join_parts (suc fuel) part (next ∷ rest) args t h a (b, c) =
    ap (λ l. parse_parts (suc fuel) l args)
      (append_assoc (encode_part part) (b',' ∷ join_parts next rest) t)
    ∙ parse_next fuel part (join_parts next rest ++ t) args a
    ∙ parse_parts-join_parts fuel next rest (args ++ part ∷ []) t (omega arith) b c
    ∙ ap (λ l. complete (instruction_of l) t) (append_assoc args (part ∷ []) (next ∷ rest))

length-join_parts :
    (part : List ℕ) (rest : List (List ℕ)) → length rest < length (join_parts part rest)
unfolding join_parts encode_part
length-join_parts part [] = omega (
  arith,
  length-append (encode_part part) (b';' ∷ []),
  length-append (decimal (length part)) (b'.' ∷ part),
)
length-join_parts part (next ∷ rest) = omega (
  arith,
  length-append (encode_part part) (b',' ∷ join_parts next rest),
  length-append (decimal (length part)) (b'.' ∷ part),
  length-join_parts next rest,
)

try_parse_one-encode :
    (i : Instruction) (t : List ℕ)
    → IsText i.opcode
    → AllText i.args
    → try_parse_one (encode_instruction i ++ t) ≡ complete i t
unfolding try_parse_one encode_instruction
try_parse_one-encode i t a b =
    parse_parts-join_parts (length (join_parts i.opcode i.args ++ t)) i.opcode i.args [] t
      (omega
        (arith, length-join_parts i.opcode i.args, length-append (join_parts i.opcode i.args) t))
      a b

-- The instructions, one after the other.
abbrev pub encode_all : List Instruction → List ℕ
encode_all [] = []
encode_all (i ∷ is) = encode_instruction i ++ encode_all is

abbrev pub AreTexts : List Instruction → Type 0
AreTexts [] = Unit {0}
AreTexts (i ∷ is) = IsText i.opcode × AllText i.args × AreTexts is

encode_all-Runs : (is : List Instruction) → AreTexts is → Runs (encode_all is) [] (some is)
unfolding try_parse_one parse_parts
encode_all-Runs [] h = stops refl
encode_all-Runs (i ∷ is) (a, b, c) =
    takes i (try_parse_one-encode i (encode_all is) a b) (encode_all-Runs is c)

empty_waits : try_parse_one [] ≡ incomplete
unfolding try_parse_one parse_parts
empty_waits = refl

-- Instructions that are encoded, joined and cut into chunks in any way are what the parser yields,
-- fed with the chunks in turn from an empty buffer, and nothing is left over.
pub feed_all-encode :
    (is : List Instruction) (chunks : List (List ℕ))
    → AreTexts is
    → joined chunks ≡ encode_all is
    → feed_all [] chunks ≡ ([], some is)
feed_all-encode is chunks h cut =
    let (same_left, same_out) =
      Runs-unique (joined chunks) (feed [] (joined chunks)).0 [] (feed [] (joined chunks)).1
        (some is) (feed-Runs [] (joined chunks)) (rw cut (encode_all-Runs is h)) in
    let (out, left) = feed_all-feed [] chunks empty_waits in
    let whole : (feed [] (joined chunks)).1 ≢ none = λ z. ground (arith, z, same_out) in
    λ k. ((left whole ∙ same_left) k, (out ∙ same_out) k)
