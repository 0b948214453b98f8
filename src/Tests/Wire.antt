-- ===== src/Tests/Wire.antt =====
-- The theorems on the Guacamole protocol at concrete inputs.
use open_bastion.Base.{List, [], none, refl, some, ℕ, ◌∷◌, ◌≡◌, ◌≢◌}
use open_bastion.Terminal.Guac.{
  Instruction, emit, decimal, encode_part, join_parts, encode_instruction, skip_white, digits_value,
  parse_digits, is_infinite, signed_length, length_prefix, split_dot, parse_parts, try_parse_one,
  incomplete, feed,
}
use open_bastion.Terminal.Guac.Streaming.{Runs, feed-Runs, feed_all, joined, feed_all-feed}
use open_bastion.Terminal.Guac.RoundTrip.{AreTexts, encode_all, feed_all-encode}

abbrev select : Instruction
select = record {
  opcode = b's' ∷ b'e' ∷ b'l' ∷ b'e' ∷ b'c' ∷ b't' ∷ [];
  args = (b'r' ∷ b'd' ∷ b'p' ∷ []) ∷ [] ∷ [];
}

-- `6.select,3.rdp,0.;`
encode_select :
    encode_instruction select
    ≡ b'6' ∷ b'.' ∷ b's' ∷ b'e' ∷ b'l' ∷ b'e' ∷ b'c' ∷ b't' ∷ b',' ∷ b'3' ∷ b'.' ∷ b'r' ∷ b'd'
      ∷ b'p' ∷ b',' ∷ b'0' ∷ b'.' ∷ b';' ∷ []
unfolding encode_instruction join_parts encode_part decimal emit
encode_select = refl

abbrev cut : List (List ℕ)
cut =
    (b'6' ∷ b'.' ∷ b's' ∷ b'e' ∷ [])
    ∷ (b'l' ∷ b'e' ∷ b'c' ∷ b't' ∷ b',' ∷ b'3' ∷ b'.' ∷ b'r' ∷ b'd' ∷ b'p' ∷ b',' ∷ b'0' ∷ [])
    ∷ (b'.' ∷ b';' ∷ [])
    ∷ []

select-AreTexts : AreTexts (select ∷ [])
unfolding is_infinite
select-AreTexts = (refl, (refl, (refl, tt)), tt)

joined-cut : joined cut ≡ encode_all (select ∷ [])
unfolding encode_instruction join_parts encode_part decimal emit
joined-cut = refl

feed_all-encode_example : feed_all [] cut ≡ ([], some (select ∷ []))
feed_all-encode_example = feed_all-encode (select ∷ []) cut select-AreTexts joined-cut

waits : try_parse_one (b'6' ∷ b'.' ∷ b's' ∷ b'e' ∷ []) ≡ incomplete
unfolding try_parse_one parse_parts split_dot length_prefix skip_white signed_length parse_digits
    digits_value is_infinite
waits = refl

feed_all-feed_example :
    ((feed_all (b'6' ∷ b'.' ∷ b's' ∷ b'e' ∷ []) cut).1
      ≡ (feed (b'6' ∷ b'.' ∷ b's' ∷ b'e' ∷ []) (joined cut)).1)
    × ((feed (b'6' ∷ b'.' ∷ b's' ∷ b'e' ∷ []) (joined cut)).1 ≢ none
        → (feed_all (b'6' ∷ b'.' ∷ b's' ∷ b'e' ∷ []) cut).0
          ≡ (feed (b'6' ∷ b'.' ∷ b's' ∷ b'e' ∷ []) (joined cut)).0)
feed_all-feed_example = feed_all-feed (b'6' ∷ b'.' ∷ b's' ∷ b'e' ∷ []) cut waits

feed-Runs_example :
    Runs
      (b'6' ∷ b'.' ∷ b's' ∷ b'e' ∷ [])
      (feed (b'6' ∷ []) (b'.' ∷ b's' ∷ b'e' ∷ [])).0
      (feed (b'6' ∷ []) (b'.' ∷ b's' ∷ b'e' ∷ [])).1
feed-Runs_example = feed-Runs (b'6' ∷ []) (b'.' ∷ b's' ∷ b'e' ∷ [])
