-- ===== src/Tests/Secrets.antt =====
-- The theorem on the vault at a concrete input, with bytes that hide nothing.
use Prim.Native.Char.{char, code}
use text.Mathlib.TextEquality.{Char-path}
use open_bastion.Base.{
  ◌↔◌, Bool, Bool-cases, String, ap, arith, err, false, if◌then◌else◌, inl, inr,
  internal_server_error, ok, or_throw, refl, some, true, ◌==◌, ◌≡◌,
}
use Prim.Native.String.{count}
use open_bastion.Vault.Service.{Crypto, lacks_colon, VaultService, construct, encrypt, decrypt}
use open_bastion.Vault.Service.Refinement.{service_vault, service_vault-Refines}
use open_bastion.Vault.Service.Segments.{IsAuthentic, decrypt-IsAuthentic}

-- A text without colons: each character behind an x, a colon as y.
abbrev escape : String → String
escape String.[] = ""
escape (String.◌∷◌ c s) =
    let rest = escape s in
    if code c == 58
    then String.◌∷◌ (char 121 tt) rest
    else String.◌∷◌ (char 120 tt) (String.◌∷◌ c rest)

-- Whether a character stands behind an x is the first argument.
abbrev unescape : Bool → String → String
unescape escaped String.[] = ""
unescape true (String.◌∷◌ c s) = String.◌∷◌ c (unescape false s)
unescape false (String.◌∷◌ c s) =
    let plain = unescape false s in
    let behind = unescape true s in if code c == 121 then String.◌∷◌ (char 58 tt) plain else behind

lacks_colon-escape : (s : String) → lacks_colon (escape s) ≡ true
unfolding lacks_colon
lacks_colon-escape String.[] = refl
lacks_colon-escape (String.◌∷◌ c s) = elim (Bool-cases (code c == 58)) [
  | inl colon ↦ rw colon (lacks_colon-escape s)
  | inr other ↦ rw (other, lacks_colon-escape s, other) refl
]

unescape-escape : (s : String) → unescape false (escape s) ≡ s
unescape-escape String.[] = refl
unescape-escape (String.◌∷◌ c s) = elim (Bool-cases (code c == 58)) [
  | inl colon ↦
      rw colon (λ i. String.◌∷◌ (Char-path (char 58 tt) c (ground arith) i) (unescape-escape s i))
  | inr other ↦ rw other (ap (String.◌∷◌ c) (unescape-escape s))
]

-- A buffer is a text, a byte for each character.
abbrev plain_crypto : Crypto
plain_crypto = record {
  Buffer = String;
  size = count;
  to_hex = escape;
  from_hex = unescape false;
  utf8 = λ text. text;
  hkdf = λ key salt context. context;
  seal = λ key iv context text. (escape text, "0123456789abcdef");
  unseal = λ key iv context tag encrypted. some (unescape false encrypted);
  from_hex-to_hex = unescape-escape;
  size-from_hex = refl;
  lacks_colon-to_hex = lacks_colon-escape;
  lacks_colon-seal = λ key iv context text. lacks_colon-escape text;
  size-seal = λ key iv context text. refl;
  unseal-seal = λ key iv context text drawn. ap some (unescape-escape text);
}

abbrev plain_service : VaultService plain_crypto
plain_service = record { master_key = "key"; salt = "salt" }

abbrev twelve_bytes : String → String
twelve_bytes name = "0123456789ab"

service_vault-Refines_example :
    ((vector text context : String)
      → encrypt plain_crypto plain_service (twelve_bytes vector) text context
        ≡ ok (
            (service_vault plain_crypto twelve_bytes (λ name. refl) plain_service).encrypt vector
              text context))
    × ((text context : String)
        → decrypt plain_crypto plain_service text context
          ≡ or_throw
              ((service_vault plain_crypto twelve_bytes (λ name. refl) plain_service).decrypt text
                context)
              internal_server_error)
service_vault-Refines_example =
    service_vault-Refines plain_crypto twelve_bytes (λ name. refl) plain_service

decrypts :
    decrypt plain_crypto plain_service
      "x0x1x2x3x4x5x6x7x8x9xaxb:xox!:x0x1x2x3x4x5x6x7x8x9xaxbxcxdxexf" "m1"
    ≡ ok "o!"
unfolding decrypt
decrypts = refl

decrypt-IsAuthentic_example :
    (decrypt plain_crypto plain_service
        "x0x1x2x3x4x5x6x7x8x9xaxb:xox!:x0x1x2x3x4x5x6x7x8x9xaxbxcxdxexf" "m1"
      ≡ ok "o!")
    ↔ IsAuthentic plain_crypto plain_service
        "x0x1x2x3x4x5x6x7x8x9xaxb:xox!:x0x1x2x3x4x5x6x7x8x9xaxbxcxdxexf" "m1" "o!"
decrypt-IsAuthentic_example =
    decrypt-IsAuthentic plain_crypto plain_service
      "x0x1x2x3x4x5x6x7x8x9xaxb:xox!:x0x1x2x3x4x5x6x7x8x9xaxbxcxdxexf" "m1" "o!"

example_key_refused :
    construct plain_crypto "A3F1C2E4B5D6A7B8C9D0E1F2A3B4C5D6E7F8A9B0C1D2E3F4A5B6C7D8E9F0A1B2"
      "0123456789abcdef"
    ≡ err internal_server_error
unfolding construct
example_key_refused = refl
