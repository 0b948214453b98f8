-- ===== src/Vault/Service/Segments.antt =====
-- What backend/src/vault/vault.service.ts accepts for decryption.
use Prim.Native.Char.{Char, char, code}
use text.Mathlib.TextEquality.{Char-path}
use text.Mathlib.TextLemmas.{nil-append, cons-append}
use Prim.Native.String.{◌++◌ as append}
use open_bastion.Base.{
  Bool-cases, List, String, [], all, ap, arith, eq_iff, false, inl, inr, internal_server_error, ok,
  or_throw-eq-ok, refl, some, subst, suc, sym, true, ℕ, ◌==◌, ◌=s=◌, ◌||◌, ◌↔◌, ◌∙◌, ◌∷◌, ◌≡◌,
}
use open_bastion.Vault.Service.RoundTrip.{split_colon-joined}
use open_bastion.Vault.Service.{
  lacks_colon, Crypto, push_char, split_colon, VaultService, derive_key, open_segments, open_parts,
  decrypt,
}

-- `parts.join(':')`
abbrev join_colon : List String → String
join_colon [] = ""
join_colon (s ∷ []) = s
join_colon (s ∷ t ∷ ss) = append s (append ":" (join_colon (t ∷ ss)))

join_colon-push_char :
    (c : Char) (s : String) (ss : List String)
    → join_colon (push_char c (s ∷ ss)) ≡ String.◌∷◌ c (join_colon (s ∷ ss))
join_colon-push_char c s [] = refl
join_colon-push_char c s (t ∷ ss) = cons-append c s (append ":" (join_colon (t ∷ ss)))

split_colon_cases :
    (s : String) → (first : String) × (rest : List String) × (split_colon s ≡ first ∷ rest)
unfolding split_colon
split_colon_cases String.[] = ("", [], refl)
split_colon_cases (String.◌∷◌ c s) = elim (Bool-cases (code c == 58)) [
  | inl colon ↦ ("", split_colon s, rw colon refl)
  | inr other ↦
      let (first, rest, e) = split_colon_cases s in (String.◌∷◌ c first, rest, rw (other, e) refl)
]

join_colon-split_colon : (s : String) → join_colon (split_colon s) ≡ s
unfolding split_colon
join_colon-split_colon String.[] = refl
join_colon-split_colon (String.◌∷◌ c s) =
    let (first, rest, e) = split_colon_cases s in
    let joined_rest : join_colon (first ∷ rest) ≡ s =
      ap join_colon (sym e) ∙ join_colon-split_colon s in
    elim (Bool-cases (code c == 58)) [
      | inl colon ↦
          rw (colon, e)
            (nil-append (append ":" (join_colon (first ∷ rest)))
              ∙ cons-append (char 58 tt) "" (join_colon (first ∷ rest))
              ∙ ap (String.◌∷◌ (char 58 tt)) (nil-append (join_colon (first ∷ rest)) ∙ joined_rest)
              ∙ (λ i. String.◌∷◌ (Char-path (char 58 tt) c (ground arith) i) s))
      | inr other ↦
          rw (other, e) (join_colon-push_char c first rest ∙ ap (String.◌∷◌ c) joined_rest)
    ]

all-push_char :
    (c : Char) (ss : List String)
    → (code c == 58) ≡ false
    → all lacks_colon ss ≡ true
    → all lacks_colon (push_char c ss) ≡ true
unfolding lacks_colon
all-push_char c [] apart free = refl
all-push_char c (s ∷ ss) apart free = ground arith

all-split_colon : (s : String) → all lacks_colon (split_colon s) ≡ true
unfolding split_colon lacks_colon
all-split_colon String.[] = refl
all-split_colon (String.◌∷◌ c s) = elim (Bool-cases (code c == 58)) [
  | inl colon ↦ rw colon (all-split_colon s)
  | inr apart ↦ rw apart (all-push_char c (split_colon s) apart (all-split_colon s))
]

module _ (crypto : Crypto) where
  -- The text is three segments without colons, of which the first and the last decode to 12 and 16
  -- bytes, and decryption accepts them under the key of the context and the context as additional
  -- data.
  abbrev pub IsAuthentic : VaultService crypto → String → String → String → Type 0
  IsAuthentic service encrypted_text context text =
      (iv : String) × (encrypted : String) × (tag : String) × (encrypted_text
        ≡ append iv (append ":" (append encrypted (append ":" tag))))
      × ((lacks_colon iv ≡ true) × (lacks_colon encrypted ≡ true) × (lacks_colon tag ≡ true))
      × (crypto.size (crypto.from_hex iv) ≡ 12)
      × (crypto.size (crypto.from_hex tag) ≡ 16)
      × (crypto.unseal (crypto.hkdf service.master_key service.salt context) (crypto.from_hex iv)
            context (crypto.from_hex tag) encrypted
          ≡ some text)

  open_segments-ok :
      (service : VaultService crypto) (context encrypted text : String) (iv tag : crypto.Buffer)
      → open_segments crypto service context iv encrypted tag ≡ ok text
      → (crypto.size iv ≡ 12)
        × (crypto.size tag ≡ 16)
        × (crypto.unseal (derive_key crypto service context) iv context tag encrypted ≡ some text)
  unfolding open_segments
  open_segments-ok service context encrypted text iv tag opened =
      elim (Bool-cases (crypto.size tag == 16)) [
        | inr short ↦ cc (rw short at opened)
        | inl full_tag ↦ elim (Bool-cases (crypto.size iv == 12)) [
          | inr short ↦ cc (rw (full_tag, short) at opened)
          | inl full_iv ↦ (
            ground arith,
            ground arith,
            or_throw-eq-ok _ internal_server_error (rw (full_tag, full_iv) at opened),
          )
        ]
      ]

  -- Three parts.
  open_parts-ok :
      (service : VaultService crypto) (context text : String) (parts : List String)
      → all lacks_colon parts ≡ true
      → open_parts crypto service context parts ≡ ok text
      → IsAuthentic service (join_colon parts) context text
  unfolding open_parts derive_key
  open_parts-ok service context text (iv ∷ encrypted ∷ tag ∷ []) free opened =
      elim (Bool-cases (iv =s= "" || tag =s= "")) [
        | inl lacking ↦ cc (rw lacking at opened)
        | inr full ↦
            let (full_iv, full_tag, e) =
              open_segments-ok service context encrypted text (crypto.from_hex iv)
                (crypto.from_hex tag) (rw full at opened) in
            (
              iv,
              encrypted,
              tag,
              refl,
              (ground arith, ground arith, ground arith),
              full_iv,
              full_tag,
              e,
            )
      ]
  open_parts-ok service context text [] free opened = cc
  open_parts-ok service context text (iv ∷ []) free opened = cc
  open_parts-ok service context text (iv ∷ encrypted ∷ []) free opened = cc
  open_parts-ok service context text (iv ∷ encrypted ∷ tag ∷ more ∷ rest) free opened = cc

  decoded-given :
      (segment : String) (n : ℕ)
      → crypto.size (crypto.from_hex segment) ≡ suc n
      → (segment =s= "") ≡ false
  decoded-given segment n full = elim (Bool-cases (segment =s= "")) [
    | inr given ↦ given
    | inl blank ↦
        let none_there : crypto.size (crypto.from_hex segment) ≡ 0 =
          ap (λ t. crypto.size (crypto.from_hex t)) ((eq_iff segment "").0 blank)
          ∙ crypto.size-from_hex in
        absurd (omega (arith, none_there, full))
  ]

  IsAuthentic-decrypt :
      (service : VaultService crypto) (encrypted_text context text : String)
      → IsAuthentic service encrypted_text context text
      → decrypt crypto service encrypted_text context ≡ ok text
  unfolding decrypt open_parts open_segments derive_key
  IsAuthentic-decrypt service encrypted_text context text v =
      let (
        iv,
        encrypted,
        tag,
        e,
        (free_iv, free_encrypted, free_tag),
        full_iv,
        full_tag,
        accepted,
      ) =
        v in
      let parts : split_colon encrypted_text ≡ iv ∷ encrypted ∷ tag ∷ [] =
        ap split_colon e ∙ split_colon-joined iv encrypted tag free_iv free_encrypted free_tag in
      let given_iv : (iv =s= "") ≡ false = decoded-given iv 11 full_iv in
      let given_tag : (tag =s= "") ≡ false = decoded-given tag 15 full_tag in
      ap (open_parts crypto service context) parts
      ∙ rw (given_iv, given_tag, full_tag, full_iv, accepted) refl

  -- Decryption gives a text exactly if what it is given is three segments without colons, of which
  -- the first decodes to a vector of 12 bytes and the last to a tag of 16 bytes, and AES-256-GCM
  -- opens the second with them to that text, under the key that is derived from the context and
  -- with the context as additional data.
  pub decrypt-IsAuthentic :
      (service : VaultService crypto) (encrypted_text context text : String)
      → (decrypt crypto service encrypted_text context ≡ ok text)
        ↔ IsAuthentic service encrypted_text context text
  unfolding decrypt
  decrypt-IsAuthentic service encrypted_text context text = (
    (λ opened.
        subst (λ s. IsAuthentic service s context text) (join_colon-split_colon encrypted_text)
          (open_parts-ok service context text (split_colon encrypted_text)
            (all-split_colon encrypted_text) opened)),
    IsAuthentic-decrypt service encrypted_text context text,
  )
