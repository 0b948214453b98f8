-- ===== src/Vault/Service/RoundTrip.antt =====
-- What backend/src/vault/vault.service.ts encrypts is decrypted again.
use Prim.Native.Char.{char, code}
use text.Mathlib.TextLemmas.{nil-append, cons-append, cons≢nil, append-ne-nil_of_right_ne-nil}
use Prim.Native.String.{◌++◌ as append}
use open_bastion.Base.{
  Bool-cases, String, [], ap, arith, eq_iff, false, inl, inr, ok, refl, sym, true, ◌==◌, ◌=s=◌, ◌∙◌,
  ◌∷◌, ◌≡◌, ◌≢◌,
}
use open_bastion.Vault.Service.{
  Crypto, split_colon, lacks_colon, VaultService, derive_key, joined, encrypt, open_segments,
  open_parts, decrypt,
}

split_colon-last : (a : String) → lacks_colon a ≡ true → split_colon a ≡ a ∷ []
unfolding split_colon lacks_colon
split_colon-last String.[] free = refl
split_colon-last (String.◌∷◌ c s) free =
    let other : (code c == 58) ≡ false = ground arith in
    let rest : split_colon s ≡ s ∷ [] = split_colon-last s (ground arith) in rw (other, rest) refl

colon-append : (t : String) → append ":" t ≡ String.◌∷◌ (char 58 tt) t
colon-append t = cons-append (char 58 tt) "" t ∙ ap (String.◌∷◌ (char 58 tt)) (nil-append t)

split_colon-append :
    (a t : String)
    → lacks_colon a ≡ true
    → split_colon (append a (append ":" t)) ≡ a ∷ split_colon t
unfolding split_colon lacks_colon
split_colon-append String.[] t free = ap split_colon (nil-append (append ":" t) ∙ colon-append t)
split_colon-append (String.◌∷◌ c s) t free =
    let other : (code c == 58) ≡ false = ground arith in
    let rest : split_colon (append s (append ":" t)) ≡ s ∷ split_colon t =
      split_colon-append s t (ground arith) in
    ap split_colon (cons-append c s (append ":" t)) ∙ rw (other, rest) refl

pub split_colon-joined :
    (iv encrypted tag : String)
    → lacks_colon iv ≡ true
    → lacks_colon encrypted ≡ true
    → lacks_colon tag ≡ true
    → split_colon (append iv (append ":" (append encrypted (append ":" tag))))
      ≡ iv ∷ encrypted ∷ tag ∷ []
split_colon-joined iv encrypted tag free_iv free_encrypted free_tag =
    split_colon-append iv (append encrypted (append ":" tag)) free_iv
    ∙ ap (λ r. iv ∷ r)
        (split_colon-append encrypted tag free_encrypted
          ∙ ap (λ r. encrypted ∷ r) (split_colon-last tag free_tag))

module _ (crypto : Crypto) where
  to_hex-ne-empty : (b : crypto.Buffer) → crypto.size b ≢ 0 → (crypto.to_hex b =s= "") ≡ false
  to_hex-ne-empty b full = elim (Bool-cases (crypto.to_hex b =s= "")) [
    | inr other ↦ other
    | inl same ↦
        elim (full (
          ap crypto.size (
            sym (crypto.from_hex-to_hex b)
            ∙ ap crypto.from_hex ((eq_iff (crypto.to_hex b) "").0 same))
          ∙ crypto.size-from_hex)) [ ]
  ]

  abbrev pub stored : VaultService crypto → crypto.Buffer → String → String → String
  stored service iv text context =
      let sealed = crypto.seal (derive_key crypto service context) iv context text in
      joined crypto (crypto.to_hex iv) sealed.0 (crypto.to_hex sealed.1)

  -- The check of the tag's length never fails.
  pub encrypt-ok :
      (service : VaultService crypto) (iv : crypto.Buffer) (text context : String)
      → encrypt crypto service iv text context ≡ ok (stored service iv text context)
  unfolding encrypt
  encrypt-ok service iv text context =
      rw (crypto.size-seal (derive_key crypto service context) iv context text) refl

  open_segments-seal :
      (service : VaultService crypto) (iv : crypto.Buffer) (text context : String)
      → crypto.size iv ≡ 12
      → open_segments crypto service context iv
          (crypto.seal (derive_key crypto service context) iv context text).0
          (crypto.seal (derive_key crypto service context) iv context text).1
        ≡ ok text
  unfolding open_segments
  open_segments-seal service iv text context drawn =
      let key = derive_key crypto service context in
      rw (crypto.size-seal key iv context text, drawn, crypto.unseal-seal key iv context text drawn)
        refl

  open_parts-to_hex :
      (service : VaultService crypto) (context encrypted : String) (iv tag : crypto.Buffer)
      → crypto.size iv ≢ 0
      → crypto.size tag ≢ 0
      → open_parts crypto service context (crypto.to_hex iv ∷ encrypted ∷ crypto.to_hex tag ∷ [])
        ≡ open_segments crypto service context iv encrypted tag
  unfolding open_parts
  open_parts-to_hex service context encrypted iv tag full_iv full_tag =
      rw
        (
          to_hex-ne-empty iv full_iv,
          to_hex-ne-empty tag full_tag,
          crypto.from_hex-to_hex iv,
          crypto.from_hex-to_hex tag,
        )
        refl

  pub decrypt-stored :
      (service : VaultService crypto) (iv : crypto.Buffer) (text context : String)
      → crypto.size iv ≡ 12
      → decrypt crypto service (stored service iv text context) context ≡ ok text
  unfolding decrypt
  decrypt-stored service iv text context drawn =
      let key = derive_key crypto service context in
      let sealed = crypto.seal key iv context text in
      ap (open_parts crypto service context) (
        split_colon-joined (crypto.to_hex iv) sealed.0 (crypto.to_hex sealed.1)
          (crypto.lacks_colon-to_hex iv) (crypto.lacks_colon-seal key iv context text)
          (crypto.lacks_colon-to_hex sealed.1))
      ∙ open_parts-to_hex service context sealed.0 iv sealed.1 (λ z. ground arith)
          (λ z. ground (arith, crypto.size-seal key iv context text))
      ∙ open_segments-seal service iv text context drawn

  pub stored-ne-empty :
      (service : VaultService crypto) (iv : crypto.Buffer) (text context : String)
      → stored service iv text context ≢ ""
  stored-ne-empty service iv text context empty =
      let key = derive_key crypto service context in
      let sealed = crypto.seal key iv context text in
      append-ne-nil_of_right_ne-nil (crypto.to_hex iv)
        (λ e.
          cons≢nil (sym (colon-append (append sealed.0 (append ":" (crypto.to_hex sealed.1)))) ∙ e))
        empty
