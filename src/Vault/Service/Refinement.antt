-- ===== src/Vault/Service/Refinement.antt =====
-- backend/src/vault/vault.service.ts implements the interface that its clients use.
use open_bastion.Base.{
  Bool, Bool-cases, List, Option, Result, String, [], ap, err, false, get_or, if◌then◌else◌, inl,
  inr, internal_server_error, none, not, ok, or_throw, refl, some, sym, true, ◌==◌, ◌=s=◌, ◌||◌,
  ◌∙◌, ◌∷◌, ◌≡◌,
}
use open_bastion.Vault.{Vault}
use open_bastion.Vault.Service.RoundTrip.{stored, encrypt-ok, decrypt-stored, stored-ne-empty}
use open_bastion.Vault.Service.{
  Crypto, split_colon, VaultService, derive_key, encrypt, open_segments, open_parts, decrypt,
}

-- An exception as `none`.
abbrev value_of : Result String → Option String
value_of (ok t) = some t
value_of (err why) = none

or_throw-value_of :
    (b c : Bool) (opened : Option String)
    → let checked : Result String =
        if b
        then err internal_server_error
        else if c
        then err internal_server_error
        else or_throw opened internal_server_error in
      or_throw (value_of checked) internal_server_error ≡ checked
or_throw-value_of true c opened = refl
or_throw-value_of false true opened = refl
or_throw-value_of false false none = refl
or_throw-value_of false false (some t) = refl

module _ (crypto : Crypto) where
  or_throw-value_of_segments :
      (service : VaultService crypto) (context encrypted : String) (iv tag : crypto.Buffer)
      → or_throw
          (value_of (open_segments crypto service context iv encrypted tag))
          internal_server_error
        ≡ open_segments crypto service context iv encrypted tag
  unfolding open_segments
  or_throw-value_of_segments service context encrypted iv tag =
      or_throw-value_of (not (crypto.size tag == 16)) (not (crypto.size iv == 12))
        (crypto.unseal (derive_key crypto service context) iv context tag encrypted)

  or_throw-value_of_parts :
      (service : VaultService crypto) (context : String) (parts : List String)
      → or_throw (value_of (open_parts crypto service context parts)) internal_server_error
        ≡ open_parts crypto service context parts
  unfolding open_parts
  or_throw-value_of_parts service context (iv ∷ encrypted ∷ tag ∷ []) =
      elim (Bool-cases (iv =s= "" || tag =s= "")) [
        | inl lacking ↦ rw lacking refl
        | inr full ↦ rw full (
            or_throw-value_of_segments service context encrypted (crypto.from_hex iv)
              (crypto.from_hex tag))
      ]
  or_throw-value_of_parts service context [] = refl
  or_throw-value_of_parts service context (iv ∷ []) = refl
  or_throw-value_of_parts service context (iv ∷ encrypted ∷ []) = refl
  or_throw-value_of_parts service context (iv ∷ encrypted ∷ tag ∷ more ∷ rest) = refl

  module _ (drawn : String → crypto.Buffer)
      (twelve : (name : String) → crypto.size (drawn name) ≡ 12)
      (service : VaultService crypto) where
    abbrev pub encrypt_drawn : String → String → String → String
    encrypt_drawn vector text context =
        get_or (value_of (encrypt crypto service (drawn vector) text context)) ""

    pub encrypt_drawn-stored :
        (vector text context : String)
        → encrypt_drawn vector text context ≡ stored crypto service (drawn vector) text context
    encrypt_drawn-stored vector text context =
        ap (λ r. get_or (value_of r) "") (encrypt-ok crypto service (drawn vector) text context)

    -- The service as its clients see it, the drawn vectors under names.
    unfoldable pub service_vault : Vault
    service_vault = record {
      encrypt = encrypt_drawn;
      decrypt = λ text context. value_of (decrypt crypto service text context);
      decrypt-encrypt = λ vector text context.
          ap (λ t. value_of (decrypt crypto service t context))
            (encrypt_drawn-stored vector text context)
          ∙ ap value_of (decrypt-stored crypto service (drawn vector) text context (twelve vector));
      encrypt-ne-empty = λ vector text context full e.
          stored-ne-empty crypto service (drawn vector) text context
            (sym (encrypt_drawn-stored vector text context) ∙ e);
    }

    -- The interface Vault, with its laws, is what the service gives, for vectors of 12 bytes:
    -- encrypt never throws and gives what the interface says, and decrypt gives the interface's
    -- text, or throws an internal server error where the interface has none.
    pub service_vault-Refines :
        ((vector text context : String)
          → encrypt crypto service (drawn vector) text context
            ≡ ok (service_vault.encrypt vector text context))
        × ((text context : String)
            → decrypt crypto service text context
              ≡ or_throw (service_vault.decrypt text context) internal_server_error)
    unfolding decrypt service_vault
    service_vault-Refines = (
      (λ vector text context.
          encrypt-ok crypto service (drawn vector) text context
          ∙ ap ok (sym (encrypt_drawn-stored vector text context))),
      (λ text context. sym (or_throw-value_of_parts service context (split_colon text))),
    )
