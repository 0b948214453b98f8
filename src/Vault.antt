-- ===== src/Vault.antt =====
-- What the clients of backend/src/vault/vault.service.ts rely on: AES-256-GCM under a key derived
-- from the context, the drawn vector being an argument of `encrypt`.
pub mod Service
use open_bastion.Base.{String, Option, some, ◌≡◌, ◌≢◌, refl}

pub record Vault : Type 0 where
  pub encrypt : String → String → String → String
  -- `none` is the exception on a wrong format, context or tag.
  pub decrypt : String → String → Option String
  pub decrypt-encrypt :
      (vector text context : String) → decrypt (encrypt vector text context) context ≡ some text
  -- an initialisation vector, the text and the tag with colons between
  pub encrypt-ne-empty :
      (vector text context : String) → text ≢ "" → encrypt vector text context ≢ ""

-- A vault that hides nothing.
abbrev pub plain_vault : Vault
plain_vault = record {
  encrypt = λ vector text context. text;
  decrypt = λ encrypted context. some encrypted;
  decrypt-encrypt = λ vector text context. refl;
  encrypt-ne-empty = λ vector text context full. full;
}
