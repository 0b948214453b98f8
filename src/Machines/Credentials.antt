-- ===== src/Machines/Credentials.antt =====
-- The secrets of backend/src/machines/machines.service.ts.
use open_bastion.Base.{
  Option, String, ap, arith, eq_iff, eq_refl, none, ok, refl, some, ◌∙◌, ◌≡◌, ◌≢◌,
}
use open_bastion.Database.{Database}
use open_bastion.Schema.{Machine}
use open_bastion.Vault.{Vault}
use open_bastion.Machines.{
  Secret, Credential, Vectors, Fleet, provided, encrypted, decrypted, create_machine,
  get_decrypted_secret, open_row,
}

module _ (db : Database) (vault : Vault) where
  decrypted-encrypted :
      (vector id : String) (value : Option String)
      → decrypted vault id (encrypted vault vector id value) ≡ some (provided value)
  decrypted-encrypted vector id none = refl
  decrypted-encrypted vector id (some t) = ground (
    arith,
    vault.decrypt-encrypt vector t id,
    vault.encrypt-ne-empty vector t id,
    eq_iff t "",
    eq_iff (vault.encrypt vector t id) "",
  )

  -- The row that `createMachine` writes.
  abbrev sealed : String → Vectors → Credential → Secret
  sealed id vectors c = record {
    encrypted_username = vault.encrypt vectors.first c.username id;
    encrypted_password = encrypted vault vectors.second id c.password;
    encrypted_private_key = encrypted vault vectors.third id c.private_key;
  }

  abbrev pub as_read : Credential → Credential
  as_read c = record c { password = provided c.password; private_key = provided c.private_key }

  open_row-sealed :
      (id : String) (vectors : Vectors) (c : Credential)
      → open_row db vault id (some (sealed id vectors c)) ≡ ok (as_read c)
  unfolding open_row
  open_row-sealed id vectors c =
      rw
        (
          vault.decrypt-encrypt vectors.first c.username id,
          decrypted-encrypted vectors.second id c.password,
          decrypted-encrypted vectors.third id c.private_key,
          open_row,
        )
        refl

  -- What was stored under a machine's id is read back, an empty part as a missing one; no other
  -- machine's secret changes.
  pub create_machine-get :
      (id : String) (vectors : Vectors) (machine : Machine) (c : Credential) (s : Fleet db vault)
      → let s' = create_machine db vault id vectors machine c s in
        (get_decrypted_secret db vault id s' ≡ ok (as_read c))
        × ((other : String)
            → other ≢ id
            → get_decrypted_secret db vault other s' ≡ get_decrypted_secret db vault other s)
  unfolding create_machine get_decrypted_secret
  create_machine-get id vectors machine c s =
      let rows = db.put id (sealed id vectors c) s.secrets in
      let own : db.find id rows ≡ some (sealed id vectors c) =
        (db.find-put id id (sealed id vectors c) s.secrets ∙ ground (arith, eq_refl id)) in
      let apart : (other : String) → other ≢ id → db.find other rows ≡ db.find other s.secrets =
        (λ other away.
          db.find-put other id (sealed id vectors c) s.secrets ∙ ground (arith, eq_iff id other)) in
      (
        ap (λ o. open_row db vault id o) own ∙ open_row-sealed id vectors c,
        λ other away. ap (λ o. open_row db vault other o) (apart other away),
      )
