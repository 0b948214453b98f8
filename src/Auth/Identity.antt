-- ===== src/Auth/Identity.antt =====
-- What the authentication asks of the outside: argon2, and the services of backend/src/auth/
-- ldap.service.ts and oidc.service.ts, which call a directory or an identity provider. `fresh`
-- supplies the ids that the database draws for new accounts and groups.
use open_bastion.Base.{Bool, Option, String, false, some, true, ℕ, ◌=s=◌, ◌≡◌}
use open_bastion.Database.{Database}
use open_bastion.Schema.{User, AuthProvider}

-- `argon2.hash` with the salt that it draws, and `argon2.verify`.
pub record Argon2 : Type 1 where
  pub hash : String → String → String
  pub verify : String → String → Bool
  pub verify-hash : (salt pass : String) → verify (hash salt pass) pass ≡ true
  pub hash-ne-empty : (salt pass : String) → (hash salt pass =s= "") ≡ false

-- How a promise of an account ends: with the account (and its id), with null, or not at all.
pub data Lookup : Type 0 where
  bound : String → User → Lookup
  refused unsettled : Lookup

module _ (db : Database) where
  -- The account is that of the table but for the groups, which a login may add to.
  abbrev pub IsCurrent : String → User → db.State User → Type 0
  IsCurrent id u users =
      (row : User) × (db.find id users ≡ some row) × (row ≡ record u { groups = row.groups })

  pub record Ldap : Type 1 where
    -- `authenticate(providerId, username, pass)`
    pub authenticate :
        (ℕ → String)
        → String
        → String
        → String
        → db.State AuthProvider
        → db.State User
        → db.State User × Lookup
    pub authenticate-IsCurrent :
        (fresh : ℕ → String) (provider name pass : String) (providers : db.State AuthProvider)
        (users : db.State User) (id : String) (u : User)
        → (authenticate fresh provider name pass providers users).1 ≡ bound id u
        → IsCurrent id u (authenticate fresh provider name pass providers users).0

  pub record Oidc : Type 1 where
    -- `getAuthorizationUrl`, the flag being `prompt: 'login'`
    pub get_authorization_url :
        String → String → String → String → Bool → db.State AuthProvider → Option String
    -- `verifyCallbackClaims`: the `sub` of the verified user info
    pub verify_callback_claims :
        String → String → String → Option String → String → db.State AuthProvider → Option String
    -- `validateCallback`: `none` for null
    pub validate_callback :
        (ℕ → String)
        → String
        → String
        → String
        → Option String
        → String
        → db.State AuthProvider
        → db.State User
        → db.State User × Option (String × User)
    pub validate_callback-IsCurrent :
        (fresh : ℕ → String) (provider url state : String) (nonce : Option String)
        (verifier : String) (providers : db.State AuthProvider) (users : db.State User)
        (id : String) (u : User)
        → (validate_callback fresh provider url state nonce verifier providers users).1
          ≡ some (id, u)
        → IsCurrent id u
            (validate_callback fresh provider url state nonce verifier providers users).0
