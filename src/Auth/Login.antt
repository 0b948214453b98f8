-- ===== src/Auth/Login.antt =====
-- backend/src/auth/auth.service.ts: the passwords and the access token, and findEnabledById of
-- backend/src/auth/auth-providers.service.ts.
pub mod Passwords
use open_bastion.Base.{
  Bool, Option, Result, String, bad_request, err, false, if◌then◌else◌, internal_server_error, none,
  ok, some, unauthorized, ℕ, ◌=s=◌,
}
use open_bastion.Constants.{jwt_expiration_seconds}
use open_bastion.Database.{Database}
use open_bastion.Schema.{User, local, AuthProvider, ldap_provider, oidc_provider}
use open_bastion.Rbac.{is_admin}
use open_bastion.Users.{find_one_by_email_or_username, method_eq}
use open_bastion.Auth.Jwt.{Jwt, Claims, access}
use open_bastion.Auth.AuthService.{non_empty}
use open_bastion.Auth.Identity.{Argon2, Lookup, bound, refused, Ldap}

-- The payload that `login` signs.
unfoldable pub access_claims : String → User → Bool → Claims
access_claims id user is_admin_mode =
    access id user.token_version (if is_admin user.role then is_admin_mode else false)

-- `user.authMethod === LOCAL && user.passwordHash`
abbrev pub local_hash : User → Option String
local_hash user = if method_eq user.auth_method local then non_empty user.password_hash else none

module _ (jwt : Jwt) where
  unfoldable pub login : ℕ → String → User → Bool → jwt.Token
  unfolding access_claims
  login now id user is_admin_mode =
      jwt.sign now jwt_expiration_seconds (access_claims id user is_admin_mode)

module _ (db : Database) where
  unfoldable pub find_enabled_by_id : String → db.State AuthProvider → Option AuthProvider
  find_enabled_by_id id providers = elim (db.find id providers) [
    | none ↦ none
    | some provider ↦ if provider.enabled then some provider else none
  ]

  module _ (argon2 : Argon2) where
    -- The branch for `local`. On a miss a dummy hash is checked, and the answer not used.
    unfoldable pub validate_local : String → String → db.State User → Lookup
    validate_local identifier pass users =
        elim (find_one_by_email_or_username db identifier users) [
          | none ↦ refused
          | some (id, user) ↦ elim (local_hash user) [
            | none ↦ refused
            | some hash ↦ if argon2.verify hash pass then bound id user else refused
          ]
        ]

    unfoldable pub update_user_password :
        String → String → String → db.State User → db.State User × Result (Unit {0})
    update_user_password salt id new users = elim (db.find id users) [
      | none ↦ (users, err internal_server_error)
      | some user ↦ (
        db.put id
            (record user {
              password_hash = some (argon2.hash salt new);
              requires_password_change = false;
            })
            users,
        ok tt,
      )
    ]

    unfoldable pub change_password :
        String → String → String → String → db.State User → db.State User × Result (Unit {0})
    unfolding update_user_password
    change_password salt id current new users = elim (db.find id users) [
      | none ↦ (users, err bad_request)
      | some user ↦ elim (local_hash user) [
        | none ↦ (users, err bad_request)
        | some hash ↦
            if argon2.verify hash current
            then update_user_password salt id new users
            else (users, err unauthorized)
      ]
    ]

    module _ (directory : Ldap db) where
      unfoldable pub validate_user :
          (ℕ → String)
          → String
          → String
          → String
          → db.State AuthProvider
          → db.State User
          → db.State User × Lookup
      unfolding validate_local find_enabled_by_id
      validate_user fresh provider identifier pass providers users =
          if provider =s= "local"
          then (users, validate_local identifier pass users)
          else if identifier =s= ""
          then (users, refused)
          else elim (find_enabled_by_id provider providers) [
            | none ↦ (users, refused)
            | some row ↦ elim row.provider_type [
              | ldap_provider ↦
                  directory.authenticate fresh provider identifier pass providers users
              | oidc_provider ↦ (users, refused)
            ]
          ]
