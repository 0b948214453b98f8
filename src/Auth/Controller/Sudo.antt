-- ===== src/Auth/Controller/Sudo.antt =====
-- backend/src/auth/auth.controller.ts: `sudo`, the step up to the admin mode, and what proves it.
use open_bastion.Base.{
  Bool, List, Option, String, bad_request, err, false, forbidden, get_or, if◌then◌else◌, length,
  none, ok, some, true, unauthorized, ℕ, ◌==◌, ◌=s=◌,
}
use open_bastion.Schema.{User, AuthMethod, local, ldap, oidc}
use open_bastion.Rbac.{is_admin}
use open_bastion.Auth.AuthService.{non_empty}
use open_bastion.Auth.Guards.{RequestUser}
use open_bastion.Auth.Identity.{Lookup, bound, refused, unsettled}
use open_bastion.Auth.Controller.{
  Platform, Drawn, World, Outcome, Cookie, guarded, after_otp, open_session, unanswered,
}

-- The body of the request: `code` and `password`.
pub record SudoDto : Type 0 where
  pub code : Option (List ℕ)
  pub password : Option String

-- `user.username ?? user.email`, then the test that it is not empty.
abbrev pub ldap_identifier : User → Option String
ldap_identifier user = non_empty (some (get_or user.username user.email))

module _ (p : Platform) where
  -- A local account without one-time codes.
  unfoldable pub sudo_local : Drawn → String → User → Option String → World p → Outcome p
  sudo_local d id user password w = elim (non_empty password) [
    | none ↦ (w, err bad_request)
    | some pass ↦ elim (non_empty user.password_hash) [
      | none ↦ (w, err unauthorized)
      | some hash ↦
          if p.argon2.verify hash pass
          then open_session p d id user true w
          else (w, err bad_request)
    ]
  ]

  -- After the directory has answered.
  unfoldable pub on_rebound : Drawn → String → User → Lookup → World p → Outcome p
  on_rebound d id user (bound bound_id _) w =
      if bound_id =s= id then open_session p d id user true w else (w, err forbidden)
  on_rebound d id user refused w = (w, err bad_request)
  on_rebound d id user unsettled w = (w, ok unanswered)

  unfoldable pub rebind : Drawn → String → User → String → String → String → World p → Outcome p
  unfolding on_rebound
  rebind d id user provider identifier pass w =
      let (users', found) =
        p.ldap.authenticate d.fresh provider identifier pass w.providers w.users in
      on_rebound d id user found (record w { users = users' })

  -- A directory account without one-time codes.
  unfoldable pub sudo_ldap : Drawn → String → User → Option String → World p → Outcome p
  unfolding rebind
  sudo_ldap d id user password w = elim (non_empty password) [
    | none ↦ (w, err bad_request)
    | some pass ↦ elim (non_empty user.auth_provider_id) [
      | none ↦ (w, err forbidden)
      | some provider ↦ elim (ldap_identifier user) [
        | none ↦ (w, err forbidden)
        | some identifier ↦ rebind d id user provider identifier pass w
      ]
    ]
  ]

  -- With one-time codes, whatever the account's method.
  unfoldable pub sudo_code : Drawn → String → User → Option (List ℕ) → World p → Outcome p
  sudo_code d id user none w = (w, err bad_request)
  sudo_code d id user (some code) w =
      if length code == 0
      then (w, err bad_request)
      else after_otp p d id code (open_session p d id user true) w

  -- By `user.isOtpEnabled` and `user.authMethod`.
  unfoldable pub sudo_by : Drawn → String → User → SudoDto → Bool → AuthMethod → World p → Outcome p
  unfolding sudo_code sudo_local sudo_ldap
  sudo_by d id user body true method w = sudo_code d id user body.code w
  sudo_by d id user body false local w = sudo_local d id user body.password w
  sudo_by d id user body false ldap w = sudo_ldap d id user body.password w
  sudo_by d id user body false oidc w = (w, err forbidden)

  abbrev pub sudo_user : Drawn → String → User → SudoDto → World p → Outcome p
  sudo_user d id user body w = sudo_by d id user body user.is_otp_enabled user.auth_method w

  unfoldable pub sudo_body : Drawn → SudoDto → RequestUser → World p → Outcome p
  unfolding sudo_by
  sudo_body d body u w = elim (p.db.find u.sub w.users) [
    | none ↦ (w, err unauthorized)
    | some user ↦
        if is_admin user.role then sudo_user d u.sub user body w else (w, err unauthorized)
  ]

  unfoldable pub sudo : Drawn → Cookie p → SudoDto → World p → Outcome p
  unfolding sudo_body guarded
  sudo d cookie body = guarded p d "POST" "/auth/sudo" cookie (sudo_body d body)
