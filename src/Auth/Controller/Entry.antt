-- ===== src/Auth/Controller/Entry.antt =====
-- What a login through backend/src/auth/auth.controller.ts leads to at the guard.
use open_bastion.Base.{
  Bool-cases, Option-cases, String, ap, arith, err, false, if_false, if_true, inl, inr, none, not,
  ok, refl, some, sym, true, unauthorized, ℕ, ◌+◌, ◌/◌, ◌<◌, ◌==◌, ◌||◌, ◌∙◌, ◌≡◌,
}
use open_bastion.Constants.{jwt_expiration_seconds, jwt_refresh_expiration_seconds}
use open_bastion.Database.{Database}
use open_bastion.Schema.{User, BlacklistedToken}
use open_bastion.Users.{find_one_by_email_or_username}
use open_bastion.Auth.Jwt.{Jwt, Claims, access, partial}
use open_bastion.Auth.TokenBlacklist.{is_blacklisted}
use open_bastion.Auth.RefreshToken.{create}
use open_bastion.Auth.Guards.{RequestUser, jwt_can_activate, is_allowed_while_rotating}
use open_bastion.Auth.Identity.{bound}
use open_bastion.Auth.Login as auth
use open_bastion.Auth.Login.{access_claims, local_hash, validate_local}
use open_bastion.Auth.Controller.{
  Platform, Drawn, World, session, requires_otp, open_session, on_validated, login, partial_ttl,
}
use open_bastion.Auth.Controller.Sessions.{sign-injective}

same_number : (n : ℕ) → (n == n) ≡ true
same_number n = ground arith

plain_claims :
    (id : String) (user : User) → access_claims id user false ≡ access id user.token_version false
unfolding access_claims
plain_claims id user = ground arith

-- `req.user` of a user without the admin mode.
abbrev pub user_of : String → User → RequestUser
user_of id user = record {
  sub = id;
  email = user.email;
  username = user.username;
  role = user.role;
  auth_method = user.auth_method;
  auth_provider_id = user.auth_provider_id;
  requires_password_change = user.requires_password_change;
  is_otp_enabled = user.is_otp_enabled;
  is_admin_mode = false;
}

module _ (db : Database) (jwt : Jwt) where
  login_verified :
      (now later : ℕ) (id : String) (user : User)
      → later / 1000 < now / 1000 + jwt_expiration_seconds
      → jwt.verify later (auth.login jwt now id user false)
        ≡ some (access id user.token_version false)
  unfolding auth.login
  login_verified now later id user early =
      jwt.verify-sign now later jwt_expiration_seconds (access_claims id user false) early
      ∙ ap some (plain_claims id user)

  -- The guard lets a request with a fresh token of a user in, without the admin mode, as long as
  -- the user is there at the version of the token.
  pub login-admitted :
      (now later : ℕ) (id : String) (user current : User) (method pathname : String)
      (blacklist : db.State BlacklistedToken) (users : db.State User)
      → later / 1000 < now / 1000 + jwt_expiration_seconds
      → db.find id users ≡ some current
      → current.token_version ≡ user.token_version
      → is_blacklisted db jwt later (auth.login jwt now id user false) blacklist ≡ false
      → (not current.requires_password_change || is_allowed_while_rotating method pathname) ≡ true
      → jwt_can_activate db jwt later
          (record {
            method = method;
            pathname = pathname;
            cookie = some (auth.login jwt now id user false);
          })
          blacklist
          users
        ≡ ok (user_of id current)
  unfolding jwt_can_activate
  login-admitted now later id user current method pathname blacklist users early known version fresh
        open_route =
      rw
        (
          login_verified now later id user early,
          fresh,
          known,
          version,
          same_number user.token_version,
          open_route,
        )
        refl

module _ (db : Database) (jwt : Jwt) where
  not_current :
      (later : ℕ) (id method pathname : String) (token : jwt.Token)
      (blacklist : db.State BlacklistedToken) (users : db.State User)
      → jwt.verify later token ≡ some (partial id)
      → jwt_can_activate db jwt later
          (record { method = method; pathname = pathname; cookie = some token })
          blacklist
          users
        ≡ err unauthorized
  unfolding jwt_can_activate
  not_current later id method pathname token blacklist users e =
      elim (Bool-cases (is_blacklisted db jwt later token blacklist)) [
        | inl listed ↦ rw (jwt_can_activate, e, listed) refl
        | inr free ↦ elim (Option-cases (db.find id users)) [
          | inl gone ↦ rw (jwt_can_activate, e, free, gone) refl
          | inr (user, found) ↦ rw (jwt_can_activate, e, free, found) refl
        ]
      ]

  partial_refused :
      (now later ttl : ℕ) (id method pathname : String) (blacklist : db.State BlacklistedToken)
      (users : db.State User)
      → 0 < ttl
      → jwt_can_activate db jwt later
          (record {
            method = method;
            pathname = pathname;
            cookie = some (jwt.sign now ttl (partial id));
          })
          blacklist
          users
        ≡ err unauthorized
  unfolding jwt_can_activate
  partial_refused now later ttl id method pathname blacklist users h =
      elim (Option-cases (jwt.verify later (jwt.sign now ttl (partial id)))) [
        | inl e ↦ rw (jwt_can_activate, e) refl
        | inr (c, e) ↦
            not_current later id method pathname (jwt.sign now ttl (partial id)) blacklist users
              (e ∙ ap some (sym (sign-injective jwt now later ttl (partial id) c h e)))
      ]

module _ (p : Platform) where
  login-validated :
      (d : Drawn) (identifier pass id hash : String) (user : User) (w : World p)
      → find_one_by_email_or_username p.db identifier w.users ≡ some (id, user)
      → local_hash user ≡ some hash
      → p.argon2.verify hash pass ≡ true
      → login p d "local" identifier pass w ≡ on_validated p d (bound id user) w
  unfolding login auth.validate_user
  login-validated d identifier pass id hash user w named has_hash right =
      ap (λ found. on_validated p d found w) found_it
    where
      found_it : validate_local p.db p.argon2 identifier pass w.users ≡ bound id user
      found_it = rw (validate_local, named, has_hash, right) refl

  -- The state and the answer of `open_session` where the drawn id is not in use.
  open_session_ok :
      (d : Drawn) (id : String) (user : User) (w : World p)
      → p.db.find d.jti w.tokens ≡ none
      → open_session p d id user false w ≡ (
        record w { tokens = (create p.db p.jwt d.now d.jti id w.tokens).0 },
        ok (
            session
              (auth.login p.jwt d.now id user false)
              (p.jwt.sign d.now jwt_refresh_expiration_seconds (Claims.refresh id d.jti))),
      )
  unfolding open_session create
  open_session_ok d id user w unused = rw (open_session, create, unused) refl

  -- A local account without one-time codes whose password is given to the login gets a session, if
  -- the id drawn for the refresh token is not in use. Until the access token expires, in whole
  -- seconds, the guard lets a request with it in as the account's user, without the admin mode,
  -- whatever the tables hold by then, if the account is still there at its token version and the
  -- token is not blacklisted; to any route, or while a password change is pending to the allowed.
  pub login_enters :
      (d : Drawn) (identifier pass id hash : String) (user current : User) (w : World p) (later : ℕ)
      (method pathname : String) (blacklist : p.db.State BlacklistedToken) (users : p.db.State User)
      → find_one_by_email_or_username p.db identifier w.users ≡ some (id, user)
      → local_hash user ≡ some hash
      → p.argon2.verify hash pass ≡ true
      → user.is_otp_enabled ≡ false
      → p.db.find d.jti w.tokens ≡ none
      → later / 1000 < d.now / 1000 + jwt_expiration_seconds
      → p.db.find id users ≡ some current
      → current.token_version ≡ user.token_version
      → is_blacklisted p.db p.jwt later (auth.login p.jwt d.now id user false) blacklist ≡ false
      → (not current.requires_password_change || is_allowed_while_rotating method pathname) ≡ true
      → (token refresh : p.jwt.Token) × ((login p d "local" identifier pass w).1
          ≡ ok (session token refresh))
        × (jwt_can_activate p.db p.jwt later
              (record { method = method; pathname = pathname; cookie = some token })
              blacklist
              users
            ≡ ok (user_of id current))
  unfolding on_validated
  login_enters d identifier pass id hash user current w later method pathname blacklist users named
        has_hash right no_codes unused early known version fresh open_route =
      let done =
        login-validated d identifier pass id hash user w named has_hash right
        ∙ if_false user.is_otp_enabled _ _ no_codes
        ∙ open_session_ok d id user w unused in
      (
        auth.login p.jwt d.now id user false,
        p.jwt.sign d.now jwt_refresh_expiration_seconds (Claims.refresh id d.jti),
        ap (λ x. x.1) done,
        login-admitted p.db p.jwt d.now later id user current method pathname blacklist users early
            known version fresh open_route,
      )

  -- With one-time codes the password opens no session: the answer is a token that the guard refuses
  -- at any time, on any route, whatever the tables hold by then.
  pub login_waits :
      (d : Drawn) (identifier pass id hash : String) (user : User) (w : World p)
      → find_one_by_email_or_username p.db identifier w.users ≡ some (id, user)
      → local_hash user ≡ some hash
      → p.argon2.verify hash pass ≡ true
      → user.is_otp_enabled ≡ true
      → (token : p.jwt.Token) × (login p d "local" identifier pass w ≡ (w, ok (requires_otp token)))
        × ((later : ℕ) (method pathname : String) (blacklist : p.db.State BlacklistedToken)
              (users : p.db.State User)
            → jwt_can_activate p.db p.jwt later
                (record { method = method; pathname = pathname; cookie = some token })
                blacklist
                users
              ≡ err unauthorized)
  unfolding on_validated
  login_waits d identifier pass id hash user w named has_hash right codes = (
    p.jwt.sign d.now (partial_ttl p) (partial id),
    login-validated d identifier pass id hash user w named has_hash right
        ∙ if_true user.is_otp_enabled _ _ codes,
    λ later method pathname blacklist users.
        partial_refused p.db p.jwt d.now later (partial_ttl p) id method pathname blacklist users
          (omega arith),
  )
