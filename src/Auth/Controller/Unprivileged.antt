-- ===== src/Auth/Controller/Unprivileged.antt =====
-- The logins of backend/src/auth/auth.controller.ts never open a session in the admin mode.
use open_bastion.Base.{
  >>=-eq-ok, Bool, Bool-cases, List, Option-cases, Result-cases, String, arith, false, inl, inr,
  none, ok, or_throw, some, true, unauthorized, ℕ, ◌≡◌, ◌≢◌,
}
use open_bastion.Schema.{User}
use open_bastion.Rbac.{is_admin}
use open_bastion.Auth.Jwt.{Claims, access, partial}
use open_bastion.Auth.RefreshToken.{rotate}
use open_bastion.Auth.Identity.{Lookup, bound, refused, unsettled}
use open_bastion.Auth.Login as auth
use open_bastion.Auth.Controller.{
  Platform, Drawn, World, Cookie, tables_of, session, open_session, on_validated, login,
  login_partial, login_otp, refresh,
}
use open_bastion.Auth.Controller.Sessions.{
  login-elevated, open_session-token, after_otp-eq_ok, only_known-eq_ok, coded,
}
use open_bastion.Auth.Controller.Sudo.{sudo}
use open_bastion.Auth.Controller.SingleSignOn.{CallbackCookies, callback_login, saved_login}

module _ (p : Platform) (later : ℕ) (sub : String) (v : ℕ) (t r : p.jwt.Token)
    (genuine : p.jwt.verify later t ≡ some (access sub v true)) where
  pub opened :
      (d : Drawn) (id : String) (user : User) (b : Bool) (w : World p)
      → (open_session p d id user b w).1 ≡ ok (session t r)
      → (id ≡ sub) × (is_admin user.role ≡ true) × (b ≡ true)
  opened d id user b w h =
      login-elevated p.jwt d.now later id user b sub v
        (rw (open_session-token p d id user b w t r h) genuine)

  pub never_opened :
      (d : Drawn) (id : String) (user : User) (w : World p)
      → (open_session p d id user false w).1 ≢ ok (session t r)
  never_opened d id user w h = ground (arith, opened d id user false w h)

  on_validated-unprivileged :
      (d : Drawn) (found : Lookup) (w : World p) → (on_validated p d found w).1 ≢ ok (session t r)
  unfolding on_validated
  on_validated-unprivileged d (bound id user) w h = elim (Bool-cases user.is_otp_enabled) [
    | inl e ↦ cc (rw (on_validated, e) at h)
    | inr e ↦ never_opened d id user w (rw (on_validated, e) at h)
  ]
  on_validated-unprivileged d refused w h = cc
  on_validated-unprivileged d unsettled w h = cc

  pub login-unprivileged :
      (d : Drawn) (provider identifier pass : String) (w : World p)
      → (login p d provider identifier pass w).1 ≢ ok (session t r)
  unfolding login
  login-unprivileged d provider identifier pass w =
      on_validated-unprivileged d
        (auth.validate_user p.db p.argon2 p.ldap d.fresh provider identifier pass w.providers
          w.users).1
        (record w {
          users =
              (auth.validate_user p.db p.argon2 p.ldap d.fresh provider identifier pass w.providers
                w.users).0;
        })

  login_partial-unprivileged :
      (d : Drawn) (payload : Claims) (code : List ℕ) (w : World p)
      → (login_partial p d payload code w).1 ≢ ok (session t r)
  unfolding login_partial
  login_partial-unprivileged d (partial id) code w h = elim (Option-cases (p.db.find id w.users)) [
    | inl e ↦ cc (rw (login_partial, e) at h)
    | inr (user, e) ↦
        never_opened d id user (coded p d id code w)
          (after_otp-eq_ok p d id code (open_session p d id user false) w (session t r)
            (rw (login_partial, e) at h)).1
  ]
  login_partial-unprivileged d (access id version sudo) code w h = cc
  login_partial-unprivileged d (Claims.refresh id jti) code w h = cc
  login_partial-unprivileged d Claims.other code w h = cc

  pub login_otp-unprivileged :
      (d : Drawn) (token : p.jwt.Token) (code : List ℕ) (w : World p)
      → (login_otp p d token code w).1 ≢ ok (session t r)
  unfolding login_otp
  login_otp-unprivileged d token code w h = elim (Option-cases (p.jwt.verify d.now token)) [
    | inl e ↦ cc (rw (login_otp, e) at h)
    | inr (payload, e) ↦
        login_partial-unprivileged d payload code w
          (only_known-eq_ok p _ (session t r) (rw (login_otp, e) at h))
  ]

  pub refresh-unprivileged :
      (d : Drawn) (cookie : Cookie p) (w : World p) → (refresh p d cookie w).1 ≢ ok (session t r)
  unfolding refresh
  refresh-unprivileged d none w h = cc
  refresh-unprivileged d (some token) w h =
      let (found, _, h1) = >>=-eq-ok (rotate p.db p.jwt d.now d.jti token (tables_of p w)).1 _ h in
      let (user, _, h2) =
        >>=-eq-ok
          (or_throw
            (p.db.find found.0 (rotate p.db p.jwt d.now d.jti token (tables_of p w)).0.users)
            unauthorized)
          _ h1 in
      let same : auth.login p.jwt d.now found.0 user false ≡ t = cc in
      ground (arith, login-elevated p.jwt d.now later found.0 user false sub v (rw same genuine))

  pub callback_login-unprivileged :
      (d : Drawn) (cookies : CallbackCookies) (state url : String) (w : World p)
      → (callback_login p d cookies state url w).1 ≢ ok (session t r)
  unfolding callback_login
  callback_login-unprivileged d cookies state url w h =
      elim (Result-cases (saved_login p cookies state)) [
        | inl (why, e) ↦ cc (rw (callback_login, e) at h)
        | inr ((verifier, provider), e) ↦
            elim (Option-cases
              (p.oidc.validate_callback d.fresh provider url state cookies.login.nonce verifier
                w.providers w.users).1) [
                  | inl f ↦ cc (rw (callback_login, e, f) at h)
                  | inr ((id, user), f) ↦ never_opened d id user _ (rw (callback_login, e, f) at h)
                ]
      ]
