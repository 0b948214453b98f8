-- ===== src/Auth/Controller/Trace.antt =====
-- The routes of backend/src/auth/auth.controller.ts as calls, and what a run of them has issued.
use open_bastion.Base.{
  List, Memᴰ, Option, Result, String, [], get_or, none, ok, some, true, ℕ, ◌++◌, ◌∷◌, ◌≡◌,
}
use open_bastion.Schema.{User, local, ldap}
use open_bastion.Rbac.{is_admin}
use open_bastion.Auth.Jwt.{Claims}
use open_bastion.Auth.AuthService.{verify_otp}
use open_bastion.Auth.Identity.{bound}
use open_bastion.Auth.Controller.{
  Platform, Drawn, World, Reply, Outcome, Cookie, service_of, session, login, login_otp, refresh,
  enable, disable, logout, change_password,
}
use open_bastion.Auth.Controller.Sudo.{SudoDto, sudo}
use open_bastion.Auth.Controller.SingleSignOn.{
  CallbackCookies, Challenge, oidc_login_for_provider, sudo_oidc_start, oidc_callback,
}

module _ (p : Platform) where
  pub data Call : Type 0 where
    log_in : String → String → String → Call
    log_in_otp : p.jwt.Token → List ℕ → Call
    refreshes : Cookie p → Call
    steps_up : Cookie p → SudoDto → Call
    enables : Cookie p → List ℕ → Call
    disables : Cookie p → List ℕ → Call
    logs_out : Cookie p → Call
    changes_password : Cookie p → String → String → Call
    starts_login : String → Challenge → Call
    starts_sudo : Cookie p → String → Challenge → Call
    returns : CallbackCookies → Option String → String → Call

  unfoldable pub run : Drawn → Call → World p → Outcome p
  run d (log_in provider identifier pass) w = login p d provider identifier pass w
  run d (log_in_otp token code) w = login_otp p d token code w
  run d (refreshes cookie) w = refresh p d cookie w
  run d (steps_up cookie body) w = sudo p d cookie body w
  run d (enables cookie code) w = enable p d cookie code w
  run d (disables cookie code) w = disable p d cookie code w
  run d (logs_out cookie) w = logout p d cookie w
  run d (changes_password cookie current new) w = change_password p d cookie current new w
  run d (starts_login provider c) w = oidc_login_for_provider p provider c w
  run d (starts_sudo cookie provider c) w = sudo_oidc_start p d cookie provider c w
  run d (returns cookies state url) w = oidc_callback p d cookies state url w

  -- The cookie `jwt` of a call to a route behind the guard that may issue a token.
  abbrev pub cookie_of : Call → Cookie p
  cookie_of (enables cookie code) = cookie
  cookie_of (disables cookie code) = cookie
  cookie_of _ = none

  abbrev pub issued_by : Result (Reply p) → List p.jwt.Token
  issued_by (ok (session token refresh)) = token ∷ []
  issued_by _ = []

  pub record Event : Type 0 where
    pub drawn : Drawn
    pub call : Call
    pub world : World p

  -- What a call shows of its user, the administrator `id` with the row `user`.
  pub data Evidence (e : Event) (id : String) (user : User) : Type 0 where
    by_code :
        (cookie : Cookie p) (body : SudoDto) (code : List ℕ)
        → e.call ≡ steps_up cookie body
        → body.code ≡ some code
        → user.is_otp_enabled ≡ true
        → (verify_otp p.db p.vault p.hmac_sha1 e.drawn.now id e.drawn.vector code
            (service_of p e.world)).1
          ≡ ok true
        → Evidence e id user
    by_password :
        (cookie : Cookie p) (body : SudoDto) (pass hash : String)
        → e.call ≡ steps_up cookie body
        → body.password ≡ some pass
        → user.auth_method ≡ local
        → user.password_hash ≡ some hash
        → p.argon2.verify hash pass ≡ true
        → Evidence e id user
    by_directory :
        (cookie : Cookie p) (body : SudoDto) (pass provider identifier : String) (found : User)
        → e.call ≡ steps_up cookie body
        → body.password ≡ some pass
        → user.auth_method ≡ ldap
        → user.auth_provider_id ≡ some provider
        → get_or user.username user.email ≡ identifier
        → (p.ldap.authenticate e.drawn.fresh provider identifier pass e.world.providers
            e.world.users).1
          ≡ bound id found
        → Evidence e id user
    by_provider :
        (cookies : CallbackCookies) (state url provider verifier sub : String)
        → e.call ≡ returns cookies (some state) url
        → cookies.sudo.state ≡ some state
        → cookies.sudo.provider_id ≡ some provider
        → p.oidc.verify_callback_claims provider url state cookies.sudo.nonce verifier
            e.world.providers
          ≡ some sub
        → user.external_id ≡ some sub
        → Evidence e id user

  -- The call proves the identity of the administrator `id`.
  pub record HasProved (e : Event) (id : String) : Type 0 where
    pub user : User
    pub known : p.db.find id e.world.users ≡ some user
    pub privileged : is_admin user.role ≡ true
    pub evidence : Evidence e id user

  -- The calls so far, and the access tokens that they issued. Between two calls anything else may
  -- change the tables. Nobody can forge a token: a cookie that verifies was issued before.
  pub data Reach : List Event → List p.jwt.Token → Type 0 where
    start : Reach [] []
    call :
        {events : List Event} {issued : List p.jwt.Token} (d : Drawn) (c : Call) (w : World p)
        → Reach events issued
        → ((token : p.jwt.Token) (claims : Claims)
            → cookie_of c ≡ some token
            → p.jwt.verify d.now token ≡ some claims
            → Memᴰ token issued)
        → Reach
            ((record { drawn = d; call = c; world = w }) ∷ events)
            (issued_by (run d c w).1 ++ issued)
