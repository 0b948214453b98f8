-- ===== src/Auth/Controller/Steps.antt =====
-- One call to a route of backend/src/auth/auth.controller.ts that issues a token of the admin mode.
use open_bastion.Base.{
  >>=-eq-ok, Bool-cases, List, Option, Option-cases, Result-cases, String, false, forbidden, guard,
  inl, inr, none, ok, or_throw, some, true, unauthorized, ℕ, ◌≡◌, ◌≢◌, ◌⊎◌,
}
use Prim.Native.String.{◌++◌ as append}
use open_bastion.Rbac.{is_admin}
use open_bastion.Auth.TokenBlacklist.{add}
use open_bastion.Auth.Login as auth
use open_bastion.Auth.Jwt.{access}
use open_bastion.Auth.AuthService.{enable_otp, disable_otp}
use open_bastion.Auth.Guards.{RequestUser, jwt_can_activate}
use open_bastion.Auth.Guards.Admission.{jwt_can_activate-Admitted}
use open_bastion.Auth.Controller.{
  Platform, Drawn, World, Cookie, service_of, session, reopen, enable, disable, logout,
  change_password, enable_as, disable_as, logout_as, change_password_as,
}
use open_bastion.Auth.Controller.Sessions.{guarded-eq_ok}
use open_bastion.Auth.Controller.SingleSignOn.{
  CallbackCookies, Challenge, oidc_login_for_provider, sudo_oidc_start, oidc_callback,
  is_sudo_callback, may_start_sudo, start_sudo_as,
}
use open_bastion.Auth.Controller.Unprivileged.{
  opened, login-unprivileged, login_otp-unprivileged, refresh-unprivileged,
  callback_login-unprivileged,
}
use open_bastion.Auth.Controller.StepUp.{sudo_proved}
use open_bastion.Auth.Controller.Confirmation.{callback_proved}
use open_bastion.Auth.Controller.Trace.{
  Call, run, cookie_of, HasProved, log_in, log_in_otp, refreshes, steps_up, enables, disables,
  logs_out, changes_password, starts_login, starts_sudo, returns,
}

module _ (p : Platform) (later : ℕ) (sub : String) (v : ℕ) (t r : p.jwt.Token)
    (genuine : p.jwt.verify later t ≡ some (access sub v true)) where
  -- The cookie of the call is a token of the admin mode itself.
  abbrev pub IsElevated : Drawn → Cookie p → Type 0
  IsElevated d cookie =
      (token : p.jwt.Token) × (version : ℕ) × (cookie ≡ some token)
      × (p.jwt.verify d.now token ≡ some (access sub version true))

  reopened :
      (d : Drawn) (u : RequestUser) (w : World p)
      → (reopen p d u w).1 ≡ ok (session t r)
      → (u.sub ≡ sub) × (u.is_admin_mode ≡ true)
  unfolding reopen
  reopened d u w h = elim (Option-cases (p.db.find u.sub w.users)) [
    | inl e ↦ cc (rw (reopen, e) at h)
    | inr (user, e) ↦
        let (same, _, sudo) =
          opened p later sub v t r genuine d u.sub user u.is_admin_mode w (rw (reopen, e) at h) in
        (same, sudo)
  ]

  jwt_can_activate-IsElevated :
      (d : Drawn) (method pathname : String) (cookie : Cookie p) (w : World p) (u : RequestUser)
      → jwt_can_activate p.db p.jwt d.now
          (record { method = method; pathname = pathname; cookie = cookie })
          w.blacklist
          w.users
        ≡ ok u
      → (u.sub ≡ sub) × (u.is_admin_mode ≡ true)
      → IsElevated d cookie
  jwt_can_activate-IsElevated d method pathname cookie w u h (same, sudo) =
      let a =
        jwt_can_activate-Admitted p.db p.jwt d.now
          (record { method = method; pathname = pathname; cookie = cookie }) w.blacklist w.users u
          h in
      (a.token, a.version, a.presented, cc a.genuine)

  enable-IsElevated :
      (d : Drawn) (cookie : Cookie p) (code : List ℕ) (w : World p)
      → (enable p d cookie code w).1 ≡ ok (session t r)
      → IsElevated d cookie
  unfolding enable enable_as
  enable-IsElevated d cookie code w h =
      let (u, admitted, k) =
        guarded-eq_ok p d "POST" "/auth/otp/enable" cookie (enable_as p d code) w (session t r) h in
      elim (Result-cases
        (enable_otp p.db p.vault p.hmac_sha1 d.now u.sub d.vector code (service_of p w)).1) [
          | inl (why, e) ↦ cc (rw (enable_as, e) at k)
          | inr (_, e) ↦
              jwt_can_activate-IsElevated d "POST" "/auth/otp/enable" cookie w u admitted
                (reopened d u _ (rw (enable_as, e) at k))
        ]

  disable-IsElevated :
      (d : Drawn) (cookie : Cookie p) (code : List ℕ) (w : World p)
      → (disable p d cookie code w).1 ≡ ok (session t r)
      → IsElevated d cookie
  unfolding disable disable_as
  disable-IsElevated d cookie code w h =
      let (u, admitted, k) =
        guarded-eq_ok p d "POST" "/auth/otp/disable" cookie (disable_as p d code) w (session t r)
          h in
      elim (Result-cases
        (disable_otp p.db p.vault p.hmac_sha1 d.now u.sub d.vector code (service_of p w)).1) [
          | inl (why, e) ↦ cc (rw (disable_as, e) at k)
          | inr (_, e) ↦
              jwt_can_activate-IsElevated d "POST" "/auth/otp/disable" cookie w u admitted
                (reopened d u _ (rw (disable_as, e) at k))
        ]

  logout_as-silent :
      (d : Drawn) (cookie : Cookie p) (u : RequestUser) (w : World p)
      → (logout_as p d cookie u w).1 ≢ ok (session t r)
  unfolding logout_as
  logout_as-silent d none u w h = cc
  logout_as-silent d (some token) u w h = elim (Result-cases (add p.db p.jwt token w.blacklist).1) [
    | inl (why, e) ↦ cc (rw (logout_as, e) at h)
    | inr (_, e) ↦ cc (rw (logout_as, e) at h)
  ]

  logout-silent :
      (d : Drawn) (cookie : Cookie p) (w : World p) → (logout p d cookie w).1 ≢ ok (session t r)
  unfolding logout
  logout-silent d cookie w h =
      let (u, _, k) =
        guarded-eq_ok p d "POST" "/auth/logout" cookie (logout_as p d cookie) w (session t r) h in
      logout_as-silent d cookie u w k

  change_password-silent :
      (d : Drawn) (cookie : Cookie p) (current new : String) (w : World p)
      → (change_password p d cookie current new w).1 ≢ ok (session t r)
  unfolding change_password change_password_as
  change_password-silent d cookie current new w h =
      let (u, _, k) =
        guarded-eq_ok p d "POST" "/auth/change-password" cookie (change_password_as p d current new)
          w (session t r) h in
      elim (Result-cases (auth.change_password p.db p.argon2 d.salt u.sub current new w.users).1) [
        | inl (why, e) ↦ cc (rw (change_password_as, e) at k)
        | inr (_, e) ↦ cc (rw (change_password_as, e) at k)
      ]

  oidc_login-silent :
      (provider : String) (c : Challenge) (w : World p)
      → (oidc_login_for_provider p provider c w).1 ≢ ok (session t r)
  unfolding oidc_login_for_provider
  oidc_login-silent provider c w h =
      elim (Option-cases
        (p.oidc.get_authorization_url provider c.state c.nonce c.code_verifier false w.providers)) [
          | inl e ↦ cc (rw (oidc_login_for_provider, e) at h)
          | inr (url, e) ↦ cc (rw (oidc_login_for_provider, e) at h)
        ]

  sudo_oidc_start-silent :
      (d : Drawn) (cookie : Cookie p) (provider : String) (c : Challenge) (w : World p)
      → (sudo_oidc_start p d cookie provider c w).1 ≢ ok (session t r)
  unfolding sudo_oidc_start start_sudo_as
  sudo_oidc_start-silent d cookie provider c w h =
      let (u, _, k) =
        guarded-eq_ok p d "GET" (append "/auth/sudo/oidc/" (append provider "/start")) cookie
          (start_sudo_as p provider c) w (session t r) h in
      let (_, _, k1) = >>=-eq-ok (guard (is_admin u.role) forbidden) _ k in
      let (_, _, k2) = >>=-eq-ok (may_start_sudo p provider (p.db.find u.sub w.users)) _ k1 in
      let (_, _, k3) =
        >>=-eq-ok
          (or_throw
            (p.oidc.get_authorization_url provider c.state c.nonce c.code_verifier true w.providers)
            unauthorized)
          _ k2 in
      cc k3

  oidc_callback_proved :
      (d : Drawn) (cookies : CallbackCookies) (state : Option String) (url : String) (w : World p)
      → (oidc_callback p d cookies state url w).1 ≡ ok (session t r)
      → HasProved p (record { drawn = d; call = returns cookies state url; world = w }) sub
  unfolding oidc_callback
  oidc_callback_proved d cookies none url w h = cc
  oidc_callback_proved d cookies (some state) url w h =
      elim (Bool-cases (is_sudo_callback p cookies state)) [
        | inl e ↦
            callback_proved p later sub v t r genuine d cookies state url w
              (rw (oidc_callback, e) at h)
        | inr e ↦ absurd (
            callback_login-unprivileged p later sub v t r genuine d cookies state url w
              (rw (oidc_callback, e) at h))
      ]

  pub run_proved :
      (d : Drawn) (c : Call p) (w : World p)
      → (run p d c w).1 ≡ ok (session t r)
      → HasProved p (record { drawn = d; call = c; world = w }) sub ⊎ IsElevated d (cookie_of p c)
  unfolding run
  run_proved d (log_in provider identifier pass) w h =
      absurd (login-unprivileged p later sub v t r genuine d provider identifier pass w h)
  run_proved d (log_in_otp token code) w h =
      absurd (login_otp-unprivileged p later sub v t r genuine d token code w h)
  run_proved d (refreshes cookie) w h =
      absurd (refresh-unprivileged p later sub v t r genuine d cookie w h)
  run_proved d (steps_up cookie body) w h =
      inl (sudo_proved p later sub v t r genuine d cookie body w h)
  run_proved d (enables cookie code) w h = inr (enable-IsElevated d cookie code w h)
  run_proved d (disables cookie code) w h = inr (disable-IsElevated d cookie code w h)
  run_proved d (logs_out cookie) w h = absurd (logout-silent d cookie w h)
  run_proved d (changes_password cookie current new) w h =
      absurd (change_password-silent d cookie current new w h)
  run_proved d (starts_login provider c) w h = absurd (oidc_login-silent provider c w h)
  run_proved d (starts_sudo cookie provider c) w h =
      absurd (sudo_oidc_start-silent d cookie provider c w h)
  run_proved d (returns cookies state url) w h = inl (oidc_callback_proved d cookies state url w h)
