-- ===== src/Auth/Controller.antt =====
-- backend/src/auth/auth.controller.ts: the routes that end a session or open one. A handler is run
-- from its guard to its end, with no other one in between; what it writes to the audit log is left
-- out. `Drawn` holds the time and what is drawn at random.
pub mod Sudo
pub mod SingleSignOn
pub mod Sessions
pub mod Trace
pub mod Unprivileged
pub mod StepUp
pub mod Confirmation
pub mod Steps
pub mod Elevation
pub mod Entry
pub mod Exit
use open_bastion.Base.{
  >>=-eq-ok, Bool, Bool-cases, Dict, HttpException, List, Memᴰ, Option, Option-cases, Result,
  String, [], all, any, any-mem, ap, arith, bad_request, conflict, delete_key, drop, empty_dict,
  eq_iff, eq_refl, err, false, forbidden, get_or, guard, guard-eq-ok, head_of, if◌then◌else◌, inl,
  inr, internal_server_error, is_some, leb, length, length-append, ltb, ltb→lt, lt→ltb, map, max,
  mem_cons_cases, mem_of_any, min, none, not, not_found, ok, ok-injective, or_throw, or_throw-eq-ok,
  refl, same_text, same_text_iff, set_key, some, str_eq, subst, suc, sym, take, true, unauthorized,
  zero, zero-cases, ℕ, ◌%◌, ◌&&◌, ◌*◌, ◌++◌, ◌+◌, ◌-◌, ◌/◌, ◌<◌, ◌==◌, ◌=s=◌, ◌>>=◌, ◌>>◌, ◌^◌,
  ◌||◌, ◌↔◌, ◌∙◌, ◌∷◌, ◌≡◌, ◌≢◌, ◌≤◌, ◌⊎◌,
}
use open_bastion.Database.{Database}
use open_bastion.Schema.{User, RefreshToken, BlacklistedToken, AuthProvider}
use open_bastion.Vault.{Vault}
use open_bastion.Auth.Jwt.{Jwt, Claims, partial}
use open_bastion.Auth.Totp.{Hmac}
use open_bastion.Auth.OtpLockout.{Lockout}
use open_bastion.Auth.AuthService.{Service, verify_otp, enable_otp, disable_otp}
use open_bastion.Auth.RefreshToken.{Tables, create, rotate, revoke_all_for_user}
use open_bastion.Auth.TokenBlacklist.{add}
use open_bastion.Auth.Guards.{HttpRequest, RequestUser, jwt_can_activate}
use open_bastion.Auth.Identity.{Argon2, Lookup, bound, refused, unsettled, Ldap, Oidc}
use open_bastion.Auth.Login as auth

-- The other parts that the controller is built with.
pub record Platform : Type 1 where
  pub db : Database
  pub vault : Vault
  pub hmac_sha1 : Hmac
  pub jwt : Jwt
  pub argon2 : Argon2
  pub ldap : Ldap db
  pub oidc : Oidc db

pub record Drawn : Type 0 where
  pub now : ℕ
  pub jti : String
  pub vector : String
  pub salt : String
  pub fresh : ℕ → String

-- The cookies of an OIDC hand-over, those of `sudo_oidc_*` with the user's id.
pub record Handshake : Type 0 where
  pub state : Option String
  pub nonce : Option String
  pub code_verifier : Option String
  pub provider_id : Option String

module _ (p : Platform) where
  pub record World : Type 0 where
    pub users : p.db.State User
    pub tokens : p.db.State RefreshToken
    pub lockouts : p.db.State Lockout
    pub blacklist : p.db.State BlacklistedToken
    pub providers : p.db.State AuthProvider
    pub otp_last_counter : Dict (ℕ × ℕ)

  -- What the browser gets. `unanswered` is a request that nothing answers.
  pub data Reply : Type 0 where
    session : p.jwt.Token → p.jwt.Token → Reply
    requires_otp : p.jwt.Token → Reply
    message unanswered : Reply
    hand_over sudo_hand_over : String → Reply

  abbrev pub Outcome : Type 0
  Outcome = World × Result Reply

  abbrev pub service_of : World → Service p.db
  service_of w = record {
    users = w.users;
    lockouts = w.lockouts;
    otp_last_counter = w.otp_last_counter;
  }

  abbrev pub with_service : World → Service p.db → World
  with_service w s = record w {
    users = s.users;
    lockouts = s.lockouts;
    otp_last_counter = s.otp_last_counter;
  }

  abbrev pub tables_of : World → Tables p.db
  tables_of w = record { tokens = w.tokens; users = w.users }

  abbrev pub with_tables : World → Tables p.db → World
  with_tables w t = record w { tokens = t.tokens; users = t.users }

  -- The cookie `jwt` of a request to a route behind JwtAuthGuard.
  abbrev pub Cookie : Type 0
  Cookie = Option p.jwt.Token

  unfoldable pub guarded :
      Drawn → String → String → Cookie → (RequestUser → World → Outcome) → World → Outcome
  guarded d method pathname cookie handler w =
      elim (jwt_can_activate p.db p.jwt d.now
        (record { method = method; pathname = pathname; cookie = cookie }) w.blacklist w.users) [
          | err e ↦ (w, err e)
          | ok user ↦ handler user w
        ]

  -- The end of every route that opens a session: `login`, `create` and `setAuthCookies`.
  unfoldable pub open_session : Drawn → String → User → Bool → World → Outcome
  open_session d id user is_admin_mode w =
      let (tokens', made) = create p.db p.jwt d.now d.jti id w.tokens in
      (
        record w { tokens = tokens' },
        elim made [
          | err e ↦ err e
          | ok refresh ↦ ok (session (auth.login p.jwt d.now id user is_admin_mode) refresh)
        ],
      )

  -- The lifetime of the token before the one-time code, in seconds.
  abbrev pub partial_ttl : ℕ
  partial_ttl = 5 * 60

  -- `login` after validateUser
  unfoldable pub on_validated : Drawn → Lookup → World → Outcome
  unfolding open_session
  on_validated d (bound id user) w =
      if user.is_otp_enabled
      then (w, ok (requires_otp (p.jwt.sign d.now partial_ttl (partial id))))
      else open_session d id user false w
  on_validated d refused w = (w, err unauthorized)
  on_validated d unsettled w = (w, ok unanswered)

  unfoldable pub login : Drawn → String → String → String → World → Outcome
  unfolding on_validated
  login d provider identifier pass w =
      let (users', found) =
        auth.validate_user p.db p.argon2 p.ldap d.fresh provider identifier pass w.providers
          w.users in
      on_validated d found (record w { users = users' })

  -- The `catch` of `loginOtp`: an error of another kind is answered as Unauthorized.
  abbrev pub only_known : Result Reply → Result Reply
  only_known (err bad_request) = err bad_request
  only_known (err _) = err unauthorized
  only_known (ok reply) = ok reply

  -- A handler that needs a valid one-time code of the user first.
  unfoldable pub after_otp : Drawn → String → List ℕ → (World → Outcome) → World → Outcome
  after_otp d id code handler w =
      let (s, verdict) =
        verify_otp p.db p.vault p.hmac_sha1 d.now id d.vector code (service_of w) in
      (elim verdict [
        | err e ↦ (with_service w s, err e)
        | ok is_valid ↦
            if is_valid then handler (with_service w s) else (with_service w s, err bad_request)
      ])

  -- `loginOtp` with the payload of its token
  unfoldable pub login_partial : Drawn → Claims → List ℕ → World → Outcome
  unfolding after_otp open_session
  login_partial d (partial id) code w = elim (p.db.find id w.users) [
    | none ↦ (w, err unauthorized)
    | some user ↦ after_otp d id code (open_session d id user false) w
  ]
  login_partial d _ code w = (w, err unauthorized)

  unfoldable pub login_otp : Drawn → p.jwt.Token → List ℕ → World → Outcome
  unfolding login_partial
  login_otp d temp_token code w = elim (p.jwt.verify d.now temp_token) [
    | none ↦ (w, err unauthorized)
    | some payload ↦ let (w', reply) = login_partial d payload code w in (w', only_known reply)
  ]

  unfoldable pub refresh : Drawn → Cookie → World → Outcome
  refresh d none w = (w, err unauthorized)
  refresh d (some token) w =
      let (t, rotated) = rotate p.db p.jwt d.now d.jti token (tables_of w) in
      (
        with_tables w t,
        (do
          (id, successor) ← rotated
          user ← or_throw (p.db.find id t.users) unauthorized
          ok (session (auth.login p.jwt d.now id user false) successor)),
      )

  -- `login(user, req.user.isAdminMode)` and `create` after a change of the one-time codes; of a
  -- missing user `login` reads a property of null.
  unfoldable pub reopen : Drawn → RequestUser → World → Outcome
  unfolding open_session
  reopen d u w = elim (p.db.find u.sub w.users) [
    | none ↦ (w, err internal_server_error)
    | some user ↦ open_session d u.sub user u.is_admin_mode w
  ]

  unfoldable pub enable_as : Drawn → List ℕ → RequestUser → World → Outcome
  unfolding reopen
  enable_as d code u w =
      let (s, done) =
        enable_otp p.db p.vault p.hmac_sha1 d.now u.sub d.vector code (service_of w) in
      (elim done [ err e ↦ (with_service w s, err e) | ok _ ↦ reopen d u (with_service w s) ])

  unfoldable pub enable : Drawn → Cookie → List ℕ → World → Outcome
  unfolding guarded enable_as
  enable d cookie code = guarded d "POST" "/auth/otp/enable" cookie (enable_as d code)

  unfoldable pub disable_as : Drawn → List ℕ → RequestUser → World → Outcome
  unfolding reopen
  disable_as d code u w =
      let (s, done) =
        disable_otp p.db p.vault p.hmac_sha1 d.now u.sub d.vector code (service_of w) in
      (elim done [ err e ↦ (with_service w s, err e) | ok _ ↦ reopen d u (with_service w s) ])

  unfoldable pub disable : Drawn → Cookie → List ℕ → World → Outcome
  unfolding guarded disable_as
  disable d cookie code = guarded d "POST" "/auth/otp/disable" cookie (disable_as d code)

  abbrev pub forget_user : Drawn → RequestUser → World → Outcome
  forget_user d u w =
      (record w { tokens = revoke_all_for_user p.db d.now u.sub w.tokens }, ok message)

  unfoldable pub logout_as : Drawn → Cookie → RequestUser → World → Outcome
  logout_as d none u w = forget_user d u w
  logout_as d (some token) u w =
      let (blacklist', added) = add p.db p.jwt token w.blacklist in
      let w' : World = record w { blacklist = blacklist' } in
      (elim added [ err e ↦ (w', err e) | ok _ ↦ forget_user d u w' ])

  unfoldable pub logout : Drawn → Cookie → World → Outcome
  unfolding guarded logout_as
  logout d cookie = guarded d "POST" "/auth/logout" cookie (logout_as d cookie)

  unfoldable pub change_password_as : Drawn → String → String → RequestUser → World → Outcome
  change_password_as d current new u w =
      let (users', done) = auth.change_password p.db p.argon2 d.salt u.sub current new w.users in
      (record w { users = users' }, elim done [ err e ↦ err e | ok _ ↦ ok message ])

  unfoldable pub change_password : Drawn → Cookie → String → String → World → Outcome
  unfolding guarded change_password_as
  change_password d cookie current new =
      guarded d "POST" "/auth/change-password" cookie (change_password_as d current new)
