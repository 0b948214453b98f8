-- ===== src/Auth/Guards/Admission.antt =====
-- Whom backend/src/auth/guards/jwt-auth.guard.ts lets in.
use open_bastion.Base.{
  >>=-eq-ok, Bool, Bool-cases, String, ap, arith, false, forbidden, guard, guard-eq-ok, inl, inr,
  not, ok, ok-injective, or_throw, or_throw-eq-ok, some, sym, true, unauthorized, ℕ, ◌==◌, ◌||◌,
  ◌↔◌, ◌∙◌, ◌≡◌,
}
use open_bastion.Database.{Database}
use open_bastion.Schema.{User, BlacklistedToken}
use open_bastion.Auth.Jwt.{Jwt, Claims, access, partial, refresh, other}
use open_bastion.Auth.TokenBlacklist.{is_blacklisted}
use open_bastion.Auth.Guards.OpenRoutes.{
  IsOpenRoute, is_allowed_while_rotating-IsOpenRoute, IsOpenRoute-is_allowed,
}
use open_bastion.Auth.Guards.{
  version_matches, admin_mode_of, HttpRequest, RequestUser, is_allowed_while_rotating, find_subject,
  jwt_can_activate,
}

-- `req.user` of a user.
abbrev pub request_user : String → User → Bool → RequestUser
request_user id user is_admin_mode = record {
  sub = id;
  email = user.email;
  username = user.username;
  role = user.role;
  auth_method = user.auth_method;
  auth_provider_id = user.auth_provider_id;
  requires_password_change = user.requires_password_change;
  is_otp_enabled = user.is_otp_enabled;
  is_admin_mode = is_admin_mode;
}

module _ (db : Database) (jwt : Jwt) where
  -- What a request has shown when the guard lets it in as `u`.
  pub record Admitted (now : ℕ) (req : HttpRequest jwt) (blacklist : db.State BlacklistedToken)
      (users : db.State User) (u : RequestUser) : Type 0 where
    pub token : jwt.Token
    pub version : ℕ
    pub user : User
    pub presented : req.cookie ≡ some token
    pub genuine : jwt.verify now token ≡ some (access u.sub version u.is_admin_mode)
    pub not_revoked : is_blacklisted db jwt now token blacklist ≡ false
    pub known : db.find u.sub users ≡ some user
    pub current : user.token_version ≡ version
    pub role : u.role ≡ user.role
    pub whole : u ≡ request_user u.sub user u.is_admin_mode
    pub rotated : user.requires_password_change ≡ true → IsOpenRoute req.method req.pathname

  access_found :
      (c : Claims) (users : db.State User) (found : String × User)
      → find_subject db c users ≡ some found
      → version_matches c found.1 ≡ true
      → (version : ℕ) × ((c ≡ access found.0 version (admin_mode_of c))
          × (found.1.token_version ≡ version))
        × (db.find found.0 users ≡ some found.1)
  access_found (access sub version sudo) users found e h =
      (version, (ground arith, ground arith), ground arith)
  access_found (partial sub) users found e h = cc
  access_found (refresh sub jti) users found e h = cc
  access_found other users found e h = cc

  -- What the guard has checked.
  pub jwt_can_activate-Admitted :
      (now : ℕ) (req : HttpRequest jwt) (blacklist : db.State BlacklistedToken)
      (users : db.State User) (u : RequestUser)
      → jwt_can_activate db jwt now req blacklist users ≡ ok u
      → Admitted now req blacklist users u
  unfolding jwt_can_activate
  jwt_can_activate-Admitted now req blacklist users u h =
      let (token, presented, h1) = >>=-eq-ok (or_throw req.cookie unauthorized) _ h in
      let (c, genuine, h2) = >>=-eq-ok (or_throw (jwt.verify now token) unauthorized) _ h1 in
      let (_, fresh, h3) =
        >>=-eq-ok (guard (not (is_blacklisted db jwt now token blacklist)) unauthorized) _ h2 in
      let (found, known, h4) = >>=-eq-ok (or_throw (find_subject db c users) unauthorized) _ h3 in
      let (_, current, h5) = >>=-eq-ok (guard (version_matches c found.1) unauthorized) _ h4 in
      let (_, rotated, h6) =
        >>=-eq-ok
          (guard
            (not found.1.requires_password_change
              || is_allowed_while_rotating req.method req.pathname)
            forbidden)
          _ h5 in
      let (version, same, found_it) =
        access_found c users found (or_throw-eq-ok _ _ known) (guard-eq-ok _ _ current) in
      let open_route =
        guard-eq-ok
          (not found.1.requires_password_change
            || is_allowed_while_rotating req.method req.pathname)
          forbidden rotated in
      let is_fresh =
        guard-eq-ok (not (is_blacklisted db jwt now token blacklist)) unauthorized fresh in
      let verified = or_throw-eq-ok (jwt.verify now token) unauthorized genuine in
      record {
        token = token;
        version = version;
        user = found.1;
        presented = or_throw-eq-ok req.cookie unauthorized presented;
        genuine = ground arith;
        not_revoked = ground arith;
        known = ground arith;
        current = same.1;
        role = ground arith;
        whole =
            let e : request_user found.0 found.1 (admin_mode_of c) ≡ u = ok-injective h6 in
            sym e ∙ (λ i. request_user (e i).sub found.1 (e i).is_admin_mode);
        rotated =
            λ pending. is_allowed_while_rotating-IsOpenRoute req.method req.pathname (ground arith);
      }

  Admitted-jwt_can_activate :
      (now : ℕ) (req : HttpRequest jwt) (blacklist : db.State BlacklistedToken)
      (users : db.State User) (u : RequestUser)
      → Admitted now req blacklist users u
      → jwt_can_activate db jwt now req blacklist users ≡ ok u
  unfolding jwt_can_activate
  Admitted-jwt_can_activate now req blacklist users u a =
      let current : (a.user.token_version == a.version) ≡ true = ground (arith, a.current) in
      let open_route : (not a.user.requires_password_change
            || is_allowed_while_rotating req.method req.pathname)
          ≡ true =
        elim (Bool-cases a.user.requires_password_change) [
          | inl pending ↦
              let allowed = IsOpenRoute-is_allowed req.method req.pathname (a.rotated pending) in
              ground (arith, allowed)
          | inr settled ↦ ground arith
        ] in
      rw (a.presented, a.genuine, a.not_revoked, a.known, current, open_route) (ap ok (sym a.whole))

  -- The guard lets a request in as a user exactly if its cookie is an access token of theirs that is
  -- genuine, not blacklisted and at the user's current version, and, while a password change is
  -- pending, the route is GET /auth/me or POST /auth/change-password, /auth/logout or
  -- /auth/refresh, with any slashes at its end. The user is as the table has them, with the
  -- token's admin mode.
  pub Admitted-iff :
      (now : ℕ) (req : HttpRequest jwt) (blacklist : db.State BlacklistedToken)
      (users : db.State User) (u : RequestUser)
      → (jwt_can_activate db jwt now req blacklist users ≡ ok u)
        ↔ Admitted now req blacklist users u
  Admitted-iff now req blacklist users u = (
    jwt_can_activate-Admitted now req blacklist users u,
    Admitted-jwt_can_activate now req blacklist users u,
  )
