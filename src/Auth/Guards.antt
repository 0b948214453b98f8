-- ===== src/Auth/Guards.antt =====
-- The guards that stand before the controllers: backend/src/auth/guards/jwt-auth.guard.ts,
-- backend/src/common/guards/roles.guard.ts and user-throttler.guard.ts, with the operation
-- `revokeAllTokens` of backend/src/users/users.service.ts that they enforce.
pub mod OpenRoutes
pub mod Admission
pub mod Revocation
pub mod Roles
use Prim.Native.Char.{Char, code}
use Prim.Native.String
use open_bastion.Base.{
  ℕ, Bool, true, false, not, ◌&&◌, ◌||◌, Option, none, some, List, [], ◌∷◌, String, ◌=s=◌, ◌==◌,
  if◌then◌else◌, Result, ok, err, unauthorized, forbidden, any, is_some, guard, or_throw, ◌>>=◌,
  ◌>>◌, length,
}
use open_bastion.Database.{Database}
use open_bastion.Schema.{User, BlacklistedToken, RefreshToken, Role, AuthMethod, admin}
use open_bastion.Auth.Jwt.{Jwt, Claims, access, partial, refresh, other}
use open_bastion.Auth.RefreshToken.{Tables, is_unrevoked_of, revoked, bump_version, kill_family}
use open_bastion.Auth.TokenBlacklist.{is_blacklisted}

-- The request, with the path name that `new URL(req.url, …)` gives.
pub record HttpRequest (jwt : Jwt) : Type 0 where
  pub method : String
  pub pathname : String
  pub cookie : Option jwt.Token

-- What the guard leaves in `req.user`.
pub record RequestUser : Type 0 where
  pub sub : String
  pub email : String
  pub username : Option String
  pub role : Role
  pub auth_method : AuthMethod
  pub auth_provider_id : Option String
  pub requires_password_change : Bool
  pub is_otp_enabled : Bool
  pub is_admin_mode : Bool

-- `path.replace(/\/+$/, '')`: a slash stays only before something that stays.
unfoldable pub strip_slashes : String → String
strip_slashes String.[] = ""
strip_slashes (String.◌∷◌ c s) =
    let rest = strip_slashes s in if code c == b'/' && rest =s= "" then "" else String.◌∷◌ c rest

-- `… || '/'`
unfoldable pub normalized : String → String
unfolding strip_slashes
normalized pathname = let path = strip_slashes pathname in if path =s= "" then "/" else path

-- PASSWORD_CHANGE_ALLOWLIST: the rules' method and the path that stands before `\/?$`.
abbrev pub password_change_allowlist : List (String × String)
password_change_allowlist =
    ("GET", "/auth/me")
    ∷ ("POST", "/auth/change-password")
    ∷ ("POST", "/auth/logout")
    ∷ ("POST", "/auth/refresh")
    ∷ []

-- `rule.path.test(path)`
abbrev pub path_matches : String → String → Bool
path_matches rule path = path =s= rule || path =s= String.◌++◌ rule "/"

unfoldable pub is_allowed_while_rotating : String → String → Bool
unfolding normalized
is_allowed_while_rotating method pathname =
    any (λ rule. rule.0 =s= method && path_matches rule.1 (normalized pathname))
      password_change_allowlist

-- `payload.sub`
abbrev pub subject_of : Claims → Option String
subject_of (access sub version sudo) = some sub
subject_of (partial sub) = some sub
subject_of (refresh sub jti) = some sub
subject_of other = none

-- `user.tokenVersion !== (payload.version ?? -1)` is false
abbrev pub version_matches : Claims → User → Bool
version_matches (access sub version sudo) user = user.token_version == version
version_matches _ user = false

-- `!!payload.isAdminMode`
abbrev pub admin_mode_of : Claims → Bool
admin_mode_of (access sub version sudo) = sudo
admin_mode_of _ = false

module _ (db : Database) where
  -- findOneById; a payload without `sub` finds nobody
  abbrev pub find_subject : Claims → db.State User → Option (String × User)
  find_subject c users = elim (subject_of c) [
    | none ↦ none
    | some id ↦ elim (db.find id users) [ none ↦ none | some user ↦ some (id, user) ]
  ]

  -- UsersService.revokeAllTokens: one transaction over both tables.
  unfoldable pub revoke_all_tokens : ℕ → String → Tables db → Tables db × Result (Unit {0})
  unfolding kill_family
  revoke_all_tokens now id s = kill_family db now id s

  module _ (jwt : Jwt) where
    unfoldable pub jwt_can_activate :
        ℕ → HttpRequest jwt → db.State BlacklistedToken → db.State User → Result RequestUser
    unfolding is_allowed_while_rotating
    jwt_can_activate now req blacklist users = do
      token ← or_throw req.cookie unauthorized
      payload ← or_throw (jwt.verify now token) unauthorized
      guard (not (is_blacklisted db jwt now token blacklist)) unauthorized
      found ← or_throw (find_subject payload users) unauthorized
      guard (version_matches payload found.1) unauthorized
      guard
          (not found.1.requires_password_change
            || is_allowed_while_rotating req.method req.pathname)
          forbidden
      ok (record {
        sub = found.0;
        email = found.1.email;
        username = found.1.username;
        role = found.1.role;
        auth_method = found.1.auth_method;
        auth_provider_id = found.1.auth_provider_id;
        requires_password_change = found.1.requires_password_change;
        is_otp_enabled = found.1.is_otp_enabled;
        is_admin_mode = admin_mode_of payload;
      })

    -- UserThrottlerGuard.shouldSkip; `base` is the answer of ThrottlerGuard.
    unfoldable pub should_skip : ℕ → Option jwt.Token → Bool → Bool
    should_skip now cookie base = elim cookie [
      | none ↦ base
      | some token ↦ if is_some (jwt.verify now token) then true else base
    ]

-- RolesGuard.canActivate: the roles that the route asks for, and `req.user` as that guard reads it.
abbrev pub role_eq : Role → Role → Bool
role_eq admin admin = true
role_eq Role.user Role.user = true
role_eq _ _ = false

unfoldable pub roles_can_activate : List Role → Option RequestUser → Bool
roles_can_activate required user = if length required == 0 then true else (elim user [
  | none ↦ false
  | some u ↦
      let has_role = any (role_eq u.role) required in
      let requires_only_admin = any (role_eq admin) required && length required == 1 in
      if not has_role
      then false
      else (if requires_only_admin && not u.is_admin_mode then false else true)
])
