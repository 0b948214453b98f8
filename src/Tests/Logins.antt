-- ===== src/Tests/Logins.antt =====
-- The theorems on external accounts, passwords, logins and the admin mode at concrete inputs.
use open_bastion.Base.{
  Bool-cases, List, Memᴰ, Option, String, [], arith, eq_refl, err, false, if◌then◌else◌, inl, inr,
  is_some, none, ok, refl, some, true, unauthorized, ℕ, ◌++◌, ◌=s=◌, ◌∷◌, ◌≡◌, ◌≢◌,
}
use open_bastion.Database.{memory}
use open_bastion.Schema.{User, Role, admin, local, oidc}
use open_bastion.Vault.{plain_vault}
use open_bastion.Users.{find_or_create_external_user}
use open_bastion.Users.External.{Provisioned, find_or_create_external_user-Provisioned}
use open_bastion.Auth.Jwt.{plain_jwt, access}
use open_bastion.Auth.Guards.{RequestUser, jwt_can_activate}
use open_bastion.Auth.TokenBlacklist.Laws.{
  IsConsistent, BlacklistEvent, cleans, lists, run_blacklist,
}
use open_bastion.Auth.Identity.{Argon2, IsCurrent, bound, refused, Ldap, Oidc}
use open_bastion.Auth.Login.{
  login as auth_login, access_claims, local_hash, validate_local, change_password,
  update_user_password,
}
use open_bastion.Users.{find_one_by_email_or_username}
use open_bastion.Auth.RefreshToken.{create}
use open_bastion.Auth.TokenBlacklist.{is_blacklisted, add}
use open_bastion.Auth.Login.Passwords.{rewritten}
use open_bastion.Auth.Controller.Entry.{user_of}
use open_bastion.Auth.Controller.{guarded, open_session, logout_as}
use open_bastion.Auth.Controller.Sudo.{sudo, sudo_body, sudo_by, sudo_local}
use open_bastion.Schema.{BlacklistedToken, RefreshToken}
use open_bastion.Auth.Guards.{is_allowed_while_rotating}
use open_bastion.Auth.Jwt.{refresh}
use open_bastion.Auth.Login.Passwords.{change_password-validate_local}
use open_bastion.Auth.Controller.{Platform, Drawn, World, session, requires_otp, login, logout}
use open_bastion.Auth.Controller.Trace.{
  Call, run, Event, HasProved, Reach, issued_by, steps_up, call, start,
}
use open_bastion.Auth.Controller.Elevation.{elevated_was_proved}
use open_bastion.Auth.Controller.Entry.{login_enters, login_waits}
use open_bastion.Auth.Controller.Exit.{logout_ends}

-- A hash that keeps the password, if there is one.
abbrev kept_hash : String → String
kept_hash pass = if pass =s= "" then "#" else pass

kept_hash-ne-empty : (pass : String) → (kept_hash pass =s= "") ≡ false
kept_hash-ne-empty pass = elim (Bool-cases (pass =s= "")) [
  | inl e ↦ rw e refl
  | inr e ↦ rw (e, e) refl
]

abbrev plain_argon2 : Argon2
plain_argon2 = record {
  hash = λ salt pass. kept_hash pass;
  verify = λ hash pass. hash =s= kept_hash pass;
  verify-hash = λ salt pass. eq_refl (kept_hash pass);
  hash-ne-empty = λ salt pass. kept_hash-ne-empty pass;
}

closed_ldap-IsCurrent :
    (users : memory.State User) (id : String) (u : User)
    → refused ≡ bound id u
    → IsCurrent memory id u users
closed_ldap-IsCurrent users id u h = cc

closed_oidc-IsCurrent :
    (users : memory.State User) (id : String) (u : User)
    → ◌≡◌ {A = Option (String × User)} none (some (id, u))
    → IsCurrent memory id u users
closed_oidc-IsCurrent users id u h = cc

abbrev closed_ldap : Ldap memory
closed_ldap = record {
  authenticate = λ fresh provider name pass providers users. (users, refused);
  authenticate-IsCurrent =
      λ fresh provider name pass providers users id u h. closed_ldap-IsCurrent users id u h;
}

abbrev closed_oidc : Oidc memory
closed_oidc = record {
  get_authorization_url = λ provider state nonce verifier prompt providers. none;
  verify_callback_claims = λ provider url state nonce verifier providers. none;
  validate_callback = λ fresh provider url state nonce verifier providers users. (users, none);
  validate_callback-IsCurrent = λ fresh provider url state nonce verifier providers users id u h.
      closed_oidc-IsCurrent users id u h;
}

abbrev site : Platform
site = record {
  db = memory;
  vault = plain_vault;
  hmac_sha1 = λ key message. [];
  jwt = plain_jwt;
  argon2 = plain_argon2;
  ldap = closed_ldap;
  oidc = closed_oidc;
}

abbrev eve : User
eve = record {
  email = "eve@example.org";
  username = some "eve";
  password_hash = some "secret";
  role = admin;
  auth_method = local;
  external_id = none;
  auth_provider_id = none;
  token_version = 3;
  requires_password_change = false;
  otp_secret = none;
  pending_otp_secret = none;
  is_otp_enabled = false;
  groups = [];
}

abbrev world : World site
world = record {
  users = ("eve", eve) ∷ [];
  tokens = [];
  lockouts = [];
  blacklist = [];
  providers = [];
  otp_last_counter = λ k. none;
}

abbrev at_noon : Drawn
at_noon = record { now = 5000; jti = "j1"; vector = "v"; salt = "s"; fresh = λ n. "u2" }

find_or_create_external_user-Provisioned_example :
    Provisioned memory "sub-1" oidc
      (some "idp")
      world.users
      (find_or_create_external_user memory "u2" "x@y" "sub-1" oidc
        (some "idp")
        (some " eve ")
        world.users).0
      "u2"
      (record eve {
        email = "x@y";
        username = none;
        password_hash = none;
        role = Role.user;
        auth_method = oidc;
        external_id = some "sub-1";
        auth_provider_id = some "idp";
        token_version = 0;
      })
unfolding find_or_create_external_user
find_or_create_external_user-Provisioned_example =
    find_or_create_external_user-Provisioned memory "u2" "x@y" "sub-1" oidc (some "idp")
      (some " eve ") world.users "u2" _ refl

change_password-validate_local_example :
    (row : User) × (hash : String) × (memory.find "eve" world.users ≡ some row)
    × (local_hash row ≡ some hash)
    × (plain_argon2.verify hash "secret" ≡ true)
    × (memory.find "eve"
          (change_password memory plain_argon2 "s" "eve" "secret" "better" world.users).0
        ≡ some (rewritten memory plain_argon2 "s" "better" row))
    × ((found : User)
        → find_one_by_email_or_username memory "eve"
            (change_password memory plain_argon2 "s" "eve" "secret" "better" world.users).0
          ≡ some ("eve", found)
        → validate_local memory plain_argon2 "eve" "better"
            (change_password memory plain_argon2 "s" "eve" "secret" "better" world.users).0
          ≡ bound "eve" (rewritten memory plain_argon2 "s" "better" row))
    × ((other : String)
        → other ≢ "eve"
        → memory.find other
            (change_password memory plain_argon2 "s" "eve" "secret" "better" world.users).0
          ≡ memory.find other world.users)
unfolding change_password update_user_password
change_password-validate_local_example =
    change_password-validate_local memory plain_argon2 "s" "eve" "secret" "better" "eve" world.users
      tt refl

-- Eve, some time after the login.
abbrev eve_later : User
eve_later = record eve { role = admin }

login_enters_example :
    (token refresh : plain_jwt.Token) × ((login site at_noon "local" "eve" "secret" world).1
      ≡ ok (session token refresh))
    × (jwt_can_activate memory plain_jwt 90_000
          (record { method = "GET"; pathname = "/machines"; cookie = some token })
          []
          (("eve", eve_later) ∷ [])
        ≡ ok (user_of "eve" eve_later))
unfolding auth_login is_blacklisted
login_enters_example =
    login_enters site at_noon "eve" "secret" "eve" "secret" eve eve_later world 90_000 "GET"
      "/machines" [] (("eve", eve_later) ∷ []) refl refl refl refl refl (omega arith) refl refl refl
      refl

abbrev guarded_world : World site
guarded_world = record world { users = ("eve", record eve { is_otp_enabled = true }) ∷ [] }

login_waits_example :
    (token : plain_jwt.Token) × (login site at_noon "local" "eve" "secret" guarded_world
      ≡ (guarded_world, ok (requires_otp token)))
    × ((later : ℕ) (method pathname : String) (blacklist : memory.State BlacklistedToken)
          (users : memory.State User)
        → jwt_can_activate memory plain_jwt later
            (record { method = method; pathname = pathname; cookie = some token })
            blacklist
            users
          ≡ err unauthorized)
login_waits_example =
    login_waits site at_noon "eve" "secret" "eve" "secret" (record eve { is_otp_enabled = true })
      guarded_world refl refl refl refl

-- The access token that eve holds after a login.
abbrev held : plain_jwt.Token
held = (5000, 900, access "eve" 3 false)

consistent : IsConsistent memory plain_jwt world.blacklist
consistent token row exp h e = cc

abbrev since_then : List (BlacklistEvent memory plain_jwt)
since_then = cleans 7000 ∷ lists (5000, 900, access "ann" 0 false) ∷ cleans 80_000 ∷ []

logout_ends_example :
    (u : RequestUser) × (jwt_can_activate memory plain_jwt 6000
        (record { method = "POST"; pathname = "/auth/logout"; cookie = some held })
        world.blacklist
        world.users
      ≡ ok u)
    × (jwt_can_activate memory plain_jwt 90_000
          (record { method = "GET"; pathname = "/machines"; cookie = some held })
          (run_blacklist memory plain_jwt since_then
            (logout site (record at_noon { now = 6000 }) (some held) world).0.blacklist)
          (("eve", eve_later) ∷ [])
        ≡ err unauthorized)
    × ((jti : String) (row : RefreshToken)
        → memory.find jti (logout site (record at_noon { now = 6000 }) (some held) world).0.tokens
          ≡ some row
        → row.user_id ≡ u.sub
        → is_some row.revoked_at ≡ true)
unfolding logout logout_as guarded jwt_can_activate is_blacklisted add is_allowed_while_rotating
logout_ends_example =
    logout_ends site (record at_noon { now = 6000 }) held 905 world 90_000 "GET" "/machines"
      (("eve", eve_later) ∷ []) since_then consistent refl refl (omega arith)
      (omega arith, (tt, (omega arith, tt)))

-- A run in which eve steps up with her password.
abbrev step_up : Call site
step_up = steps_up (some held) (record { code = none; password = some "secret" })

abbrev later_on : Drawn
later_on = record at_noon { now = 6000 }

abbrev elevated : plain_jwt.Token
elevated = (6000, 900, access "eve" 3 true)

stepped_up :
    (run site later_on step_up world).1 ≡ ok (session elevated (6000, 604800, refresh "eve" "j1"))
unfolding run sudo sudo_body sudo_by sudo_local guarded jwt_can_activate is_blacklisted open_session
    auth_login create access_claims
stepped_up = refl

one_step :
    Reach site
      (record { drawn = later_on; call = step_up; world = world } ∷ [])
      (issued_by site (run site later_on step_up world).1 ++ [])
one_step = call later_on step_up world start (λ token claims e. cc)

elevated_is_issued : Memᴰ elevated (issued_by site (run site later_on step_up world).1 ++ [])
elevated_is_issued = rw stepped_up (Memᴰ.head refl)

elevated_was_proved_example :
    (e : Event site) × Memᴰ e (record { drawn = later_on; call = step_up; world = world } ∷ [])
    × HasProved site e "eve"
elevated_was_proved_example =
    elevated_was_proved site (record { drawn = later_on; call = step_up; world = world } ∷ [])
      (issued_by site (run site later_on step_up world).1 ++ []) elevated 7000 3 "eve" one_step
      elevated_is_issued refl
