-- ===== src/Tests/Sessions.antt =====
-- The theorems on one-time codes, refresh tokens, the blacklist and the guard at concrete inputs.
use open_bastion.Base.{
  List, [], arith, eq_iff, err, false, none, ok, refl, some, true, unauthorized, ℕ, ◌↔◌, ◌∷◌, ◌≡◌,
  ◌≢◌, ◌≤◌,
}
use open_bastion.Database.{memory}
use open_bastion.Schema.{User, RefreshToken, Role, local}
use open_bastion.Auth.Jwt.{plain_jwt, access, refresh}
use open_bastion.Auth.OtpLockout.{backoff_ms, wait_seconds}
use open_bastion.Auth.OtpLockout.Backoff.{backoff_bounds}
use open_bastion.Auth.OtpLockout.Sequence.{calls_allowed, calls_allowed_lem}
use open_bastion.Auth.OtpLockout.Concurrent.{
  let_through, interleave, fresh_requests, let_through-interleave,
}
use open_bastion.Auth.RefreshToken.{Tables, is_active, rotate, revoked}
use open_bastion.Auth.RefreshToken.Claim.{claims, cleans, total_wins, claimed_once}
use open_bastion.Auth.RefreshToken.Reuse.{rotate_live, rotate_reused}
use open_bastion.Auth.TokenBlacklist.{is_blacklisted, add, cleanup_expired_tokens}
use open_bastion.Auth.TokenBlacklist.Laws.{add-is_blacklisted, is_blacklisted-cleanup}
use open_bastion.Auth.Guards.{HttpRequest, RequestUser, jwt_can_activate, revoke_all_tokens}
use open_bastion.Auth.Guards.Admission.{Admitted, Admitted-iff}
use open_bastion.Auth.Guards.Revocation.{revoked_for_good, session_run}

backoff_bounds_example :
    (30_000 ≤ backoff_ms 7)
    × (backoff_ms 40 ≤ 1_800_000)
    × (backoff_ms 7 ≤ backoff_ms 40)
    × (30 ≤ wait_seconds (backoff_ms 7))
    × (wait_seconds (backoff_ms 40) ≤ 1800)
backoff_bounds_example = backoff_bounds 7 40 (omega arith)

abbrev seven_times : List ℕ
seven_times = 1 ∷ 2 ∷ 3 ∷ 4 ∷ 5 ∷ 6 ∷ 9_000_000 ∷ []

calls_allowed_example : calls_allowed memory "ann" seven_times [] ≡ 5
calls_allowed_example = calls_allowed_lem memory "ann" seven_times []

let_through-interleave_example :
    let_through
      (interleave memory "ann"
        ((1, 0) ∷ (1, 1) ∷ (2, 1) ∷ (3, 0) ∷ (4, 0) ∷ (4, 1) ∷ [])
        (fresh_requests memory "ann" 2)
        []).1
    ≤ 5
let_through-interleave_example =
    let_through-interleave memory "ann" 2 ((1, 0) ∷ (1, 1) ∷ (2, 1) ∷ (3, 0) ∷ (4, 0) ∷ (4, 1) ∷ [])
      []

abbrev live : RefreshToken
live = record { user_id = "ann"; expires_at = 1000; revoked_at = none }

abbrev ann : User
ann = record {
  email = "ann@example.org";
  username = some "ann";
  password_hash = none;
  role = Role.user;
  auth_method = local;
  external_id = none;
  auth_provider_id = none;
  token_version = 3;
  requires_password_change = false;
  otp_secret = none;
  pending_otp_secret = none;
  is_otp_enabled = false;
  groups = [];
}

abbrev store : Tables memory
store = record { tokens = ("j1", live) ∷ []; users = ("ann", ann) ∷ [] }

claimed_once_example :
    total_wins memory "j1" ((1, claims "j1") ∷ (2, claims "j1") ∷ (3, cleans) ∷ []) store.tokens ≤ 1
claimed_once_example =
    claimed_once memory "j1" ((1, claims "j1") ∷ (2, claims "j1") ∷ (3, cleans) ∷ []) store.tokens
      tt

rotate_live_example :
    (rotate memory plain_jwt 5 "j2" (0, 9, refresh "ann" "j1") store).0.users ≡ store.users
unfolding is_active
rotate_live_example =
    (rotate_live memory plain_jwt 5 "j2" "ann" "j1" (0, 9, refresh "ann" "j1") store live refl refl
      refl refl).4

abbrev robbed : Tables memory
robbed = record { tokens = ("j1", revoked 2 live) ∷ []; users = ("ann", ann) ∷ [] }

rotate_reused_example :
    (rotate memory plain_jwt 5 "j2" (0, 9, refresh "ann" "j1") robbed).1 ≡ err unauthorized
unfolding is_active
rotate_reused_example =
    (rotate_reused memory plain_jwt 5 "j2" "ann" "j1" (0, 9, refresh "ann" "j1") robbed
      (revoked 2 live) ann refl refl refl (ground (arith, eq_iff "ann" "")) refl).0

abbrev session : plain_jwt.Token
session = (0, 900, access "ann" 3 false)

add-is_blacklisted_example :
    is_blacklisted memory plain_jwt 10 session
      (cleanup_expired_tokens memory 5 (add memory plain_jwt session []).0)
    ≡ true
add-is_blacklisted_example =
    add-is_blacklisted memory plain_jwt [] session 900 5 10 (λ token row exp h e. cc) refl
      (omega arith) (omega arith) (omega arith)

is_blacklisted-cleanup_example :
    is_blacklisted memory plain_jwt 7 session
      (cleanup_expired_tokens memory 6 (("ann", record { expires_at = 7 }) ∷ []))
    ≡ is_blacklisted memory plain_jwt 7 session (("ann", record { expires_at = 7 }) ∷ [])
is_blacklisted-cleanup_example =
    is_blacklisted-cleanup memory plain_jwt (("ann", record { expires_at = 7 }) ∷ []) session 6 7
      (omega arith)

abbrev visit : HttpRequest plain_jwt
visit = record { method = "GET"; pathname = "/machines"; cookie = some session }

abbrev as_ann : RequestUser
as_ann = record {
  sub = "ann";
  email = "ann@example.org";
  username = some "ann";
  role = Role.user;
  auth_method = local;
  auth_provider_id = none;
  requires_password_change = false;
  is_otp_enabled = false;
  is_admin_mode = false;
}

visit_admitted : jwt_can_activate memory plain_jwt 10 visit [] store.users ≡ ok as_ann
unfolding jwt_can_activate is_blacklisted
visit_admitted = refl

Admitted-iff_example :
    (jwt_can_activate memory plain_jwt 10 visit [] store.users ≡ ok as_ann)
    ↔ Admitted memory plain_jwt 10 visit [] store.users as_ann
Admitted-iff_example = Admitted-iff memory plain_jwt 10 visit [] store.users as_ann

revoked_for_good_example :
    jwt_can_activate memory plain_jwt 20 visit []
      (session_run memory plain_jwt [] (revoke_all_tokens memory 15 "ann" store).0).users
    ≢ ok as_ann
revoked_for_good_example =
    revoked_for_good memory plain_jwt 10 15 20 visit visit [] [] store as_ann as_ann []
      visit_admitted refl
