-- ===== src/Tests/Codes.antt =====
-- The theorems on one-time codes at concrete inputs.
use open_bastion.Base.{
  List, String, [], arith, drop, empty_dict, false, none, ok, refl, set_key, some, true, ℕ, ◌<◌,
  ◌∷◌, ◌≡◌, ◌≢◌,
}
use open_bastion.Database.{memory}
use open_bastion.Schema.{User, Role, local}
use open_bastion.Vault.{plain_vault}
use open_bastion.Auth.OtpLockout.{assert_not_locked, reset, record_failure}
use open_bastion.Auth.Totp.{Hmac, is_six_digits, verify_with_counter}
use open_bastion.Auth.Totp.Window.{IsMatch, verify_with_counter-IsMatch}
use open_bastion.Auth.AuthService.{Service, verify_otp, enable_otp, enabled_row}
use open_bastion.Auth.AuthService.Replay.{Call, call, run, IsSpent, never_replayed}
use open_bastion.Auth.AuthService.Enrolment.{Pending, IsEnabled, enable_otp-opens}

-- A code that is the counter.
abbrev plain_hmac : Hmac
plain_hmac key message = drop 4 message

abbrev gina : User
gina = record {
  email = "gina@example.org";
  username = none;
  password_hash = none;
  role = Role.user;
  auth_method = local;
  external_id = none;
  auth_provider_id = none;
  token_version = 0;
  requires_password_change = false;
  otp_secret = some "MFRGG";
  pending_otp_secret = some "MFRGG";
  is_otp_enabled = true;
  groups = [];
}

abbrev service : Service memory
service = record { users = ("gina", gina) ∷ []; lockouts = []; otp_last_counter = empty_dict }

abbrev code_of : ℕ → List ℕ
code_of c = 0 ∷ 0 ∷ 0 ∷ 0 ∷ 0 ∷ c ∷ []

matches_two : verify_with_counter plain_hmac 60_000 (code_of 2) "MFRGG" (some 1) ≡ ok (some 2)
unfolding verify_with_counter
matches_two = refl

verify_with_counter-IsMatch_example :
    IsMatch plain_hmac 60_000 (code_of 2) "MFRGG" 2
    × (is_six_digits (code_of 2) ≡ true)
    × ((last : ℕ) → some 1 ≡ some last → last < 2)
verify_with_counter-IsMatch_example =
    verify_with_counter-IsMatch plain_hmac 60_000 (code_of 2) "MFRGG" (some 1) 2 matches_two

abbrev call_at : ℕ → ℕ → Call memory plain_vault plain_hmac
call_at now c = record { now = now; user = "gina"; vector = ""; code = code_of c }

first_accepted : (call memory plain_vault plain_hmac (call_at 60_000 2) service).1 ≡ ok true
unfolding verify_otp assert_not_locked verify_with_counter
first_accepted = refl

second_accepted :
    (call memory plain_vault plain_hmac (call_at 90_000 3) (
      run memory plain_vault plain_hmac
        (call_at 61_000 2 ∷ [])
        (call memory plain_vault plain_hmac (call_at 60_000 2) service).0)).1
    ≡ ok true
unfolding verify_otp assert_not_locked verify_with_counter reset record_failure
second_accepted = refl

never_replayed_example :
    (secret secret' : String) × (c d : ℕ) × IsMatch plain_hmac 60_000 (code_of 2) secret c
    × IsMatch plain_hmac 90_000 (code_of 3) secret' d
    × (c < d)
never_replayed_example =
    never_replayed memory plain_vault plain_hmac (call_at 60_000 2) (call_at 90_000 3)
      (call_at 61_000 2 ∷ []) service first_accepted (omega arith, tt) (omega arith) refl
      second_accepted

abbrev enabled_service : Service memory
enabled_service = record service {
  users =
      memory.put "gina" (enabled_row memory plain_vault plain_hmac "gina" "" "MFRGG" gina)
        service.users;
  otp_last_counter = set_key "gina" (2, 60_000) service.otp_last_counter;
}

enables_gina :
    enable_otp memory plain_vault plain_hmac 60_000 "gina" "" (code_of 2) service
    ≡ (enabled_service, ok tt)
unfolding enable_otp verify_with_counter
enables_gina = refl

enable_otp-opens_example :
    (found : User) × (raw : String) × (c : ℕ) × Pending memory plain_vault plain_hmac 60_000 "gina"
      (code_of 2)
      service
      found
      raw
      c
    × IsEnabled memory plain_vault plain_hmac "gina" raw found enabled_service.users
    × IsSpent memory plain_vault plain_hmac "gina" c 60_000 enabled_service.otp_last_counter
    × ((other : String)
        → other ≢ "gina"
        → memory.find other enabled_service.users ≡ memory.find other service.users)
enable_otp-opens_example =
    enable_otp-opens memory plain_vault plain_hmac 60_000 "gina" "" (code_of 2) service
      enabled_service enables_gina
