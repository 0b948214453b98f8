-- ===== src/Auth/AuthService/Outcomes.antt =====
-- What a call of `verifyOtp` in backend/src/auth/auth.service.ts makes of the replay cache.
use open_bastion.Base.{
  Bool, Dict, List, Option, Option-cases, Result, String, err, false, inl, inr,
  internal_server_error, none, ok, refl, set_key, some, true, unauthorized, ℕ, ◌<◌, ◌≡◌, ◌≢◌,
}
use open_bastion.Database.{Database}
use open_bastion.Schema.{User}
use open_bastion.Vault.{Vault}
use open_bastion.Auth.OtpLockout.{Attempt, allowed, failed, refused, assert_not_locked}
use open_bastion.Auth.Totp.{Hmac, verify_with_counter}
use open_bastion.Auth.Totp.Window.{IsMatch, verify_with_counter-IsMatch}
use open_bastion.Auth.AuthService.{
  Service, gc_otp_replay_cache, counter_of, non_empty, open_secret, try_code, check_code,
  verify_otp, on_matched,
}

module _ (db : Database) (vault : Vault) (hmac_sha1 : Hmac) where
  -- What a call makes of the cache.
  pub data Outcome (now : ℕ) (user : String) (code : List ℕ) (cache : Dict (ℕ × ℕ))
      : Dict (ℕ × ℕ) → Result Bool → Type 0 where
    left_alone : (r : Result Bool) → r ≢ ok true → Outcome now user code cache cache r
    cleaned :
        (r : Result Bool)
        → r ≢ ok true
        → Outcome now user code cache (gc_otp_replay_cache now cache) r
    accepted :
        (secret : String) (c : ℕ)
        → IsMatch hmac_sha1 now code secret c
        → ((last : ℕ) → counter_of (gc_otp_replay_cache now cache user) ≡ some last → last < c)
        → Outcome now user code cache
            (set_key user (c, now) (gc_otp_replay_cache now cache))
            (ok true)

  try_code-Outcome :
      (now : ℕ) (user vector : String) (code : List ℕ) (found : User) (secret : String × Bool)
      (s : Service db)
      → let r = try_code db vault hmac_sha1 now user vector code found secret s in
        Outcome now user code s.otp_last_counter r.0.otp_last_counter r.1
  unfolding try_code on_matched
  try_code-Outcome now user vector code found secret s =
      go
        (verify_with_counter hmac_sha1 now code secret.0
          (counter_of (gc_otp_replay_cache now s.otp_last_counter user)))
        refl
    where
      go :
          (v : Result (Option ℕ))
          → verify_with_counter hmac_sha1 now code secret.0
              (counter_of (gc_otp_replay_cache now s.otp_last_counter user))
            ≡ v
          → let r = try_code db vault hmac_sha1 now user vector code found secret s in
            Outcome now user code s.otp_last_counter r.0.otp_last_counter r.1
      go (err e) h = rw (h, try_code) (cleaned (err e) (λ k. cc))
      go (ok none) h = rw (h, try_code) (cleaned (ok false) (λ k. cc))
      go (ok (some c)) h =
          let (match, six, fresh) =
            verify_with_counter-IsMatch hmac_sha1 now code secret.0
              (counter_of (gc_otp_replay_cache now s.otp_last_counter user)) c h in
          rw (h, try_code) (accepted secret.0 c match fresh)

  check_code-Outcome :
      (now : ℕ) (user vector : String) (code : List ℕ) (s : Service db)
      → let r = check_code db vault hmac_sha1 now user vector code s in
        Outcome now user code s.otp_last_counter r.0.otp_last_counter r.1
  unfolding check_code
  check_code-Outcome now user vector code s = elim (Option-cases (db.find user s.users)) [
    | inl e ↦ rw (e, check_code) (left_alone (ok false) (λ k. cc))
    | inr (found, e) ↦ elim (Option-cases (non_empty found.otp_secret)) [
      | inl none_set ↦ rw (e, none_set, check_code) (left_alone (ok false) (λ k. cc))
      | inr (stored, set_up) ↦
          rw (e, set_up, check_code)
            (try_code-Outcome now user vector code found
              (open_secret db vault hmac_sha1 user stored) s)
    ]
  ]

  pub verify_otp-Outcome :
      (now : ℕ) (user vector : String) (code : List ℕ) (s : Service db)
      → let r = verify_otp db vault hmac_sha1 now user vector code s in
        Outcome now user code s.otp_last_counter r.0.otp_last_counter r.1
  unfolding verify_otp
  verify_otp-Outcome now user vector code s = go (assert_not_locked db now user s.lockouts).1 refl
    where
      go :
          (a : Attempt)
          → (assert_not_locked db now user s.lockouts).1 ≡ a
          → let r = verify_otp db vault hmac_sha1 now user vector code s in
            Outcome now user code s.otp_last_counter r.0.otp_last_counter r.1
      go allowed h =
          rw (h, verify_otp)
            (check_code-Outcome now user vector code
              (record s { lockouts = (assert_not_locked db now user s.lockouts).0 }))
      go failed h = rw (h, verify_otp) (left_alone (err internal_server_error) (λ k. cc))
      go (refused wait) h = rw (h, verify_otp) (left_alone (err unauthorized) (λ k. cc))
