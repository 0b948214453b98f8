-- ===== src/Auth/Controller/Sessions.antt =====
-- What an answer with a session says of the handler of backend/src/auth/auth.controller.ts that
-- gave it.
use open_bastion.Base.{
  Bool, List, Result, Result-cases, String, arith, bad_request, err, false, inl, inr, ok, some,
  true, ℕ, ◌<◌, ◌≡◌,
}
use open_bastion.Constants.{jwt_expiration_seconds}
use open_bastion.Schema.{User}
use open_bastion.Rbac.{is_admin}
use open_bastion.Auth.Jwt.{Jwt, Claims, access}
use open_bastion.Auth.AuthService.{verify_otp}
use open_bastion.Auth.RefreshToken.{create}
use open_bastion.Auth.Guards.{RequestUser, jwt_can_activate}
use open_bastion.Auth.Login as auth
use open_bastion.Auth.Login.{access_claims}
use open_bastion.Auth.Controller.{
  Platform, Drawn, World, Reply, Outcome, Cookie, service_of, with_service, guarded, after_otp,
  open_session, session, only_known,
}

pub sign-injective :
    (jwt : Jwt) (now later ttl : ℕ) (c d : Claims)
    → 0 < ttl
    → jwt.verify later (jwt.sign now ttl c) ≡ some d
    → c ≡ d
sign-injective jwt now later ttl c d h e =
    jwt.verify_same now later (jwt.sign now ttl c) c d (jwt.verify-sign now now ttl c (omega arith))
      e

-- A token of `login` carries the admin mode only if it was asked for, for an administrator.
pub login-elevated :
    (jwt : Jwt) (now later : ℕ) (id : String) (user : User) (b : Bool) (sub : String) (v : ℕ)
    → jwt.verify later (auth.login jwt now id user b) ≡ some (access sub v true)
    → (id ≡ sub) × (is_admin user.role ≡ true) × (b ≡ true)
unfolding auth.login access_claims
login-elevated jwt now later id user b sub v e =
    let same =
      sign-injective jwt now later jwt_expiration_seconds (access_claims id user b)
        (access sub v true) (omega arith) e in
    ground arith

module _ (p : Platform) where
  pub open_session-token :
      (d : Drawn) (id : String) (user : User) (b : Bool) (w : World p) (t r : p.jwt.Token)
      → (open_session p d id user b w).1 ≡ ok (session t r)
      → auth.login p.jwt d.now id user b ≡ t
  unfolding open_session
  open_session-token d id user b w t r h =
      elim (Result-cases (create p.db p.jwt d.now d.jti id w.tokens).1) [
        | inl (why, e) ↦ cc (rw (open_session, e) at h)
        | inr (made, e) ↦ cc (rw (open_session, e) at h)
      ]

  -- The state after the check of a one-time code.
  abbrev pub coded : Drawn → String → List ℕ → World p → World p
  coded d id code w =
      with_service p w
        (verify_otp p.db p.vault p.hmac_sha1 d.now id d.vector code (service_of p w)).0

  pub after_otp-eq_ok :
      (d : Drawn) (id : String) (code : List ℕ) (handler : World p → Outcome p) (w : World p)
      (reply : Reply p)
      → (after_otp p d id code handler w).1 ≡ ok reply
      → ((verify_otp p.db p.vault p.hmac_sha1 d.now id d.vector code (service_of p w)).1 ≡ ok true)
        × ((handler (coded d id code w)).1 ≡ ok reply)
  unfolding after_otp
  after_otp-eq_ok d id code handler w reply h =
      elim (Result-cases
        (verify_otp p.db p.vault p.hmac_sha1 d.now id d.vector code (service_of p w)).1) [
          | inl (why, e) ↦ cc (rw (after_otp, e) at h)
          | inr (true, e) ↦ (e, rw (after_otp, e) at h)
          | inr (false, e) ↦ cc (rw (after_otp, e) at h)
        ]

  pub guarded-eq_ok :
      (d : Drawn) (method pathname : String) (cookie : Cookie p)
      (handler : RequestUser → World p → Outcome p) (w : World p) (reply : Reply p)
      → (guarded p d method pathname cookie handler w).1 ≡ ok reply
      → (u : RequestUser) × (jwt_can_activate p.db p.jwt d.now
            (record { method = method; pathname = pathname; cookie = cookie })
            w.blacklist
            w.users
          ≡ ok u)
        × ((handler u w).1 ≡ ok reply)
  unfolding guarded
  guarded-eq_ok d method pathname cookie handler w reply h =
      elim (Result-cases (
        jwt_can_activate p.db p.jwt d.now
          (record { method = method; pathname = pathname; cookie = cookie }) w.blacklist w.users)) [
            | inl (why, e) ↦ cc (rw (guarded, e) at h)
            | inr (u, e) ↦ (u, e, rw (guarded, e) at h)
          ]

  pub only_known-eq_ok :
      (r : Result (Reply p)) (reply : Reply p) → only_known p r ≡ ok reply → r ≡ ok reply
  only_known-eq_ok (ok value) reply h = h
  only_known-eq_ok (err bad_request) reply h = cc
  only_known-eq_ok (err _) reply h = cc
