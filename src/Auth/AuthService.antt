-- ===== src/Auth/AuthService.antt =====
-- backend/src/auth/auth.service.ts: the one-time codes, with the replay cache. The times and the
-- vectors that `encrypt` draws are arguments.
pub mod Outcomes
pub mod Replay
pub mod Enrolment
use open_bastion.Base.{
  Bool, Dict, List, Option, Result, String, bad_request, err, false, if◌then◌else◌,
  internal_server_error, ltb, none, ok, or_throw, set_key, some, true, unauthorized, ℕ, ◌*◌, ◌-◌,
  ◌=s=◌, ◌>>=◌,
}
use Prim.Native.String.{◌++◌ as append}
use open_bastion.Database.{Database}
use open_bastion.Schema.{User}
use open_bastion.Vault.{Vault}
use open_bastion.Auth.OtpLockout.{
  Lockout, allowed, failed, refused, assert_not_locked, record_failure, reset,
}
use open_bastion.Auth.Totp.{Hmac, verify_with_counter}

abbrev pub otp_replay_ttl_ms : ℕ
otp_replay_ttl_ms = 5 * 60_000

-- gcOtpReplayCache
abbrev pub gc_otp_replay_cache : ℕ → Dict (ℕ × ℕ) → Dict (ℕ × ℕ)
gc_otp_replay_cache now cache user = elim (cache user) [
  | none ↦ none
  | some (counter, ts) ↦ if ltb otp_replay_ttl_ms (now - ts) then none else some (counter, ts)
]

abbrev pub counter_of : Option (ℕ × ℕ) → Option ℕ
counter_of none = none
counter_of (some (counter, ts)) = some counter

-- `!text`
abbrev pub non_empty : Option String → Option String
non_empty none = none
non_empty (some t) = if t =s= "" then none else some t

module _ (db : Database) where
  pub record Service : Type 0 where
    pub users : db.State User
    pub lockouts : db.State Lockout
    pub otp_last_counter : Dict (ℕ × ℕ)

module _ (db : Database) (vault : Vault) (hmac_sha1 : Hmac) where
  -- The secret, and whether it was stored in plain text.
  unfoldable pub open_secret : String → String → String × Bool
  open_secret user stored = elim (vault.decrypt stored (append "otp:" user)) [
    | some raw ↦ (raw, false)
    | none ↦ (stored, true)
  ]

  -- The end of `verifyOtp` after a match.
  unfoldable pub on_matched :
      ℕ → String → String → User → String × Bool → ℕ → Service db → Service db
  on_matched now user vector found secret counter s = record {
    users =
        (if secret.1
          then db.put user
              (record found {
                otp_secret = some (vault.encrypt vector secret.0 (append "otp:" user));
              })
              s.users
          else s.users);
    lockouts = reset db user s.lockouts;
    otp_last_counter = set_key user (counter, now) s.otp_last_counter;
  }

  -- From the clean-up of the cache on.
  unfoldable pub try_code :
      ℕ → String → String → List ℕ → User → String × Bool → Service db → Service db × Result Bool
  unfolding on_matched
  try_code now user vector code found secret s =
      let cleaned : Service db = record s {
        otp_last_counter = gc_otp_replay_cache now s.otp_last_counter;
      } in
      elim (verify_with_counter hmac_sha1 now code secret.0
        (counter_of (gc_otp_replay_cache now s.otp_last_counter user))) [
          | err e ↦ (cleaned, err e)
          | ok matched ↦ elim matched [
            | none ↦ (record cleaned { lockouts = record_failure db user s.lockouts }, ok false)
            | some counter ↦ (on_matched now user vector found secret counter cleaned, ok true)
          ]
        ]

  -- After the lockout lets the attempt through.
  unfoldable pub check_code : ℕ → String → String → List ℕ → Service db → Service db × Result Bool
  unfolding open_secret try_code
  check_code now user vector code s = elim (db.find user s.users) [
    | none ↦ (s, ok false)
    | some found ↦ elim (non_empty found.otp_secret) [
      | none ↦ (s, ok false)
      | some stored ↦ try_code now user vector code found (open_secret user stored) s
    ]
  ]

  unfoldable pub verify_otp : ℕ → String → String → List ℕ → Service db → Service db × Result Bool
  unfolding check_code
  verify_otp now user vector code s =
      let (lockouts', attempt) = assert_not_locked db now user s.lockouts in
      let counted : Service db = record s { lockouts = lockouts' } in
      (elim attempt [
        | allowed ↦ check_code now user vector code counted
        | failed ↦ (counted, err internal_server_error)
        | refused wait ↦ (counted, err unauthorized)
      ])

  unfoldable pub generate_otp : String → String → String → Service db → Service db × Result String
  generate_otp user vector secret s = elim (db.find user s.users) [
    | none ↦ (s, err bad_request)
    | some found ↦ (
      record s {
        users =
            db.put user
              (record found {
                pending_otp_secret =
                    some (vault.encrypt vector secret (append "otp-pending:" user));
              })
              s.users;
      },
      ok secret,
    )
  ]

  -- The checks of `enableOtp`: the row, the secret and the counter of the code.
  unfoldable pub check_pending : ℕ → String → List ℕ → Service db → Result (User × String × ℕ)
  check_pending now user code s = do
    found ← or_throw (db.find user s.users) bad_request
    pending ← or_throw (non_empty found.pending_otp_secret) bad_request
    raw ← or_throw (vault.decrypt pending (append "otp-pending:" user)) bad_request
    matched ← verify_with_counter hmac_sha1 now code raw none
    counter ← or_throw matched bad_request
    ok (found, raw, counter)

  -- The row that `enableOtp` writes.
  abbrev pub enabled_row : String → String → String → User → User
  enabled_row user vector raw found = record found {
    is_otp_enabled = true;
    otp_secret = some (vault.encrypt vector raw (append "otp:" user));
    pending_otp_secret = none;
  }

  unfoldable pub enable_otp :
      ℕ → String → String → List ℕ → Service db → Service db × Result (Unit {0})
  unfolding check_pending
  enable_otp now user vector code s = elim (check_pending now user code s) [
    | err e ↦ (s, err e)
    | ok (found, raw, counter) ↦ (
      record s {
        users = db.put user (enabled_row user vector raw found) s.users;
        otp_last_counter = set_key user (counter, now) s.otp_last_counter;
      },
      ok tt,
    )
  ]

  -- `update` of a missing user is an error of the client.
  unfoldable pub clear_otp : String → Service db → Service db × Result (Unit {0})
  clear_otp user s = elim (db.find user s.users) [
    | none ↦ (s, err internal_server_error)
    | some found ↦ (
      record s {
        users = db.put user (record found { is_otp_enabled = false; otp_secret = none }) s.users;
      },
      ok tt,
    )
  ]

  unfoldable pub disable_otp :
      ℕ → String → String → List ℕ → Service db → Service db × Result (Unit {0})
  unfolding verify_otp clear_otp
  disable_otp now user vector code s =
      let (s', verdict) = verify_otp now user vector code s in
      (elim verdict [
        | err e ↦ (s', err e)
        | ok is_valid ↦ if is_valid then clear_otp user s' else (s', err bad_request)
      ])
