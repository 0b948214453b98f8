-- ===== src/Auth/OtpLockout.antt =====
-- backend/src/auth/otp-lockout.service.ts: the three statements of `consumeAttempt` on the table
-- `OtpLockout`, whose unique column is `userId`, and the calls that are made of them.
pub mod Backoff
pub mod Sequence
pub mod Concurrent
use open_bastion.Base.{
  ℕ, suc, ◌+◌, ◌-◌, ◌*◌, ◌/◌, ◌^◌, min, max, Bool, true, false, ◌&&◌, Option, none, some, String,
  ltb, leb, ◌=s=◌, if◌then◌else◌,
}
use open_bastion.Constants.{otp_max_attempts, otp_backoff_base_ms, otp_backoff_max_ms}
use open_bastion.Database.{Database}

pub record Lockout : Type 0 where
  pub attempts : ℕ
  pub locked_until : Option ℕ

-- `refused` carries the seconds to wait; `failed` is an error of the client (P2025).
pub data Attempt : Type 0 where
  allowed failed : Attempt
  refused : ℕ → Attempt

-- `Math.ceil(ms / 1000)`
unfoldable pub wait_seconds : ℕ → ℕ
wait_seconds ms = (ms + 999) / 1000

unfoldable pub backoff_ms : ℕ → ℕ
backoff_ms attempts =
    let overflow = attempts - otp_max_attempts in
    min (otp_backoff_base_ms * 2 ^ max 0 (overflow - 1)) otp_backoff_max_ms

unfoldable pub locked_for : ℕ → Lockout → Option ℕ
unfolding wait_seconds
locked_for now row = elim row.locked_until [
  | none ↦ none
  | some until ↦
      if leb otp_max_attempts row.attempts && ltb now until
      then some (wait_seconds (until - now))
      else none
]

unfoldable pub bumped : Option Lockout → Lockout
bumped none = record { attempts = 1; locked_until = none }
bumped (some row) = record row { attempts = row.attempts + 1 }

module _ (db : Database) where
  -- 1. the gate, a read
  unfoldable pub check_gate : ℕ → String → db.State Lockout → Option ℕ
  unfolding locked_for
  check_gate now user s = elim (db.find user s) [ none ↦ none | some row ↦ locked_for now row ]

  -- 2. the upsert, which returns the new counter
  unfoldable pub increment : String → db.State Lockout → db.State Lockout × ℕ
  unfolding bumped
  increment user s = let row = bumped (db.find user s) in (db.put user row s, row.attempts)

  -- 3. the verdict on that counter
  unfoldable pub settle : ℕ → String → ℕ → db.State Lockout → db.State Lockout × Attempt
  unfolding backoff_ms wait_seconds
  settle now user attempts s =
      if ltb otp_max_attempts attempts
      then (elim (db.find user s) [
        | none ↦ (s, failed)
        | some row ↦ (
          db.put user (record row { locked_until = some (now + backoff_ms attempts) }) s,
          refused (wait_seconds (backoff_ms attempts)),
        )
      ])
      else (s, allowed)

  unfoldable pub consume_attempt : ℕ → String → db.State Lockout → db.State Lockout × Attempt
  unfolding check_gate increment settle
  consume_attempt now user s = elim (check_gate now user s) [
    | some wait ↦ (s, refused wait)
    | none ↦ let (s', attempts) = increment user s in settle now user attempts s'
  ]

  unfoldable pub assert_not_locked : ℕ → String → db.State Lockout → db.State Lockout × Attempt
  unfolding consume_attempt
  assert_not_locked now user s = consume_attempt now user s

  unfoldable pub record_failure : String → db.State Lockout → db.State Lockout
  record_failure user s = s

  unfoldable pub reset : String → db.State Lockout → db.State Lockout
  reset user s = db.delete_many (λ k _. k =s= user) s
