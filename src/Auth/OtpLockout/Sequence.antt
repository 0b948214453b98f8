-- ===== src/Auth/OtpLockout/Sequence.antt =====
-- Calls of `consumeAttempt` one after another (backend/src/auth/otp-lockout.service.ts).
use open_bastion.Base.{
  ℕ, suc, ◌+◌, ◌-◌, ◌≤◌, ◌<◌, ◌≡◌, ◌≢◌, Option, none, some, List, [], ◌∷◌, String, arith, ◌=s=◌,
  eq_iff, eq_refl, min, length,
}
use open_bastion.Database.{Database}
use open_bastion.Auth.OtpLockout.{
  Lockout, Attempt, allowed, refused, bumped, check_gate, consume_attempt, wait_seconds, backoff_ms,
  reset,
}

abbrev pub attempts_of : Option Lockout → ℕ
attempts_of none = 0
attempts_of (some row) = row.attempts

abbrev pub granted : Attempt → ℕ
granted allowed = 1
granted _ = 0

module _ (db : Database) (user : String) where
  -- The number of calls, at the given times, that let the verification go on.
  pub calls_allowed : List ℕ → db.State Lockout → ℕ
  calls_allowed [] s = 0
  calls_allowed (now ∷ times) s =
      let (s', result) = consume_attempt db now user s in granted result + calls_allowed times s'

  consume_below :
      (now : ℕ) (s : db.State Lockout)
      → attempts_of (db.find user s) < 5
      → (granted (consume_attempt db now user s).1 ≡ 1)
        × (attempts_of (db.find user (consume_attempt db now user s).0)
            ≡ suc (attempts_of (db.find user s)))
  unfolding consume_attempt
  consume_below now s h =
      ground (arith, db.find-put user user (bumped (db.find user s)) s, eq_refl user)

  consume_above :
      (now : ℕ) (s : db.State Lockout)
      → 5 ≤ attempts_of (db.find user s)
      → (granted (consume_attempt db now user s).1 ≡ 0)
        × (5 ≤ attempts_of (db.find user (consume_attempt db now user s).0))
  unfolding consume_attempt
  consume_above now s h =
      let row = bumped (db.find user s) in
      let after = record row { locked_until = some (now + backoff_ms row.attempts) } in
      ground (
        arith,
        db.find-put user user row s,
        db.find-put user user after (db.put user row s),
        eq_refl user,
      )

  -- Whatever the times of the calls: as many are let through as there are calls, but no more than
  -- 5 less the counter that the user's row (0, if there is none) stands at.
  pub calls_allowed_lem :
      (times : List ℕ) (s : db.State Lockout)
      → calls_allowed times s ≡ min (length times) (5 - attempts_of (db.find user s))
  unfolding calls_allowed
  calls_allowed_lem [] s = omega arith
  calls_allowed_lem (now ∷ times) s = ground (
    arith,
    consume_below now s,
    consume_above now s,
    calls_allowed_lem times (consume_attempt db now user s).0,
  )

  -- While a lockout window runs, a call changes nothing and asks for a wait of at least a second.
  pub consume_attempt-locked :
      (now until : ℕ) (s : db.State Lockout) (row : Lockout)
      → db.find user s ≡ some row
      → row.locked_until ≡ some until
      → 5 ≤ row.attempts
      → now < until
      → (consume_attempt db now user s ≡ (s, refused (wait_seconds (until - now))))
        × (1 ≤ wait_seconds (until - now))
  unfolding consume_attempt wait_seconds
  consume_attempt-locked now until s row found locked spent soon = (ground arith, omega arith)

  -- A call past the limit, outside a lockout window, is refused and opens a new window that starts
  -- now, however long ago the last window ended.
  pub consume_attempt-overrun :
      (now : ℕ) (s : db.State Lockout)
      → let n = suc (attempts_of (db.find user s)) in
        5 ≤ attempts_of (db.find user s)
        → check_gate db now user s ≡ none
        → ((consume_attempt db now user s).1 ≡ refused (wait_seconds (backoff_ms n)))
          × (db.find user (consume_attempt db now user s).0
              ≡ some (record { attempts = n; locked_until = some (now + backoff_ms n) }))
  unfolding consume_attempt
  consume_attempt-overrun now s h open_gate =
      let row = bumped (db.find user s) in
      let after = record row { locked_until = some (now + backoff_ms row.attempts) } in
      ground (
        arith,
        db.find-put user user row s,
        db.find-put user user after (db.put user row s),
        eq_refl user,
      )

  -- `reset` gives the user a fresh budget, and no call for `user` touches another user's row.
  pub reset-budget :
      (times : List ℕ) (s : db.State Lockout)
      → calls_allowed times (reset db user s) ≡ min (length times) 5
  unfolding reset
  reset-budget times s = ground (
    arith,
    calls_allowed_lem times (reset db user s),
    db.find-delete_many user (λ k _. k =s= user) s,
    eq_refl user,
  )

  pub consume_attempt-other :
      (now : ℕ) (other : String) (s : db.State Lockout)
      → user ≢ other
      → db.find other (consume_attempt db now user s).0 ≡ db.find other s
  unfolding consume_attempt
  consume_attempt-other now other s h =
      let row = bumped (db.find user s) in
      let after = record row { locked_until = some (now + backoff_ms row.attempts) } in
      ground (
        arith,
        db.find-put user user row s,
        db.find-put other user row s,
        db.find-put other user after (db.put user row s),
        eq_refl user,
        eq_iff user other,
      )
