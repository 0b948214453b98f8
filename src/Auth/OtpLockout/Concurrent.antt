-- ===== src/Auth/OtpLockout/Concurrent.antt =====
-- Concurrent calls of `consumeAttempt` for one user: any number of requests, whose statements the
-- server interleaves in any order (backend/src/auth/otp-lockout.service.ts, F-04).
use open_bastion.Base.{
  ℕ, zero, suc, ◌+◌, ◌≤◌, ◌≡◌, refl, none, some, List, [], ◌∷◌, String, arith, ltb, if◌then◌else◌,
  Option-cases, inl, inr, eq_refl, ◌⊎◌,
}
use open_bastion.Database.{Database}
use open_bastion.Auth.OtpLockout.{
  Lockout, Attempt, refused, bumped, check_gate, increment, settle, consume_attempt, backoff_ms,
}
use open_bastion.Auth.OtpLockout.Sequence.{attempts_of, granted}

-- Where a request stands: before its read, before its upsert, before its verdict, or done.
pub data Progress : Type 0 where
  arrived gate_passed : Progress
  counted : ℕ → Progress
  done : Attempt → Progress

-- A request that holds, or was given, one of the five slots.
abbrev pub holds_slot : Progress → ℕ
holds_slot arrived = 0
holds_slot gate_passed = 0
holds_slot (counted n) = if ltb 5 n then 0 else 1
holds_slot (done result) = granted result

abbrev pub slots : List Progress → ℕ
slots [] = 0
slots (r ∷ rs) = holds_slot r + slots rs

-- The requests whose verification goes on.
abbrev pub let_through : List Progress → ℕ
let_through [] = 0
let_through (done result ∷ rs) = granted result + let_through rs
let_through (_ ∷ rs) = let_through rs

let_through-le-slots : (rs : List Progress) → let_through rs ≤ slots rs
let_through-le-slots [] = omega arith
let_through-le-slots (done result ∷ rs) = omega (arith, let_through-le-slots rs)
let_through-le-slots (_ ∷ rs) = omega (arith, let_through-le-slots rs)

module _ (db : Database) (user : String) where
  -- The next statement of one request.
  unfoldable pub advance : ℕ → Progress → db.State Lockout → db.State Lockout × Progress
  unfolding check_gate increment settle
  advance now arrived s = elim (check_gate db now user s) [
    | some wait ↦ (s, done (refused wait))
    | none ↦ (s, gate_passed)
  ]
  advance now gate_passed s = let (s', n) = increment db user s in (s', counted n)
  advance now (counted n) s = let (s', result) = settle db now user n s in (s', done result)
  advance now (done result) s = (s, done result)

  -- The scheduler picks request `i` at time `now`; an `i` out of range is no request.
  unfoldable pub turn : ℕ → ℕ → List Progress → db.State Lockout → db.State Lockout × List Progress
  unfolding advance
  turn now i [] s = (s, [])
  turn now zero (r ∷ rs) s = let (s', r') = advance now r s in (s', r' ∷ rs)
  turn now (suc i) (r ∷ rs) s = let (s', rs') = turn now i rs s in (s', r ∷ rs')

  unfoldable pub interleave :
      List (ℕ × ℕ) → List Progress → db.State Lockout → db.State Lockout × List Progress
  unfolding turn
  interleave [] rs s = (s, rs)
  interleave ((now, i) ∷ schedule) rs s =
      let (s', rs') = turn now i rs s in interleave schedule rs' s'

  abbrev counter : db.State Lockout → ℕ
  counter s = attempts_of (db.find user s)

  -- One statement takes a slot only by counting up to at most five.
  slots-advance :
      (now : ℕ) (r : Progress) (s : db.State Lockout)
      → (counter s ≤ counter (advance now r s).0)
        × (holds_slot (advance now r s).1 + counter s ≤ holds_slot r + counter (advance now r s).0)
        × ((holds_slot (advance now r s).1 ≤ holds_slot r) ⊎ (counter (advance now r s).0 ≤ 5))
  unfolding advance
  slots-advance now arrived s = ground arith
  slots-advance now gate_passed s =
      ground (arith, db.find-put user user (bumped (db.find user s)) s, eq_refl user)
  slots-advance now (counted n) s = elim (Option-cases (db.find user s)) [
    | inl e ↦ ground arith
    | inr (row, e) ↦
        let after = record row { locked_until = some (now + backoff_ms n) } in
        ground (arith, db.find-put user user after s, eq_refl user)
  ]
  slots-advance now (done result) s = ground arith

  slots-turn :
      (now i : ℕ) (rs : List Progress) (s : db.State Lockout)
      → (counter s ≤ counter (turn now i rs s).0)
        × (slots (turn now i rs s).1 + counter s ≤ slots rs + counter (turn now i rs s).0)
        × ((slots (turn now i rs s).1 ≤ slots rs) ⊎ (counter (turn now i rs s).0 ≤ 5))
  unfolding turn
  slots-turn now i [] s = ground arith
  slots-turn now zero (r ∷ rs) s = ground (arith, slots-advance now r s)
  slots-turn now (suc i) (r ∷ rs) s = ground (arith, slots-turn now i rs s)

  slots-interleave :
      (schedule : List (ℕ × ℕ)) (rs : List Progress) (s : db.State Lockout)
      → slots rs ≤ counter s
      → slots rs ≤ 5
      → slots (interleave schedule rs s).1 ≤ 5
  unfolding interleave
  slots-interleave [] rs s h k = k
  slots-interleave ((now, i) ∷ schedule) rs s h k = ground (
    arith,
    slots-turn now i rs s,
    slots-interleave schedule (turn now i rs s).1 (turn now i rs s).0,
  )

  abbrev pub fresh_requests : ℕ → List Progress
  fresh_requests zero = []
  fresh_requests (suc n) = arrived ∷ fresh_requests n

  slots-fresh : (n : ℕ) → slots (fresh_requests n) ≡ 0
  slots-fresh zero = refl
  slots-fresh (suc n) = omega (arith, slots-fresh n)

  -- However many requests run at once, and however their statements are interleaved: at most five
  -- are let through, as long as the counter is not reset.
  pub let_through-interleave :
      (requests : ℕ) (schedule : List (ℕ × ℕ)) (s : db.State Lockout)
      → let_through (interleave schedule (fresh_requests requests) s).1 ≤ 5
  let_through-interleave requests schedule s = omega (
    arith,
    let_through-le-slots (interleave schedule (fresh_requests requests) s).1,
    slots-interleave schedule (fresh_requests requests) s,
    slots-fresh requests,
  )

  -- One request whose three statements run without a break is `consumeAttempt`.
  pub interleave_alone :
      (now : ℕ) (s : db.State Lockout)
      → interleave ((now, 0) ∷ (now, 0) ∷ (now, 0) ∷ []) (arrived ∷ []) s
        ≡ ((consume_attempt db now user s).0, done (consume_attempt db now user s).1 ∷ [])
  unfolding interleave consume_attempt
  interleave_alone now s = ground arith
