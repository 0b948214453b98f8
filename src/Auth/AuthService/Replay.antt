-- ===== src/Auth/AuthService/Replay.antt =====
-- No one-time code is accepted again by backend/src/auth/auth.service.ts.
use open_bastion.Base.{
  Bool, Bool-cases, Dict, List, Result, String, [], arith, eq_iff, eq_refl, inl, inr, ltb, ok, refl,
  set_key, some, subst, true, ℕ, ◌+◌, ◌-◌, ◌<◌, ◌=s=◌, ◌∷◌, ◌≡◌, ◌≤◌, ◌⊎◌,
}
use open_bastion.Database.{Database}
use open_bastion.Vault.{Vault}
use open_bastion.Auth.Totp.{counter_at, Hmac}
use open_bastion.Auth.Totp.Window.{IsMatch}
use open_bastion.Auth.AuthService.{Service, gc_otp_replay_cache, counter_of, verify_otp}
use open_bastion.Auth.AuthService.Outcomes.{
  Outcome, left_alone, cleaned, accepted, verify_otp-Outcome,
}

module _ (db : Database) (vault : Vault) (hmac_sha1 : Hmac) where
  -- The user's counters up to `c` are spent: the cache says so, or they are out of every window
  -- from `now` on.
  abbrev pub IsSpent : String → ℕ → ℕ → Dict (ℕ × ℕ) → Type 0
  IsSpent user c now cache =
      ((d : ℕ) × (ts : ℕ) × (cache user ≡ some (d, ts))
        × (c ≤ d)
        × (d ≤ counter_at hmac_sha1 ts + 1))
      ⊎ (c + 1 < counter_at hmac_sha1 now)

  gc-IsSpent :
      (user : String) (c now later : ℕ) (cache : Dict (ℕ × ℕ))
      → now ≤ later
      → IsSpent user c now cache
      → IsSpent user c later (gc_otp_replay_cache later cache)
  gc-IsSpent user c now later cache le (inr out) = inr (omega arith)
  gc-IsSpent user c now later cache le (inl (d, ts, e, low, window)) =
      elim (Bool-cases (ltb 300_000 (later - ts))) [
        | inl stale ↦ inr (ground (arith))
        | inr recent ↦ inl (d, ts, ground (arith), low, window)
      ]

  later-IsSpent :
      (user : String) (c now later : ℕ) (cache : Dict (ℕ × ℕ))
      → now ≤ later
      → IsSpent user c now cache
      → IsSpent user c later cache
  later-IsSpent user c now later cache le (inr out) = inr (omega arith)
  later-IsSpent user c now later cache le (inl spent) = inl spent

  -- A matching counter above what the cache holds is above every spent one.
  fresh-lt :
      (user : String) (c d now later : ℕ) (code : List ℕ) (secret : String) (cache : Dict (ℕ × ℕ))
      → now ≤ later
      → IsSpent user c now cache
      → IsMatch hmac_sha1 later code secret d
      → ((last : ℕ) → counter_of (gc_otp_replay_cache later cache user) ≡ some last → last < d)
      → c < d
  fresh-lt user c d now later code secret cache le spent m fresh =
      elim (gc-IsSpent user c now later cache le spent) [
        | inl (e, ts, held, low, window) ↦ omega (arith, fresh e (rw held refl))
        | inr out ↦ omega (arith, m.early)
      ]

  pub accepted-IsSpent :
      (user : String) (c now : ℕ) (code : List ℕ) (secret : String) (cache : Dict (ℕ × ℕ))
      → IsMatch hmac_sha1 now code secret c
      → IsSpent user c now (set_key user (c, now) cache)
  accepted-IsSpent user c now code secret cache m =
      inl (c, now, ground (arith, eq_refl user), omega arith, m.late)

  Outcome-IsSpent :
      (user other : String) (c now later : ℕ) (code : List ℕ) (cache cache' : Dict (ℕ × ℕ))
      (r : Result Bool)
      → now ≤ later
      → IsSpent user c now cache
      → Outcome db vault hmac_sha1 later other code cache cache' r
      → IsSpent user c later cache'
  Outcome-IsSpent user other c now later code cache cache' r le spent (left_alone s denied) =
      later-IsSpent user c now later cache le spent
  Outcome-IsSpent user other c now later code cache cache' r le spent (cleaned s denied) =
      gc-IsSpent user c now later cache le spent
  Outcome-IsSpent user other c now later code cache cache' r le spent (accepted secret d m fresh) =
      elim (Bool-cases (other =s= user)) [
        | inl same ↦
            let e = (eq_iff other user).0 same in
            let above = fresh-lt user c d now later code secret cache le spent m (
              subst
                (λ u.
                  (last : ℕ)
                  → counter_of (gc_otp_replay_cache later cache u) ≡ some last
                  → last < d)
                e fresh) in
            inl (d, later, ground (arith, same), omega (arith, above), m.late)
        | inr elsewhere ↦ elim (gc-IsSpent user c now later cache le spent) [
          | inl (e, ts, held, low, window) ↦
              inl (e, ts, ground (arith, held, elsewhere), low, window)
          | inr out ↦ inr out
        ]
      ]

  -- A call of `verifyOtp`.
  pub record Call : Type 0 where
    pub now : ℕ
    pub user : String
    pub vector : String
    pub code : List ℕ

  abbrev pub call : Call → Service db → Service db × Result Bool
  call k s = verify_otp db vault hmac_sha1 k.now k.user k.vector k.code s

  abbrev pub run : List Call → Service db → Service db
  run [] s = s
  run (k ∷ ks) s = run ks (call k s).0

  -- The calls come one after the other, from the time `t` on.
  abbrev pub AreOrdered : ℕ → List Call → Type 0
  AreOrdered t [] = Unit {0}
  AreOrdered t (k ∷ ks) = (t ≤ k.now) × AreOrdered k.now ks

  abbrev pub end_of : ℕ → List Call → ℕ
  end_of t [] = t
  end_of t (k ∷ ks) = end_of k.now ks

  run-IsSpent :
      (user : String) (c t : ℕ) (ks : List Call) (s : Service db)
      → AreOrdered t ks
      → IsSpent user c t s.otp_last_counter
      → IsSpent user c (end_of t ks) (run ks s).otp_last_counter
  run-IsSpent user c t [] s ordered spent = spent
  run-IsSpent user c t (k ∷ ks) s (le, ordered) spent =
      run-IsSpent user c k.now ks (call k s).0 ordered (
        Outcome-IsSpent user k.user c t k.now k.code s.otp_last_counter
          (call k s).0.otp_last_counter (call k s).1 le spent
          (verify_otp-Outcome db vault hmac_sha1 k.now k.user k.vector k.code s))

  -- What an accepted call shows.
  Outcome-accepted :
      (now : ℕ) (user : String) (code : List ℕ) (cache cache' : Dict (ℕ × ℕ)) (r : Result Bool)
      → Outcome db vault hmac_sha1 now user code cache cache' r
      → r ≡ ok true
      → (secret : String) × (c : ℕ) × IsMatch hmac_sha1 now code secret c
        × ((last : ℕ) → counter_of (gc_otp_replay_cache now cache user) ≡ some last → last < c)
        × IsSpent user c now cache'
  Outcome-accepted now user code cache cache' r (left_alone s denied) e = absurd (denied e)
  Outcome-accepted now user code cache cache' r (cleaned s denied) e = absurd (denied e)
  Outcome-accepted now user code cache cache' r (accepted secret c m fresh) e = (
    secret,
    c,
    m,
    fresh,
    accepted-IsSpent user c now code secret (gc_otp_replay_cache now cache) m,
  )

  -- Of two codes that `verifyOtp` accepts of a user, with any calls in between, at times that never
  -- go back, the later is that of a strictly later 30-second step: no step is accepted twice.
  pub never_replayed :
      (first second : Call) (ks : List Call) (s : Service db)
      → (call first s).1 ≡ ok true
      → AreOrdered first.now ks
      → end_of first.now ks ≤ second.now
      → first.user ≡ second.user
      → (call second (run ks (call first s).0)).1 ≡ ok true
      → (secret secret' : String) × (c d : ℕ) × IsMatch hmac_sha1 first.now first.code secret c
        × IsMatch hmac_sha1 second.now second.code secret' d
        × (c < d)
  never_replayed first second ks s won ordered le same again =
      let (secret, c, m, fresh, spent) =
        Outcome-accepted first.now first.user first.code s.otp_last_counter
          (call first s).0.otp_last_counter (call first s).1
          (verify_otp-Outcome db vault hmac_sha1 first.now first.user first.vector first.code s)
          won in
      let between = run ks (call first s).0 in
      let (secret', d, m', fresh', spent') =
        Outcome-accepted second.now second.user second.code between.otp_last_counter
          (call second between).0.otp_last_counter (call second between).1
          (verify_otp-Outcome db vault hmac_sha1 second.now second.user second.vector second.code
            between)
          again in
      let held = run-IsSpent first.user c first.now ks (call first s).0 ordered spent in
      (
        secret,
        secret',
        c,
        d,
        m,
        m',
        fresh-lt second.user c d (end_of first.now ks) second.now second.code secret'
            between.otp_last_counter le
            (subst (λ u. IsSpent u c (end_of first.now ks) between.otp_last_counter) same held) m'
            fresh',
      )
