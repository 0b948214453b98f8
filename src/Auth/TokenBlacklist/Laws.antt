-- ===== src/Auth/TokenBlacklist/Laws.antt =====
-- How long backend/src/auth/token-blacklist.service.ts keeps a token out.
use open_bastion.Base.{
  Bool-cases, List, Option-cases, String, [], ap, arith, eq_iff, eq_refl, inl, inr, is_some, ltb,
  some, true, ℕ, ◌*◌, ◌∷◌, ◌≡◌, ◌≢◌, ◌≤◌,
}
use open_bastion.Database.{Database}
use open_bastion.Schema.{BlacklistedToken}
use open_bastion.Auth.Jwt.{Jwt}
use open_bastion.Auth.TokenBlacklist.{cleanup_expired_tokens, add, is_blacklisted}

module _ (db : Database) (jwt : Jwt) where
  -- The rows agree with the tokens: what is listed under a token's hash ends when the token does.
  abbrev pub IsConsistent : db.State BlacklistedToken → Type 0
  IsConsistent s =
      (token : jwt.Token) (row : BlacklistedToken) (exp : ℕ)
      → db.find (jwt.hash token) s ≡ some row
      → jwt.expiry token ≡ some exp
      → row.expires_at ≡ exp * 1000

  -- A token with a (non-zero) expiry that was added is reported as revoked up to its expiry, also
  -- after a clean-up at any time up to the expiry, if the rows agree with the tokens' expiry.
  pub add-is_blacklisted :
      (s : db.State BlacklistedToken) (token : jwt.Token) (exp t now : ℕ)
      → IsConsistent s
      → jwt.expiry token ≡ some exp
      → exp ≢ 0
      → t ≤ exp * 1000
      → now ≤ exp * 1000
      → is_blacklisted db jwt now token (cleanup_expired_tokens db t (add db jwt token s).0) ≡ true
  unfolding add is_blacklisted cleanup_expired_tokens
  add-is_blacklisted s token exp t now v e h a b =
      let k = jwt.hash token in
      let row : BlacklistedToken = record { expires_at = exp * 1000 } in
      elim (Option-cases (db.find k s)) [
        | inl free ↦ ground (
          arith,
          db.find-delete_many k (λ _ row. ltb row.expires_at t) (db.put k row s),
          db.find-put k k row s,
          eq_refl k,
        )
        | inr (old, found) ↦ ground (
          arith,
          db.find-delete_many k (λ _ row. ltb row.expires_at t) s,
          v token old exp found e,
        )
      ]

  -- The clean-up changes no answer from then on.
  pub is_blacklisted-cleanup :
      (s : db.State BlacklistedToken) (token : jwt.Token) (t now : ℕ)
      → t ≤ now
      → is_blacklisted db jwt now token (cleanup_expired_tokens db t s)
        ≡ is_blacklisted db jwt now token s
  unfolding is_blacklisted cleanup_expired_tokens
  is_blacklisted-cleanup s token t now h =
      ground (arith, db.find-delete_many (jwt.hash token) (λ _ row. ltb row.expires_at t) s)

  -- What becomes of the table: clean-ups at some times, and further tokens that are listed.
  pub data BlacklistEvent : Type 0 where
    cleans : ℕ → BlacklistEvent
    lists : jwt.Token → BlacklistEvent

  unfoldable pub run_blacklist :
      List BlacklistEvent → db.State BlacklistedToken → db.State BlacklistedToken
  run_blacklist [] s = s
  run_blacklist (cleans t ∷ es) s = run_blacklist es (cleanup_expired_tokens db t s)
  run_blacklist (lists token ∷ es) s = run_blacklist es (add db jwt token s).0

  -- The clean-ups are over by a time.
  abbrev pub AreBy : ℕ → List BlacklistEvent → Type 0
  AreBy later [] = Unit {0}
  AreBy later (cleans t ∷ es) = (t ≤ later) × AreBy later es
  AreBy later (lists token ∷ es) = Unit {0} × AreBy later es

  add-find :
      (key : String) (row : BlacklistedToken) (token : jwt.Token) (s : db.State BlacklistedToken)
      → db.find key s ≡ some row
      → db.find key (add db jwt token s).0 ≡ some row
  unfolding add
  add-find key row token s there = elim (Option-cases (jwt.expiry token)) [
    | inl e ↦ ground arith
    | inr (exp, e) ↦ elim (Bool-cases (is_some (db.find (jwt.hash token) s))) [
      | inl old ↦ ground arith
      | inr new ↦ ground (
        arith,
        eq_iff (jwt.hash token) key,
        ap (λ k. db.find k s),
        db.find-put key (jwt.hash token) (record { expires_at = exp * 1000 }) s,
      )
    ]
  ]

  -- A row stays as long as it has not expired.
  run_blacklist-find :
      (later : ℕ) (key : String) (row : BlacklistedToken) (es : List BlacklistEvent)
      (s : db.State BlacklistedToken)
      → later ≤ row.expires_at
      → AreBy later es
      → db.find key s ≡ some row
      → db.find key (run_blacklist es s) ≡ some row
  unfolding run_blacklist cleanup_expired_tokens add
  run_blacklist-find later key row [] s h by there = there
  run_blacklist-find later key row (cleans t ∷ es) s h by there =
      run_blacklist-find later key row es (cleanup_expired_tokens db t s) h by.1
        (ground (arith, by.0, db.find-delete_many key (λ _ r. ltb r.expires_at t) s))
  run_blacklist-find later key row (lists token ∷ es) s h by there =
      run_blacklist-find later key row es (add db jwt token s).0 h by.1
        (add-find key row token s there)

  pub run_blacklist-is_blacklisted :
      (later : ℕ) (token : jwt.Token) (es : List BlacklistEvent) (s : db.State BlacklistedToken)
      → AreBy later es
      → is_blacklisted db jwt later token s ≡ true
      → is_blacklisted db jwt later token (run_blacklist es s) ≡ true
  unfolding is_blacklisted
  run_blacklist-is_blacklisted later token es s by listed =
      elim (Option-cases (db.find (jwt.hash token) s)) [
        | inl gone ↦ absurd (ground arith)
        | inr (row, there) ↦
            let still =
              run_blacklist-find later (jwt.hash token) row es s (ground arith) by there in
            ground (arith, still)
      ]
