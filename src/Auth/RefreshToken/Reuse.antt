-- ===== src/Auth/RefreshToken/Reuse.antt =====
-- What `rotate` of backend/src/auth/refresh-token.service.ts does on its two branches.
use open_bastion.Base.{
  sym, subst, Bool-cases, ℕ, ◌+◌, ◌*◌, ◌≡◌, ◌≢◌, refl, true, false, none, some, String, arith,
  ◌=s=◌, if◌then◌else◌, inl, inr, eq_iff, eq_refl, ok, err, unauthorized,
}
use open_bastion.Database.{Database}
use open_bastion.Schema.{User, RefreshToken}
use open_bastion.Auth.Jwt.{Jwt, refresh}
use open_bastion.Auth.RefreshToken.{
  rotate_jti, on_stale, on_claimed, Tokens, Tables, is_active, revoked, is_unrevoked_of,
  bump_version, claim, rotate, revoke_all_for_user,
}
use open_bastion.Auth.RefreshToken.Claim.{claim_cases, claim-other, is_spent}

module _ (db : Database) (jwt : Jwt) where
  -- Every token of the user is spent, and the other users' tokens are as before.
  abbrev pub FamilyRevoked : String → Tokens db → Tokens db → Type 0
  FamilyRevoked user before after =
      (k : String) (row : RefreshToken)
      → db.find k before ≡ some row
      → (user ≡ row.user_id → is_spent db (db.find k after) ≡ true)
        × (user ≢ row.user_id → db.find k after ≡ some row)

  pub revoke_all_for_user-FamilyRevoked :
      (now : ℕ) (user : String) (s : Tokens db)
      → FamilyRevoked user s (revoke_all_for_user db now user s)
  unfolding revoke_all_for_user
  revoke_all_for_user-FamilyRevoked now user s k row found =
      let after = db.find-update_many k (is_unrevoked_of user) (revoked now) s in
      (
        λ same. ground (arith, after, eq_iff row.user_id user),
        λ differ. ground (arith, after, eq_iff row.user_id user),
      )

  -- The row of a successor.
  abbrev successor : ℕ → String → RefreshToken
  successor now user = record {
    user_id = user;
    expires_at = now + 7 * 24 * 3600 * 1000;
    revoked_at = none;
  }

  rotate-claimed :
      (now : ℕ) (fresh sub jti : String) (token : jwt.Token) (s : Tables db) (row : RefreshToken)
      → jwt.verify now token ≡ some (refresh sub jti)
      → db.find jti s.tokens ≡ some row
      → is_active now row ≡ true
      → db.find fresh s.tokens ≡ none
      → rotate db jwt now fresh token s ≡ (
        record {
          tokens = db.put fresh (successor now row.user_id) (claim db now jti s.tokens).0;
          users = s.users;
        },
        ok (row.user_id, jwt.sign now (7 * 24 * 3600) (refresh row.user_id fresh)),
      )
  unfolding rotate rotate_jti on_stale on_claimed
  rotate-claimed now fresh sub jti token s row genuine found active unused = ground (
    arith,
    claim_cases db now jti s.tokens,
    claim-other db now jti fresh s.tokens,
    eq_iff jti fresh,
  )

  -- A live refresh token is exchanged for one successor: the old row is revoked, the new one is
  -- active for seven days, and no other row or user changes.
  pub rotate_live :
      (now : ℕ) (fresh sub jti : String) (token : jwt.Token) (s : Tables db) (row : RefreshToken)
      → jwt.verify now token ≡ some (refresh sub jti)
      → db.find jti s.tokens ≡ some row
      → is_active now row ≡ true
      → db.find fresh s.tokens ≡ none
      → let (s', result) = rotate db jwt now fresh token s in
        (result ≡ ok (row.user_id, jwt.sign now (7 * 24 * 3600) (refresh row.user_id fresh)))
        × (db.find jti s'.tokens ≡ some (revoked now row))
        × (db.find fresh s'.tokens ≡ some (successor now row.user_id))
        × ((k : String) → jti ≢ k → fresh ≢ k → db.find k s'.tokens ≡ db.find k s.tokens)
        × (s'.users ≡ s.users)
  rotate_live now fresh sub jti token s row genuine found active unused =
      rw (rotate-claimed now fresh sub jti token s row genuine found active unused) (
        refl,
        ground (arith, put jti, claim_cases db now jti s.tokens, eq_iff fresh jti),
        ground (arith, put fresh, eq_refl fresh),
        (λ k h h'. ground (arith, put k, claim-other db now jti k s.tokens h, eq_iff fresh k)),
        refl,
      )
    where
      put :
          (k : String)
          → db.find k (db.put fresh (successor now row.user_id) (claim db now jti s.tokens).0) ≡ (
              if fresh =s= k
              then some (successor now row.user_id)
              else db.find k (claim db now jti s.tokens).0)
      put k = db.find-put k fresh (successor now row.user_id) (claim db now jti s.tokens).0

  rotate-stale :
      (now : ℕ) (fresh sub jti : String) (token : jwt.Token) (s : Tables db) (row : RefreshToken)
      (owner : User)
      → jwt.verify now token ≡ some (refresh sub jti)
      → db.find jti s.tokens ≡ some row
      → is_active now row ≡ false
      → row.user_id ≢ ""
      → db.find row.user_id s.users ≡ some owner
      → rotate db jwt now fresh token s ≡ (
        record {
          tokens = revoke_all_for_user db now row.user_id (claim db now jti s.tokens).0;
          users = db.put row.user_id (bump_version owner) s.users;
        },
        err unauthorized,
      )
  unfolding rotate rotate_jti on_stale on_claimed
  rotate-stale now fresh sub jti token s row owner genuine found dead named known =
      ground (arith, claim_cases db now jti s.tokens, eq_iff row.user_id "")

  -- A refresh token whose row is revoked already is refused and taken for a theft: all tokens of
  -- its owner are revoked, no one else's, and the owner's access tokens lose their version.
  pub rotate_reused :
      (now : ℕ) (fresh sub jti : String) (token : jwt.Token) (s : Tables db) (row : RefreshToken)
      (owner : User)
      → jwt.verify now token ≡ some (refresh sub jti)
      → db.find jti s.tokens ≡ some row
      → is_active now row ≡ false
      → row.user_id ≢ ""
      → db.find row.user_id s.users ≡ some owner
      → let (s', result) = rotate db jwt now fresh token s in
        (result ≡ err unauthorized)
        × FamilyRevoked row.user_id s.tokens s'.tokens
        × (db.find row.user_id s'.users ≡ some (bump_version owner))
        × ((k : String) → row.user_id ≢ k → db.find k s'.users ≡ db.find k s.users)
  rotate_reused now fresh sub jti token s row owner genuine found dead named known =
      let after = (claim db now jti s.tokens).0 in
      rw (rotate-stale now fresh sub jti token s row owner genuine found dead named known) (
        refl,
        (λ k r e. revoke_all_for_user-FamilyRevoked now row.user_id after k r (unchanged k r e)),
        ground (
          arith,
          db.find-put row.user_id row.user_id (bump_version owner) s.users,
          eq_refl row.user_id,
        ),
        (λ k h.
            ground (
              arith,
              db.find-put k row.user_id (bump_version owner) s.users,
              eq_iff row.user_id k,
            )),
      )
    where
      unchanged :
          (k : String) (r : RefreshToken)
          → db.find k s.tokens ≡ some r
          → db.find k (claim db now jti s.tokens).0 ≡ some r
      unchanged k r e = elim (Bool-cases (jti =s= k)) [
        | inl same ↦
            let i = (eq_iff jti k).0 same in
            rw (← i) (
              ground (
                arith,
                claim_cases db now jti s.tokens,
                subst (λ x. db.find x s.tokens ≡ some r) (sym i) e,
              ))
        | inr other ↦ ground (arith, claim-other db now jti k s.tokens, eq_iff jti k)
      ]
