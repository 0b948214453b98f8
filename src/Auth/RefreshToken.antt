-- ===== src/Auth/RefreshToken.antt =====
-- backend/src/auth/refresh-token.service.ts on the tables RefreshToken (by `jti`) and User.
pub mod Claim
pub mod Reuse
use open_bastion.Base.{
  ℕ, zero, suc, ◌+◌, ◌*◌, ◌==◌, Bool, true, false, not, ◌&&◌, Option, none, some, String, ltb,
  ◌=s=◌, if◌then◌else◌, is_some, Result, ok, err, unauthorized, internal_server_error,
}
use open_bastion.Constants.{jwt_refresh_expiration_seconds}
use open_bastion.Database.{Database, count}
use open_bastion.Schema.{User, RefreshToken}
use open_bastion.Auth.Jwt.{Jwt, Claims, refresh}

-- `where: { revokedAt: null, expiresAt: { gt: now } }`
unfoldable pub is_active : ℕ → RefreshToken → Bool
is_active now row = not (is_some row.revoked_at) && ltb now row.expires_at

abbrev pub revoked : ℕ → RefreshToken → RefreshToken
revoked now row = record row { revoked_at = some now }

-- `where: { userId, revokedAt: null }`
abbrev pub is_unrevoked_of : String → String → RefreshToken → Bool
is_unrevoked_of user jti row = row.user_id =s= user && not (is_some row.revoked_at)

abbrev pub bump_version : User → User
bump_version u = record u { token_version = u.token_version + 1 }

module _ (db : Database) where
  abbrev pub Tokens : Type 0
  Tokens = db.State RefreshToken

  pub record Tables : Type 0 where
    pub tokens : Tokens
    pub users : db.State User

  -- The atomic compare-and-revoke of `rotate`, with its `updated.count`.
  unfoldable pub claim : ℕ → String → Tokens → Tokens × ℕ
  unfolding is_active
  claim now jti s =
      let p = λ (k : String) (row : RefreshToken). k =s= jti && is_active now row in
      (db.update_many p (revoked now) s, count db p s)

  unfoldable pub revoke_all_for_user : ℕ → String → Tokens → Tokens
  revoke_all_for_user now user s = db.update_many (is_unrevoked_of user) (revoked now) s

  unfoldable pub cleanup_expired : ℕ → Tokens → Tokens
  cleanup_expired now s = db.delete_many (λ _ row. ltb row.expires_at now) s

  -- The `$transaction` that kills the family: both statements or, without the user, neither.
  unfoldable pub kill_family : ℕ → String → Tables → Tables × Result (Unit {0})
  unfolding revoke_all_for_user
  kill_family now user s = elim (db.find user s.users) [
    | none ↦ (s, err internal_server_error)
    | some u ↦ (
      record {
        tokens = revoke_all_for_user now user s.tokens;
        users = db.put user (bump_version u) s.users;
      },
      ok tt,
    )
  ]

  -- The branch of `rotate` where nothing was claimed.
  unfoldable pub on_stale : ℕ → String → Tables → Tables × Result (Unit {0})
  unfolding kill_family
  on_stale now jti s = elim (db.find jti s.tokens) [
    | none ↦ (s, err unauthorized)
    | some stale ↦
        if not (stale.user_id =s= "")
        then (let (s', done) = kill_family now stale.user_id s in
            (s', elim done [ err e ↦ err e | ok _ ↦ err unauthorized ]))
        else (s, err unauthorized)
  ]

  module _ (jwt : Jwt) where
    -- `jti` is the result of `randomUUID`; the unique index refuses one in use.
    unfoldable pub create : ℕ → String → String → Tokens → Tokens × Result jwt.Token
    create now jti user s = if is_some (db.find jti s) then (s, err internal_server_error) else (
      db.put jti
          (record {
            user_id = user;
            expires_at = now + jwt_refresh_expiration_seconds * 1000;
            revoked_at = none;
          })
          s,
      ok (jwt.sign now jwt_refresh_expiration_seconds (refresh user jti)),
    )

    -- The branch where the presented token was claimed: issue its successor.
    unfoldable pub on_claimed : ℕ → String → String → Tables → Tables × Result (String × jwt.Token)
    unfolding create
    on_claimed now fresh jti s = elim (db.find jti s.tokens) [
      | none ↦ (s, err unauthorized)
      | some row ↦
          let (tokens', made) = create now fresh row.user_id s.tokens in
          (
            record s { tokens = tokens' },
            elim made [ err e ↦ err e | ok token ↦ ok (row.user_id, token) ],
          )
    ]

    unfoldable pub rotate_jti : ℕ → String → String → Tables → Tables × Result (String × jwt.Token)
    rotate_jti now fresh jti s =
        let (tokens', updated) = claim now jti s.tokens in
        let s' : Tables = record s { tokens = tokens' } in
        if updated == 0
        then (let (s'', failed) = on_stale now jti s' in
            (s'', elim failed [ err e ↦ err e | ok _ ↦ err unauthorized ]))
        else on_claimed now fresh jti s'

    unfoldable pub rotate : ℕ → String → jwt.Token → Tables → Tables × Result (String × jwt.Token)
    rotate now fresh token s = elim (jwt.verify now token) [
      | none ↦ (s, err unauthorized)
      | some claims ↦ elim claims [
        | refresh sub jti ↦ rotate_jti now fresh jti s
        | _ ↦ (s, err unauthorized)
      ]
    ]
