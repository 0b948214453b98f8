-- ===== src/Auth/TokenBlacklist.antt =====
-- backend/src/auth/token-blacklist.service.ts on the table BlacklistedToken, by the token's hash.
-- The timer of `onModuleInit` only calls `cleanupExpiredTokens`, and a failing clean-up is logged.
pub mod Laws
use open_bastion.Base.{
  ℕ, ◌*◌, Bool, true, false, not, Option, none, some, ltb, if◌then◌else◌, Result, ok, err,
  internal_server_error, ◌==◌, is_some,
}
use open_bastion.Database.{Database}
use open_bastion.Schema.{BlacklistedToken}
use open_bastion.Auth.Jwt.{Jwt}

module _ (db : Database) where
  unfoldable pub cleanup_expired_tokens : ℕ → db.State BlacklistedToken → db.State BlacklistedToken
  cleanup_expired_tokens now s = db.delete_many (λ _ row. ltb row.expires_at now) s

  module _ (jwt : Jwt) where
    -- `upsert` with an empty update: a row that is there stays as it is.
    unfoldable pub add :
        jwt.Token → db.State BlacklistedToken → db.State BlacklistedToken × Result (Unit {0})
    add token s = elim (jwt.expiry token) [
      | none ↦ (s, err internal_server_error)
      | some exp ↦ if exp == 0 then (s, err internal_server_error) else (
        if is_some (db.find (jwt.hash token) s)
            then s
            else db.put (jwt.hash token) (record { expires_at = exp * 1000 }) s,
        ok tt,
      )
    ]

    unfoldable pub is_blacklisted : ℕ → jwt.Token → db.State BlacklistedToken → Bool
    is_blacklisted now token s = elim (db.find (jwt.hash token) s) [
      | none ↦ false
      | some found ↦ if ltb found.expires_at now then false else true
    ]
