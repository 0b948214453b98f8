-- ===== src/Auth/Controller/Exit.antt =====
-- What `logout` of backend/src/auth/auth.controller.ts ends.
use open_bastion.Base.{
  List, Option-cases, Result-cases, String, arith, eq_iff, err, inl, inr, is_some, ok, refl, some,
  sym, true, unauthorized, ℕ, ◌*◌, ◌∙◌, ◌≡◌, ◌≢◌, ◌≤◌,
}
use open_bastion.Database.{Database}
use open_bastion.Schema.{User, BlacklistedToken, RefreshToken}
use open_bastion.Auth.Jwt.{Jwt}
use open_bastion.Auth.TokenBlacklist.{is_blacklisted, add}
use open_bastion.Auth.TokenBlacklist.Laws.{
  IsConsistent, BlacklistEvent, run_blacklist, AreBy, add-is_blacklisted, is_blacklisted-cleanup,
  run_blacklist-is_blacklisted,
}
use open_bastion.Auth.RefreshToken.{is_unrevoked_of, revoked, revoke_all_for_user}
use open_bastion.Auth.Guards.{RequestUser, jwt_can_activate}
use open_bastion.Auth.Controller.{
  Platform, Drawn, World, message, logout, logout_as, forget_user, guarded,
}
use open_bastion.Auth.Controller.Sessions.{guarded-eq_ok}

module _ (db : Database) (jwt : Jwt) where
  listed_refused :
      (later : ℕ) (method pathname : String) (token : jwt.Token)
      (blacklist : db.State BlacklistedToken) (users : db.State User)
      → is_blacklisted db jwt later token blacklist ≡ true
      → jwt_can_activate db jwt later
          (record { method = method; pathname = pathname; cookie = some token })
          blacklist
          users
        ≡ err unauthorized
  unfolding jwt_can_activate
  listed_refused later method pathname token blacklist users listed =
      elim (Option-cases (jwt.verify later token)) [
        | inl e ↦ rw (jwt_can_activate, e) refl
        | inr (c, e) ↦ rw (jwt_can_activate, e, listed) refl
      ]

  add_lasting :
      (s : db.State BlacklistedToken) (token : jwt.Token) (exp : ℕ) (done : Unit {0})
      → jwt.expiry token ≡ some exp
      → (add db jwt token s).1 ≡ ok done
      → exp ≢ 0
  unfolding add
  add_lasting s token exp done e added z = ground (arith, e, added)

  add_in_force :
      (s : db.State BlacklistedToken) (token : jwt.Token) (exp later : ℕ) (done : Unit {0})
      → IsConsistent db jwt s
      → jwt.expiry token ≡ some exp
      → later ≤ exp * 1000
      → (add db jwt token s).1 ≡ ok done
      → is_blacklisted db jwt later token (add db jwt token s).0 ≡ true
  unfolding add
  add_in_force s token exp later done consistent e h added =
      sym (is_blacklisted-cleanup db jwt (add db jwt token s).0 token 0 later (omega arith))
      ∙ add-is_blacklisted db jwt s token exp 0 later consistent e
          (add_lasting s token exp done e added) (omega arith) h

  revoked_after :
      (now : ℕ) (user jti : String) (row : RefreshToken) (s : db.State RefreshToken)
      → db.find jti (revoke_all_for_user db now user s) ≡ some row
      → row.user_id ≡ user
      → is_some row.revoked_at ≡ true
  unfolding revoke_all_for_user
  revoked_after now user jti row s found theirs = ground (
    arith,
    db.find-update_many jti (is_unrevoked_of user) (revoked now) s,
    eq_iff row.user_id user,
  )

module _ (p : Platform) where
  -- A logout that succeeds ends the session it is called in: until the access token expires, the
  -- guard refuses a request with it, whatever becomes of the users, and whatever clean-ups and
  -- further logouts do to the blacklist until then; and every refresh token of the user in the
  -- table is revoked by the logout. Here the rows of the blacklist agree with their tokens.
  pub logout_ends :
      (d : Drawn) (token : p.jwt.Token) (exp : ℕ) (w : World p) (later : ℕ)
      (method pathname : String) (users : p.db.State User)
      (events : List (BlacklistEvent p.db p.jwt))
      → IsConsistent p.db p.jwt w.blacklist
      → p.jwt.expiry token ≡ some exp
      → (logout p d (some token) w).1 ≡ ok message
      → later ≤ exp * 1000
      → AreBy p.db p.jwt later events
      → (u : RequestUser) × (jwt_can_activate p.db p.jwt d.now
            (record { method = "POST"; pathname = "/auth/logout"; cookie = some token })
            w.blacklist
            w.users
          ≡ ok u)
        × (jwt_can_activate p.db p.jwt later
              (record { method = method; pathname = pathname; cookie = some token })
              (run_blacklist p.db p.jwt events (logout p d (some token) w).0.blacklist)
              users
            ≡ err unauthorized)
        × ((jti : String) (row : RefreshToken)
            → p.db.find jti (logout p d (some token) w).0.tokens ≡ some row
            → row.user_id ≡ u.sub
            → is_some row.revoked_at ≡ true)
  unfolding logout logout_as
  logout_ends d token exp w later method pathname users events consistent e h early by =
      let (u, admitted, k) =
        guarded-eq_ok p d "POST" "/auth/logout" (some token) (logout_as p d (some token)) w message
          h in
      elim (Result-cases (add p.db p.jwt token w.blacklist).1) [
        | inl (why, a) ↦ cc (rw (logout_as, a) at k)
        | inr (done, a) ↦
            let ended : logout p d (some token) w
                ≡ forget_user p d u
                    (record w { blacklist = (add p.db p.jwt token w.blacklist).0 }) =
              rw (logout, guarded, admitted, logout_as, a) refl in
            let listed =
              run_blacklist-is_blacklisted p.db p.jwt later token events
                (add p.db p.jwt token w.blacklist).0 by
                (add_in_force p.db p.jwt w.blacklist token exp later done consistent e early a) in
            (
              u,
              admitted,
              rw ended (
                  listed_refused p.db p.jwt later method pathname token
                    (run_blacklist p.db p.jwt events (add p.db p.jwt token w.blacklist).0) users
                    listed),
              λ jti row found theirs.
                  revoked_after p.db p.jwt d.now u.sub jti row w.tokens (rw ended at found) theirs,
            )
      ]
