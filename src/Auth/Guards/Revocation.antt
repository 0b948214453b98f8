-- ===== src/Auth/Guards/Revocation.antt =====
-- That `revokeAllTokens` of backend/src/users/users.service.ts shuts out whom
-- backend/src/auth/guards/jwt-auth.guard.ts let in.
use open_bastion.Base.{
  subst, ◌⊎◌, ℕ, ◌≤◌, ◌<◌, ◌≡◌, ◌≢◌, some, List, [], ◌∷◌, String, arith, Result, ok, err,
  unauthorized, eq_iff, eq_refl, Option-cases, inl, inr, ◌=s=◌, ap, Bool-cases,
}
use open_bastion.Database.{Database}
use open_bastion.Schema.{User, BlacklistedToken}
use open_bastion.Auth.Jwt.{Jwt, Claims, access, refresh}
use open_bastion.Auth.RefreshToken.{
  on_claimed, claim, Tables, bump_version, kill_family, on_stale, on_claimed, rotate_jti, rotate,
}
use open_bastion.Auth.Guards.{HttpRequest, RequestUser, revoke_all_tokens, jwt_can_activate}
use open_bastion.Auth.Guards.Admission.{jwt_can_activate-Admitted}

module _ (db : Database) (jwt : Jwt) where
  -- No user of the first table is gone or at a lower version in the second.
  abbrev Grows : db.State User → db.State User → Type 0
  Grows users users' =
      (k : String) (u : User)
      → db.find k users ≡ some u
      → (u' : User) × (db.find k users' ≡ some u') × (u.token_version ≤ u'.token_version)

  Grows-refl : (users : db.State User) → Grows users users
  Grows-refl users k u e = (u, e, omega arith)

  Grows-trans : (a b c : db.State User) → Grows a b → Grows b c → Grows a c
  Grows-trans a b c g h k u e =
      let (v, e', le) = g k u e in let (w, e'', le') = h k v e' in (w, e'', omega arith)

  kill_family-Grows :
      (now : ℕ) (id : String) (s : Tables db) → Grows s.users (kill_family db now id s).0.users
  unfolding kill_family
  kill_family-Grows now id s k u e = elim (Option-cases (db.find id s.users)) [
    | inl missing ↦ (u, ground arith, omega arith)
    | inr (owner, found) ↦ elim (Bool-cases (id =s= k)) [
      | inl same ↦ (
        bump_version owner,
        ground (arith, db.find-put k id (bump_version owner) s.users),
        ground (arith, eq_iff id k, ap (λ x. db.find x s.users) ((eq_iff id k).0 same)),
      )
      | inr differ ↦ (u, ground (arith, db.find-put k id (bump_version owner) s.users), omega arith)
    ]
  ]

  on_stale-Grows :
      (now : ℕ) (jti : String) (s : Tables db) → Grows s.users (on_stale db now jti s).0.users
  unfolding on_stale
  on_stale-Grows now jti s = elim (Option-cases (db.find jti s.tokens)) [
    | inl missing ↦ rw (missing, on_stale) (Grows-refl s.users)
    | inr (row, found) ↦ elim (Bool-cases (row.user_id =s= "")) [
      | inl empty ↦ rw (found, empty, on_stale) (Grows-refl s.users)
      | inr named ↦ rw (found, named, on_stale) (kill_family-Grows now row.user_id s)
    ]
  ]

  rotate_jti-users :
      (now : ℕ) (fresh jti : String) (s : Tables db)
      → ((rotate_jti db jwt now fresh jti s).0.users ≡ s.users)
        ⊎ ((rotate_jti db jwt now fresh jti s).0.users
            ≡ (on_stale db now jti (record s { tokens = (claim db now jti s.tokens).0 })).0.users)
  unfolding rotate_jti on_claimed
  rotate_jti-users now fresh jti s = ground arith

  rotate-Grows :
      (now : ℕ) (fresh : String) (token : jwt.Token) (s : Tables db)
      → Grows s.users (rotate db jwt now fresh token s).0.users
  unfolding rotate
  rotate-Grows now fresh token s = elim (Option-cases (jwt.verify now token)) [
    | inl bad ↦ rw (bad, rotate) (Grows-refl s.users)
    | inr (c, good) ↦ rw (good, rotate) (of_claims c)
  ]
    where
      users_of : Claims → db.State User
      users_of (refresh sub jti) = (rotate_jti db jwt now fresh jti s).0.users
      users_of _ = s.users

      of_claims :
          (c : Claims)
          → Grows s.users
              (elim c as (λ _. Tables db × Result (String × jwt.Token)) [
                | refresh sub jti ↦ rotate_jti db jwt now fresh jti s
                | _ ↦ (s, err unauthorized)
              ]).0.users
      of_claims (refresh sub jti) =
          let t : Tables db = record s { tokens = (claim db now jti s.tokens).0 } in
          elim (rotate_jti-users now fresh jti s) [
            | inl same ↦ rw same (Grows-refl s.users)
            | inr stale ↦ rw stale (on_stale-Grows now jti t)
          ]
      of_claims _ = Grows-refl s.users

  -- What may happen to the sessions after a revocation.
  pub data Session : Type 0 where
    revokes : String → Session
    rotates : String → jwt.Token → Session

  unfoldable pub session_step : ℕ → Session → Tables db → Tables db
  session_step now (revokes id) s = (revoke_all_tokens db now id s).0
  session_step now (rotates fresh token) s = (rotate db jwt now fresh token s).0

  unfoldable pub session_run : List (ℕ × Session) → Tables db → Tables db
  session_run [] s = s
  session_run ((now, e) ∷ es) s = session_run es (session_step now e s)

  session_run-Grows :
      (es : List (ℕ × Session)) (s : Tables db) → Grows s.users (session_run es s).users
  unfolding session_run session_step revoke_all_tokens
  session_run-Grows [] s = Grows-refl s.users
  session_run-Grows ((now, revokes id) ∷ es) s =
      Grows-trans _ _ _ (kill_family-Grows now id s) (session_run-Grows es _)
  session_run-Grows ((now, rotates fresh token) ∷ es) s =
      Grows-trans _ _ _ (rotate-Grows now fresh token s) (session_run-Grows es _)

  revoke_all_tokens-bumps :
      (t : ℕ) (id : String) (s : Tables db) (user : User)
      → db.find id s.users ≡ some user
      → db.find id (revoke_all_tokens db t id s).0.users ≡ some (bump_version user)
  unfolding revoke_all_tokens
  revoke_all_tokens-bumps t id s user e =
      ground (arith, db.find-put id id (bump_version user) s.users, eq_refl id)

  stale :
      (i j : String) (users : db.State User) (old now_user seen : User)
      → db.find i users ≡ some now_user
      → db.find j users ≡ some seen
      → i ≡ j
      → seen.token_version < now_user.token_version
      → ⊥
  stale i j users old now_user seen e h same lt =
      let one : some now_user ≡ some seen = cc (e, h, same) in ground (arith, one)

  -- Once `revokeAllTokens` has run for the user of an admitted request, its token admits nobody:
  -- at any later time, whatever refresh tokens are rotated and users revoked in between, and
  -- whatever the blacklist holds.
  pub revoked_for_good :
      (now t later : ℕ) (req again : HttpRequest jwt) (b b' : db.State BlacklistedToken)
      (s : Tables db) (u v : RequestUser) (es : List (ℕ × Session))
      → jwt_can_activate db jwt now req b s.users ≡ ok u
      → again.cookie ≡ req.cookie
      → jwt_can_activate db jwt later again b'
          (session_run es (revoke_all_tokens db t u.sub s).0).users
        ≢ ok v
  revoked_for_good now t later req again b b' s u v es first same second =
      let a = jwt_can_activate-Admitted db jwt now req b s.users u first in
      let users' = (session_run es (revoke_all_tokens db t u.sub s).0).users in
      let c = jwt_can_activate-Admitted db jwt later again b' users' v second in
      let one : a.token ≡ c.token = cc (a.presented, c.presented, same) in
      let old = access u.sub a.version u.is_admin_mode in
      let genuine : jwt.verify now c.token ≡ some old =
        subst (λ x. jwt.verify now x ≡ some old) one a.genuine in
      let claims : old ≡ access v.sub c.version v.is_admin_mode =
        jwt.verify_same now later c.token old (access v.sub c.version v.is_admin_mode) genuine
          c.genuine in
      let (w, found, grown) =
        session_run-Grows es (revoke_all_tokens db t u.sub s).0 u.sub (bump_version a.user)
          (revoke_all_tokens-bumps t u.sub s a.user a.known) in
      stale u.sub v.sub users' a.user w c.user found (c.known) (cc claims)
        (ground (arith, claims, a.current, c.current, grown))
