-- ===== src/Auth/Login/Passwords.antt =====
-- A password that changePassword of backend/src/auth/auth.service.ts has stored.
use open_bastion.Base.{
  Bool, Bool-cases, Option, Option-cases, String, ap, arith, eq_iff, eq_refl, false, inl, inr, ok,
  refl, some, sym, true, ◌||◌, ◌∙◌, ◌≡◌, ◌≢◌,
}
use open_bastion.Database.{Database, find_first, find_first-cases}
use open_bastion.Schema.{User}
use open_bastion.Users.{find_one_by_email_or_username, has_email, has_username}
use open_bastion.Auth.Identity.{Argon2, bound}
use open_bastion.Auth.Login.{local_hash, validate_local, update_user_password, change_password}

module _ (db : Database) (argon2 : Argon2) where
  -- The row that is written.
  abbrev pub rewritten : String → String → User → User
  rewritten salt new user = record user {
    password_hash = some (argon2.hash salt new);
    requires_password_change = false;
  }

  changed :
      (salt id current new : String) (users : db.State User) (done : Unit {0})
      → (change_password db argon2 salt id current new users).1 ≡ ok done
      → (user : User) × (hash : String) × (db.find id users ≡ some user)
        × (local_hash user ≡ some hash)
        × (argon2.verify hash current ≡ true)
        × ((change_password db argon2 salt id current new users).0
            ≡ db.put id (rewritten salt new user) users)
  unfolding change_password update_user_password
  changed salt id current new users done h = elim (Option-cases (db.find id users)) [
    | inl e ↦ cc (rw (change_password, e) at h)
    | inr (user, e) ↦ elim (Option-cases (local_hash user)) [
      | inl f ↦ cc (rw (change_password, e, f) at h)
      | inr (hash, f) ↦ elim (Bool-cases (argon2.verify hash current)) [
        | inr g ↦ cc (rw (change_password, e, f, g) at h)
        | inl g ↦ (user, hash, e, f, g, rw (change_password, e, f, g, update_user_password, e) refl)
      ]
    ]
  ]

  pub found_first :
      (p : String → User → Bool) (users : db.State User) (k : String) (v : User)
      → find_first db p users ≡ some (k, v)
      → db.find k users ≡ some v
  found_first p users k v e = elim (find_first-cases db p users) [
    | inl (gone, _) ↦ cc
    | inr (j, w, found, _, same) ↦
        let pairs : ◌≡◌ {A = Option (String × User)} (some (j, w)) (some (k, v)) = sym same ∙ e in
        cc
  ]

  local_hash-rewritten :
      (salt new hash : String) (user : User)
      → local_hash user ≡ some hash
      → local_hash (rewritten salt new user) ≡ some (argon2.hash salt new)
  local_hash-rewritten salt new hash user h = ground (arith, argon2.hash-ne-empty salt new)

  bound_by_new :
      (salt new identifier id hash : String) (user row : User) (users : db.State User)
      → local_hash user ≡ some hash
      → find_one_by_email_or_username db identifier (db.put id (rewritten salt new user) users)
        ≡ some (id, row)
      → validate_local db argon2 identifier new (db.put id (rewritten salt new user) users)
        ≡ bound id (rewritten salt new user)
  unfolding validate_local
  bound_by_new salt new identifier id hash user row users h named =
      let written = rewritten salt new user in
      let is_row : row ≡ written = ground (
        arith,
        found_first (λ k u. has_email identifier k u || has_username identifier k u)
            (db.put id written users) id row named,
        db.find-put id id written users,
        eq_refl id,
      ) in
      let is_named = named ∙ ap (λ r. some (id, r)) is_row in
      rw
        (
          validate_local,
          is_named,
          local_hash-rewritten salt new hash user h,
          argon2.verify-hash salt new,
        )
        refl

  -- The password of a local account changes only for one who gives the current one; then no change
  -- is pending and the new password is the one that logs in, wherever the identifier finds that
  -- account; nothing else of the account changes, and no other account.
  pub change_password-validate_local :
      (salt id current new identifier : String) (users : db.State User) (done : Unit {0})
      → (change_password db argon2 salt id current new users).1 ≡ ok done
      → (user : User) × (hash : String) × (db.find id users ≡ some user)
        × (local_hash user ≡ some hash)
        × (argon2.verify hash current ≡ true)
        × (db.find id (change_password db argon2 salt id current new users).0
            ≡ some (rewritten salt new user))
        × ((row : User)
            → find_one_by_email_or_username db identifier
                (change_password db argon2 salt id current new users).0
              ≡ some (id, row)
            → validate_local db argon2 identifier new
                (change_password db argon2 salt id current new users).0
              ≡ bound id (rewritten salt new user))
        × ((other : String)
            → other ≢ id
            → db.find other (change_password db argon2 salt id current new users).0
              ≡ db.find other users)
  unfolding validate_local
  change_password-validate_local salt id current new identifier users done h =
      let (user, hash, known, has_hash, right, stored) = changed salt id current new users done h in
      (
        user,
        hash,
        known,
        has_hash,
        right,
        rw (stored, db.find-put id id (rewritten salt new user) users, eq_refl id) refl,
        λ row named.
            rw stored (
              bound_by_new salt new identifier id hash user row users has_hash
                (rw stored at named)),
        λ other away.
            rw stored (
              ground
                (arith, db.find-put other id (rewritten salt new user) users, eq_iff id other)),
      )
