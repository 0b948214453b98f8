-- ===== src/Users/External.antt =====
-- What findOrCreateExternalUser of backend/src/users/users.service.ts does to the table of users.
use open_bastion.Base.{
  Bool-cases, Option, String, ap, arith, eq_iff, eq_refl, false, inl, inr, is_some, none, ok,
  ok-injective, refl, same_text-eq, same_text_iff, some, sym, true, ◌||◌, ◌∙◌, ◌≡◌, ◌≢◌,
}
use open_bastion.Database.{Database, find_first, find_first-cases}
use open_bastion.Schema.{User, Role, AuthMethod, local, ldap, oidc}
use open_bastion.Users.{
  has_identity, has_email, method_eq, external_row, create_external, find_or_create_external_user,
  pick_available_username,
}

module _ (db : Database) where
  -- The account `id` that a login through an external identity ends with.
  pub record Provisioned (external_id : String) (method : AuthMethod) (provider : Option String)
      (users users' : db.State User) (id : String) (u : User) : Type 0 where
    pub found : db.find id users' ≡ some u
    pub identity :
        (u.external_id ≡ some external_id)
        × (u.auth_method ≡ method)
        × (u.auth_provider_id ≡ provider)
    -- no row that was there changes
    pub kept : (k : String) (v : User) → db.find k users ≡ some v → db.find k users' ≡ some v
    -- nor does another one appear
    pub alone : (k : String) → (k ≢ id) → db.find k users' ≡ db.find k users
    pub unprivileged :
        db.find id users ≡ none
        → (u.role ≡ Role.user) × (u.password_hash ≡ none) × (u.is_otp_enabled ≡ false)

  method_eq-eq : (m n : AuthMethod) → method_eq m n ≡ true → m ≡ n
  method_eq-eq local local h = refl
  method_eq-eq ldap ldap h = refl
  method_eq-eq oidc oidc h = refl
  method_eq-eq local ldap h = cc
  method_eq-eq local oidc h = cc
  method_eq-eq ldap local h = cc
  method_eq-eq ldap oidc h = cc
  method_eq-eq oidc local h = cc
  method_eq-eq oidc ldap h = cc

  identity_of :
      (external_id : String) (method : AuthMethod) (provider : Option String) (v u : User)
      → v ≡ u
      → has_identity external_id method provider "" v ≡ true
      → (u.external_id ≡ some external_id)
        × (u.auth_method ≡ method)
        × (u.auth_provider_id ≡ provider)
  identity_of external_id method provider v u same holds = (
    ap (λ x. x.external_id) (sym same) ∙ (same_text_iff v.external_id external_id).0 (ground arith),
    ap (λ x. x.auth_method) (sym same) ∙ method_eq-eq v.auth_method method (ground arith),
    ap (λ x. x.auth_provider_id) (sym same)
        ∙ same_text-eq v.auth_provider_id provider (ground arith),
  )

  inserted :
      (fresh email external_id : String) (method : AuthMethod) (provider username : Option String)
      (users : db.State User)
      → db.find fresh users ≡ none
      → Provisioned external_id method provider users
          (db.put fresh (external_row email username external_id method provider) users)
          fresh
          (external_row email username external_id method provider)
  inserted fresh email external_id method provider username users h = record {
    found = rw (db.find-put fresh fresh row users, eq_refl fresh);
    identity = (refl, refl, refl);
    kept = λ k v e. ground (arith, db.find-put k fresh row users, eq_iff fresh k);
    alone = λ k other. ground (arith, db.find-put k fresh row users, eq_iff fresh k);
    unprivileged = λ _. (refl, refl, refl);
  }
    where
      row : User
      row = external_row email username external_id method provider

  create_external-eq_ok :
      (fresh : String) (row : User) (users : db.State User) (id : String) (u : User)
      → (create_external db fresh row users).1 ≡ ok (id, u)
      → (db.find fresh users ≡ none)
        × (fresh ≡ id)
        × (row ≡ u)
        × ((create_external db fresh row users).0 ≡ db.put fresh row users)
  unfolding create_external
  create_external-eq_ok fresh row users id u h =
      elim (Bool-cases
        (is_some (db.find fresh users) || is_some (find_first db (has_email row.email) users))) [
          | inl e ↦ ground arith
          | inr e ↦ ground arith
        ]

  created :
      (fresh email external_id : String) (method : AuthMethod) (provider username : Option String)
      (users : db.State User) (id : String) (u : User)
      → (create_external db fresh (external_row email username external_id method provider) users).1
        ≡ ok (id, u)
      → Provisioned external_id method provider users
          (create_external db fresh
            (external_row email username external_id method provider)
            users).0
          id
          u
  created fresh email external_id method provider username users id u h =
      let row = external_row email username external_id method provider in
      let (new, at_fresh, same, put) = create_external-eq_ok fresh row users id u h in
      rw (put, ← at_fresh, ← same)
        (inserted fresh email external_id method provider username users new)

  reused :
      (external_id : String) (method : AuthMethod) (provider : Option String)
      (users : db.State User) (k : String) (v : User) (id : String) (u : User)
      → db.find k users ≡ some v
      → has_identity external_id method provider k v ≡ true
      → ◌≡◌ {A = String × User} (k, v) (id, u)
      → Provisioned external_id method provider users users id u
  reused external_id method provider users k v id u found holds e =
      let same_id : k ≡ id = ap (λ x. x.0) e in
      let same_row : v ≡ u = ap (λ x. x.1) e in
      record {
        found = rw (← same_id, ← same_row) found;
        identity = identity_of external_id method provider v u same_row holds;
        kept = λ j w there. there;
        alone = λ j other. refl;
        unprivileged = λ gone. ground arith;
      }

  -- A login through an external identity ends with an account of that very external id, method and
  -- provider, found or new. No account that was there changes, none but this one is added, and a new one has no role but
  -- USER, no password and no one-time codes.
  pub find_or_create_external_user-Provisioned :
      (fresh email external_id : String) (method : AuthMethod) (provider candidate : Option String)
      (users : db.State User) (id : String) (u : User)
      → (find_or_create_external_user db fresh email external_id method provider candidate users).1
        ≡ ok (id, u)
      → Provisioned external_id method provider users
          (find_or_create_external_user db fresh email external_id method provider candidate
            users).0
          id
          u
  unfolding find_or_create_external_user
  find_or_create_external_user-Provisioned fresh email external_id method provider candidate users
        id u h =
      elim (find_first-cases db (has_identity external_id method provider) users) [
        | inl (e, _) ↦
            rw (find_or_create_external_user, e)
              (created fresh email external_id method provider
                (pick_available_username db candidate users) users id u
                (rw (find_or_create_external_user, e) at h))
        | inr (k, v, found, holds, e) ↦
            rw (find_or_create_external_user, e)
              (reused external_id method provider users k v id u found holds
                (ok-injective (rw (find_or_create_external_user, e) at h)))
      ]
