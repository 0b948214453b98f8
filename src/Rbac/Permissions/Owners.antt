-- ===== src/Rbac/Permissions/Owners.antt =====
-- What a machine owner who is no administrator can do through
-- backend/src/rbac/permissions.controller.ts.
use open_bastion.Base.{
  >>=-eq-ok, Bool, Bool-cases, Memᴰ, Option, Option-cases, Result, String, any-mem, ap, arith,
  bad_request, eq_iff, eq_refl, err, false, get_or, guard, guard-eq-ok, inl, inr, is_some, none,
  not, ok, ok-injective, refl, same_text-eq, same_text_iff, some, subst, sym, true, ◌=s=◌, ◌||◌,
  ◌∙◌, ◌≡◌, ◌≢◌, ◌⊎◌,
}
use open_bastion.Database.{Database, find_first-cases}
use open_bastion.Schema.{User, Permission, AccessLevel, owner}
use open_bastion.Rbac.{Store, has_access, is_admin}
use open_bastion.Rbac.Permissions.{
  Caller, CreatePermission, Directory, is_given, exactly_one, assert_machine_manager, is_member_of,
  assert_target_allowed, resolve, authorize_create, check_create, finish_create, create_permission,
  upsert_permission, is_same_grant, authorize_remove, remove_permission,
}

module _ (db : Database) where
  -- The user is not in the group.
  abbrev pub IsOutside : String → String → Store db → Type 0
  IsOutside actor g s = (user : User) → db.find actor s.users ≡ some user → Memᴰ g user.groups → ⊥

  outside :
      (actor g : String) (s : Store db) → is_member_of db actor g s ≡ false → IsOutside actor g s
  unfolding is_member_of
  outside actor g s away user known m =
      let listed = any-mem (λ y. y =s= g) g user.groups m (eq_refl g) in ground (arith, listed)

  -- The row is another's: not the caller's own, nor that of a group of theirs.
  abbrev pub IsForeign : String → Permission → Store db → Type 0
  IsForeign actor p s =
      ((is_given p.user_id ≡ true) → p.user_id ≢ some actor)
      × ((g : String) → p.group_id ≡ some g → g ≢ "" → IsOutside actor g s)

  assert_target_allowed_sound :
      (actor : String) (user_id group_id : Option String) (s : Store db)
      → assert_target_allowed db actor user_id group_id s ≡ ok tt
      → ((is_given user_id ≡ true) → user_id ≢ some actor)
        × ((g : String) → group_id ≡ some g → g ≢ "" → IsOutside actor g s)
  unfolding assert_target_allowed
  assert_target_allowed_sound actor user_id group_id s h = (
    λ given same. ground (arith, same_text_iff user_id actor),
    λ g e named. outside actor g s (ground (arith, eq_iff g "")),
  )

  -- What the checks establish of the row that `create` is to write, for a caller who is no
  -- administrator.
  pub record MayCreate (caller : Caller) (p : Permission) (s : Store db) : Type 0 where
    pub machine_id : String
    pub scope : p.machine_id ≡ some machine_id
    pub no_group_scope : is_given p.machine_group_id ≡ false
    pub owns : has_access db caller.sub machine_id owner s ≡ true
    pub foreign : IsForeign caller.sub p s

  manager_lem :
      (caller : Caller) (machine : String) (s : Store db)
      → is_admin caller.role ≡ false
      → assert_machine_manager db caller machine s ≡ ok tt
      → has_access db caller.sub machine owner s ≡ true
  unfolding assert_machine_manager
  manager_lem caller machine s plain h = ground (arith)

  authorize_create_sound :
      (caller : Caller) (p : Permission) (s : Store db)
      → is_admin caller.role ≡ false
      → authorize_create db caller p.user_id p.group_id p.machine_id p.machine_group_id s ≡ ok tt
      → (is_given p.machine_group_id ≡ false)
        × (has_access db caller.sub (get_or p.machine_id "") owner s ≡ true)
        × IsForeign caller.sub p s
  unfolding authorize_create assert_machine_manager
  authorize_create_sound caller p s plain h = elim (Bool-cases (is_given p.machine_group_id)) [
    | inl grouped ↦ ground (arith)
    | inr single ↦ elim (Bool-cases (has_access db caller.sub (get_or p.machine_id "") owner s)) [
      | inl owned ↦ (
        single,
        owned,
        assert_target_allowed_sound caller.sub p.user_id p.group_id s (ground (arith)),
      )
      | inr missing ↦ ground (arith)
    ]
  ]

  -- The row passed the checks of `create`, at the requested level and on the requested machine.
  record IsChecked (caller : Caller) (r : CreatePermission) (s : Store db) (p : Permission)
      : Type 0 where
    pub level_same : p.level ≡ r.level
    pub machine_same : p.machine_id ≡ r.machine_id
    pub scoped : exactly_one (is_given p.machine_id) (is_given p.machine_group_id) ≡ true
    pub authorized :
        authorize_create db caller p.user_id p.group_id p.machine_id p.machine_group_id s ≡ ok tt

  check_create-IsChecked :
      (dir : Directory db) (caller : Caller) (r : CreatePermission) (s : Store db) (p : Permission)
      → check_create db dir caller r s ≡ ok p
      → IsChecked caller r s p
  unfolding check_create
  check_create-IsChecked dir caller r s p h =
      let (_, _, h1) =
        >>=-eq-ok (guard (exactly_one (is_given r.user_id) (is_given r.group_id)) bad_request) _
          h in
      let (_, g2, h2) =
        >>=-eq-ok
          (guard (exactly_one (is_given r.machine_id) (is_given r.machine_group_id)) bad_request) _
          h1 in
      let (user_id, _, h3) = >>=-eq-ok (resolve db dir.is_uuid dir.user_named r.user_id) _ h2 in
      let (group_id, _, h4) = >>=-eq-ok (resolve db dir.is_uuid dir.group_named r.group_id) _ h3 in
      let (_, _, h5) =
        >>=-eq-ok
          (guard
            (not (is_given r.machine_id) || is_some (db.find (get_or r.machine_id "") s.machines))
            bad_request)
          _ h4 in
      let (_, _, h6) =
        >>=-eq-ok
          (guard
            (not (is_given r.machine_group_id)
              || dir.machine_group_exists (get_or r.machine_group_id ""))
            bad_request)
          _ h5 in
      let (u, a, h7) =
        >>=-eq-ok (authorize_create db caller user_id group_id r.machine_id r.machine_group_id s) _
          h6 in
      let row : Permission = record {
        user_id = user_id;
        group_id = group_id;
        machine_id = r.machine_id;
        machine_group_id = r.machine_group_id;
        level = r.level;
      } in
      subst (λ q. IsChecked caller r s q) (ok-injective {x = row} {y = p} h7)
        (record {
          level_same = refl;
          machine_same = refl;
          scoped =
              guard-eq-ok (exactly_one (is_given r.machine_id) (is_given r.machine_group_id))
                bad_request g2;
          authorized = a;
        })

  -- What the caller may bring about: a permission on one machine, at the requested level, that is
  -- another's.
  abbrev pub IsGrantedBy : String → String → AccessLevel → Permission → Store db → Type 0
  IsGrantedBy actor machine level q s =
      (q.machine_id ≡ some machine)
      × (is_given q.machine_group_id ≡ false)
      × (q.level ≡ level)
      × IsForeign actor q s

  given_machine :
      (o : Option String) (grouped : Bool)
      → exactly_one (is_given o) grouped ≡ true
      → grouped ≡ false
      → (machine : String) × (o ≡ some machine)
  given_machine none grouped scoped single = absurd (ground arith)
  given_machine (some t) grouped scoped single = (t, refl)

  -- The row that the upsert finds is the new one but for its level.
  same_row :
      (p : Permission) (k : String) (old : Permission)
      → is_same_grant db p k old ≡ true
      → record old { level = p.level } ≡ p
  unfolding is_same_grant
  same_row p k old holds =
      let user = same_text-eq old.user_id p.user_id (ground arith) in
      let group = same_text-eq old.group_id p.group_id (ground arith) in
      let machine = same_text-eq old.machine_id p.machine_id (ground arith) in
      let machine_group = same_text-eq old.machine_group_id p.machine_group_id (ground arith) in
      λ i. record {
        user_id = user i;
        group_id = group i;
        machine_id = machine i;
        machine_group_id = machine_group i;
        level = p.level;
      }

  -- A row after the upsert is one that was there, or it may be brought about.
  upsert_cases :
      (fresh machine : String) (level : AccessLevel) (p : Permission) (s : Store db)
      (actor : String)
      → p.machine_id ≡ some machine
      → p.level ≡ level
      → is_given p.machine_group_id ≡ false
      → IsForeign actor p s
      → (id : String) (q : Permission)
      → db.find id (upsert_permission db fresh p s).0.permissions ≡ some q
      → (db.find id s.permissions ≡ some q) ⊎ IsGrantedBy actor machine level q s
  unfolding upsert_permission
  upsert_cases fresh machine level p s actor scope high single foreign id q there =
      elim (find_first-cases db (is_same_grant db p) s.permissions) [
        | inl (e, _) ↦ elim (Bool-cases (fresh =s= id)) [
          | inr other ↦ inl (ground (arith, db.find-put id fresh p s.permissions))
          | inl here ↦
              let same : p ≡ q = ground (arith, db.find-put id fresh p s.permissions) in
              inr (
                subst (λ x. IsGrantedBy actor machine level x s) same
                  (scope, single, high, foreign))
        ]
        | inr (k, old, found, holds, e) ↦
            let row : Permission = record old { level = p.level } in
            let agree : row ≡ p = same_row p k old holds in
            elim (Bool-cases (k =s= id)) [
              | inr other ↦ inl (ground (arith, e, db.find-put id k row s.permissions))
              | inl here ↦
                  let same : row ≡ q = ground (arith, e, db.find-put id k row s.permissions) in
                  inr (
                    subst (λ x. IsGrantedBy actor machine level x s) (sym agree ∙ same)
                      (scope, single, high, foreign))
            ]
      ]

  -- A caller who is no administrator creates or changes a permission only on one machine that they
  -- have owner access to, the requested one, at the requested level, for someone else and no group
  -- of theirs.
  pub create_permission-IsForeign :
      (dir : Directory db) (caller : Caller) (fresh : String) (r : CreatePermission)
      (s s' : Store db) (row : Permission)
      → is_admin caller.role ≡ false
      → create_permission db dir caller fresh r s ≡ (s', ok row)
      → (machine : String) × (r.machine_id ≡ some machine)
        × (has_access db caller.sub machine owner s ≡ true)
        × ((k : String) (q : Permission)
            → db.find k s'.permissions ≡ some q
            → (db.find k s.permissions ≡ some q) ⊎ IsGrantedBy caller.sub machine r.level q s)
  unfolding create_permission finish_create
  create_permission-IsForeign dir caller fresh r s s' row plain h =
      go (check_create db dir caller r s) refl h
    where
      go :
          (c : Result Permission)
          → check_create db dir caller r s ≡ c
          → finish_create db fresh s c ≡ (s', ok row)
          → (machine : String) × (r.machine_id ≡ some machine)
            × (has_access db caller.sub machine owner s ≡ true)
            × ((k : String) (q : Permission)
                → db.find k s'.permissions ≡ some q
                → (db.find k s.permissions ≡ some q) ⊎ IsGrantedBy caller.sub machine r.level q s)
      go (err e) c k = ground (arith)
      go (ok p) c k =
          let v = check_create-IsChecked dir caller r s p c in
          let (single, owned, foreign) = authorize_create_sound caller p s plain v.authorized in
          let (machine, scope) =
            given_machine p.machine_id (is_given p.machine_group_id) v.scoped single in
          (
            machine,
            sym v.machine_same ∙ scope,
            subst (λ m. has_access db caller.sub (get_or m "") owner s ≡ true) scope owned,
            λ id q there.
                upsert_cases fresh machine r.level p s caller.sub scope v.level_same single foreign
                  id q (ap (λ x. db.find id x.0.permissions) k ∙ there),
          )

  -- So it is with revoking one: the row is of one machine, which the caller has owner access to,
  -- it is someone else's, and it is gone afterwards.
  pub remove_permission-IsForeign :
      (caller : Caller) (id : String) (s s' : Store db)
      → is_admin caller.role ≡ false
      → remove_permission db caller id s ≡ (s', ok tt)
      → (p : Permission) × (db.find id s.permissions ≡ some p)
        × (has_access db caller.sub (get_or p.machine_id "") owner s ≡ true)
        × (is_given p.machine_id ≡ true)
        × IsForeign caller.sub p s
        × (db.find id s'.permissions ≡ none)
  unfolding remove_permission authorize_remove assert_machine_manager
  remove_permission-IsForeign caller id s s' plain h =
      elim (Option-cases (db.find id s.permissions)) [
        | inl gone ↦ ground (arith)
        | inr (p, found) ↦ elim (Bool-cases (is_given p.machine_id)) [
          | inl scoped ↦
              elim (Bool-cases (has_access db caller.sub (get_or p.machine_id "") owner s)) [
                | inl owned ↦ (
                  p,
                  found,
                  owned,
                  scoped,
                  assert_target_allowed_sound caller.sub p.user_id p.group_id s (ground (arith)),
                  ground
                      (arith, db.find-delete_many id (λ k _. k =s= id) s.permissions, eq_refl id),
                )
                | inr missing ↦ ground (arith)
              ]
          | inr unscoped ↦ ground (arith)
        ]
      ]
