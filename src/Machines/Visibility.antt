-- ===== src/Machines/Visibility.antt =====
-- What backend/src/machines/machines.service.ts shows against backend/src/rbac/rbac.service.ts.
use open_bastion.Base.{
  Bool-cases, List, Memᴰ, Option-cases, String, [], any, any-mem, arith, eq_iff, eq_refl, false,
  inl, inr, leb, mem_cons_cases, mem_of_any, refl, same_text, same_text_iff, some, subst, suc, sym,
  true, ℕ, ◌=s=◌, ◌↔◌, ◌∷◌, ◌≡◌, ◌≤◌,
}
use open_bastion.Database.{Database}
use open_bastion.Schema.{User, Permission, Machine, AccessLevel, operator, owner, Role}
use open_bastion.Rbac.{Store, has_access, rank, group_of}
use open_bastion.Rbac.Spec.{IsGranted, IsHeld, Covers}
use open_bastion.Rbac.Access.{has_access_sound, has_access_complete}
use open_bastion.Machines.{
  level_rank, is_mine, best_of, groups_of, permissions_of, group_permissions_of, best_level,
}

pub le-best_of :
    (user : String) (groups : List String) (rows : List (String × Permission)) (id : String)
    (p : Permission)
    → Memᴰ (id, p) rows
    → is_mine user groups p ≡ true
    → level_rank p.level ≤ best_of user groups rows
le-best_of user groups [] id p m mine = elim m [ ]
le-best_of user groups ((j, q) ∷ rows) id p m mine = elim (mem_cons_cases id j p q rows m) [
  | inl (same, agree) ↦
      let e : level_rank q.level ≤ best_of user groups ((j, q) ∷ rows) =
        ground (arith, subst (λ r. is_mine user groups r ≡ true) (sym agree) mine) in
      subst (λ r. level_rank r.level ≤ best_of user groups ((j, q) ∷ rows)) agree e
  | inr later ↦ let below = le-best_of user groups rows id p later mine in ground (arith, below)
]

pub best_of-reached :
    (user : String) (groups : List String) (rows : List (String × Permission)) (n : ℕ)
    → suc n ≤ best_of user groups rows
    → (id : String) × (p : Permission) × Memᴰ (id, p) rows
      × (is_mine user groups p ≡ true)
      × (suc n ≤ level_rank p.level)
best_of-reached user groups [] n h = absurd (omega arith)
best_of-reached user groups ((j, q) ∷ rows) n h = elim (Bool-cases (is_mine user groups q)) [
  | inl mine ↦ elim (Bool-cases (leb (suc n) (level_rank q.level))) [
    | inl high ↦ (j, q, Memᴰ.head refl, mine, ground (arith))
    | inr low ↦
        let (id, p, m, e, le) = best_of-reached user groups rows n (ground (arith)) in
        (id, p, Memᴰ.tail m, e, le)
  ]
  | inr foreign ↦
      let (id, p, m, e, le) = best_of-reached user groups rows n (ground (arith)) in
      (id, p, Memᴰ.tail m, e, le)
]

pub IsHeld-is_mine :
    (user : String) (u : User) (p : Permission) → is_mine user u.groups p ≡ true → IsHeld user u p
unfolding is_mine
IsHeld-is_mine user u p h = elim (Bool-cases (same_text p.user_id (some user))) [
  | inl own ↦ inl ((same_text_iff p.user_id user).0 own)
  | inr other ↦ elim (Option-cases p.group_id) [
    | inl alone ↦ ground (arith)
    | inr (g, grouped) ↦
        let listed : any (λ k. k =s= g) u.groups ≡ true = ground (arith) in
        let (k, m, e) = mem_of_any (λ k. k =s= g) u.groups listed in
        inr (g, subst (λ x. Memᴰ x u.groups) ((eq_iff k g).0 e) m, grouped)
  ]
]

pub is_mine-IsHeld :
    (user : String) (u : User) (p : Permission)
    → any (λ k. k =s= "") u.groups ≡ false
    → IsHeld user u p
    → is_mine user u.groups p ≡ true
unfolding is_mine
is_mine-IsHeld user u p named (inl own) = ground (arith, same_text_iff p.user_id user)
is_mine-IsHeld user u p named (inr (g, m, grouped)) =
    let listed = any-mem (λ k. k =s= g) g u.groups m (eq_refl g) in
    elim (Bool-cases (g =s= "")) [
      | inl empty ↦ let blank = any-mem (λ k. k =s= "") g u.groups m empty in ground (arith, blank)
      | inr full ↦ ground (arith, listed)
    ]

module _ (db : Database) where
  pub row-le-best_level :
      (user id k : String) (machine : Machine) (s : Store db) (p : Permission)
      → db.find k s.permissions ≡ some p
      → Covers id machine.machine_group_id p
      → is_mine user (groups_of db user s) p ≡ true
      → level_rank p.level ≤ best_level db user id machine s
  unfolding best_level permissions_of group_permissions_of
  row-le-best_level user id k machine s p found (inl direct) mine =
      let m =
        db.find_many_complete k p (λ _ q. same_text q.machine_id (some id)) s.permissions found
          ((same_text_iff p.machine_id id).1 direct) in
      omega (arith, le-best_of user (groups_of db user s) (permissions_of db id s) k p m mine)
  row-le-best_level user id k machine s p found (inr (g, grouped, scoped)) mine =
      let m =
        db.find_many_complete k p (λ _ q. same_text q.machine_group_id (some g)) s.permissions found
          ((same_text_iff p.machine_group_id g).1 scoped) in
      let e : group_permissions_of db machine s
          ≡ db.find_many (λ _ q. same_text q.machine_group_id (some g)) s.permissions =
        rw (grouped) refl in
      omega (
        arith,
        le-best_of user (groups_of db user s) (group_permissions_of db machine s) k p
            (subst (λ rows. Memᴰ (k, p) rows) (sym e) m) mine,
      )

  pub best_level-row :
      (user id : String) (machine : Machine) (s : Store db) (n : ℕ)
      → suc n ≤ best_level db user id machine s
      → (k : String) × (p : Permission) × (db.find k s.permissions ≡ some p)
        × Covers id machine.machine_group_id p
        × (is_mine user (groups_of db user s) p ≡ true)
        × (suc n ≤ level_rank p.level)
  unfolding best_level permissions_of group_permissions_of
  best_level-row user id machine s n h =
      elim (Bool-cases
        (leb (suc n) (best_of user (groups_of db user s) (permissions_of db id s)))) [
          | inl direct ↦
              let (k, p, m, mine, le) =
                best_of-reached user (groups_of db user s) (permissions_of db id s) n
                  (ground (arith)) in
              let (found, holds) =
                db.find_many_sound k p (λ _ q. same_text q.machine_id (some id)) s.permissions m in
              (k, p, found, inl ((same_text_iff p.machine_id id).0 holds), mine, le)
          | inr other ↦
              let (k, p, m, mine, le) =
                best_of-reached user (groups_of db user s) (group_permissions_of db machine s) n
                  (ground (arith)) in
              elim (Option-cases machine.machine_group_id) [
                | inl alone ↦
                    let e : group_permissions_of db machine s ≡ [] = rw (alone) refl in
                    absurd (elim (subst (λ rows. Memᴰ (k, p) rows) e m) [ ])
                | inr (g, grouped) ↦
                    let e : group_permissions_of db machine s
                        ≡ db.find_many (λ _ q. same_text q.machine_group_id (some g))
                            s.permissions =
                      rw (grouped) refl in
                    let (found, holds) =
                      db.find_many_sound k p (λ _ q. same_text q.machine_group_id (some g))
                        s.permissions (subst (λ rows. Memᴰ (k, p) rows) e m) in
                    (
                      k,
                      p,
                      found,
                      inr (g, grouped, (same_text_iff p.machine_group_id g).0 holds),
                      mine,
                      le,
                    )
              ]
        ]

  pub rank-level_rank : (l : AccessLevel) → rank l ≡ level_rank l
  rank-level_rank operator = refl
  rank-level_rank owner = refl

  level_rank-pos : (l : AccessLevel) → (n : ℕ) × (level_rank l ≡ suc n)
  level_rank-pos operator = (0, refl)
  level_rank-pos owner = (1, refl)

  granted-le :
      (user id : String) (u : User) (machine : Machine) (required : AccessLevel) (s : Store db)
      → db.find user s.users ≡ some u
      → any (λ k. k =s= "") u.groups ≡ false
      → db.find id s.machines ≡ some machine
      → IsGranted db user u id required s
      → level_rank required ≤ best_level db user id machine s
  granted-le user id u machine required s known named there v =
      let groups : groups_of db user s ≡ u.groups = rw (known, groups_of) refl in
      let mine =
        subst (λ gs. is_mine user gs v.row ≡ true) (sym groups)
          (is_mine-IsHeld user u v.row named v.held) in
      let covers = subst (λ o. Covers id (group_of o) v.row) there v.covers in
      omega (
        arith,
        row-le-best_level user id v.id machine s v.row v.listed covers mine,
        v.enough,
        rank-level_rank required,
        rank-level_rank v.row.level,
      )

  best_level-IsGranted :
      (user id : String) (u : User) (machine : Machine) (required : AccessLevel) (s : Store db)
      → db.find user s.users ≡ some u
      → db.find id s.machines ≡ some machine
      → level_rank required ≤ best_level db user id machine s
      → IsGranted db user u id required s
  best_level-IsGranted user id u machine required s known there h =
      let groups : groups_of db user s ≡ u.groups = rw (known, groups_of) refl in
      let (n, e) = level_rank-pos required in
      let (k, p, found, covers, mine, le) =
        best_level-row user id machine s n (subst (λ x. x ≤ best_level db user id machine s) e h) in
      record {
        id = k;
        row = p;
        listed = found;
        held = IsHeld-is_mine user u p (subst (λ gs. is_mine user gs p ≡ true) groups mine);
        covers = subst (λ o. Covers id (group_of o) p) (sym there) covers;
        enough = omega (arith, le, e, rank-level_rank required, rank-level_rank p.level);
      }

  -- The level that is shown to a user who is no administrator for a machine in a group is exactly
  -- the highest that `hasAccess` grants them there, if none of their groups has the empty id.
  pub best_level-has_access :
      (user id group : String) (u : User) (machine : Machine) (required : AccessLevel)
      (s : Store db)
      → db.find user s.users ≡ some u
      → u.role ≡ Role.user
      → any (λ k. k =s= "") u.groups ≡ false
      → db.find id s.machines ≡ some machine
      → machine.machine_group_id ≡ some group
      → (has_access db user id required s ≡ true)
        ↔ (level_rank required ≤ best_level db user id machine s)
  best_level-has_access user id group u machine required s known plain named there grouped = (
    (λ h.
        let in_group : group_of (db.find id s.machines) ≡ some group = rw (there) grouped in
        let (v, known', allowed) = has_access_sound db user id group required s in_group h in
        let same : v ≡ u = ground (arith, known, known') in
        elim allowed [
          | inl chief ↦ absurd (ground (arith, same, chief))
          | inr granted ↦
              granted-le user id u machine required s known named there
                (subst (λ w. IsGranted db user w id required s) same granted)
        ]),
    (λ h.
        has_access_complete db user id required s
          (u, known, inr (best_level-IsGranted user id u machine required s known there h))),
  )
