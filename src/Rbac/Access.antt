-- ===== src/Rbac/Access.antt =====
-- backend/src/rbac/rbac.service.ts against its specification.
use open_bastion.Base.{
  ◌&&◌, List, Option, arith, ◌||◌, ◌⊎◌, same_text_iff, same_text, inl, inr, Memᴰ, any-mem,
  mem_of_any, Option-cases, Bool-cases, ◌≤◌, none, some, true, String, ◌≡◌,
}
use open_bastion.Database.{Database, find_many-any, find_of_any}
use open_bastion.Schema.{User, Permission, AccessLevel}
use open_bastion.Rbac.{
  Store, rank, is_level_sufficient, is_admin, group_of, is_selected, has_direct, has_by_group,
  has_access,
}
use open_bastion.Rbac.Spec.{Covers, IsGranted, IsAuthorized}

is_selected_complete :
    (machine_id : String) (machine_group : Option String) (p : Permission)
    → Covers machine_id machine_group p
    → is_selected machine_id machine_group p ≡ true
unfolding is_selected
is_selected_complete machine_id machine_group p (inl same) =
    ground (arith, same_text_iff p.machine_id machine_id)
is_selected_complete machine_id machine_group p (inr (g, grouped, same)) =
    ground (arith, same_text_iff p.machine_group_id g)

is_selected_sound :
    (machine_id g : String) (machine_group : Option String) (p : Permission)
    → machine_group ≡ some g
    → is_selected machine_id machine_group p ≡ true
    → Covers machine_id machine_group p
unfolding is_selected
is_selected_sound machine_id g machine_group p grouped h =
    elim (Bool-cases (same_text p.machine_id (some machine_id))) [
      | inl own ↦ inl ((same_text_iff p.machine_id machine_id).0 own)
      | inr other ↦ inr (g, grouped, (same_text_iff p.machine_group_id g).0 (ground arith))
    ]

module _ (db : Database) where
  -- A row that the first loop, or the second, meets.
  has_direct_of_row :
      (user_id machine_id id : String) (mg : Option String) (required : AccessLevel)
      (s : db.State Permission) (p : Permission)
      → db.find id s ≡ some p
      → p.user_id ≡ some user_id
      → is_selected machine_id mg p ≡ true
      → rank required ≤ rank p.level
      → has_direct db user_id machine_id mg required s ≡ true
  unfolding has_direct is_level_sufficient
  has_direct_of_row user_id machine_id id mg required s p listed own selected enough =
      find_many-any db id p
        (λ _ q. same_text q.user_id (some user_id) && is_selected machine_id mg q)
        (λ row. is_level_sufficient row.1.level required) s listed
        (ground (arith, same_text_iff p.user_id user_id)) (ground arith)

  has_by_group_of_row :
      (groups : List String) (machine_id id g : String) (mg : Option String)
      (required : AccessLevel) (s : db.State Permission) (p : Permission)
      → db.find id s ≡ some p
      → Memᴰ g groups
      → p.group_id ≡ some g
      → is_selected machine_id mg p ≡ true
      → rank required ≤ rank p.level
      → has_by_group db groups machine_id mg required s ≡ true
  unfolding has_by_group is_level_sufficient
  has_by_group_of_row groups machine_id id g mg required s p listed member own selected enough =
      any-mem _ g groups member (
        find_many-any db id p (λ _ q. same_text q.group_id (some g) && is_selected machine_id mg q)
          (λ row. is_level_sufficient row.1.level required) s listed
          (ground (arith, same_text_iff p.group_id g)) (ground arith))

  -- What the two loops have found.
  row_of_has_direct :
      (user_id machine_id : String) (mg : Option String) (required : AccessLevel)
      (s : db.State Permission)
      → has_direct db user_id machine_id mg required s ≡ true
      → (id : String) × (p : Permission) × (db.find id s ≡ some p)
        × (p.user_id ≡ some user_id)
        × (is_selected machine_id mg p ≡ true)
        × (rank required ≤ rank p.level)
  unfolding has_direct is_level_sufficient
  row_of_has_direct user_id machine_id mg required s h =
      let (id, p, listed, chosen, enough) =
        find_of_any db (λ _ q. same_text q.user_id (some user_id) && is_selected machine_id mg q)
          (λ row. is_level_sufficient row.1.level required) s h in
      (
        id,
        p,
        listed,
        (same_text_iff p.user_id user_id).0 (ground arith),
        ground arith,
        ground arith,
      )

  row_of_has_by_group :
      (groups : List String) (machine_id : String) (mg : Option String) (required : AccessLevel)
      (s : db.State Permission)
      → has_by_group db groups machine_id mg required s ≡ true
      → (id : String) × (p : Permission) × (g : String) × (db.find id s ≡ some p)
        × Memᴰ g groups
        × (p.group_id ≡ some g)
        × (is_selected machine_id mg p ≡ true)
        × (rank required ≤ rank p.level)
  unfolding has_by_group is_level_sufficient
  row_of_has_by_group groups machine_id mg required s h =
      let (g, member, inner) = mem_of_any _ groups h in
      let (id, p, listed, chosen, enough) =
        find_of_any db (λ _ q. same_text q.group_id (some g) && is_selected machine_id mg q)
          (λ row. is_level_sufficient row.1.level required) s inner in
      (
        id,
        p,
        g,
        listed,
        member,
        (same_text_iff p.group_id g).0 (ground arith),
        ground arith,
        ground arith,
      )

  has_access_of_loops :
      (user_id machine_id : String) (required : AccessLevel) (s : Store db) (user : User)
      → let mg = group_of (db.find machine_id s.machines) in
        db.find user_id s.users ≡ some user
        → (has_direct db user_id machine_id mg required s.permissions ≡ true)
          ⊎ (has_by_group db user.groups machine_id mg required s.permissions ≡ true)
        → has_access db user_id machine_id required s ≡ true
  unfolding has_access
  has_access_of_loops user_id machine_id required s user known h = ground arith

  -- Access is not refused to whom the specification grants it.
  pub has_access_complete :
      (user_id machine_id : String) (required : AccessLevel) (s : Store db)
      → IsAuthorized db user_id machine_id required s
      → has_access db user_id machine_id required s ≡ true
  unfolding has_access
  has_access_complete user_id machine_id required s (user, known, inl is_root) = ground arith
  has_access_complete user_id machine_id required s (user, known, inr g) =
      let mg = group_of (db.find machine_id s.machines) in
      let selected = is_selected_complete machine_id mg g.row g.covers in
      has_access_of_loops user_id machine_id required s user known (elim g.held [
        | inl own ↦ inl (
            has_direct_of_row user_id machine_id g.id mg required s.permissions g.row g.listed own
              selected g.enough)
        | inr (group, member, own) ↦ inr (
            has_by_group_of_row user.groups machine_id g.id group mg required s.permissions g.row
              g.listed member own selected g.enough)
      ])

  loops_sound :
      (user_id machine_id group : String) (required : AccessLevel) (s : Store db) (user : User)
      → let mg = group_of (db.find machine_id s.machines) in
        mg ≡ some group
        → (has_direct db user_id machine_id mg required s.permissions
            || has_by_group db user.groups machine_id mg required s.permissions)
          ≡ true
        → IsGranted db user_id user machine_id required s
  loops_sound user_id machine_id group required s user grouped h =
      let mg = group_of (db.find machine_id s.machines) in
      elim (Bool-cases (has_direct db user_id machine_id mg required s.permissions)) [
        | inl direct ↦
            let (id, p, listed, own, selected, enough) =
              row_of_has_direct user_id machine_id mg required s.permissions direct in
            record {
              id = id;
              row = p;
              listed = listed;
              held = inl own;
              covers = is_selected_sound machine_id group mg p grouped selected;
              enough = enough;
            }
        | inr not_direct ↦
            let (id, p, g, listed, member, own, selected, enough) =
              row_of_has_by_group user.groups machine_id mg required s.permissions (ground arith) in
            record {
              id = id;
              row = p;
              listed = listed;
              held = inr (g, member, own);
              covers = is_selected_sound machine_id group mg p grouped selected;
              enough = enough;
            }
      ]

  -- For a machine that is in a group, only to whom the specification grants it.
  pub has_access_sound :
      (user_id machine_id group : String) (required : AccessLevel) (s : Store db)
      → group_of (db.find machine_id s.machines) ≡ some group
      → has_access db user_id machine_id required s ≡ true
      → IsAuthorized db user_id machine_id required s
  unfolding has_access
  has_access_sound user_id machine_id group required s grouped h =
      elim (Option-cases (db.find user_id s.users)) [
        | inl unknown ↦ cc (rw (unknown, has_access) at h)
        | inr (user, known) ↦ (
          user,
          known,
          elim (Bool-cases (is_admin user.role)) [
            | inl yes_admin ↦ inl (ground arith)
            | inr not_admin ↦
                inr (loops_sound user_id machine_id group required s user grouped (ground arith))
          ],
        )
      ]

  -- For a machine that is in no group, or that does not exist: any permission row of the user for
  -- any other machine gives access, since its `machineGroupId` is null too.
  pub has_access_leaks :
      (user_id machine_id id : String) (required : AccessLevel) (s : Store db) (user : User)
      (p : Permission)
      → group_of (db.find machine_id s.machines) ≡ none
      → db.find user_id s.users ≡ some user
      → db.find id s.permissions ≡ some p
      → p.user_id ≡ some user_id
      → p.machine_group_id ≡ none
      → rank required ≤ rank p.level
      → has_access db user_id machine_id required s ≡ true
  unfolding is_selected
  has_access_leaks user_id machine_id id required s user p alone known listed own scope enough =
      has_access_of_loops user_id machine_id required s user known (
        inl (
          has_direct_of_row user_id machine_id id (group_of (db.find machine_id s.machines))
            required s.permissions p listed own (ground arith) enough))
