-- ===== src/Rbac/Spec.antt =====
-- What a permission is meant to grant, independent of backend/src/rbac/rbac.service.ts.
use open_bastion.Base.{◌≤◌, ◌≡◌, ◌⊎◌, Option, some, String, Memᴰ}
use open_bastion.Database.{Database}
use open_bastion.Schema.{User, Permission, AccessLevel, admin}
use open_bastion.Rbac.{Store, rank, group_of}

-- The row is the user's own or that of a group of theirs.
abbrev pub IsHeld : String → User → Permission → Type 0
IsHeld user_id user p =
    (p.user_id ≡ some user_id) ⊎ ((g : String) × Memᴰ g user.groups × (p.group_id ≡ some g))

-- The row is for the machine, or for the group that the machine is in.
abbrev pub Covers : String → Option String → Permission → Type 0
Covers machine_id machine_group p =
    (p.machine_id ≡ some machine_id)
    ⊎ ((g : String) × (machine_group ≡ some g) × (p.machine_group_id ≡ some g))

module _ (db : Database) where
  pub record IsGranted (user_id : String) (user : User) (machine_id : String)
      (required : AccessLevel) (s : Store db) : Type 0 where
    pub id : String
    pub row : Permission
    pub listed : db.find id s.permissions ≡ some row
    pub held : IsHeld user_id user row
    pub covers : Covers machine_id (group_of (db.find machine_id s.machines)) row
    pub enough : rank required ≤ rank row.level

  -- The user is known, and an administrator or granted the level by some permission.
  abbrev pub IsAuthorized : String → String → AccessLevel → Store db → Type 0
  IsAuthorized user_id machine_id required s =
      (user : User) × (db.find user_id s.users ≡ some user)
      × ((user.role ≡ admin) ⊎ IsGranted user_id user machine_id required s)
