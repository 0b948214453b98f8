-- ===== src/Rbac.antt =====
-- backend/src/rbac/rbac.service.ts and rbac.guard.ts on the tables Machine, User and Permission.
pub mod Spec
pub mod Access
pub mod Guard
pub mod Permissions
use open_bastion.Base.{
  ℕ, Bool, true, false, not, ◌&&◌, ◌||◌, Option, none, some, List, [], ◌∷◌, String, ◌=s=◌,
  if◌then◌else◌, Result, ok, err, unauthorized, forbidden, any, leb, same_text, guard, or_throw,
  ◌>>=◌, ◌>>◌,
}
use open_bastion.Database.{Database}
use open_bastion.Schema.{User, Permission, Machine, AccessLevel, operator, owner, Role, admin}

pub record Store (db : Database) : Type 0 where
  pub machines : db.State Machine
  pub users : db.State User
  pub permissions : db.State Permission

-- The `levels` of isLevelSufficient.
abbrev pub rank : AccessLevel → ℕ
rank operator = 1
rank owner = 2

unfoldable pub is_level_sufficient : AccessLevel → AccessLevel → Bool
is_level_sufficient actual required = leb (rank required) (rank actual)

abbrev pub is_admin : Role → Bool
is_admin admin = true
is_admin Role.user = false

-- `machine?.machineGroupId ?? null`
abbrev pub group_of : Option Machine → Option String
group_of none = none
group_of (some m) = m.machine_group_id

-- The `where` of both includes; `equals: null` is SQL's IS NULL.
unfoldable pub is_selected : String → Option String → Permission → Bool
is_selected machine_id machine_group p =
    same_text p.machine_id (some machine_id) || same_text p.machine_group_id machine_group

-- `a || b` on values of which the empty text is falsy.
abbrev pub or_else : Option String → Option String → Option String
or_else none b = b
or_else (some a) b = if a =s= "" then b else some a

module _ (db : Database) where
  abbrev sufficient : AccessLevel → String × Permission → Bool
  sufficient required row = is_level_sufficient row.1.level required

  -- `user.permissions` as included, tested by the first loop.
  unfoldable pub has_direct :
      String → String → Option String → AccessLevel → db.State Permission → Bool
  has_direct user_id machine_id machine_group required s = any (sufficient required) (
      db.find_many
        (λ _ p. same_text p.user_id (some user_id) && is_selected machine_id machine_group p) s)

  -- `user.groups` with their permissions, tested by the second loop.
  unfoldable pub has_by_group :
      List String → String → Option String → AccessLevel → db.State Permission → Bool
  has_by_group groups machine_id machine_group required s =
      any
        (λ group. any (sufficient required) (
          db.find_many
            (λ _ p. same_text p.group_id (some group) && is_selected machine_id machine_group p) s))
        groups

  unfoldable pub has_access : String → String → AccessLevel → Store db → Bool
  has_access user_id machine_id required s =
      let machine_group = group_of (db.find machine_id s.machines) in
      elim (db.find user_id s.users) [
        | none ↦ false
        | some user ↦
            if is_admin user.role
            then true
            else (has_direct user_id machine_id machine_group required s.permissions
                || has_by_group user.groups machine_id machine_group required s.permissions)
      ]

  -- RbacGuard: `sub` is `request.user?.sub`, the ids are those of params, body and query.
  unfoldable pub rbac_can_activate :
      Option AccessLevel
      → Option String
      → Option String
      → Option String
      → Option String
      → Store db
      → Result Bool
  rbac_can_activate none sub params body query s = ok true
  rbac_can_activate (some required) sub params body query s = do
    user ← or_throw sub unauthorized
    machine_id ← or_throw (or_else params (or_else body (or_else query none))) forbidden
    guard (has_access user machine_id required s) forbidden
    ok true
