-- ===== src/Auth/Guards/Roles.antt =====
-- backend/src/common/guards/roles.guard.ts: who passes, and when sudo is needed.
use open_bastion.Base.{any, ◌≡◌, ◌↔◌, true, Option, none, some, List, [], ◌∷◌, arith}
use open_bastion.Schema.{Role, admin}
use open_bastion.Auth.Guards.{RequestUser, role_eq, roles_can_activate}

-- A route for administrators alone is open exactly to administrators in admin mode.
pub roles_can_activate-admin :
    (user : Option RequestUser)
    → (roles_can_activate (admin ∷ []) user ≡ true)
      ↔ ((u : RequestUser) × (user ≡ some u) × (u.role ≡ admin) × (u.is_admin_mode ≡ true))
unfolding roles_can_activate
roles_can_activate-admin none = ground arith
roles_can_activate-admin (some u) =
    (λ h. (u, ground arith, ground arith, ground arith), λ (w, same, role, sudo). ground arith)

-- A route for several roles needs no admin mode: it is open exactly to users with a listed role.
pub roles_can_activate-several :
    (r r' : Role) (rs : List Role) (user : Option RequestUser)
    → (roles_can_activate (r ∷ r' ∷ rs) user ≡ true)
      ↔ ((u : RequestUser) × (user ≡ some u) × (any (role_eq u.role) (r ∷ r' ∷ rs) ≡ true))
unfolding roles_can_activate
roles_can_activate-several r r' rs none = ground arith
roles_can_activate-several r r' rs (some u) =
    (λ h. (u, ground arith, ground arith), λ (w, same, role). ground arith)
