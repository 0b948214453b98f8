-- ===== src/Tests/Access.antt =====
-- The theorems on roles and machine permissions at concrete inputs.
use open_bastion.Base.{
  ok, eq_iff, String, inl, Option, inr, ◌≡◌, ◌↔◌, refl, arith, [], ◌∷◌, none, some, true, false,
  any,
}
use open_bastion.Database.{memory}
use open_bastion.Schema.{User, Permission, Machine, operator, Role, admin, local}
use open_bastion.Auth.Guards.{RequestUser, roles_can_activate, role_eq}
use open_bastion.Auth.Guards.Roles.{roles_can_activate-admin, roles_can_activate-several}
use open_bastion.Rbac.{
  Store, has_access, has_direct, is_selected, is_level_sufficient, rbac_can_activate,
}
use open_bastion.Rbac.Guard.{rbac_can_activate-IsAuthorized}
use open_bastion.Rbac.Spec.{IsAuthorized}
use open_bastion.Rbac.Access.{has_access_complete, has_access_sound, has_access_leaks}

abbrev bob : User
bob = record {
  email = "bob@example.org";
  username = none;
  password_hash = none;
  role = Role.user;
  auth_method = local;
  external_id = none;
  auth_provider_id = none;
  token_version = 0;
  requires_password_change = false;
  otp_secret = none;
  pending_otp_secret = none;
  is_otp_enabled = false;
  groups = "ops" ∷ [];
}

abbrev machine_in : Option String → Machine
machine_in group = record { name = "m"; ip = "10.0.0.1"; port = 22; machine_group_id = group }

-- Bob may operate m1. m1 is in the group "web", m2 is in none.
abbrev on_m1 : Permission
on_m1 = record {
  user_id = some "bob";
  group_id = none;
  machine_id = some "m1";
  machine_group_id = none;
  level = operator;
}

abbrev site : Store memory
site = record {
  machines = ("m1", machine_in (some "web")) ∷ ("m2", machine_in none) ∷ [];
  users = ("bob", bob) ∷ [];
  permissions = ("p1", on_m1) ∷ [];
}

bob_on_m1 : IsAuthorized memory "bob" "m1" operator site
bob_on_m1 = (
  bob,
  refl,
  inr (record {
    id = "p1";
    row = on_m1;
    listed = refl;
    held = inl refl;
    covers = inl refl;
    enough = omega arith;
  }),
)

has_access_complete_example : has_access memory "bob" "m1" operator site ≡ true
has_access_complete_example = has_access_complete memory "bob" "m1" operator site bob_on_m1

bob_passes_m1 : has_access memory "bob" "m1" operator site ≡ true
unfolding has_access has_direct is_selected is_level_sufficient
bob_passes_m1 = refl

has_access_sound_example : IsAuthorized memory "bob" "m1" operator site
has_access_sound_example = has_access_sound memory "bob" "m1" "web" operator site refl bob_passes_m1

has_access_leaks_example : has_access memory "bob" "m2" operator site ≡ true
has_access_leaks_example =
    has_access_leaks memory "bob" "m2" "p1" operator site bob on_m1 refl refl refl refl refl
      (omega arith)

abbrev root : RequestUser
root = record {
  sub = "root";
  email = "root@example.org";
  username = none;
  role = admin;
  auth_method = local;
  auth_provider_id = none;
  requires_password_change = false;
  is_otp_enabled = false;
  is_admin_mode = false;
}

roles_can_activate-admin_example :
    (roles_can_activate (admin ∷ []) (some root) ≡ true)
    ↔ ((u : RequestUser) × (some root ≡ some u) × (u.role ≡ admin) × (u.is_admin_mode ≡ true))
roles_can_activate-admin_example = roles_can_activate-admin (some root)

roles_can_activate-several_example :
    (roles_can_activate (admin ∷ Role.user ∷ []) (some root) ≡ true) ↔ (
      (u : RequestUser) × (some root ≡ some u)
      × (any (role_eq u.role) (admin ∷ Role.user ∷ []) ≡ true))
roles_can_activate-several_example = roles_can_activate-several admin Role.user [] (some root)

passes_guard :
    rbac_can_activate memory (some operator) (some "bob") (some "m1") none none site ≡ ok true
unfolding rbac_can_activate has_access has_direct is_selected is_level_sufficient
passes_guard = refl

rbac_can_activate-IsAuthorized_example :
    (user_id : String) × (some "bob" ≡ some user_id)
    × IsAuthorized memory user_id "m1" operator site
rbac_can_activate-IsAuthorized_example =
    rbac_can_activate-IsAuthorized memory operator (some "bob") "m1" "web" none none site
      (λ e. ground (arith, eq_iff "m1" "")) refl passes_guard
