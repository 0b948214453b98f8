-- ===== src/Tests/Grants.antt =====
-- The theorems on grants by machine owners at concrete inputs.
use open_bastion.Base.{String, [], false, get_or, none, ok, refl, some, true, ◌∷◌, ◌≡◌, ◌⊎◌}
use open_bastion.Database.{memory}
use open_bastion.Schema.{User, Permission, operator, owner, Role, local}
use open_bastion.Rbac.{Store, has_access, has_direct, is_selected, is_level_sufficient}
use open_bastion.Rbac.Permissions.{
  Caller, CreatePermission, Directory, is_given, assert_target_allowed, resolve, authorize_create,
  check_create, finish_create, create_permission, upsert_permission, authorize_remove,
  remove_permission, is_same_grant, assert_machine_manager,
}
use open_bastion.Rbac.Permissions.Owners.{
  IsForeign, IsGrantedBy, create_permission-IsForeign, IsGrantedBy, remove_permission-IsForeign,
  IsGrantedBy,
}

abbrev dave : User
dave = record {
  email = "dave@example.org";
  username = none;
  password_hash = none;
  role = Role.user;
  auth_method = local;
  external_id = none;
  auth_provider_id = none;
  token_version = 0;
  requires_password_change = false;
  otp_secret = none;
  pending_otp_secret = none;
  is_otp_enabled = false;
  groups = "ops" ∷ [];
}

abbrev m1_for : String → Permission
m1_for user = record {
  user_id = some user;
  group_id = none;
  machine_id = some "m1";
  machine_group_id = none;
  level = operator;
}

-- Dave owns m1, eve operates it.
abbrev owned_site : Store memory
owned_site = record {
  machines =
      ("m1", record { name = "m"; ip = "10.0.0.1"; port = 22; machine_group_id = none }) ∷ [];
  users = ("dave", dave) ∷ [];
  permissions = ("p1", record (m1_for "dave") { level = owner }) ∷ ("p2", m1_for "eve") ∷ [];
}

abbrev as_dave : Caller
as_dave = record { sub = "dave"; role = Role.user }

abbrev directory : Directory memory
directory = record {
  is_uuid = λ t. true;
  user_named = λ t. none;
  group_named = λ t. none;
  machine_group_exists = λ t. false;
}

abbrev for_fred : CreatePermission
for_fred = record {
  user_id = some "fred";
  group_id = none;
  machine_id = some "m1";
  machine_group_id = none;
  level = operator;
}

abbrev with_fred : Store memory
with_fred = record owned_site {
  permissions = memory.put "p3" (m1_for "fred") owned_site.permissions;
}

creates_for_fred :
    create_permission memory directory as_dave "p3" for_fred owned_site
    ≡ (with_fred, ok (m1_for "fred"))
unfolding create_permission check_create finish_create resolve authorize_create
    assert_machine_manager assert_target_allowed upsert_permission has_access has_direct is_selected
    is_level_sufficient is_same_grant
creates_for_fred = refl

create_permission-IsForeign_example :
    (machine : String) × (some "m1" ≡ some machine)
    × (has_access memory "dave" machine owner owned_site ≡ true)
    × ((k : String) (q : Permission)
        → memory.find k with_fred.permissions ≡ some q
        → (memory.find k owned_site.permissions ≡ some q)
          ⊎ IsGrantedBy memory "dave" machine operator q owned_site)
create_permission-IsForeign_example =
    create_permission-IsForeign memory directory as_dave "p3" for_fred owned_site with_fred
      (m1_for "fred") refl creates_for_fred

abbrev without_eve : Store memory
without_eve = record owned_site {
  permissions = ("p1", record (m1_for "dave") { level = owner }) ∷ [];
}

revokes_eve : remove_permission memory as_dave "p2" owned_site ≡ (without_eve, ok tt)
unfolding remove_permission authorize_remove assert_machine_manager assert_target_allowed has_access
    has_direct is_selected is_level_sufficient
revokes_eve = refl

remove_permission-IsForeign_example :
    (p : Permission) × (memory.find "p2" owned_site.permissions ≡ some p)
    × (has_access memory "dave" (get_or p.machine_id "") owner owned_site ≡ true)
    × (is_given p.machine_id ≡ true)
    × IsForeign memory "dave" p owned_site
    × (memory.find "p2" without_eve.permissions ≡ none)
remove_permission-IsForeign_example =
    remove_permission-IsForeign memory as_dave "p2" owned_site without_eve refl revokes_eve
