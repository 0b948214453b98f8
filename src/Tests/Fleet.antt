-- ===== src/Tests/Fleet.antt =====
-- The theorems on machines at concrete inputs.
use open_bastion.Base.{Memᴰ, String, [], false, none, ok, refl, some, true, ◌↔◌, ◌∷◌, ◌≡◌, ◌≢◌, ◌≤◌}
use open_bastion.Database.{memory}
use open_bastion.Schema.{User, Machine, operator, Role, local}
use open_bastion.Vault.{plain_vault}
use open_bastion.Rbac.{Store, has_access}
use open_bastion.Machines.Listing.{IsShown, find_all_accessible-IsShown}
use open_bastion.Machines.{
  find_all_accessible, at_level, level_label, is_mine, Credential, Vectors, Fleet, create_machine,
  get_decrypted_secret, best_level,
}
use open_bastion.Machines.Credentials.{as_read, create_machine-get}
use open_bastion.Machines.Visibility.{best_level-has_access}

abbrev hana : User
hana = record {
  email = "hana@example.org";
  username = none;
  password_hash = none;
  role = Role.user;
  auth_method = local;
  external_id = none;
  auth_provider_id = none;
  token_version = 0;
  requires_password_change = false;
  otp_secret = none;
  pending_otp_secret = none;
  is_otp_enabled = false;
  groups = "ops" ∷ [];
}

abbrev web_machine : Machine
web_machine = record { name = "w"; ip = "10.0.0.2"; port = 22; machine_group_id = some "web" }

-- Hana's group operates the machines of the group "web".
abbrev web_site : Store memory
web_site = record {
  machines = ("m1", web_machine) ∷ [];
  users = ("hana", hana) ∷ [];
  permissions =
      (
        "p1",
        record {
          user_id = none;
          group_id = some "ops";
          machine_id = none;
          machine_group_id = some "web";
          level = operator;
        },
      )
      ∷ [];
}

best_level-has_access_example :
    (has_access memory "hana" "m1" operator web_site ≡ true)
    ↔ (1 ≤ best_level memory "hana" "m1" web_machine web_site)
best_level-has_access_example =
    best_level-has_access memory "hana" "m1" "web" hana web_machine operator web_site refl refl refl
      refl refl

abbrev by_password : Credential
by_password = record { username = "root"; password = some "pw"; private_key = some "" }

abbrev no_machines : Fleet memory plain_vault
no_machines = record { machines = []; secrets = [] }

abbrev vectors : Vectors
vectors = record { first = "a"; second = "b"; third = "c" }

create_machine-get_example :
    let s' = create_machine memory plain_vault "m1" vectors web_machine by_password no_machines in
    (get_decrypted_secret memory plain_vault "m1" s' ≡ ok (as_read memory plain_vault by_password))
    × ((other : String)
        → other ≢ "m1"
        → get_decrypted_secret memory plain_vault other s'
          ≡ get_decrypted_secret memory plain_vault other no_machines)
create_machine-get_example =
    create_machine-get memory plain_vault "m1" vectors web_machine by_password no_machines

shown_m1 :
    Memᴰ
      ("m1", web_machine, some (at_level operator))
      (find_all_accessible memory "hana" Role.user web_site)
unfolding find_all_accessible is_mine level_label
shown_m1 = Memᴰ.head refl

find_all_accessible-IsShown_example :
    IsShown memory "hana" hana web_site ("m1", web_machine, some (at_level operator))
find_all_accessible-IsShown_example =
    find_all_accessible-IsShown memory "hana" "m1" hana web_machine (some (at_level operator))
      web_site refl refl shown_m1
