-- ===== src/Machines.antt =====
-- backend/src/machines/machines.service.ts: the machines, their secrets, and which of them a user is
-- shown. A secret's unique column is `machineId`.
pub mod Credentials
pub mod Visibility
pub mod Listing
use open_bastion.Base.{
  >>=-eq-ok, Bool, Bool-cases, Dict, HttpException, List, Memᴰ, Option, Option-cases, Result,
  String, [], all, any, any-mem, ap, arith, bad_request, conflict, delete_key, drop, empty_dict,
  eq_iff, eq_refl, err, false, forbidden, get_or, guard, guard-eq-ok, head_of, if◌then◌else◌, inl,
  inr, internal_server_error, is_some, leb, length, length-append, ltb, ltb→lt, lt→ltb, map, max,
  mem_cons_cases, mem_of_any, min, none, not, not_found, ok, ok-injective, or_throw, or_throw-eq-ok,
  refl, same_text, same_text_iff, set_key, some, str_eq, subst, suc, sym, take, true, unauthorized,
  zero, zero-cases, ℕ, ◌%◌, ◌&&◌, ◌*◌, ◌++◌, ◌+◌, ◌-◌, ◌/◌, ◌<◌, ◌==◌, ◌=s=◌, ◌>>=◌, ◌>>◌, ◌^◌,
  ◌||◌, ◌↔◌, ◌∙◌, ◌∷◌, ◌≡◌, ◌≢◌, ◌≤◌, ◌⊎◌,
}
use open_bastion.Database.{Database}
use open_bastion.Schema.{User, Permission, Machine, AccessLevel, operator, owner, Role}
use open_bastion.Vault.{Vault}
use open_bastion.Rbac.{Store, is_admin}

pub record Secret : Type 0 where
  pub encrypted_username : String
  pub encrypted_password : Option String
  pub encrypted_private_key : Option String

pub record Credential : Type 0 where
  pub username : String
  pub password : Option String
  pub private_key : Option String

-- A value that is neither missing nor empty.
abbrev pub provided : Option String → Option String
provided none = none
provided (some t) = if t =s= "" then none else some t

-- The initialisation vectors that the three calls of `encrypt` draw.
pub record Vectors : Type 0 where
  pub first : String
  pub second : String
  pub third : String

module _ (vault : Vault) where
  abbrev pub encrypted : String → String → Option String → Option String
  encrypted vector id value = elim (provided value) [
    | none ↦ none
    | some t ↦ some (vault.encrypt vector t id)
  ]

  -- The outer `none` is the exception of `decrypt`.
  abbrev pub decrypted : String → Option String → Option (Option String)
  decrypted id value = elim (provided value) [
    | none ↦ some none
    | some t ↦ elim (vault.decrypt t id) [ none ↦ none | some plain ↦ some (some plain) ]
  ]

  -- What `updateMachine` makes of the secret: a part is replaced if it is provided.
  abbrev pub replaced : String → String → Option String → Option String → Option String
  replaced vector id new old = elim (provided new) [
    | none ↦ old
    | some t ↦ some (vault.encrypt vector t id)
  ]

module _ (db : Database) (vault : Vault) where
  pub record Fleet : Type 0 where
    pub machines : db.State Machine
    pub secrets : db.State Secret

  unfoldable pub create_machine : String → Vectors → Machine → Credential → Fleet → Fleet
  create_machine id vectors machine credential s = record {
    machines = db.put id machine s.machines;
    secrets =
        db.put id
          (record {
            encrypted_username = vault.encrypt vectors.first credential.username id;
            encrypted_password = encrypted vault vectors.second id credential.password;
            encrypted_private_key = encrypted vault vectors.third id credential.private_key;
          })
          s.secrets;
  }

  -- The new parts of the secret; each may be missing.
  unfoldable pub update_machine :
      String
      → Vectors
      → Machine
      → Option String
      → Option String
      → Option String
      → Fleet
      → Fleet × Result (Unit {0})
  update_machine id vectors machine username password private_key s =
      if not (is_some (db.find id s.machines))
      then (s, err internal_server_error)
      else (let s' : Fleet = record s { machines = db.put id machine s.machines } in
          if is_some (provided username)
            || is_some (provided password)
            || is_some (provided private_key)
          then (elim (db.find id s.secrets) [
            | none ↦ (s, err internal_server_error)
            | some old ↦ (
              record s' {
                secrets =
                    db.put id
                      (record {
                        encrypted_username =
                            get_or
                              (replaced vault vectors.first id username
                                (some old.encrypted_username))
                              old.encrypted_username;
                        encrypted_password =
                            replaced vault vectors.second id password old.encrypted_password;
                        encrypted_private_key =
                            replaced vault vectors.third id private_key old.encrypted_private_key;
                      })
                      s.secrets;
              },
              ok tt,
            )
          ])
          else (s', ok tt))

  -- `getDecryptedSecret` after the look-up.
  unfoldable pub open_row : String → Option Secret → Result Credential
  open_row id found = do
    secret ← or_throw found not_found
    username ← or_throw (vault.decrypt secret.encrypted_username id) internal_server_error
    password ← or_throw (decrypted vault id secret.encrypted_password) internal_server_error
    private_key ← or_throw (decrypted vault id secret.encrypted_private_key) internal_server_error
    ok (record { username = username; password = password; private_key = private_key })

  unfoldable pub get_decrypted_secret : String → Fleet → Result Credential
  unfolding open_row
  get_decrypted_secret id s = open_row id (db.find id s.secrets)

-- The level that is shown; `all_levels` is the administrators' 'ADMIN'.
pub data Shown : Type 0 where
  all_levels : Shown
  at_level : AccessLevel → Shown

-- `rank` and `label`
abbrev pub level_rank : AccessLevel → ℕ
level_rank operator = 1
level_rank owner = 2

unfoldable pub level_label : ℕ → Option Shown
level_label zero = none
level_label (suc zero) = some (at_level operator)
level_label (suc (suc n)) = some (at_level owner)

-- The permission is the user's, or that of a group of theirs.
unfoldable pub is_mine : String → List String → Permission → Bool
is_mine user groups p =
    same_text p.user_id (some user)
    || (elim p.group_id [ none ↦ false | some g ↦ not (g =s= "") && any (λ h. h =s= g) groups ])

abbrev pub best_of : String → List String → List (String × Permission) → ℕ
best_of user groups [] = 0
best_of user groups ((id, p) ∷ rows) =
    let rest = best_of user groups rows in
    if is_mine user groups p then max rest (level_rank p.level) else rest

module _ (db : Database) where
  abbrev pub groups_of : String → Store db → List String
  groups_of user s = elim (db.find user s.users) [ none ↦ [] | some u ↦ u.groups ]

  -- `m.permissions` and `m.machineGroup?.permissions`
  unfoldable pub permissions_of : String → Store db → List (String × Permission)
  permissions_of id s = db.find_many (λ _ p. same_text p.machine_id (some id)) s.permissions

  unfoldable pub group_permissions_of : Machine → Store db → List (String × Permission)
  group_permissions_of machine s = elim machine.machine_group_id [
    | none ↦ []
    | some g ↦ db.find_many (λ _ p. same_text p.machine_group_id (some g)) s.permissions
  ]

  -- `best`
  unfoldable pub best_level : String → String → Machine → Store db → ℕ
  unfolding permissions_of group_permissions_of
  best_level user id machine s =
      max (best_of user (groups_of user s) (permissions_of id s))
        (best_of user (groups_of user s) (group_permissions_of machine s))

  -- The `where` of `findMany`: some permission of the machine or of its group is the user's.
  unfoldable pub is_listed : String → String → Machine → Store db → Bool
  unfolding permissions_of group_permissions_of
  is_listed user id machine s =
      any (λ row. is_mine user (groups_of user s) row.1)
        (permissions_of id s ++ group_permissions_of machine s)

  unfoldable pub find_all_accessible :
      String → Role → Store db → List (String × Machine × Option Shown)
  unfolding best_level is_listed
  find_all_accessible user role s =
      if is_admin role
      then map (λ row. (row.0, row.1, some all_levels)) (db.find_many (λ _ _. true) s.machines)
      else map (λ row. (row.0, row.1, level_label (best_level user row.0 row.1 s)))
          (db.find_many (λ id machine. is_listed user id machine s) s.machines)
