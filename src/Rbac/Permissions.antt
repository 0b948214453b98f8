-- ===== src/Rbac/Permissions.antt =====
-- backend/src/rbac/permissions.controller.ts: who may grant and revoke permissions, on the tables of
-- Store and the table Group (by `id`). Audit rows are not modelled.
pub mod Owners
use open_bastion.Base.{
  >>=-eq-ok, >>=-eq-ok, Bool, Bool-cases, Dict, HttpException, List, Memᴰ, Option, Option-cases,
  Result, String, [], all, any, any-mem, ap, arith, bad_request, conflict, delete_key, drop,
  empty_dict, eq_iff, eq_refl, err, false, forbidden, get_or, guard, guard-eq-ok, head_of,
  if◌then◌else◌, inl, inr, internal_server_error, is_some, leb, length, length-append, ltb, ltb→lt,
  lt→ltb, map, max, mem_of_any, min, none, not, not_found, ok, or_throw, or_throw-eq-ok, refl,
  same_text, same_text_iff, set_key, some, str_eq, subst, suc, sym, take, true, unauthorized, zero,
  zero-cases, ℕ, ◌%◌, ◌&&◌, ◌*◌, ◌++◌, ◌+◌, ◌-◌, ◌/◌, ◌<◌, ◌==◌, ◌=s=◌, ◌>>=◌, ◌>>◌, ◌^◌, ◌||◌, ◌↔◌,
  ◌∙◌, ◌∷◌, ◌≡◌, ◌≢◌, ◌≤◌, ◌⊎◌,
}
use open_bastion.Database.{Database, count, find_first}
use open_bastion.Schema.{User, Permission, Machine, AccessLevel, owner, Role}
use open_bastion.Rbac.{Store, has_access, is_admin}

-- `req.user` as these handlers read it.
pub record Caller : Type 0 where
  pub sub : String
  pub role : Role

-- CreatePermissionDto; an absent field and an empty one are both falsy.
pub record CreatePermission : Type 0 where
  pub user_id : Option String
  pub group_id : Option String
  pub machine_id : Option String
  pub machine_group_id : Option String
  pub level : AccessLevel

-- `!!value`
abbrev pub is_given : Option String → Bool
is_given none = false
is_given (some t) = not (t =s= "")

-- `(a && b) || (!a && !b)` is refused.
abbrev pub exactly_one : Bool → Bool → Bool
exactly_one true b = not b
exactly_one false b = b

abbrev pub mentions : String → List String → Bool
mentions x ys = any (λ y. y =s= x) ys

module _ (db : Database) where
  unfoldable pub assert_machine_manager : Caller → String → Store db → Result (Unit {0})
  assert_machine_manager caller machine_id s =
      if is_admin caller.role
      then ok tt
      else guard (has_access db caller.sub machine_id owner s) forbidden

  -- `group.findFirst({ where: { id, users: { some: { id: actorId } } } })`
  unfoldable pub is_member_of : String → String → Store db → Bool
  is_member_of actor group s = elim (db.find actor s.users) [
    | none ↦ false
    | some user ↦ mentions group user.groups
  ]

  unfoldable pub assert_target_allowed :
      String → Option String → Option String → Store db → Result (Unit {0})
  unfolding is_member_of
  assert_target_allowed actor user_id group_id s =
      if is_given user_id && same_text user_id (some actor) then err forbidden else (elim group_id [
        | none ↦ ok tt
        | some group ↦ guard (not (not (group =s= "") && is_member_of actor group s)) forbidden
      ])

  abbrev pub holds_owner_row : String → List String → String → Permission → Bool
  holds_owner_row sub groups id p =
      (elim p.level [ owner ↦ true | _ ↦ false ])
      && (same_text p.user_id (some sub)
          || (elim p.group_id [ none ↦ false | some g ↦ mentions g groups ]))

  unfoldable pub assert_owner_or_admin : Caller → Store db → Result (Unit {0})
  assert_owner_or_admin caller s =
      let groups : List String = elim (db.find caller.sub s.users) [
        | none ↦ []
        | some user ↦ user.groups
      ] in
      if is_admin caller.role
      then ok tt
      else guard (not (count db (holds_owner_row caller.sub groups) s.permissions == 0)) forbidden

  -- `is_uuid` is the regular expression, `user_named` and `group_named` the look-ups by e-mail,
  -- username and group name, `machine_group_exists` that of the machine group.
  pub record Directory : Type 0 where
    pub is_uuid : String → Bool
    pub user_named : String → Option String
    pub group_named : String → Option String
    pub machine_group_exists : String → Bool

  unfoldable pub resolve :
      (String → Bool) → (String → Option String) → Option String → Result (Option String)
  resolve is_uuid named none = ok none
  resolve is_uuid named (some t) =
      if t =s= "" || is_uuid t
      then ok (some t)
      else (elim (named t) [ none ↦ err bad_request | some id ↦ ok (some id) ])

  -- `where: { userId, groupId, machineId, machineGroupId }`, all four compared, null too.
  unfoldable pub is_same_grant : Permission → String → Permission → Bool
  is_same_grant new id p =
      same_text p.user_id new.user_id
      && same_text p.group_id new.group_id
      && same_text p.machine_id new.machine_id
      && same_text p.machine_group_id new.machine_group_id

  -- The upsert: update the level of the row for the same pair, or create a row under `fresh`.
  unfoldable pub upsert_permission : String → Permission → Store db → Store db × Permission
  unfolding is_same_grant
  upsert_permission fresh new s = elim (find_first db (is_same_grant new) s.permissions) [
    | none ↦ (record s { permissions = db.put fresh new s.permissions }, new)
    | some (id, old) ↦
        let row : Permission = record old { level = new.level } in
        (record s { permissions = db.put id row s.permissions }, row)
  ]

  -- The checks of `create` after the ids are resolved.
  unfoldable pub authorize_create :
      Caller
      → Option String
      → Option String
      → Option String
      → Option String
      → Store db
      → Result (Unit {0})
  authorize_create caller user_id group_id machine_id machine_group_id s =
      if is_admin caller.role then ok tt else (do
        guard (not (is_given machine_group_id)) forbidden
        assert_machine_manager caller (get_or machine_id "") s
        assert_target_allowed caller.sub user_id group_id s)

  -- `create` up to the write: the row that is to be there.
  unfoldable pub check_create : Directory → Caller → CreatePermission → Store db → Result Permission
  unfolding resolve authorize_create
  check_create dir caller r s = do
    guard (exactly_one (is_given r.user_id) (is_given r.group_id)) bad_request
    guard (exactly_one (is_given r.machine_id) (is_given r.machine_group_id)) bad_request
    user_id ← resolve dir.is_uuid dir.user_named r.user_id
    group_id ← resolve dir.is_uuid dir.group_named r.group_id
    guard (not (is_given r.machine_id) || is_some (db.find (get_or r.machine_id "") s.machines))
        bad_request
    guard
        (not (is_given r.machine_group_id)
          || dir.machine_group_exists (get_or r.machine_group_id ""))
        bad_request
    authorize_create caller user_id group_id r.machine_id r.machine_group_id s
    ok (record {
      user_id = user_id;
      group_id = group_id;
      machine_id = r.machine_id;
      machine_group_id = r.machine_group_id;
      level = r.level;
    })

  -- The end of `create`, after the checks.
  unfoldable pub finish_create :
      String → Store db → Result Permission → Store db × Result Permission
  unfolding upsert_permission
  finish_create fresh s (err e) = (s, err e)
  finish_create fresh s (ok new) = let (s', row) = upsert_permission fresh new s in (s', ok row)

  unfoldable pub create_permission :
      Directory → Caller → String → CreatePermission → Store db → Store db × Result Permission
  unfolding check_create finish_create
  create_permission dir caller fresh r s = finish_create fresh s (check_create dir caller r s)

  -- The guard of `remove` for callers that are no administrators.
  unfoldable pub authorize_remove : Caller → Option Permission → Store db → Result (Unit {0})
  authorize_remove caller existing s = if is_admin caller.role then ok tt else (do
    p ← or_throw existing forbidden
    guard (is_given p.machine_id) forbidden
    assert_machine_manager caller (get_or p.machine_id "") s
    assert_target_allowed caller.sub p.user_id p.group_id s)

  -- `delete` of a missing row is an error of the client.
  unfoldable pub remove_permission : Caller → String → Store db → Store db × Result (Unit {0})
  unfolding authorize_remove
  remove_permission caller id s = elim (authorize_remove caller (db.find id s.permissions) s) [
    | err e ↦ (s, err e)
    | ok _ ↦
        if is_some (db.find id s.permissions)
        then (record s { permissions = db.delete_many (λ k _. k =s= id) s.permissions }, ok tt)
        else (s, err internal_server_error)
  ]
