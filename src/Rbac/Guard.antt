-- ===== src/Rbac/Guard.antt =====
-- backend/src/rbac/rbac.guard.ts over the specification of access.
use open_bastion.Base.{refl, eq_iff, arith, ◌≢◌, ◌≡◌, Option, none, some, String, ok, true}
use open_bastion.Database.{Database}
use open_bastion.Schema.{AccessLevel}
use open_bastion.Rbac.{Store, group_of, has_access, rbac_can_activate}
use open_bastion.Rbac.Spec.{IsAuthorized}
use open_bastion.Rbac.Access.{has_access_sound}

module _ (db : Database) where
  rbac_can_activate-passes :
      (required : AccessLevel) (sub : Option String) (id : String) (body query : Option String)
      (s : Store db)
      → id ≢ ""
      → rbac_can_activate db (some required) sub (some id) body query s ≡ ok true
      → (user_id : String) × (sub ≡ some user_id) × (has_access db user_id id required s ≡ true)
  unfolding rbac_can_activate
  rbac_can_activate-passes required none id body query s named h = cc
  rbac_can_activate-passes required (some user_id) id body query s named h =
      (user_id, refl, ground (arith, eq_iff id ""))

  -- The guard lets a request to a route with a required level pass only if its user is authorised
  -- for the machine named in the path, provided that this machine is in a group.
  pub rbac_can_activate-IsAuthorized :
      (required : AccessLevel) (sub : Option String) (id group : String)
      (body query : Option String) (s : Store db)
      → id ≢ ""
      → group_of (db.find id s.machines) ≡ some group
      → rbac_can_activate db (some required) sub (some id) body query s ≡ ok true
      → (user_id : String) × (sub ≡ some user_id) × IsAuthorized db user_id id required s
  rbac_can_activate-IsAuthorized required sub id group body query s named grouped h =
      let (user_id, known, passed) =
        rbac_can_activate-passes required sub id body query s named h in
      (user_id, known, has_access_sound db user_id id group required s grouped passed)
