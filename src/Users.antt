-- ===== src/Users.antt =====
-- backend/src/users/users.service.ts: the accounts of external identities. The ids that the database
-- draws are arguments.
pub mod External
use Prim.Native.Char.{Char, code}
use Prim.Native.String
use open_bastion.Base.{
  >>=-eq-ok, Bool, Bool-cases, Dict, HttpException, List, Memᴰ, Option, Option-cases, Result,
  Result-cases, String, [], all, any, any-mem, ap, arith, bad_request, conflict, delete_key, drop,
  empty_dict, eq_iff, eq_refl, err, false, forbidden, get_or, guard, guard-eq-ok, head_of,
  if◌then◌else◌, inl, inr, internal_server_error, is_some, is_white_space, leb, length,
  length-append, ltb, ltb→lt, lt→ltb, map, max, mem_cons_cases, mem_of_any, min, none, not,
  not_found, ok, ok-injective, or_throw, or_throw-eq-ok, refl, same_text, same_text_iff, set_key,
  some, str_eq, subst, suc, sym, take, true, unauthorized, zero, zero-cases, ℕ, ◌%◌, ◌&&◌, ◌*◌,
  ◌++◌, ◌+◌, ◌-◌, ◌/◌, ◌<◌, ◌==◌, ◌=s=◌, ◌>>=◌, ◌>>◌, ◌^◌, ◌||◌, ◌↔◌, ◌∙◌, ◌∷◌, ◌≡◌, ◌≢◌, ◌≤◌, ◌⊎◌,
}
use open_bastion.Database.{Database, find_first}
use open_bastion.Schema.{User, Role, AuthMethod, local, ldap, oidc}

unfoldable pub trim_start : String → String
trim_start String.[] = ""
trim_start (String.◌∷◌ c s) =
    let rest = trim_start s in if is_white_space (code c) then rest else String.◌∷◌ c s

unfoldable pub trim_end : String → String
trim_end String.[] = ""
trim_end (String.◌∷◌ c s) =
    let rest = trim_end s in
    if is_white_space (code c) && rest =s= "" then "" else String.◌∷◌ c rest

unfoldable pub trim : String → String
unfolding trim_start trim_end
trim s = trim_end (trim_start s)

abbrev pub method_eq : AuthMethod → AuthMethod → Bool
method_eq local local = true
method_eq ldap ldap = true
method_eq oidc oidc = true
method_eq _ _ = false

-- `where: { externalId, authMethod, authProviderId: authProviderId ?? null }`
abbrev pub has_identity : String → AuthMethod → Option String → String → User → Bool
has_identity external_id method provider k u =
    same_text u.external_id (some external_id)
    && method_eq u.auth_method method
    && same_text u.auth_provider_id provider

abbrev pub has_username : String → String → User → Bool
has_username name k u = same_text u.username (some name)

abbrev pub has_email : String → String → User → Bool
has_email email k u = u.email =s= email

-- The row that `create` inserts, with the defaults of the schema.
abbrev pub external_row : String → Option String → String → AuthMethod → Option String → User
external_row email username external_id method provider = record {
  email = email;
  username = username;
  password_hash = none;
  role = Role.user;
  auth_method = method;
  external_id = some external_id;
  auth_provider_id = provider;
  token_version = 0;
  requires_password_change = false;
  otp_secret = none;
  pending_otp_secret = none;
  is_otp_enabled = false;
  groups = [];
}

module _ (db : Database) where
  abbrev pub find_one_by_email_or_username : String → db.State User → Option (String × User)
  find_one_by_email_or_username identifier users =
      find_first db (λ k u. has_email identifier k u || has_username identifier k u) users

  abbrev pub find_by_external_id :
      String → AuthMethod → Option String → db.State User → Option (String × User)
  find_by_external_id external_id method provider users =
      find_first db (has_identity external_id method provider) users

  unfoldable pub pick_available_username : Option String → db.State User → Option String
  unfolding trim
  pick_available_username none users = none
  pick_available_username (some candidate) users =
      let trimmed = trim candidate in
      if trimmed =s= ""
      then none
      else if is_some (find_first db (has_username trimmed) users)
      then none
      else some trimmed

  -- `create` refuses an id or an email in use, by the unique indexes. The username is free.
  unfoldable pub create_external :
      String → User → db.State User → db.State User × Result (String × User)
  create_external fresh row users =
      if is_some (db.find fresh users) || is_some (find_first db (has_email row.email) users)
      then (users, err internal_server_error)
      else (db.put fresh row users, ok (fresh, row))

  unfoldable pub find_or_create_external_user :
      String
      → String
      → String
      → AuthMethod
      → Option String
      → Option String
      → db.State User
      → db.State User × Result (String × User)
  unfolding create_external pick_available_username
  find_or_create_external_user fresh email external_id method provider candidate users =
      elim (find_by_external_id external_id method provider users) [
        | some existing ↦ (users, ok existing)
        | none ↦
            create_external fresh
              (external_row email (pick_available_username candidate users) external_id method
                provider)
              users
      ]
