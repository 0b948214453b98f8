-- ===== src/Audit.antt =====
-- backend/src/common/interceptors/audit.interceptor.ts: which requests leave a row in the audit log,
-- and what of their bodies is kept in it.
pub mod Routes
pub mod Redaction
use Prim.Native.Char.{code}
use Prim.Native.String.{◌++◌ as append}
use open_bastion.Base.{
  >>=-eq-ok, Bool, Bool-cases, Dict, HttpException, List, Memᴰ, Option, Option-cases, Result,
  Result-cases, String, [], all, any, any-mem, ap, arith, bad_request, conflict, delete_key, drop,
  empty_dict, eq_iff, eq_refl, err, false, forbidden, get_or, guard, guard-eq-ok, head_of, if_false,
  if_true, if◌then◌else◌, inl, inr, internal_server_error, is_some, is_white_space, leb, length,
  length-append, ltb, ltb→lt, lt→ltb, map, max, mem_cons_cases, mem_of_any, min, none, not,
  not_found, ok, ok-injective, or_throw, or_throw-eq-ok, refl, same_text, same_text_iff, set_key,
  some, str_eq, subst, suc, sym, take, true, unauthorized, zero, zero-cases, ℕ, ◌%◌, ◌&&◌, ◌*◌,
  ◌++◌, ◌+◌, ◌-◌, ◌/◌, ◌<◌, ◌==◌, ◌=s=◌, ◌>>=◌, ◌>>◌, ◌^◌, ◌||◌, ◌↔◌, ◌∙◌, ◌∷◌, ◌≡◌, ◌≢◌, ◌≤◌, ◌⊎◌,
}
use open_bastion.Schema.{AuthMethod}

-- A parsed body; `Items` and `Fields` are what an array and an object hold.
mutual
  pub data Json : Type 0 where
    null : Json
    bool : Bool → Json
    num : ℕ → Json
    text : String → Json
    array : Items → Json
    object : Fields → Json

  pub data Items : Type 0 where
    no_items : Items
    item : Json → Items → Items

  pub data Fields : Type 0 where
    no_fields : Fields
    field : String → Json → Fields → Fields

abbrev pub sensitive_fields : List String
sensitive_fields =
    "password" ∷ "currentPassword" ∷ "passwordHash" ∷ "privateKey" ∷ "token" ∷ "secret"
    ∷ "clientSecret" ∷ "bindPassword" ∷ "bindCredentials" ∷ "code" ∷ "tempToken" ∷ "refresh_token"
    ∷ "refreshToken" ∷ []

unfoldable pub is_sensitive : String → Bool
is_sensitive k = any (str_eq k) sensitive_fields

abbrev pub redacted : Json
redacted = text "***REDACTED***"

unfoldable mutual
  pub sanitize_object : Json → Json
  sanitize_object (array xs) = array (sanitize_items xs)
  sanitize_object (object fs) = object (sanitize_fields fs)
  sanitize_object null = null
  sanitize_object (bool b) = bool b
  sanitize_object (num n) = num n
  sanitize_object (text t) = text t

  pub sanitize_items : Items → Items
  sanitize_items no_items = no_items
  sanitize_items (item v xs) = item (sanitize_object v) (sanitize_items xs)

  pub sanitize_fields : Fields → Fields
  sanitize_fields no_fields = no_fields
  sanitize_fields (field k v fs) =
      field k (if is_sensitive k then redacted else sanitize_object v) (sanitize_fields fs)

-- `s.startsWith(prefix)`
unfoldable pub starts_with : String → String → Bool
starts_with String.[] s = true
starts_with (String.◌∷◌ c p) String.[] = false
starts_with (String.◌∷◌ c p) (String.◌∷◌ d s) = code c == code d && starts_with p s

-- `s.includes(part)`
unfoldable pub includes : String → String → Bool
unfolding starts_with
includes part String.[] = part =s= ""
includes part (String.◌∷◌ c s) = starts_with part (String.◌∷◌ c s) || includes part s

abbrev pub explicitly_audited : List String
explicitly_audited =
    "/auth/login" ∷ "/auth/logout" ∷ "/auth/oidc" ∷ "/auth/change-password" ∷ "/users"
    ∷ "/permissions" ∷ []

unfoldable pub is_explicitly_audited : String → Bool
unfolding starts_with
is_explicitly_audited pathname =
    any (λ route. pathname =s= route || starts_with (append route "/") pathname) explicitly_audited

unfoldable pub is_mutation : String → Bool
is_mutation method = any (str_eq method) ("POST" ∷ "PATCH" ∷ "PUT" ∷ "DELETE" ∷ [])

pub data AuditCategory : Type 0 where
  system auth user group machine permission terminal : AuditCategory

-- By the address as it was sent, with its query.
unfoldable pub category_of : String → AuditCategory
unfolding includes
category_of url =
    if includes "/auth" url
    then auth
    else if includes "/users" url
    then user
    else if includes "/groups" url
    then group
    else if includes "/machines" url
    then machine
    else if includes "/permissions" url
    then permission
    else if includes "/terminal" url
    then terminal
    else system

-- The request with the path name that `new URL(url, …)` gives, and the id and method of its user.
pub record AuditedRequest : Type 0 where
  pub method : String
  pub url : String
  pub pathname : String
  pub body : Json
  pub user_id : Option String
  pub auth_method : Option AuthMethod

-- What `logAction` is called with; the action is the category, the method and the path name.
pub record AuditRow : Type 0 where
  pub user_id : Option String
  pub category : AuditCategory
  pub method : String
  pub pathname : String
  pub details : Option Json
  pub auth_method : Option AuthMethod

unfoldable pub is_sent : String → Bool
is_sent method = any (str_eq method) ("POST" ∷ "PATCH" ∷ "PUT" ∷ [])

-- `sanitizedBody`
unfoldable pub details_of : String → Json → Option Json
unfolding sanitize_object is_sent
details_of method body = if is_sent method then some (sanitize_object body) else none

unfoldable pub row_of : AuditedRequest → AuditRow
unfolding category_of details_of
row_of r = record {
  user_id = r.user_id;
  category = category_of r.url;
  method = r.method;
  pathname = r.pathname;
  details = details_of r.method r.body;
  auth_method = r.auth_method;
}

-- The row of a request whose handler succeeds.
unfoldable pub intercept : AuditedRequest → Option AuditRow
unfolding is_explicitly_audited is_mutation row_of
intercept r =
    if not (is_mutation r.method) || is_explicitly_audited r.pathname then none else some (row_of r)
