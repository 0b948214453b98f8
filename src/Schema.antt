-- ===== src/Schema.antt =====
-- backend/prisma/schema.prisma: the rows of the tables, without the column that a table is keyed by
-- (`id`; `jti` of RefreshToken, `token` of BlacklistedToken) and the columns that no modelled
-- code reads.
use open_bastion.Base.{ℕ, Bool, Option, List, String}

pub data Role : Type 0 where
  admin user : Role

pub data AuthMethod : Type 0 where
  local ldap oidc : AuthMethod

pub data AccessLevel : Type 0 where
  operator owner : AccessLevel

-- `groups` holds the ids of the user's groups (the relation UserGroups).
pub record User : Type 0 where
  pub email : String
  pub username : Option String
  pub password_hash : Option String
  pub role : Role
  pub auth_method : AuthMethod
  pub external_id : Option String
  pub auth_provider_id : Option String
  pub token_version : ℕ
  pub requires_password_change : Bool
  pub otp_secret : Option String
  pub pending_otp_secret : Option String
  pub is_otp_enabled : Bool
  pub groups : List String

pub data AuthProviderType : Type 0 where
  ldap_provider oidc_provider : AuthProviderType

pub record AuthProvider : Type 0 where
  pub provider_type : AuthProviderType
  pub enabled : Bool

pub record RefreshToken : Type 0 where
  pub user_id : String
  pub expires_at : ℕ
  pub revoked_at : Option ℕ

pub record BlacklistedToken : Type 0 where
  pub expires_at : ℕ

pub record Permission : Type 0 where
  pub user_id : Option String
  pub group_id : Option String
  pub machine_id : Option String
  pub machine_group_id : Option String
  pub level : AccessLevel

pub record Machine : Type 0 where
  pub name : String
  pub ip : String
  pub port : ℕ
  pub machine_group_id : Option String
