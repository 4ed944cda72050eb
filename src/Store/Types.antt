-- ===== src/Store/Types.antt =====
-- internal/store/types.go: the rows, and the database as a record of tables. A text column that
-- is NULL in the database and "" in Go is "" here. Times are seconds since 1970.
use entra_emulator.Prelude.{
  ℕ, String, ◌≡◌, refl, ◌⊎◌, inl, inr, Bool, false, List, [], ◌==◌, if◌then◌else◌,
}

pub record Tenant : Type 0 where
  pub id : String
  pub display_name : String
  pub issuer : String
  pub initial_domain : String
  pub created_at : ℕ

pub record User : Type 0 where
  pub id : String
  pub tenant_id : String
  pub user_principal_name : String
  pub display_name : String
  pub given_name : String
  pub surname : String
  pub mail : String
  pub password_hash : String
  pub account_enabled : Bool
  pub user_type : String
  pub external_user_state : String
  pub invite_redirect_url : String
  pub created_at : ℕ
  pub updated_at : ℕ

pub record Group : Type 0 where
  pub id : String
  pub tenant_id : String
  pub display_name : String
  pub description : String
  pub created_at : ℕ

-- A row of group_members.
pub record Member : Type 0 where
  pub group_id : String
  pub user_id : String

pub record App : Type 0 where
  pub id : String
  pub tenant_id : String
  pub display_name : String
  pub is_confidential : Bool
  pub app_id_uri : String
  pub optional_claims : String
  pub group_membership_claims : String
  pub group_overage_limit : ℕ
  -- a column that frontchannel.go reads and writes
  pub frontchannel_logout_uri : String
  pub created_at : ℕ

pub record RedirectUri : Type 0 where
  pub id : ℕ
  pub app_id : String
  pub uri : String
  pub type : String

pub record AppSecret : Type 0 where
  pub id : String
  pub app_id : String
  pub display_name : String
  pub secret_hash : String
  pub hint : String
  pub expires_at : ℕ
  pub created_at : ℕ

pub record AppScope : Type 0 where
  pub id : String
  pub app_id : String
  pub value : String
  pub admin_consent_display_name : String
  pub is_enabled : Bool

pub record SigningKey : Type 0 where
  pub kid : String
  pub tenant_id : String
  pub alg : String
  pub public_jwk : String
  pub private_pkcs8 : String
  pub is_active : Bool
  pub created_at : ℕ
  pub not_after : ℕ

pub record AuthCode : Type 0 where
  pub code : String
  pub app_id : String
  pub user_id : String
  pub redirect_uri : String
  pub scopes : String
  pub resource : String
  pub code_challenge : String
  pub code_challenge_method : String
  pub nonce : String
  pub amr : String
  pub auth_time : ℕ
  pub max_age_requested : Bool
  pub expires_at : ℕ
  pub consumed : Bool
  pub created_at : ℕ

pub record RefreshToken : Type 0 where
  pub token_hash : String
  pub app_id : String
  pub user_id : String
  pub scopes : String
  pub resource : String
  pub amr : String
  pub auth_time : ℕ
  pub auth_code : String
  pub expires_at : ℕ
  pub rotated_from : String
  pub revoked : Bool
  pub created_at : ℕ

pub record Session : Type 0 where
  pub id : String
  pub user_id : String
  pub auth_method : String
  pub created_at : ℕ
  pub expires_at : ℕ

-- Session.AuthTime
abbrev pub auth_time : Session → ℕ
auth_time s = s.created_at

pub record DeviceCode : Type 0 where
  pub device_code_hash : String
  pub user_code : String
  pub app_id : String
  pub user_id : String
  pub scopes : String
  pub status : String
  pub interval : ℕ
  pub expires_at : ℕ
  pub created_at : ℕ

-- consent.go: a row of oauth2_permission_grants.
pub record PermissionGrant : Type 0 where
  pub id : String
  pub client_id : String
  pub consent_type : String
  pub resource_id : String
  pub principal_id : String
  pub scope : String
  pub created_at : ℕ

-- deleted.go: a row of deleted_items whose payload is read as the Go value that it encodes.
pub record DeletedUser : Type 0 where
  pub id : String
  pub user : User
  pub group_ids : List String
  pub deleted_at : ℕ

pub record AppRole : Type 0 where
  pub id : String
  pub app_id : String
  pub value : String
  pub display_name : String
  pub allowed_member_types : String
  pub is_enabled : Bool

-- consent.go: a row of app_role_assignments.
pub record AppRoleAssignment : Type 0 where
  pub id : String
  pub principal_id : String
  pub principal_type : String
  pub resource_id : String
  pub app_role_id : String
  pub created_at : ℕ

-- tokenlifetime.go: a policy, and a row of app_token_lifetime_policies.
pub record TokenLifetimePolicy : Type 0 where
  pub id : String
  pub display_name : String
  pub definition : List String
  pub is_organization_default : Bool
  pub created_at : ℕ

pub record AppPolicy : Type 0 where
  pub app_id : String
  pub policy_id : String

-- A row of session_apps.
pub record SessionApp : Type 0 where
  pub session_id : String
  pub app_id : String

pub record Store : Type 0 where
  pub tenants : List Tenant
  pub users : List User
  pub groups : List Group
  pub group_members : List Member
  pub apps : List App
  pub redirect_uris : List RedirectUri
  pub app_secrets : List AppSecret
  pub app_scopes : List AppScope
  pub signing_keys : List SigningKey
  pub authorization_codes : List AuthCode
  pub refresh_tokens : List RefreshToken
  pub sessions : List Session
  pub device_codes : List DeviceCode
  pub permission_grants : List PermissionGrant
  pub deleted_users : List DeletedUser
  pub session_apps : List SessionApp
  pub app_roles : List AppRole
  pub app_role_assignments : List AppRoleAssignment
  pub token_lifetime_policies : List TokenLifetimePolicy
  pub app_token_lifetime_policies : List AppPolicy

abbrev pub empty_store : Store
empty_store = record {
  tenants = [];
  users = [];
  groups = [];
  group_members = [];
  apps = [];
  redirect_uris = [];
  app_secrets = [];
  app_scopes = [];
  signing_keys = [];
  authorization_codes = [];
  refresh_tokens = [];
  sessions = [];
  device_codes = [];
  permission_grants = [];
  deleted_users = [];
  session_apps = [];
  app_roles = [];
  app_role_assignments = [];
  token_lifetime_policies = [];
  app_token_lifetime_policies = [];
}

-- directory.go: ErrNotFound and ErrConflict; `constraint` is a failed foreign key, which
-- mapConstraint passes on as it is.
pub data StoreError : Type 0 where
  not_found conflict constraint : StoreError

pub data Result {ℓ κ} (E : Type ℓ) (A : Type κ) : Type (ℓ ⊔ κ) where
  ok : A → Result E A
  err : E → Result E A

pub Result-cases {ℓ κ} :
    {E : Type ℓ} {A : Type κ} (r : Result E A) → ((a : A) × (r ≡ ok a)) ⊎ ((e : E) × (r ≡ err e))
Result-cases (ok a) = inl (a, refl)
Result-cases (err e) = inr (e, refl)

-- column = value in SQL, where the column may be NULL: NULL equals nothing.
abbrev pub nullable_eq : String → String → Bool
nullable_eq column value = if column == "" then false else column == value

-- COALESCE of an empty Go string
abbrev pub coalesce : String → String → String
coalesce v def = if v == "" then def else v
