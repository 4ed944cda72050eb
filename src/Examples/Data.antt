-- ===== src/Examples/Data.antt =====
-- The directory, the configuration and the cryptography that the examples run on.
use entra_emulator.Prelude.{true, false, [], ◌∷◌, ◌==◌}
use Prim.Native.String
use entra_emulator.Store.Types.{
  Tenant, User, App, AppScope, AuthCode, RefreshToken, DeviceCode, RedirectUri, Session, Store,
  empty_store,
}
use entra_emulator.Tokens.Types.{Config, Crypto}

abbrev pub crypto : Crypto
crypto = record {
  hash_token = λ x. String.◌++◌ "h:" x;
  s256 = λ x. String.◌++◌ "s:" x;
  verify_secret = λ plain hash. String.◌++◌ "scrypt:" plain == hash;
}

abbrev pub config : Config
config = record {
  tenant_id = "contoso";
  issuer = "https://login.local/contoso/v2.0";
  login_origin = "https://login.local";
  graph_origin = "https://graph.local";
  graph_resource_id = "https://graph.microsoft.com";
  lifetimes = record {
    auth_code = 600;
    access_token = 3600;
    id_token = 3600;
    refresh_token = 86400;
    device_code = 900;
  };
  device_interval = 5;
  require_password = false;
  require_consent = false;
}

abbrev pub contoso : Tenant
contoso = record {
  id = "contoso";
  display_name = "Contoso";
  issuer = "";
  initial_domain = "contoso.test";
  created_at = 1;
}

abbrev pub alice : User
alice = record {
  id = "alice";
  tenant_id = "contoso";
  user_principal_name = "alice@contoso.test";
  display_name = "Alice";
  given_name = "Alice";
  surname = "A";
  mail = "";
  password_hash = "scrypt:pw";
  account_enabled = true;
  user_type = "Member";
  external_user_state = "";
  invite_redirect_url = "";
  created_at = 1;
  updated_at = 1;
}

abbrev pub web : App
web = record {
  id = "web";
  tenant_id = "contoso";
  display_name = "Web";
  is_confidential = false;
  app_id_uri = "api://web";
  optional_claims = "";
  group_membership_claims = "";
  group_overage_limit = 0;
  frontchannel_logout_uri = "https://app/out";
  created_at = 1;
}

abbrev pub read : AppScope
read = record {
  id = "scope";
  app_id = "web";
  value = "read";
  admin_consent_display_name = "Read";
  is_enabled = true;
}

abbrev pub code_row : AuthCode
code_row = record {
  code = "c1";
  app_id = "web";
  user_id = "alice";
  redirect_uri = "https://app";
  scopes = "openid offline_access";
  resource = "";
  code_challenge = "s:v";
  code_challenge_method = "S256";
  nonce = "";
  amr = "pwd";
  auth_time = 10;
  max_age_requested = false;
  expires_at = 610;
  consumed = false;
  created_at = 10;
}

abbrev pub token_row : RefreshToken
token_row = record {
  token_hash = "h:r1";
  app_id = "web";
  user_id = "alice";
  scopes = "openid offline_access";
  resource = "";
  amr = "pwd";
  auth_time = 10;
  auth_code = "c1";
  expires_at = 1000;
  rotated_from = "";
  revoked = false;
  created_at = 10;
}

abbrev pub device_row : DeviceCode
device_row = record {
  device_code_hash = "h:d1";
  user_code = "BCDF-GHJK";
  app_id = "web";
  user_id = "";
  scopes = "openid";
  status = "pending";
  interval = 5;
  expires_at = 900;
  created_at = 10;
}

abbrev pub session_row : Session
session_row = record {
  id = "sid";
  user_id = "alice";
  auth_method = "pwd";
  created_at = 10;
  expires_at = 800;
}

abbrev pub redirect_row : RedirectUri
redirect_row = record { id = 1; app_id = "web"; uri = "https://app"; type = "web" }

abbrev pub directory : Store
directory = record empty_store {
  tenants = contoso ∷ [];
  users = alice ∷ [];
  apps = web ∷ [];
  redirect_uris = redirect_row ∷ [];
  app_scopes = read ∷ [];
  session_apps = record { session_id = "sid"; app_id = "web" } ∷ [];
  authorization_codes = code_row ∷ [];
  refresh_tokens = token_row ∷ [];
  sessions = session_row ∷ [];
  device_codes = device_row ∷ [];
}
