-- ===== src/Examples/Token.antt =====
-- A daemon asks the token endpoint for an application-only token.
use entra_emulator.Tokens.Minting.{lifetimes_for, Minter, Policy, TokenResponse}
use entra_emulator.Identity.AppOnly.{
  build_app_only_response, roles_for, app_only_audience, default_resource, without_oidc, AppMinter,
  grant_client_credentials,
}
use entra_emulator.Store.Roles.{assigned_app_role_values}
use entra_emulator.Store.Directory.{
  get_app_by_id_uri, list_secrets, matches_secret, verify_app_secret, get_app,
}
use entra_emulator.Identity.Scopes.{find_resource_app}
use entra_emulator.Identity.Resources.{known_azure_resource, azure_aud, databricks_aud, fabric_aud}
use entra_emulator.Text.{before_suffix, fields}
use entra_emulator.Identity.Clients.{
  check_secret, client_secret_of, client_id_of, authenticate_client, ClientRequest,
}
use entra_emulator.Identity.Token.Authenticated.{
  handle_token-authenticate_client, handle_token-stops, stops,
}
use entra_emulator.Store.Types.{ok, err, AppRole, AppSecret, App, Store}
use entra_emulator.Identity.Token.{GrantType, run_grant, grant_type_of, TokenRequest, handle_token}
use entra_emulator.Faults.{no_fault, token_fault}
use entra_emulator.Identity.AppOnly.Within.{grant_client_credentials-IsAppOnly, IsAppOnly}
use entra_emulator.Identity.Errors.{OauthError}
use entra_emulator.Identity.Sessions.{tenant_segment}
use entra_emulator.Prelude.{
  String, ◌≡◌, refl, ◌⊎◌, true, false, Option, none, some, [], ◌∷◌, ◌==◌, if◌then◌else◌,
  select_first, select,
}
use entra_emulator.Examples.Data.{crypto, config, directory, web}

abbrev daemon : App
daemon = record web { id = "daemon"; is_confidential = true; app_id_uri = "" }

abbrev role : AppRole
role = record {
  id = "role";
  app_id = "web";
  value = "Tasks.Read.All";
  display_name = "Read tasks";
  allowed_member_types = "Application";
  is_enabled = true;
}

abbrev secret : AppSecret
secret = record {
  id = "secret";
  app_id = "daemon";
  display_name = "";
  secret_hash = "scrypt:pw";
  hint = "pw";
  expires_at = 0;
  created_at = 1;
}

abbrev tenant : Store
tenant = record directory {
  apps = web ∷ daemon ∷ [];
  app_roles = role ∷ [];
  app_secrets = secret ∷ [];
}

abbrev client : ClientRequest
client = record {
  client_id = "daemon";
  client_secret = "pw";
  basic = none;
  assertion = "";
  assertion_type = "";
  assertion_sub = "";
}

abbrev no_check : App → Option OauthError
no_check app = none

abbrev mint : Minter
mint = record {
  access = λ g aud now. aud;
  id_token = λ g now. "id";
  client_info = λ user tenant. user;
}

abbrev mint_app : AppMinter
mint_app app aud roles tenant_id now = some aud

abbrev policy : String → Policy
policy app_id = record { access_token = 0; id_token = 0; refresh_token = 0 }

abbrev answer : TokenResponse
answer = record {
  token_type = "Bearer";
  expires_in = 3600;
  ext_expires_in = 3600;
  scope = "";
  access_token = "api://web";
  id_token = "";
  refresh_token = "";
  client_info = "";
}

grants :
    grant_client_credentials crypto config mint_app policy 100 no_check client "daemon"
      "api://web/.default" tenant
    ≡ ok answer
unfolding grant_client_credentials authenticate_client client_id_of client_secret_of check_secret
    get_app verify_app_secret matches_secret list_secrets select select_first fields without_oidc
    default_resource before_suffix app_only_audience fabric_aud databricks_aud azure_aud
    known_azure_resource find_resource_app get_app_by_id_uri roles_for assigned_app_role_values
    build_app_only_response lifetimes_for
grants = refl

grant_client_credentials-IsAppOnly_example :
    IsAppOnly crypto config mint_app policy 100 no_check client "api://web/.default" tenant answer
grant_client_credentials-IsAppOnly_example =
    grant_client_credentials-IsAppOnly crypto config mint_app policy 100 no_check client "daemon"
      "api://web/.default" tenant answer grants

abbrev posted : (grant : String) → String → String
posted grant k =
    if k == "grant_type" then grant else if k == "scope" then "api://web/.default" else ""

abbrev request : (grant : String) → TokenRequest
request grant = record {
  tenant = "contoso";
  well_formed = true;
  form = posted grant;
  client = client;
  raw_client = "daemon";
  verified = none;
}

answers :
    (handle_token crypto config mint mint_app policy 100 no_check "rt" no_fault false false
      (request "client_credentials")
      tenant).0
    ≡ ok answer
unfolding handle_token token_fault tenant_segment grant_type_of run_grant
answers = grants

handle_token-authenticate_client_example :
    ((token_fault no_fault false false).1 ≡ none)
    × ((tenant_segment config tenant "contoso").1 ≡ true)
    × (true ≡ true)
    × ((g : GrantType) × (grant_type_of "client_credentials" ≡ some g))
    × ((app : App) × (authenticate_client crypto tenant 100 no_check client ≡ ok app))
handle_token-authenticate_client_example =
    handle_token-authenticate_client crypto config mint mint_app policy 100 no_check "rt" no_fault
      false false (request "client_credentials") tenant answer answers

stopped : stops config no_fault false false (request "implicit") tenant ≡ true
unfolding tenant_segment grant_type_of
stopped = refl

handle_token-stops_example :
    (e : OauthError) × (handle_token crypto config mint mint_app policy 100 no_check "rt" no_fault
        false false
        (request "implicit")
        tenant
      ≡ (err e, tenant))
    × ((e.error ≡ "") ⊎ ((e.error ≡ "invalid_request") ⊎ (e.error ≡ "unsupported_grant_type")))
handle_token-stops_example =
    handle_token-stops crypto config mint mint_app policy 100 no_check "rt" no_fault false false
      (request "implicit") tenant stopped
