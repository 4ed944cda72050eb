-- ===== src/Identity/AppOnly.antt =====
-- internal/identity/token.go: the client credentials grant.
pub mod Roles
pub mod Audience
pub mod Within
use entra_emulator.Text.{fields, has_substring, before_suffix}
use entra_emulator.Identity.Clients.{authenticate_client, ClientRequest}
use entra_emulator.Identity.Scopes.{find_resource_app, oidc_scopes}
use entra_emulator.Store.Directory.{get_app}
use entra_emulator.Store.Types.{ok, StoreError, err, Result, AppRole, App, Store}
use entra_emulator.Identity.Errors.{oauth_error, OauthError}
use entra_emulator.Identity.Resources.{azure_aud, databricks_aud, fabric_aud}
use entra_emulator.Tokens.Minting.{lifetimes_for, TokenResponse, Policy}
use entra_emulator.Store.Roles.{list_roles, assigned_app_role_values}
use entra_emulator.Tokens.Types.{Config, Crypto}
use entra_emulator.Prelude.{
  ℕ, ◌/◌, String, Bool, false, not, ◌&&◌, Option, none, some, List, [], ◌∷◌, ◌++◌, ◌==◌,
  if◌then◌else◌, contains,
}
use Prim.Native.String

-- Texts joined by +.
abbrev text : List String → String
text [] = ""
text (a ∷ rest) = String.◌++◌ a (text rest)

-- The loop that leaves out the reserved scopes.
unfoldable pub without_oidc : List String → List String
without_oidc [] = []
without_oidc (sc ∷ scs) =
    let rest = without_oidc scs in if contains oidc_scopes sc then rest else sc ∷ rest

unfoldable pub default_resource : List String → Option String
default_resource [] = none
default_resource (sc ∷ []) = before_suffix "/.default" sc
default_resource (sc ∷ (sc' ∷ scs)) = none

abbrev pub is_application_role : AppRole → Bool
is_application_role r = r.is_enabled && has_substring r.allowed_member_types "Application"

-- The values of the enabled roles for applications.
unfoldable pub application_roles : List AppRole → List String
application_roles [] = []
application_roles (r ∷ rs) =
    let rest = application_roles rs in if is_application_role r then r.value ∷ rest else rest

abbrev pub chosen_roles : List String × Bool → List AppRole → List String
chosen_roles (values, has) all = if has then values else application_roles all

-- The roles of a client at a resource: its assignments, or every role for applications.
unfoldable pub roles_for : Store → (principal_id resource_id : String) → List String
roles_for s principal_id resource_id =
    chosen_roles (assigned_app_role_values s principal_id resource_id) (list_roles s resource_id)

abbrev pub of_resource_app : Store → App → String → Option App → Option (String × List String)
of_resource_app s app resource none = none
of_resource_app s app resource (some ra) =
    some (if ra.app_id_uri == resource then ra.app_id_uri else ra.id, roles_for s app.id ra.id)

-- The audience and the roles; `none` is a resource that is not found.
unfoldable pub app_only_audience : Config → Store → App → String → Option (String × List String)
app_only_audience cfg s app resource =
    if resource == cfg.graph_resource_id
    then some (cfg.graph_resource_id, [])
    else if not (fabric_aud resource == "")
    then some (fabric_aud resource, [])
    else if not (databricks_aud resource == "")
    then some (databricks_aud resource, [])
    else if not (azure_aud resource == "")
    then some (azure_aud resource, [])
    else of_resource_app s app resource (find_resource_app s resource)

-- The JWT of an application: its client, audience, roles and tenant. `none` is a failed signature.
abbrev pub AppMinter : Type 0
AppMinter =
    App → (aud : String) → (roles : List String) → (tenant_id : String) (now : ℕ) → Option String

abbrev pub app_response : Config → (String → Policy) → App → (jwt : String) → TokenResponse
app_response cfg policy app jwt = record {
  token_type = "Bearer";
  expires_in = (lifetimes_for cfg policy app.id).0;
  ext_expires_in = (lifetimes_for cfg policy app.id).0;
  scope = "";
  access_token = jwt;
  id_token = "";
  refresh_token = "";
  client_info = "";
}

-- BuildAppOnlyResponse without a scope to echo.
unfoldable pub build_app_only_response :
    Config
    → AppMinter
    → (String → Policy)
    → (now : ℕ) → App
    → (aud : String) → List String
    → Option TokenResponse
build_app_only_response cfg mint policy now app aud roles =
    elim (mint app aud roles app.tenant_id now) [
      | none ↦ none
      | some jwt ↦ some (app_response cfg policy app jwt)
    ]

module _ (c : Crypto) (cfg : Config) (mint : AppMinter) (policy : String → Policy) (now : ℕ) where
  abbrev pub app_minted : Option TokenResponse → Result OauthError TokenResponse
  app_minted none = err (oauth_error "invalid_request" "AADSTS90002: Token minting failed.")
  app_minted (some resp) = ok resp

  abbrev pub for_audience :
      App → (resource : String) → Option (String × List String) → Result OauthError TokenResponse
  for_audience app resource none = err (
      oauth_error "invalid_resource" (
        text (
          "AADSTS500011: The resource principal named " ∷ resource
          ∷ " was not found in the tenant named " ∷ cfg.tenant_id
          ∷ ". This can happen if the application has not been installed by the administrator of the tenant or consented to by any user in the tenant. You might have sent your authentication request to the wrong tenant."
          ∷ [])))
  for_audience app resource (some (aud, roles)) =
      app_minted (build_app_only_response cfg mint policy now app aud roles)

  abbrev pub for_resource : Store → App → Option String → Result OauthError TokenResponse
  for_resource s app none = err (
      oauth_error "invalid_scope"
        "AADSTS1002012: Client credentials requires exactly one <resource>/.default scope.")
  for_resource s app (some resource) =
      for_audience app resource (app_only_audience cfg s app resource)

  abbrev pub for_scopes : Store → App → List String → Result OauthError TokenResponse
  for_scopes s app [] = err (oauth_error "invalid_request" "AADSTS900144: scope is required.")
  for_scopes s app (sc ∷ scs) = for_resource s app (default_resource (without_oidc (sc ∷ scs)))

  abbrev pub confidential_required : OauthError
  confidential_required =
      oauth_error "invalid_client"
        "AADSTS700025: Client credentials requires a confidential client."

  abbrev pub is_public : Result StoreError App → Bool
  is_public (ok app) = not app.is_confidential
  is_public (err _) = false

  -- `raw_client` is client_id, or the user of the Basic header as it was sent. A scope of white
  -- space only is empty.
  unfoldable pub grant_client_credentials :
      (check_assertion : App → Option OauthError)
      → ClientRequest
      → (raw_client scope : String) → Store
      → Result OauthError TokenResponse
  grant_client_credentials check_assertion r raw_client scope s =
      if is_public (get_app s raw_client)
      then err confidential_required
      else elim (authenticate_client c s now check_assertion r) [
        | err e ↦ err e
        | ok app ↦
            if not app.is_confidential
            then err confidential_required
            else for_scopes s app (fields scope)
      ]
