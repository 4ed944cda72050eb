-- ===== src/Tokens/Minting.antt =====
-- internal/tokens/service.go: the response of a delegated grant. The signed tokens are a parameter.
use entra_emulator.Prelude.{
  ℕ, String, Bool, not, ◌&&◌, List, [], ◌∷◌, ◌==◌, ltb, if◌then◌else◌, contains,
}
use entra_emulator.Text.{join}
use entra_emulator.Store.Types.{App, User, StoreError, ok}
use entra_emulator.Tokens.Types.{Config, Crypto, Exec, ◌>>=◌}
use entra_emulator.Tokens.Rotation.{RefreshRequest, issue_refresh_token}

pub record DelegatedGrant : Type 0 where
  pub app : App
  pub user : User
  pub scopes : List String
  pub resource : String
  pub scope_echo : List String
  pub nonce : String
  pub amr : String
  pub auth_time : ℕ
  pub auth_code : String
  pub max_age_requested : Bool
  pub tenant_id : String
  pub skip_refresh_token : Bool

pub record TokenResponse : Type 0 where
  pub token_type : String
  pub expires_in : ℕ
  pub ext_expires_in : ℕ
  pub scope : String
  pub access_token : String
  pub id_token : String
  pub refresh_token : String
  pub client_info : String

-- mintAccessDelegated, mintIDToken and clientInfo: JSON, base64 and RS256.
pub record Minter : Type 0 where
  pub access : DelegatedGrant → (aud : String) (now : ℕ) → String
  pub id_token : DelegatedGrant → (now : ℕ) → String
  pub client_info : (user_id tenant_id : String) → String

-- What EffectiveTokenLifetimes returns: 0 is unset.
pub record Policy : Type 0 where
  pub access_token : ℕ
  pub id_token : ℕ
  pub refresh_token : ℕ

abbrev override : (configured policy : ℕ) → ℕ
override configured policy = if ltb 0 policy then policy else configured

unfoldable pub lifetimes_for : Config → (String → Policy) → (app_id : String) → ℕ × ℕ × ℕ
lifetimes_for cfg policy app_id =
    if app_id == ""
    then (cfg.lifetimes.access_token, cfg.lifetimes.id_token, cfg.lifetimes.refresh_token)
    else (
      override cfg.lifetimes.access_token (policy app_id).access_token,
      override cfg.lifetimes.id_token (policy app_id).id_token,
      override cfg.lifetimes.refresh_token (policy app_id).refresh_token,
    )

abbrev echo_or : (scopes echo : List String) → List String
echo_or scopes [] = scopes
echo_or scopes (sc ∷ scs) = sc ∷ scs

unfoldable pub scope_echo : DelegatedGrant → List String
scope_echo g = echo_or g.scopes g.scope_echo

abbrev pub audience : Config → DelegatedGrant → String
audience cfg g = if g.resource == "" then cfg.graph_resource_id else g.resource

abbrev pub refresh_request : DelegatedGrant → RefreshRequest
refresh_request g = record {
  app_id = g.app.id;
  user_id = g.user.id;
  scopes = g.scopes;
  resource = g.resource;
  rotated_from = "";
  amr = g.amr;
  auth_time = g.auth_time;
  auth_code = g.auth_code;
}

abbrev pub response :
    Config
    → Minter
    → (String → Policy)
    → (now : ℕ) → DelegatedGrant
    → (refresh : String) → TokenResponse
response cfg mint policy now g refresh = record {
  token_type = "Bearer";
  expires_in = (lifetimes_for cfg policy g.app.id).0;
  ext_expires_in = (lifetimes_for cfg policy g.app.id).0;
  scope = join (scope_echo g);
  access_token = mint.access g (audience cfg g) now;
  id_token = if contains g.scopes "openid" then mint.id_token g now else "";
  refresh_token = refresh;
  client_info = mint.client_info g.user.id g.tenant_id;
}

-- `plain` is what NewOpaqueToken(32) returned.
unfoldable pub build_delegated_response :
    Crypto
    → Config
    → Minter
    → (String → Policy)
    → (now : ℕ) (plain : String) → DelegatedGrant
    → Exec StoreError TokenResponse
build_delegated_response c cfg mint policy now plain g s =
    if contains g.scopes "offline_access" && not g.skip_refresh_token
    then (issue_refresh_token c (lifetimes_for cfg policy g.app.id).2 now plain (refresh_request g)
          >>= λ rt t. (ok (response cfg mint policy now g rt), t))
        s
    else (ok (response cfg mint policy now g ""), s)
