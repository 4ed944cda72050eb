-- ===== src/Examples/Delegation.antt =====
-- A confidential client that acts on behalf of a user.
use entra_emulator.Prelude.{String, ◌≡◌, refl, ◌↔◌, true, none, some, select_first}
use entra_emulator.Text.{fields, join}
use entra_emulator.Store.Types.{App, ok}
use entra_emulator.Store.Directory.{get_user}
use entra_emulator.Tokens.Minting.{
  TokenResponse, Minter, Policy, lifetimes_for, scope_echo, build_delegated_response,
}
use entra_emulator.Tokens.Validation.{
  Claims, validated, issuer_for_tenant, validate_claims, validate_access_token,
}
use entra_emulator.Tokens.Validation.Accepts.{IsValid, validate_access_token_iff}
use entra_emulator.Identity.Scopes.{resolve_scope, resolve_all, resolve_delegated_scopes}
use entra_emulator.Identity.Delegation.{accepted_audiences, grant_on_behalf_of}
use entra_emulator.Identity.Delegation.Within.{IsOnBehalf, grant_on_behalf_of_within}
use entra_emulator.Examples.Data.{crypto, config, directory, web}

abbrev api : App
api = record web { is_confidential = true }

abbrev claims : Claims
claims = record {
  iss = "https://login.local/contoso/v2.0";
  tid = "contoso";
  exp = some 1000;
  nbf = none;
  aud = "api://web";
  oid = "alice";
  sub = "alice";
  scp = "read";
}

abbrev minter : Minter
minter = record {
  access = λ g aud now. aud;
  id_token = λ g now. "id";
  client_info = λ user tenant. user;
}

abbrev unset : String → Policy
unset app_id = record { access_token = 0; id_token = 0; refresh_token = 0 }

validate_access_token_iff_example :
    (validate_access_token config 100 (some claims) (accepted_audiences api)
      ≡ some (validated claims))
    ↔ ((c : Claims) × (some claims ≡ some c)
        × IsValid config 100 (accepted_audiences api) c
        × (validated c ≡ validated claims))
validate_access_token_iff_example =
    validate_access_token_iff config 100 (some claims) (accepted_audiences api) (validated claims)

abbrev answer : TokenResponse
answer = record {
  token_type = "Bearer";
  expires_in = 3600;
  ext_expires_in = 3600;
  scope = "openid";
  access_token = "https://graph.microsoft.com";
  id_token = "id";
  refresh_token = "";
  client_info = "alice";
}

acts :
    (grant_on_behalf_of crypto config minter unset 100 "r" api "on_behalf_of" "jwt" "openid"
      (some claims)
      directory).0
    ≡ ok answer
unfolding grant_on_behalf_of validate_access_token validate_claims issuer_for_tenant get_user
    resolve_delegated_scopes resolve_all resolve_scope build_delegated_response lifetimes_for
    scope_echo select_first fields join
acts = refl

grant_on_behalf_of_within_example :
    IsOnBehalf config minter 100 api (some claims) "openid" directory answer
grant_on_behalf_of_within_example =
    grant_on_behalf_of_within crypto config minter unset 100 "r" api "on_behalf_of" "jwt" "openid"
      (some claims) directory answer acts
