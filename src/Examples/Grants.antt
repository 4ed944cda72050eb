-- ===== src/Examples/Grants.antt =====
-- The token endpoint: a client, an exchange and a refresh.
use entra_emulator.Prelude.{
  String, ◌≡◌, refl, ◌≢◌, ◌↔◌, Option, none, select_first, update, count, exists,
}
use entra_emulator.Text.{fields, join}
use entra_emulator.Store.Types.{App, ok}
use entra_emulator.Store.Directory.{get_app, get_user, app_exists, user_exists}
use entra_emulator.Store.Codes.{get_auth_code, consume_auth_code}
use entra_emulator.Store.Refresh.{
  get_refresh_token_by_hash, insert_refresh_token, rotate_refresh_token,
}
use entra_emulator.Tokens.Codes.{redeem_row, verify_pkce, redeem_auth_code}
use entra_emulator.Tokens.Rotation.{
  first_missing, redeem_refresh_row, redeem_refresh_token, issue_refresh_token,
}
use entra_emulator.Tokens.Minting.{
  TokenResponse, Minter, Policy, lifetimes_for, scope_echo, build_delegated_response,
}
use entra_emulator.Identity.Errors.{OauthError}
use entra_emulator.Identity.Clients.{
  ClientRequest, client_id_of, client_secret_of, check_secret, authenticate_client,
}
use entra_emulator.Identity.Clients.Secrets.{IsAuthentic, authenticate_client_iff}
use entra_emulator.Identity.Grants.{
  narrow_code, grant_authorization_code, narrow_refresh, grant_refresh_token,
}
use entra_emulator.Identity.Grants.Within.{IsRefreshed, grant_refresh_token_within}
use entra_emulator.Identity.Grants.Exchange.{IsExchanged, grant_authorization_code_within}
use entra_emulator.Examples.Data.{crypto, config, directory, web}

abbrev request : ClientRequest
request = record {
  client_id = "web";
  client_secret = "";
  basic = none;
  assertion = "";
  assertion_type = "";
  assertion_sub = "";
}

abbrev no_check : App → Option OauthError
no_check app = none

authenticate_client_iff_example :
    (authenticate_client crypto directory 100 no_check request ≡ ok web) ↔ (
      (client_id_of request ≢ "")
      × (get_app directory (client_id_of request) ≡ ok web)
      × IsAuthentic crypto directory 100 web (client_secret_of request))
authenticate_client_iff_example =
    authenticate_client_iff crypto directory 100 no_check request web refl

authenticates : authenticate_client crypto directory 100 no_check request ≡ ok web
unfolding authenticate_client client_id_of client_secret_of check_secret get_app select_first
authenticates = refl

abbrev mint : Minter
mint = record {
  access = λ g aud now. aud;
  id_token = λ g now. "id";
  client_info = λ user tenant. user;
}

abbrev policy : String → Policy
policy app_id = record { access_token = 0; id_token = 0; refresh_token = 0 }

abbrev answer : (refresh : String) → TokenResponse
answer refresh = record {
  token_type = "Bearer";
  expires_in = 3600;
  ext_expires_in = 3600;
  scope = "openid offline_access";
  access_token = "https://graph.microsoft.com";
  id_token = "id";
  refresh_token = refresh;
  client_info = "alice";
}

exchanges :
    (grant_authorization_code crypto config mint policy 100 "r9" web "c1" "https://app" "v" ""
      directory).0
    ≡ ok (answer "r9")
unfolding grant_authorization_code redeem_auth_code redeem_row verify_pkce get_auth_code
    consume_auth_code get_user narrow_code build_delegated_response issue_refresh_token
    insert_refresh_token lifetimes_for scope_echo app_exists user_exists select_first count update
    exists fields join
exchanges = refl

grant_authorization_code_within_example :
    IsExchanged crypto config mint 100 web "c1" "https://app" "v" directory
      (redeem_auth_code crypto 100 "c1" "web" "https://app" "v" directory).1
      (answer "r9")
grant_authorization_code_within_example =
    grant_authorization_code_within crypto config mint policy 100 "r9" web "c1" "https://app" "v" ""
      directory (answer "r9") (tt, tt) exchanges

refreshes :
    (grant_refresh_token crypto config mint policy 100 "r2" web "r1" "" directory).0
    ≡ ok (answer "r2")
unfolding grant_refresh_token narrow_refresh redeem_refresh_token redeem_refresh_row first_missing
    get_refresh_token_by_hash rotate_refresh_token insert_refresh_token get_user
    build_delegated_response lifetimes_for scope_echo app_exists user_exists select_first count
    update exists fields join
refreshes = refl

grant_refresh_token_within_example :
    IsRefreshed crypto config mint 100 web "r1" directory
      (grant_refresh_token crypto config mint policy 100 "r2" web "r1" "" directory).1
      (answer "r2")
grant_refresh_token_within_example =
    grant_refresh_token_within crypto config mint policy 100 "r2" web "r1" "" directory
      (answer "r2") refreshes
