-- ===== src/Identity/Token.antt =====
-- internal/identity/token.go: handleToken, from the faults to the grants.
pub mod Authenticated
use entra_emulator.Identity.Devices.{grant_device_code, DeviceGrant}
use entra_emulator.Identity.Delegation.{
  delegated, grant_on_behalf_of, grant_resource_owner_password,
}
use entra_emulator.Tokens.Minting.{build_delegated_response, TokenResponse, Policy, Minter}
use entra_emulator.Identity.AppOnly.{grant_client_credentials, AppMinter}
use entra_emulator.Identity.Grants.{minted, grant_refresh_token, grant_authorization_code}
use entra_emulator.Identity.Sessions.{tenant_segment}
use entra_emulator.Store.Types.{ok, err, Result, Store, App}
use entra_emulator.Faults.{token_fault, FaultConfig}
use entra_emulator.Identity.Clients.{authenticate_client, ClientRequest}
use entra_emulator.Identity.Errors.{oauth_error, OauthError}
use entra_emulator.Tokens.Types.{Config, Crypto}
use entra_emulator.Tokens.Validation.{Claims}
use entra_emulator.Prelude.{
  ℕ, code, String, Bool, not, ◌||◌, Option, none, some, ◌++◌, ◌==◌, if◌then◌else◌,
}
use Prim.Native.String

-- The form and what the headers present; `well_formed` is that ParseForm has no error, `raw_client`
-- is client_id or the user of the Basic header as sent, and `verified` are the claims of the
-- assertion of an on-behalf-of request behind its signature.
pub record TokenRequest : Type 0 where
  pub tenant : String
  pub well_formed : Bool
  pub form : String → String
  pub client : ClientRequest
  pub raw_client : String
  pub verified : Option Claims

-- The grants that grant_type names.
pub data GrantType : Type 0 where
  authorization_code refresh_token client_credentials password jwt_bearer device_code : GrantType

unfoldable pub grant_type_of : String → Option GrantType
grant_type_of t =
    if t == "authorization_code"
    then some authorization_code
    else if t == "refresh_token"
    then some refresh_token
    else if t == "client_credentials"
    then some client_credentials
    else if t == "password"
    then some password
    else if t == "urn:ietf:params:oauth:grant-type:jwt-bearer"
    then some jwt_bearer
    else if t == "urn:ietf:params:oauth:grant-type:device_code" || t == "device_code"
    then some device_code
    else none

abbrev pub fault_error : String × String → OauthError
fault_error (error, description) =
    oauth_error error
      (if description == "" then "Injected fault (roadmap #5 fault injection)." else description)

abbrev pub unsupported : String → OauthError
unsupported grant = oauth_error "unsupported_grant_type" (
    String.◌++◌ "AADSTS70003: The app requested an unsupported grant type '"
      (String.◌++◌ grant "'."))

-- Signatures, policies, the clock and the checks of assertions; `plain` is what NewOpaqueToken(32)
-- returns in this request.
module _ (c : Crypto) (cfg : Config) (mint : Minter) (mint_app : AppMinter)
    (policy : String → Policy) (now : ℕ) (check_assertion : App → Option OauthError)
    (plain : String) where
  -- authenticateClient, and a grant behind it.
  abbrev pub behind_client :
      Result OauthError App
      → (App → Store → Result OauthError TokenResponse × Store)
      → Store
      → Result OauthError TokenResponse × Store
  behind_client (err e) f s = (err e, s)
  behind_client (ok app) f s = f app s

  -- The tokens of a device that was approved.
  abbrev pub device_minted :
      Result OauthError DeviceGrant × Store → Result OauthError TokenResponse × Store
  device_minted (err e, s) = (err e, s)
  device_minted (ok g, s) =
      minted (
        build_delegated_response c cfg mint policy now plain (delegated g.app g.user g.scopes "") s)

  abbrev pub authenticated : TokenRequest → Store → Result OauthError App
  authenticated r s = authenticate_client c s now check_assertion r.client

  unfoldable pub run_grant :
      GrantType → TokenRequest → Store → Result OauthError TokenResponse × Store
  run_grant authorization_code r s =
      behind_client (authenticated r s)
        (λ app.
          grant_authorization_code c cfg mint policy now plain app (r.form "code")
            (r.form "redirect_uri") (r.form "code_verifier") (r.form "scope"))
        s
  run_grant refresh_token r s =
      behind_client (authenticated r s)
        (λ app.
          grant_refresh_token c cfg mint policy now plain app (r.form "refresh_token")
            (r.form "scope"))
        s
  run_grant client_credentials r s = (
    grant_client_credentials c cfg mint_app policy now check_assertion r.client r.raw_client
        (r.form "scope") s,
    s,
  )
  run_grant password r s =
      behind_client (authenticated r s)
        (λ app.
          grant_resource_owner_password c cfg mint policy now plain app (r.form "username")
            (r.form "password") (r.form "scope"))
        s
  run_grant jwt_bearer r s =
      behind_client (authenticated r s)
        (λ app.
          grant_on_behalf_of c cfg mint policy now plain app (r.form "requested_token_use")
            (r.form "assertion") (r.form "scope") r.verified)
        s
  run_grant device_code r s =
      behind_client (authenticated r s)
        (λ app t. device_minted (grant_device_code c cfg now (r.form "device_code") app t)) s

  abbrev pub dispatched :
      TokenRequest → Option GrantType → Store → Result OauthError TokenResponse × Store
  dispatched r none s = (err (unsupported (r.form "grant_type")), s)
  dispatched r (some g) s = run_grant g r s

  abbrev pub faulted :
      TokenRequest → Option (String × String) → Store → Result OauthError TokenResponse × Store
  faulted r (some fault) s = (err (fault_error fault), s)
  faulted r none s =
      if not (tenant_segment cfg s r.tenant).1
      then (err (oauth_error "invalid_request" "AADSTS90002: Unknown tenant."), s)
      else if not r.well_formed
      then (err (oauth_error "invalid_request" "AADSTS900144: Malformed request body."), s)
      else dispatched r (grant_type_of (r.form "grant_type")) s

  -- `certain` and `hit` are the tests of the fault's probability; the latency is not observable.
  unfoldable pub handle_token :
      FaultConfig
      → (certain hit : Bool) → TokenRequest
      → Store
      → Result OauthError TokenResponse × Store
  handle_token f certain hit r s = faulted r (token_fault f certain hit).1 s
