-- ===== src/Identity/Delegation.antt =====
-- internal/identity/obo.go and ropc.go: the on-behalf-of and the password grant.
pub mod Within
use entra_emulator.Prelude.{
  ℕ, String, false, not, ◌||◌, Option, none, some, List, [], ◌∷◌, ◌==◌, if◌then◌else◌,
}
use entra_emulator.Text.{fields}
use entra_emulator.Store.Types.{App, User, Store, StoreError, Result, ok, err}
use entra_emulator.Store.Directory.{get_user, verify_password}
use entra_emulator.Tokens.Types.{Config, Crypto}
use entra_emulator.Tokens.Minting.{
  DelegatedGrant, TokenResponse, Minter, Policy, build_delegated_response,
}
use entra_emulator.Tokens.Validation.{Claims, ValidatedToken, validate_access_token}
use entra_emulator.Identity.Errors.{OauthError, oauth_error}
use entra_emulator.Identity.Scopes.{ResolvedScopes, resolve_delegated_scopes}
use entra_emulator.Identity.Grants.{minted}

abbrev pub delegated : App → User → ResolvedScopes → (amr : String) → DelegatedGrant
delegated app user r amr = record {
  app = app;
  user = user;
  scopes = r.granted;
  resource = r.resource;
  scope_echo = r.requested;
  nonce = "";
  amr = amr;
  auth_time = 0;
  auth_code = "";
  max_age_requested = false;
  tenant_id = "";
  skip_refresh_token = false;
}

abbrev pub accepted_audiences : App → List String
accepted_audiences app =
    if not (app.app_id_uri == "") then app.id ∷ app.app_id_uri ∷ [] else app.id ∷ []

abbrev invalid_scope : OauthError
invalid_scope = oauth_error "invalid_scope" "AADSTS70011: A requested scope is not registered."

module _ (c : Crypto) (cfg : Config) (mint : Minter) (policy : String → Policy) (now : ℕ)
    (plain : String) (app : App) where
  abbrev pub mint_resolved :
      (amr : String)
      → User
      → Option ResolvedScopes
      → Store
      → Result OauthError TokenResponse × Store
  mint_resolved amr user none s = (err invalid_scope, s)
  mint_resolved amr user (some r) s =
      minted (build_delegated_response c cfg mint policy now plain (delegated app user r amr) s)

  abbrev pub on_behalf_of_user :
      (scope : String) → Result StoreError User → Store → Result OauthError TokenResponse × Store
  on_behalf_of_user scope (err _) s =
      (err (oauth_error "invalid_grant" "AADSTS50057: The user is disabled or deleted."), s)
  on_behalf_of_user scope (ok user) s =
      if not user.account_enabled
      then (err (oauth_error "invalid_grant" "AADSTS50057: The user is disabled or deleted."), s)
      else mint_resolved "" user (resolve_delegated_scopes cfg s (fields scope)) s

  abbrev pub on_behalf_of :
      (scope : String) → Option ValidatedToken → Store → Result OauthError TokenResponse × Store
  on_behalf_of scope none s = (
    err (
        oauth_error "invalid_grant"
          "AADSTS500131: The assertion is invalid or not addressed to this application"),
    s,
  )
  on_behalf_of scope (some v) s =
      if v.oid == ""
      then (
        err (
            oauth_error "invalid_grant"
              "AADSTS500131: On-Behalf-Of requires a delegated (user) assertion."),
        s,
      )
      else on_behalf_of_user scope (get_user s v.oid) s

  -- Behind authenticateClient, which found `app`; the description of an invalid assertion lacks the
  -- text of its error. `verified` are the claims of the assertion behind
  -- its signature.
  unfoldable pub grant_on_behalf_of :
      (requested_token_use assertion scope : String)
      → (verified : Option Claims) → Store
      → Result OauthError TokenResponse × Store
  grant_on_behalf_of requested_token_use assertion scope verified s =
      if not app.is_confidential
      then (
        err (
            oauth_error "invalid_client"
              "AADSTS700025: On-Behalf-Of requires a confidential client."),
        s,
      )
      else if not (requested_token_use == "on_behalf_of")
      then (
        err (
            oauth_error "invalid_request"
              "AADSTS90014: requested_token_use must be 'on_behalf_of'."),
        s,
      )
      else if assertion == ""
      then (err (oauth_error "invalid_request" "AADSTS900144: assertion is required."), s)
      else on_behalf_of scope (validate_access_token cfg now verified (accepted_audiences app)) s

  abbrev signed_in_by_password :
      ResolvedScopes → Result StoreError User → Store → Result OauthError TokenResponse × Store
  signed_in_by_password r (err _) s = (
    err (
        oauth_error "invalid_grant"
          "AADSTS50126: Error validating credentials due to invalid username or password."),
    s,
  )
  signed_in_by_password r (ok user) s = mint_resolved "pwd" user (some r) s

  -- Behind authenticateClient; a scope of white space only is empty.
  unfoldable pub grant_resource_owner_password :
      (username password scope : String) → Store → Result OauthError TokenResponse × Store
  grant_resource_owner_password username password scope s =
      if username == "" || password == ""
      then (
        err (oauth_error "invalid_request" "AADSTS900144: username and password are required."),
        s,
      )
      else elim (fields scope) [
        | [] ↦ (err (oauth_error "invalid_scope" "AADSTS70011: scope is required."), s)
        | sc ∷ scs ↦ elim (resolve_delegated_scopes cfg s (sc ∷ scs)) [
          | none ↦ (err invalid_scope, s)
          | some r ↦ signed_in_by_password r (verify_password c.verify_secret s username password) s
        ]
      ]
