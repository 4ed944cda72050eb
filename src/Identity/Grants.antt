-- ===== src/Identity/Grants.antt =====
-- internal/identity/token.go: the grants of an authorization code and of a refresh token.
pub mod Within
pub mod Exchange
use entra_emulator.Prelude.{
  ℕ, code, String, Bool, true, false, not, ◌||◌, Option, none, some, List, [], ◌∷◌, ◌==◌,
  if◌then◌else◌, contains,
}
use entra_emulator.Text.{fields}
use entra_emulator.Store.Types.{App, User, AuthCode, Store, StoreError, Result, ok, err}
use entra_emulator.Store.Directory.{get_user}
use entra_emulator.Tokens.Types.{Config, Crypto, RedeemError, redeem_err, store_err}
use entra_emulator.Tokens.Codes.{redeem_auth_code}
use entra_emulator.Tokens.Rotation.{RedeemedRefresh, redeem_refresh_token}
use entra_emulator.Tokens.Minting.{
  DelegatedGrant, TokenResponse, Minter, Policy, build_delegated_response,
}
use entra_emulator.Identity.Errors.{OauthError, oauth_error}
use entra_emulator.Identity.Scopes.{oidc_scopes, ResolvedScopes, resolve_delegated_scopes}

-- writeRedeemErr
abbrev pub redeem_error : RedeemError → OauthError
redeem_error (redeem_err code description) = oauth_error code description
redeem_error (store_err e) =
    oauth_error "invalid_request" "AADSTS90002: The request could not be processed."

abbrev enabled : Result StoreError User → Result OauthError User
enabled (err _) =
    err (oauth_error "invalid_grant" "AADSTS50057: The user account is disabled or deleted.")
enabled (ok user) =
    if not user.account_enabled
    then err (oauth_error "invalid_grant" "AADSTS50057: The user account is disabled or deleted.")
    else ok user

abbrev pub enabled_account : Store → String → Result OauthError User
enabled_account s id = enabled (get_user s id)

-- The loop over the resolved scopes of a code exchange.
unfoldable pub within_grant : (granted scopes : List String) → Bool
within_grant granted [] = true
within_grant granted (sc ∷ scs) =
    let rest = within_grant granted scs in
    if contains oidc_scopes sc then rest else if not (contains granted sc) then false else rest

-- What is granted, and what is echoed.
abbrev narrowed_code :
    (granted : List String) → Option ResolvedScopes → Result OauthError (List String × List String)
narrowed_code granted none =
    err (oauth_error "invalid_scope" "AADSTS70011: A requested scope is not registered.")
narrowed_code granted (some r) =
    if not (within_grant granted r.granted)
    then err
        (oauth_error "invalid_scope" "AADSTS70011: Requested scope exceeds the authorized grant.")
    else ok (r.granted, r.requested)

unfoldable pub narrow_code :
    Config → Store → (granted raw : List String) → Result OauthError (List String × List String)
narrow_code cfg s granted [] = ok (granted, granted)
narrow_code cfg s granted (sc ∷ scs) =
    narrowed_code granted (resolve_delegated_scopes cfg s (sc ∷ scs))

abbrev pub minted :
    Result StoreError TokenResponse × Store → Result OauthError TokenResponse × Store
minted (ok resp, s) = (ok resp, s)
minted (err _, s) = (err (oauth_error "invalid_request" "AADSTS90002: Token minting failed."), s)

abbrev pub code_grant :
    App → User → AuthCode → (code : String) → (scopes echo : List String) → DelegatedGrant
code_grant app user row code scopes echo = record {
  app = app;
  user = user;
  scopes = scopes;
  resource = row.resource;
  scope_echo = echo;
  nonce = row.nonce;
  amr = row.amr;
  auth_time = row.auth_time;
  auth_code = code;
  max_age_requested = row.max_age_requested;
  tenant_id = "";
  skip_refresh_token = false;
}

module _ (c : Crypto) (cfg : Config) (mint : Minter) (policy : String → Policy) (now : ℕ) where
  -- `plain` is what NewOpaqueToken(32) returned.
  abbrev pub exchange_row :
      (plain code : String)
      → App
      → (raw : List String) → AuthCode
      → Store
      → Result OauthError TokenResponse × Store
  exchange_row plain code app raw row s = elim (enabled_account s row.user_id) [
    | err e ↦ (err e, s)
    | ok user ↦ elim (narrow_code cfg s (fields row.scopes) raw) [
      | err e ↦ (err e, s)
      | ok (scopes, echo) ↦ minted (
          build_delegated_response c cfg mint policy now plain
            (code_grant app user row code scopes echo) s)
    ]
  ]

  abbrev pub exchanged :
      (plain code : String)
      → App
      → (raw : List String) → Result RedeemError AuthCode × Store
      → Result OauthError TokenResponse × Store
  exchanged plain code app raw (err e, s) = (err (redeem_error e), s)
  exchanged plain code app raw (ok row, s) = exchange_row plain code app raw row s

  -- Behind authenticateClient, which found `app`.
  unfoldable pub grant_authorization_code :
      (plain : String)
      → App
      → (code redirect_uri verifier scope : String) → Store
      → Result OauthError TokenResponse × Store
  grant_authorization_code plain app code redirect_uri verifier scope s =
      if code == "" || redirect_uri == ""
      then (
        err (oauth_error "invalid_request" "AADSTS900144: code and redirect_uri are required."),
        s,
      )
      else exchanged plain code app (fields scope)
          (redeem_auth_code c now code app.id redirect_uri verifier s)

  abbrev pub refresh_grant : App → User → RedeemedRefresh → (echo : List String) → DelegatedGrant
  refresh_grant app user r echo = record {
    app = app;
    user = user;
    scopes = r.scopes;
    resource = r.resource;
    scope_echo = echo;
    nonce = "";
    amr = r.amr;
    auth_time = r.auth_time;
    auth_code = "";
    max_age_requested = false;
    tenant_id = "";
    skip_refresh_token = true;
  }

  -- The rotation's successor is what the response carries.
  abbrev with_refresh :
      String → Result OauthError TokenResponse × Store → Result OauthError TokenResponse × Store
  with_refresh rt (ok resp, s) = (ok (record resp { refresh_token = rt }), s)
  with_refresh rt (err e, s) = (err e, s)

  abbrev pub refreshed :
      App
      → (echo : List String) → Result RedeemError RedeemedRefresh × Store
      → Result OauthError TokenResponse × Store
  refreshed app echo (err e, s) = (err (redeem_error e), s)
  refreshed app echo (ok r, s) = elim (enabled_account s r.user_id) [
    | err e ↦ (err e, s)
    | ok user ↦ with_refresh r.new_refresh_token (
        minted
          (build_delegated_response c cfg mint policy now "" (refresh_grant app user r echo) s))
  ]

  -- What the request narrows to, and its own texts: both empty without a scope parameter.
  unfoldable pub narrow_refresh :
      Store → (raw : List String) → Result OauthError (List String × List String)
  narrow_refresh s [] = ok ([], [])
  narrow_refresh s (sc ∷ scs) = elim (resolve_delegated_scopes cfg s (sc ∷ scs)) [
    | none ↦ err (oauth_error "invalid_scope" "AADSTS70011: A requested scope is not registered.")
    | some r ↦ ok (r.granted, r.requested)
  ]

  -- Behind authenticateClient, which found `app`; `successor` is what NewOpaqueToken(32) returned.
  unfoldable pub grant_refresh_token :
      (successor : String)
      → App
      → (rt scope : String) → Store
      → Result OauthError TokenResponse × Store
  grant_refresh_token successor app rt scope s =
      if rt == ""
      then (err (oauth_error "invalid_request" "AADSTS900144: refresh_token is required."), s)
      else elim (narrow_refresh s (fields scope)) [
        | err e ↦ (err e, s)
        | ok (narrowed, echo) ↦
            refreshed app echo (redeem_refresh_token c cfg now rt app.id successor narrowed s)
      ]
