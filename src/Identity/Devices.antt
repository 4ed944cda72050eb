-- ===== src/Identity/Devices.antt =====
-- internal/identity/devicecode.go: the device authorization grant (RFC 8628).
pub mod Table
pub mod History
pub mod Redeem
use entra_emulator.Prelude.{
  ℕ, ◌+◌, code, String, Bool, true, false, not, Option, none, some, List, [], ◌∷◌, ◌==◌, leb,
  if◌then◌else◌,
}
use entra_emulator.Text.{fields, join}
use entra_emulator.Store.Types.{App, User, DeviceCode, Store, StoreError, Result, ok, err}
use entra_emulator.Store.Directory.{get_user}
use entra_emulator.Store.Devices.{
  insert_device_code, get_device_code_by_hash, consume_approved_device_code, delete_device_code,
  user_code_exists,
}
use entra_emulator.Tokens.Types.{Config, Crypto}
use entra_emulator.Identity.Errors.{OauthError, oauth_error}
use entra_emulator.Identity.Scopes.{ResolvedScopes, resolve_delegated_scopes}

pub record DeviceAuthorization : Type 0 where
  pub device_code : String
  pub user_code : String
  pub expires_in : ℕ
  pub interval : ℕ

-- The first of the drawn codes that no row has; "" if all are taken.
unfoldable pub allocate_user_code : Store → List String → String
allocate_user_code s [] = ""
allocate_user_code s (candidate ∷ rest) =
    let later = allocate_user_code s rest in
    if not (user_code_exists s candidate) then candidate else later

abbrev pub device_row :
    Crypto → Config → (now : ℕ) (device_code user_code : String) → App → List String → DeviceCode
device_row c cfg now device_code user_code app scopes = record {
  device_code_hash = c.hash_token device_code;
  user_code = user_code;
  app_id = app.id;
  user_id = "";
  scopes = join scopes;
  status = "pending";
  interval = cfg.device_interval;
  expires_at = now + cfg.lifetimes.device_code;
  created_at = now;
}

abbrev announce :
    Config
    → (device_code user_code : String) → Result StoreError (Unit {0}) × Store
    → Result OauthError DeviceAuthorization × Store
announce cfg device_code user_code (err _, s) =
    (err (oauth_error "invalid_request" "AADSTS90002: Could not persist the device code."), s)
announce cfg device_code user_code (ok _, s) = (
  ok record {
    device_code = device_code;
    user_code = user_code;
    expires_in = cfg.lifetimes.device_code;
    interval = cfg.device_interval;
  },
  s,
)

abbrev persist_device_code :
    Crypto
    → Config
    → (now : ℕ) (device_code user_code : String) → App
    → List String
    → Store
    → Result OauthError DeviceAuthorization × Store
persist_device_code c cfg now device_code user_code app scopes s =
    if user_code == ""
    then (err (oauth_error "invalid_request" "AADSTS90002: Could not allocate a user code."), s)
    else announce cfg device_code user_code
        (insert_device_code (device_row c cfg now device_code user_code app scopes) s)

abbrev no_scopes : List String → Bool
no_scopes [] = true
no_scopes (sc ∷ scs) = false

-- handleDeviceAuthorization behind authenticateClient, which found `app`; `device_code` is what
-- NewOpaqueToken(32) returned, `candidates` what five calls of newUserCode did.
unfoldable pub device_authorization :
    Crypto
    → Config
    → (now : ℕ) (device_code : String) (candidates : List String) → App
    → (scopes : List String) → Store
    → Result OauthError DeviceAuthorization × Store
device_authorization c cfg now device_code candidates app scopes s =
    if no_scopes scopes
    then (err (oauth_error "invalid_scope" "AADSTS70011: scope is required."), s)
    else elim (resolve_delegated_scopes cfg s scopes) [
      | none ↦
          (err (oauth_error "invalid_scope" "AADSTS70011: A requested scope is not registered."), s)
      | some _ ↦
          persist_device_code c cfg now device_code (allocate_user_code s candidates) app scopes s
    ]

-- What is minted for a device whose request was approved.
pub record DeviceGrant : Type 0 where
  pub app : App
  pub user : User
  pub scopes : ResolvedScopes

abbrev pub unknown_device : OauthError
unknown_device =
    oauth_error "bad_verification_code"
      "AADSTS70019: The device code is unknown or already redeemed."

abbrev resolved_grant : App → User → Option ResolvedScopes → Result OauthError DeviceGrant
resolved_grant app user none =
    err (oauth_error "invalid_grant" "AADSTS70019: The granted scopes are no longer valid.")
resolved_grant app user (some scopes) = ok record { app = app; user = user; scopes = scopes }

abbrev approved_user :
    Config → Store → App → DeviceCode → Result StoreError User → Result OauthError DeviceGrant
approved_user cfg s app row (err _) =
    err (oauth_error "invalid_grant" "AADSTS50057: The approving user is disabled or deleted.")
approved_user cfg s app row (ok user) =
    if not user.account_enabled
    then err (oauth_error "invalid_grant" "AADSTS50057: The approving user is disabled or deleted.")
    else resolved_grant app user (resolve_delegated_scopes cfg s (fields row.scopes))

abbrev redeemed : Config → App → Option DeviceCode × Store → Result OauthError DeviceGrant × Store
redeemed cfg app (none, s) = (err unknown_device, s)
redeemed cfg app (some row, s) = (approved_user cfg s app row (get_user s row.user_id), s)

unfoldable pub poll_row :
    Config
    → (now : ℕ) (hash : String) → App
    → DeviceCode
    → Store
    → Result OauthError DeviceGrant × Store
poll_row cfg now hash app row s =
    if not (row.app_id == app.id)
    then (
      err (
          oauth_error "bad_verification_code"
            "AADSTS70019: The device code is bound to a different client."),
      s,
    )
    else if leb row.expires_at now
    then (
      err (oauth_error "expired_token" "AADSTS70020: The device code has expired."),
      delete_device_code hash s,
    )
    else if row.status == "denied"
    then (
      err (oauth_error "authorization_declined" "AADSTS70018: The user declined the request."),
      delete_device_code hash s,
    )
    else if row.status == "pending"
    then (
      err (
          oauth_error "authorization_pending"
            "AADSTS70016: The end user has not yet approved the request. Continue polling."),
      s,
    )
    else redeemed cfg app (consume_approved_device_code hash app.id now s)

-- grantDeviceCode behind authenticateClient, up to the minting of the tokens.
unfoldable pub grant_device_code :
    Crypto
    → Config
    → (now : ℕ) (plaintext : String) → App
    → Store
    → Result OauthError DeviceGrant × Store
grant_device_code c cfg now plaintext app s =
    if plaintext == ""
    then (err (oauth_error "invalid_request" "AADSTS900144: device_code is required."), s)
    else elim (get_device_code_by_hash s (c.hash_token plaintext)) [
      | err _ ↦ (err unknown_device, s)
      | ok row ↦ poll_row cfg now (c.hash_token plaintext) app row s
    ]
