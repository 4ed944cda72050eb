-- ===== src/Tokens/Rotation.antt =====
-- internal/tokens/service.go: issuing refresh tokens, and rotation with revocation on reuse.
pub mod Outcome
pub mod Issued
use Prim.Native.String
use entra_emulator.Prelude.{
  ℕ, ◌+◌, String, Bool, true, false, not, Option, none, some, List, [], ◌∷◌, ◌==◌, leb,
  if◌then◌else◌, contains,
}
use entra_emulator.Text.{fields, join}
use entra_emulator.Store.Types.{RefreshToken, Store, StoreError, not_found, Result, ok, err}
use entra_emulator.Store.Refresh.{
  get_refresh_token_by_hash, insert_refresh_token, rotate_refresh_token,
}
use entra_emulator.Store.Family.{revoke_refresh_token_family}
use entra_emulator.Tokens.Types.{
  Config, Crypto, RedeemError, redeem_err, store_err, invalid_grant, Exec, ◌>>=◌,
}

pub record RefreshRequest : Type 0 where
  pub app_id : String
  pub user_id : String
  pub scopes : List String
  pub resource : String
  pub rotated_from : String
  pub amr : String
  pub auth_time : ℕ
  pub auth_code : String

abbrev pub new_token :
    Crypto → (refresh_sec now : ℕ) (plain : String) → RefreshRequest → RefreshToken
new_token c refresh_sec now plain r = record {
  token_hash = c.hash_token plain;
  app_id = r.app_id;
  user_id = r.user_id;
  scopes = join r.scopes;
  resource = r.resource;
  amr = r.amr;
  auth_time = r.auth_time;
  auth_code = r.auth_code;
  expires_at = now + refresh_sec;
  rotated_from = r.rotated_from;
  revoked = false;
  created_at = now;
}

-- `plain` is what NewOpaqueToken(32) returned, and `refresh_sec` what lifetimesFor did.
unfoldable pub issue_refresh_token :
    Crypto → (refresh_sec now : ℕ) (plain : String) → RefreshRequest → Exec StoreError String
issue_refresh_token c refresh_sec now plain r =
    insert_refresh_token (new_token c refresh_sec now plain r) >>= λ _ s. (ok plain, s)

pub record RedeemedRefresh : Type 0 where
  pub user_id : String
  pub resource : String
  pub scopes : List String
  -- "" where no successor is handed out
  pub new_refresh_token : String
  pub amr : String
  pub auth_time : ℕ

-- The loop over requestedScopes: the first one that the grant lacks.
unfoldable pub first_missing : List String → List String → Option String
first_missing granted [] = none
first_missing granted (sc ∷ scs) =
    if contains granted sc then first_missing granted scs else some sc

abbrev reused : RedeemError
reused = invalid_grant "AADSTS70008: The refresh token was already rotated (reuse detected)."

abbrev revoke_reused : String → Store → Result RedeemError RedeemedRefresh × Store
revoke_reused hash s = (err reused, revoke_refresh_token_family hash s)

abbrev pub successor_of :
    Crypto → Config → (now : ℕ) (app_id plain : String) → RefreshToken → RefreshToken
successor_of c cfg now app_id plain row = record row {
  token_hash = c.hash_token plain;
  app_id = app_id;
  expires_at = now + cfg.lifetimes.refresh_token;
  rotated_from = "";
  revoked = false;
  created_at = now;
}

-- What is handed out after a rotation that won.
abbrev pub hand_out : RefreshToken → List String → String → RedeemedRefresh
hand_out row scopes plain = record {
  user_id = row.user_id;
  resource = row.resource;
  scopes = scopes;
  new_refresh_token = if contains scopes "offline_access" then plain else "";
  amr = row.amr;
  auth_time = row.auth_time;
}

abbrev finish_rotation :
    String
    → RedeemedRefresh
    → Result StoreError Bool × Store
    → Result RedeemError RedeemedRefresh × Store
finish_rotation hash out (ok true, s) = (ok out, s)
finish_rotation hash out (ok false, s) = revoke_reused hash s
finish_rotation hash out (err e, s) = (err (store_err e), s)

abbrev pub narrow : List String → List String → List String
narrow granted [] = granted
narrow granted (sc ∷ scs) = sc ∷ scs

abbrev rotate_row :
    Crypto
    → Config
    → (now : ℕ) (hash app_id successor : String) (requested : List String) → RefreshToken
    → Exec RedeemError RedeemedRefresh
rotate_row c cfg now hash app_id successor requested row s =
    finish_rotation hash (hand_out row (narrow (fields row.scopes) requested) successor)
      (rotate_refresh_token hash (successor_of c cfg now app_id successor row) s)

unfoldable pub redeem_refresh_row :
    Crypto
    → Config
    → (now : ℕ) (hash app_id successor : String) (requested : List String) → RefreshToken
    → Exec RedeemError RedeemedRefresh
unfolding first_missing
redeem_refresh_row c cfg now hash app_id successor requested row s =
    if row.revoked
    then revoke_reused hash s
    else if not (row.app_id == app_id)
    then (err (invalid_grant "AADSTS70008: The refresh token is bound to a different client."), s)
    else if leb row.expires_at now
    then (err (invalid_grant "AADSTS70008: The refresh token has expired."), s)
    else elim (first_missing (fields row.scopes) requested) [
      | some sc ↦ (
        err (
            redeem_err "invalid_scope" (
              String.◌++◌ "AADSTS70011: Requested scope is not a subset of the original grant: "
                sc)),
        s,
      )
      | none ↦ rotate_row c cfg now hash app_id successor requested row s
    ]

-- `successor` is what NewOpaqueToken(32) returned.
unfoldable pub redeem_refresh_token :
    Crypto
    → Config
    → (now : ℕ) (plaintext app_id successor : String) (requested : List String)
    → Exec RedeemError RedeemedRefresh
redeem_refresh_token c cfg now plaintext app_id successor requested s =
    elim (get_refresh_token_by_hash s (c.hash_token plaintext)) [
      | ok row ↦
          redeem_refresh_row c cfg now (c.hash_token plaintext) app_id successor requested row s
      | err not_found ↦ (err (invalid_grant "AADSTS70008: The refresh token is invalid."), s)
      | err e ↦ (err (store_err e), s)
    ]
