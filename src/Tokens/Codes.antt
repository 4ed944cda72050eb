-- ===== src/Tokens/Codes.antt =====
-- internal/tokens/service.go: issuing and redeeming authorization codes.
pub mod Redemption
use entra_emulator.Prelude.{
  ℕ, ◌+◌, code, String, Bool, true, false, not, ◌&&◌, List, ◌==◌, leb, if◌then◌else◌,
}
use entra_emulator.Text.{join}
use entra_emulator.Store.Types.{AuthCode, Store, StoreError, not_found, Result, ok, err}
use entra_emulator.Store.Codes.{insert_auth_code, get_auth_code, consume_auth_code}
use entra_emulator.Store.Refresh.{revoke_refresh_tokens_for_auth_code}
use entra_emulator.Tokens.Types.{Config, Crypto, RedeemError, store_err, invalid_grant, Exec, ◌>>=◌}

pub record AuthCodeRequest : Type 0 where
  pub app_id : String
  pub user_id : String
  pub redirect_uri : String
  pub scopes : List String
  pub resource : String
  pub code_challenge : String
  pub challenge_method : String
  pub nonce : String
  pub amr : String
  pub auth_time : ℕ
  pub max_age_requested : Bool

abbrev pub new_row : Config → (now : ℕ) (code : String) → AuthCodeRequest → AuthCode
new_row cfg now code r = record {
  code = code;
  app_id = r.app_id;
  user_id = r.user_id;
  redirect_uri = r.redirect_uri;
  scopes = join r.scopes;
  resource = r.resource;
  code_challenge = r.code_challenge;
  code_challenge_method = r.challenge_method;
  nonce = r.nonce;
  amr = r.amr;
  auth_time = r.auth_time;
  max_age_requested = r.max_age_requested;
  expires_at = now + cfg.lifetimes.auth_code;
  consumed = false;
  created_at = now;
}

-- `code` is what NewOpaqueToken(32) returned.
unfoldable pub issue_auth_code :
    Config → (now : ℕ) (code : String) → AuthCodeRequest → Exec StoreError String
issue_auth_code cfg now code r = insert_auth_code (new_row cfg now code r) >>= λ _ s. (ok code, s)

unfoldable pub verify_pkce : Crypto → (challenge method verifier : String) → Bool
verify_pkce c challenge method verifier =
    if method == "plain" then challenge == verifier else c.s256 verifier == challenge

abbrev consume_row : AuthCode → Bool × Store → Result RedeemError AuthCode × Store
consume_row row (true, s) = (ok row, s)
consume_row row (false, s) =
    (err (invalid_grant "AADSTS54005: The authorization code was already redeemed."), s)

-- The code is consumed already: what it produced is revoked.
abbrev replay : String → Store → Result RedeemError AuthCode × Store
replay code s = (
  err (invalid_grant "AADSTS54005: The authorization code was already redeemed."),
  (revoke_refresh_tokens_for_auth_code code s).1,
)

unfoldable pub redeem_row :
    Crypto
    → (now : ℕ) (code app_id redirect_uri verifier : String) → AuthCode
    → Exec RedeemError AuthCode
unfolding verify_pkce
redeem_row c now code app_id redirect_uri verifier row s =
    if row.consumed
    then replay code s
    else if leb row.expires_at now
    then (err (invalid_grant "AADSTS70008: The provided authorization code has expired."), s)
    else if not (row.app_id == app_id)
    then (err (invalid_grant "AADSTS70008: The code was issued to a different client."), s)
    else if not (row.redirect_uri == redirect_uri)
    then (
      err (invalid_grant "AADSTS50011: The redirect URI does not match the authorization request."),
      s,
    )
    else if not (row.code_challenge == "") && verifier == ""
    then (err (invalid_grant "AADSTS501481: code_verifier is required."), s)
    else if not (row.code_challenge == "")
        && not (verify_pkce c row.code_challenge row.code_challenge_method verifier)
    then (
      err (invalid_grant "AADSTS501481: The code_verifier does not match the code_challenge."),
      s,
    )
    else consume_row row (consume_auth_code code s)

unfoldable pub redeem_auth_code :
    Crypto → (now : ℕ) (code app_id redirect_uri verifier : String) → Exec RedeemError AuthCode
redeem_auth_code c now code app_id redirect_uri verifier s = elim (get_auth_code s code) [
  | ok row ↦ redeem_row c now code app_id redirect_uri verifier row s
  | err not_found ↦
      (err (invalid_grant "AADSTS70008: The provided authorization code is invalid."), s)
  | err e ↦ (err (store_err e), s)
]
