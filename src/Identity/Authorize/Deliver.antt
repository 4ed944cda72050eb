-- ===== src/Identity/Authorize/Deliver.antt =====
-- internal/identity/authorize.go: issueCodeAndDeliver.
use entra_emulator.Tokens.Codes.{issue_auth_code, AuthCodeRequest}
use entra_emulator.Identity.Errors.{oauth_error}
use entra_emulator.Store.Types.{ok, err, StoreError, Result, Store}
use entra_emulator.Identity.Authorize.{
  deliver_authorize_error, fields, set_param, deliver_authorize_result, error_page, Answer, User,
  App, Params, AuthorizeState,
}
use entra_emulator.Identity.Scopes.{resolve_delegated_scopes, ResolvedScopes}
use entra_emulator.Identity.Authorize.Checks.{issues_code}
use entra_emulator.Tokens.Minting.{DelegatedGrant}
use entra_emulator.Tokens.Types.{Config}
use entra_emulator.Prelude.{
  ℕ, code, String, Bool, false, ◌||◌, Option, none, some, [], ◌∷◌, ◌==◌, if◌then◌else◌,
}

abbrev pub code_request :
    AuthorizeState → App → User → ResolvedScopes → (amr : String) (auth_time : ℕ) → AuthCodeRequest
code_request st app user resolved amr auth_time = record {
  app_id = app.id;
  user_id = user.id;
  redirect_uri = st.redirect_uri;
  scopes = resolved.granted;
  resource = resolved.resource;
  code_challenge = st.challenge;
  challenge_method = st.method;
  nonce = st.nonce;
  amr = amr;
  auth_time = auth_time;
  max_age_requested = st.has_max_age;
}

abbrev pub id_token_grant :
    AuthorizeState → App → User → ResolvedScopes → (amr : String) (auth_time : ℕ) → DelegatedGrant
id_token_grant st app user resolved amr auth_time = record {
  app = app;
  user = user;
  scopes = resolved.granted;
  resource = resolved.resource;
  scope_echo = [];
  nonce = st.nonce;
  amr = amr;
  auth_time = auth_time;
  auth_code = "";
  max_age_requested = st.has_max_age;
  tenant_id = "";
  skip_refresh_token = false;
}

abbrev pub code_params : AuthorizeState → (code : String) → Params
code_params st code = if issues_code st then ("code", code) ∷ [] else []

abbrev pub returns_id_token : AuthorizeState → Bool
returns_id_token st = st.response_type == "id_token" || st.response_type == "code id_token"

-- The configuration, MintIDToken (`none` is its error) and the clock.
module _ (cfg : Config) (mint : DelegatedGrant → (now : ℕ) → Option String) (now : ℕ) where
  abbrev pub with_id_token : AuthorizeState → Params → Option String → Answer
  with_id_token st params none = error_page 500 "Error" "Could not issue an ID token."
  with_id_token st params (some token) =
      deliver_authorize_result st (set_param "id_token" token params)

  abbrev pub issued_code :
      AuthorizeState
      → App
      → User
      → ResolvedScopes
      → (amr : String) (auth_time : ℕ) → Result StoreError String × Store
      → Answer × Store
  issued_code st app user resolved amr auth_time (err _, s) =
      (error_page 500 "Error" "Could not issue an authorization code.", s)
  issued_code st app user resolved amr auth_time (ok code, s) =
      if returns_id_token st
      then (
        with_id_token st (code_params st code)
            (mint (id_token_grant st app user resolved amr auth_time) now),
        s,
      )
      else (deliver_authorize_result st (code_params st code), s)

  -- `code` is what NewOpaqueToken(32) returned.
  unfoldable pub issue_code_and_deliver :
      AuthorizeState
      → App
      → User
      → (amr : String) (auth_time : ℕ) (code : String) → Store
      → Answer × Store
  issue_code_and_deliver st app user amr auth_time code s =
      elim (resolve_delegated_scopes cfg s (fields st.scope)) [
        | none ↦ (
          deliver_authorize_error st
              (oauth_error "invalid_scope" "A requested resource scope is not registered."),
          s,
        )
        | some resolved ↦
            issued_code st app user resolved amr auth_time
              (issue_auth_code cfg now code (code_request st app user resolved amr auth_time) s)
      ]
