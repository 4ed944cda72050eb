-- ===== src/Identity/Authorize/Forms.antt =====
-- internal/identity/authorize.go: the sign-in page, and what the two forms post back.
use entra_emulator.Store.Types.{
  not_found, StoreError, Result, auth_time, ok, err, Session, Store, User,
}
use entra_emulator.Store.Directory.{get_user, verify_password, get_app, list_users}
use entra_emulator.Identity.Sessions.{start_session, current_session, enabled_directory_accounts}
use entra_emulator.Identity.Approval.{SignInForm}
use entra_emulator.Store.Logout.{record_session_app}
use entra_emulator.Identity.Authorize.Deliver.{issue_code_and_deliver}
use entra_emulator.Identity.Errors.{oauth_error}
use entra_emulator.Identity.Authorize.{
  consent_page, account_picker, deliver_authorize_error, invalid_request_page, password_form,
  Answer, App, AuthorizeState,
}
use entra_emulator.Tokens.Minting.{DelegatedGrant}
use entra_emulator.Tokens.Types.{Config, Crypto}
use entra_emulator.Prelude.{
  ℕ, code, String, not, Option, none, some, List, [], ◌∷◌, ◌==◌, if◌then◌else◌,
}

-- The loop of the login hint: a matching account behind the first changes places with it.
unfoldable pub float_hint : (hint : String) → User → List User → User × List User
float_hint hint first [] = (first, [])
float_hint hint first (u ∷ us) =
    let (f, rest) = float_hint hint u us in
    let (g, kept) = float_hint hint first us in
    if u.user_principal_name == hint then (f, first ∷ rest) else (g, u ∷ kept)

abbrev floated : (hint : String) → List User → List User
floated hint [] = []
floated hint (u ∷ us) = let (first, rest) = float_hint hint u us in first ∷ rest

unfoldable pub picker_accounts : Store → (hint : String) → List User
unfolding float_hint
picker_accounts s hint =
    let enabled = enabled_directory_accounts (list_users s 100 0).0 in
    if hint == "" then enabled else floated hint enabled

unfoldable pub render_sign_in :
    Config → Store → AuthorizeState → (login_hint message : String) → Answer
render_sign_in cfg s st hint message =
    if cfg.require_password
    then password_form st hint message
    else account_picker st (picker_accounts s hint) message

-- The user that handleSignInSubmit reads from the form.
abbrev pub sign_in_user : Crypto → Config → Store → SignInForm → Result StoreError User
sign_in_user c cfg s form =
    if cfg.require_password
    then verify_password c.verify_secret s form.username form.password
    else elim (get_user s form.user) [
      | err e ↦ err e
      | ok u ↦ if not u.account_enabled then err not_found else ok u
    ]

-- The configuration, MintIDToken and the clock; `code` and `sid` are what NewOpaqueToken returned,
-- and `state` is what verifyState read from the hidden field.
module _ (c : Crypto) (cfg : Config) (mint : DelegatedGrant → (now : ℕ) → Option String)
    (now : ℕ) where
  abbrev pub consented :
      AuthorizeState
      → App
      → (decision code : String) → Option (Session × User)
      → Store
      → Answer × Store
  consented st app decision code none s = (invalid_request_page "No active sign-in session.", s)
  consented st app decision code (some (sess, user)) s =
      if not (decision == "approve")
      then (
        deliver_authorize_error st (oauth_error "access_denied" "The user declined consent."),
        s,
      )
      else issue_code_and_deliver cfg mint now st app user sess.auth_method (auth_time sess) code
          (record_session_app sess.id app.id s)

  unfoldable pub handle_consent_decision :
      (cookie decision code : String) → Option AuthorizeState → Store → Answer × Store
  handle_consent_decision cookie decision code none s =
      (invalid_request_page "The consent state is invalid or expired.", s)
  handle_consent_decision cookie decision code (some st) s =
      if not (st.kind == "authorize")
      then (invalid_request_page "The consent state is invalid or expired.", s)
      else elim (get_app s st.client_id) [
        | err _ ↦ (invalid_request_page "Unknown client.", s)
        | ok app ↦ consented st app decision code (current_session s now cookie) s
      ]

  -- The session that createSession made, if it could.
  abbrev pub signed_in :
      AuthorizeState → App → User → (code : String) → Option Session × Store → Answer × Store
  signed_in st app user code (none, s) =
      if cfg.require_consent
      then (consent_page st app, s)
      else issue_code_and_deliver cfg mint now st app user "pwd" 0 code s
  signed_in st app user code (some sess, s) =
      if cfg.require_consent
      then (consent_page st app, record_session_app sess.id app.id s)
      else issue_code_and_deliver cfg mint now st app user "pwd" (auth_time sess) code
          (record_session_app sess.id app.id s)

  -- The form again, with its message.
  abbrev pub sign_in_again : Store → AuthorizeState → SignInForm → Answer
  sign_in_again s st form =
      if cfg.require_password
      then render_sign_in cfg s st form.username "Incorrect email or password."
      else render_sign_in cfg s st "" "Select a valid account."

  unfoldable pub handle_sign_in_submit :
      (sid code : String) → SignInForm → Option AuthorizeState → Store → Answer × Store
  handle_sign_in_submit sid code form none s =
      (invalid_request_page "The sign-in state is invalid or expired.", s)
  handle_sign_in_submit sid code form (some st) s =
      if not (st.kind == "authorize")
      then (invalid_request_page "The sign-in state is invalid or expired.", s)
      else elim (get_app s st.client_id) [
        | err _ ↦ (invalid_request_page "Unknown client.", s)
        | ok app ↦ elim (sign_in_user c cfg s form) [
          | err _ ↦ (sign_in_again s st form, s)
          | ok user ↦ signed_in st app user code (start_session now sid user.id "pwd" s)
        ]
      ]
