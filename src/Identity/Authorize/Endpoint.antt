-- ===== src/Identity/Authorize/Endpoint.antt =====
-- internal/identity/authorize.go and requestobject.go: handleAuthorize.
use entra_emulator.Identity.Errors.{oauth_error}
use entra_emulator.Identity.Authorize.Checks.{check_request, Checked}
use entra_emulator.Store.Directory.{has_redirect_uri, get_app}
use entra_emulator.Store.Logout.{record_session_app}
use entra_emulator.Identity.Authorize.Deliver.{issue_code_and_deliver}
use entra_emulator.Identity.Authorize.Forms.{
  handle_sign_in_submit, handle_consent_decision, render_sign_in,
}
use entra_emulator.Store.Types.{ok, err, Result, Store, auth_time, Session}
use entra_emulator.Identity.Authorize.{
  consent_page, deliver_authorize_error, invalid_request_page, Answer, App, User,
  normalize_response_type, AuthorizeState,
}
use entra_emulator.Identity.Sessions.{current_session, tenant_segment}
use entra_emulator.Identity.Approval.{SignInForm}
use entra_emulator.Tokens.Minting.{DelegatedGrant}
use entra_emulator.Tokens.Types.{Config, Crypto}
use entra_emulator.Prelude.{
  ℕ, ◌-◌, code, String, Bool, true, false, not, ◌&&◌, ◌||◌, Option, none, some, List, [], ◌∷◌, ◌==◌,
  ltb, if◌then◌else◌, contains,
}

-- A claim of a request object: a text, a number as FormatInt prints it, or another value.
pub data Claim : Type 0 where
  text number : (value : String) → Claim
  absent : Claim

-- The tenant of the path, the form and the query, and the session's cookie. `form` holds the posted
-- values, and is read where the method is POST.
pub record AuthorizeRequest : Type 0 where
  pub tenant : String
  pub is_post : Bool
  pub form : String → String
  pub query : String → String
  pub cookie : String

-- The fields that identity.go names.
abbrev pub field_state : String
field_state = "__ee_state"

abbrev pub field_user : String
field_user = "__ee_user"

abbrev pub field_username : String
field_username = "__ee_username"

abbrev pub field_password : String
field_password = "__ee_password"

abbrev pub field_consent : String
field_consent = "__ee_consent"

abbrev pub field_decision : String
field_decision = "__ee_decision"

abbrev overlaid_keys : List String
overlaid_keys =
    "response_type" ∷ "response_mode" ∷ "redirect_uri" ∷ "scope" ∷ "state" ∷ "nonce" ∷ "prompt"
    ∷ "login_hint" ∷ "code_challenge" ∷ "code_challenge_method" ∷ []

abbrev overlay_text : Claim → String → String
overlay_text (text v) old = if v == "" then old else v
overlay_text (number v) old = old
overlay_text absent old = old

abbrev overlay_max_age : Claim → String → String
overlay_max_age (text v) old = if v == "" then old else v
overlay_max_age (number v) old = v
overlay_max_age absent old = old

-- The query behind the overlay.
unfoldable pub apply_request_object : (String → String) → (String → Claim) → String → String
apply_request_object query claims k =
    if k == "max_age"
    then overlay_max_age (claims k) (query k)
    else if contains overlaid_keys k
    then overlay_text (claims k) (query k)
    else query k

unfoldable pub authorize_state : (tenant : String) → (param : String → String) → AuthorizeState
authorize_state tenant param = record {
  kind = "authorize";
  tenant = tenant;
  client_id = param "client_id";
  redirect_uri = param "redirect_uri";
  scope = param "scope";
  state = param "state";
  nonce = param "nonce";
  challenge = param "code_challenge";
  method = param "code_challenge_method";
  response_mode = param "response_mode";
  response_type = normalize_response_type (param "response_type");
  max_age = 0;
  has_max_age = false;
}

-- The session that max_age leaves: the clock's difference stops at 0, which is over no limit.
abbrev pub fresh_session :
    (now : ℕ) → AuthorizeState → Option (Session × User) → Option (Session × User)
fresh_session now st none = none
fresh_session now st (some (sess, user)) =
    if st.has_max_age && ltb st.max_age (now - auth_time sess) then none else some (sess, user)

-- The user behind the prompt; `none` is the sign-in page.
abbrev pub prompted_session : (prompt : String) → Option (Session × User) → Option (Session × User)
prompted_session prompt session =
    if prompt == "login" || prompt == "select_account" then none else session

abbrev pub no_session : Option (Session × User) → Bool
no_session none = true
no_session (some _) = false

module _ (c : Crypto) (cfg : Config) (mint : DelegatedGrant → (now : ℕ) → Option String) (now : ℕ)
    (fetch : Store → (client_id request_uri : String) → Result String (String → Claim)) where
  abbrev pub continue_session :
      AuthorizeState
      → App
      → (prompt hint code : String) → Option (Session × User)
      → Store
      → Answer × Store
  continue_session st app prompt hint code none s = (render_sign_in cfg s st hint "", s)
  continue_session st app prompt hint code (some (sess, user)) s =
      if cfg.require_consent && not (prompt == "none")
      then (consent_page st app, s)
      else issue_code_and_deliver cfg mint now st app user sess.auth_method (auth_time sess) code
          (record_session_app sess.id app.id s)

  -- Session and prompt, behind the checks.
  unfoldable pub resolve_session :
      AuthorizeState → App → (cookie prompt hint code : String) → Store → Answer × Store
  resolve_session st app cookie prompt hint code s =
      let session = fresh_session now st (current_session s now cookie) in
      if prompt == "none" && no_session session
      then (
        deliver_authorize_error st
            (oauth_error "login_required" "No active session and prompt=none."),
        s,
      )
      else continue_session st app prompt hint code (prompted_session prompt session) s

  abbrev pub behind_checks :
      App → (cookie prompt hint code : String) → Checked → Store → Answer × Store
  behind_checks app cookie prompt hint code (err (st, e)) s = (deliver_authorize_error st e, s)
  behind_checks app cookie prompt hint code (ok st) s =
      resolve_session st app cookie prompt hint code s

  -- From the client and its redirect URI on; `param` reads a parameter of the request.
  unfoldable pub authorize_params :
      (tenant cookie : String) (inline_request : Bool) (param : String → String) (code : String)
      → Store
      → Answer × Store
  authorize_params tenant cookie inline param code s =
      let st = authorize_state tenant param in
      elim (get_app s (param "client_id")) [
        | err _ ↦ (invalid_request_page "Unknown client_id: the application is not registered.", s)
        | ok app ↦
            if not (has_redirect_uri s app.id (param "redirect_uri"))
            then (
              invalid_request_page "The redirect_uri is not registered for this application.",
              s,
            )
            else behind_checks app cookie (param "prompt") (param "login_hint") code
                (check_request cfg s app inline (param "max_age") st) s
      ]

  -- Behind the two forms.
  unfoldable pub authorize_request : AuthorizeRequest → (code : String) → Store → Answer × Store
  authorize_request r code s =
      let param : String → String = if r.is_post then r.form else r.query in
      let inline = not (param "request" == "") in
      if param "request_uri" == ""
      then authorize_params r.tenant r.cookie inline param code s
      else if param "client_id" == ""
      then (invalid_request_page "client_id is required alongside request_uri.", s)
      else elim (fetch s (param "client_id") (param "request_uri")) [
        | err message ↦ (invalid_request_page message, s)
        | ok claims ↦
            authorize_params r.tenant r.cookie inline (apply_request_object r.query claims) code s
      ]

  abbrev pub form_of : AuthorizeRequest → SignInForm
  form_of r = record {
    user = r.form field_user;
    username = r.form field_username;
    password = r.form field_password;
  }

  -- `verify` is verifyState; `sid` and `code` are what NewOpaqueToken returned.
  unfoldable pub handle_authorize :
      (verify : String → Option AuthorizeState)
      → AuthorizeRequest
      → (sid code : String) → Store
      → Answer × Store
  handle_authorize verify r sid code s =
      if not (tenant_segment cfg s r.tenant).1
      then (invalid_request_page "Unknown tenant.", s)
      else if r.is_post && not (r.form field_consent == "")
      then handle_consent_decision c cfg mint now r.cookie (r.form field_decision) code
          (verify (r.form field_state)) s
      else if r.is_post && not (r.form field_state == "")
      then handle_sign_in_submit c cfg mint now sid code (form_of r) (verify (r.form field_state)) s
      else authorize_request r code s
