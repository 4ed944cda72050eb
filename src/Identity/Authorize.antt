-- ===== src/Identity/Authorize.antt =====
-- internal/identity/authorize.go: what a request asks for, and what the endpoint answers.
pub mod Checks
pub mod Deliver
pub mod Forms
pub mod Endpoint
pub mod Carried
pub mod Redirects
pub mod Issued
pub mod Fresh
pub mod Granted
pub mod Silent
pub mod LoginError
pub mod NoSession
pub mod Exchange
pub mod FrontChannel
pub mod SignIn
use entra_emulator.Text.{fields, join}
use entra_emulator.Store.Types.{App, User}
use entra_emulator.Text.Order.{sort_by}
use entra_emulator.Identity.Errors.{OauthError}
use entra_emulator.Prelude.{ℕ, String, Bool, List, [], ◌∷◌, ◌++◌, ◌==◌, if◌then◌else◌, delete}

-- authorizeState: what signState signs into the hidden field of a page.
pub record AuthorizeState : Type 0 where
  pub kind : String
  pub tenant : String
  pub client_id : String
  pub redirect_uri : String
  pub scope : String
  pub state : String
  pub nonce : String
  pub challenge : String
  pub method : String
  pub response_mode : String
  pub response_type : String
  pub max_age : ℕ
  pub has_max_age : Bool

-- strings.Fields, a sort by bytes, and strings.Join
unfoldable pub normalize_response_type : String → String
normalize_response_type v = join (sort_by (λ (w : String). w) (fields v))

-- The response_mode of deliverAuthorizeResult; every other value is the default.
pub data ResponseMode : Type 0 where
  form_post fragment query : ResponseMode

unfoldable pub mode_of : String → ResponseMode
mode_of m = if m == "form_post" then form_post else if m == "fragment" then fragment else query

-- url.Values with one value for a name
abbrev pub Params : Type 0
Params = List (String × String)

unfoldable pub set_param : (name value : String) → Params → Params
unfolding delete
set_param name value ps = delete (λ (p : String × String). p.0 == name) ps ++ (name, value) ∷ []

-- What is sent to the client's redirect URI.
pub record Delivery : Type 0 where
  pub redirect_uri : String
  pub mode : ResponseMode
  pub params : Params

-- An error page, the sign-in page with its signed state (a password form, or a picker of accounts),
-- the consent page with its signed state, or a delivery to the client.
pub data Answer : Type 0 where
  error_page : (status : ℕ) (title message : String) → Answer
  password_form : AuthorizeState → (hint message : String) → Answer
  account_picker : AuthorizeState → List User → (message : String) → Answer
  consent_page : AuthorizeState → App → Answer
  delivered : Delivery → Answer

abbrev pub invalid_request_page : (message : String) → Answer
invalid_request_page message = error_page 400 "Invalid request" message

unfoldable pub deliver_authorize_result : AuthorizeState → Params → Answer
unfolding mode_of set_param
deliver_authorize_result st params = delivered record {
  redirect_uri = st.redirect_uri;
  mode = mode_of st.response_mode;
  params = if st.state == "" then params else set_param "state" st.state params;
}

unfoldable pub deliver_authorize_error : AuthorizeState → OauthError → Answer
unfolding deliver_authorize_result
deliver_authorize_error st e =
    deliver_authorize_result st (("error", e.error) ∷ ("error_description", e.description) ∷ [])
