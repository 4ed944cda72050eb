-- ===== src/Identity/Clients.antt =====
-- internal/identity/token.go: the authentication of a client.
pub mod Secrets
use entra_emulator.Prelude.{
  ℕ, String, not, ◌&&◌, Option, none, some, List, [], ◌∷◌, ◌++◌, ◌==◌, if◌then◌else◌,
}
use Prim.Native.String
use entra_emulator.Store.Types.{App, Store, Result, ok, err}
use entra_emulator.Store.Directory.{get_app, verify_app_secret}
use entra_emulator.Tokens.Types.{Crypto}
use entra_emulator.Identity.Errors.{OauthError, oauth_error}

-- What a request presents: the form, the Basic header with its parts unescaped, and the subject
-- of the assertion ("" where it does not decode).
pub record ClientRequest : Type 0 where
  pub client_id : String
  pub client_secret : String
  pub basic : Option (String × String)
  pub assertion : String
  pub assertion_type : String
  pub assertion_sub : String

-- Texts joined by +.
abbrev text : List String → String
text [] = ""
text (a ∷ rest) = String.◌++◌ a (text rest)

abbrev basic_id : Option (String × String) → String → String
basic_id none id = id
basic_id (some (user, pass)) id = if id == "" then user else id

abbrev basic_secret : Option (String × String) → (id secret : String) → String
basic_secret none id secret = secret
basic_secret (some (user, pass)) id secret = if id == user && not (pass == "") then pass else secret

unfoldable pub client_id_of : ClientRequest → String
client_id_of r =
    let id = basic_id r.basic r.client_id in
    if not (r.assertion == "") && id == "" then r.assertion_sub else id

unfoldable pub client_secret_of : ClientRequest → String
client_secret_of r = basic_secret r.basic (basic_id r.basic r.client_id) r.client_secret

unfoldable pub check_secret : Crypto → Store → (now : ℕ) → App → String → Result OauthError App
check_secret c s now app secret =
    if app.is_confidential
    then if secret == ""
      then err (
          oauth_error "invalid_client"
            "AADSTS7000215: A client secret is required for confidential clients.")
      else if not (verify_app_secret c.verify_secret s now app.id secret)
      then err (
          oauth_error "invalid_client" (
            text (
              "AADSTS7000215: Invalid client secret provided. Ensure the secret being sent in the request is the client secret value, not the client secret ID, for a secret added to app '"
              ∷ app.id ∷ "'." ∷ [])))
      else ok app
    else if not (secret == "")
    then err
        (oauth_error "invalid_client" "AADSTS700025: Public clients must not send a client secret.")
    else ok app

abbrev asserted : App → Option OauthError → Result OauthError App
asserted app none = ok app
asserted app (some e) = err e

abbrev check_client :
    Crypto
    → Store
    → (now : ℕ) → (check_assertion : App → Option OauthError) → ClientRequest
    → App
    → Result OauthError App
check_client c s now check_assertion r app =
    if not (r.assertion == "")
    then if not (r.assertion_type == "urn:ietf:params:oauth:client-assertion-type:jwt-bearer")
      then err (oauth_error "invalid_request" "AADSTS900144: unsupported client_assertion_type.")
      else asserted app (check_assertion app)
    else check_secret c s now app (client_secret_of r)

-- `check_assertion` is what isFederatedAssertion, verifyFederatedAssertion and
-- verifyClientAssertion find wrong with the assertion.
unfoldable pub authenticate_client :
    Crypto
    → Store
    → (now : ℕ) → (check_assertion : App → Option OauthError) → ClientRequest
    → Result OauthError App
authenticate_client c s now check_assertion r =
    if client_id_of r == ""
    then err (oauth_error "invalid_request" "AADSTS900144: client_id is required.")
    else elim (get_app s (client_id_of r)) [
      | err _ ↦ err (
          oauth_error "unauthorized_client" (
            text
              ("AADSTS700038: " ∷ client_id_of r ∷ " is not a valid application identifier." ∷ [])))
      | ok app ↦ check_client c s now check_assertion r app
    ]
