-- ===== src/Identity/Authorize/Checks.antt =====
-- internal/identity/authorize.go: the checks of handleAuthorize between the redirect URI and the
-- session. A refusal is delivered with the state as it stands then.
pub mod Steps
pub mod FrontType
pub mod Method
pub mod Valid
use entra_emulator.Text.Integers.{negsuc, pos, parse_int, ℤ}
use entra_emulator.Identity.Scopes.{resolve_delegated_scopes}
use entra_emulator.Identity.Authorize.{fields, OauthError, AuthorizeState}
use entra_emulator.Identity.Errors.{oauth_error}
use entra_emulator.Store.Types.{Store, err, ok, App, Result}
use entra_emulator.Tokens.Types.{Config}
use entra_emulator.Prelude.{
  code, String, Bool, true, not, ◌&&◌, ◌||◌, Option, none, some, ◌==◌, if◌then◌else◌, contains,
}

abbrev pub Checked : Type 0
Checked = Result (AuthorizeState × OauthError) AuthorizeState

abbrev refuse : AuthorizeState → (error description : String) → Checked
refuse st e d = err (st, oauth_error e d)

abbrev pub and_then : Checked → (AuthorizeState → Checked) → Checked
and_then (ok st) f = f st
and_then (err e) f = err e

unfoldable pub check_inline : (inline_request : Bool) → AuthorizeState → Checked
check_inline inline st =
    if inline
    then refuse st "request_not_supported"
        "The request parameter is not supported; use request_uri."
    else ok st

abbrev pub with_default_mode : AuthorizeState → AuthorizeState
with_default_mode st = record st {
  response_mode = if st.response_mode == "" then "fragment" else st.response_mode;
}

-- The nonce and the response mode where an id_token comes back through the front channel.
abbrev pub check_front : AuthorizeState → Checked
check_front st =
    if st.nonce == ""
    then refuse st "invalid_request" "nonce is required when response_type includes id_token."
    else if (with_default_mode st).response_mode == "query"
    then refuse (with_default_mode st) "invalid_request"
        "response_mode=query cannot deliver an id_token; use fragment or form_post."
    else ok (with_default_mode st)

unfoldable pub check_response_type : AuthorizeState → Checked
check_response_type st =
    if not (
      st.response_type == "code"
      || (st.response_type == "id_token" || st.response_type == "code id_token"))
    then refuse st "unsupported_response_type"
        "Supported response_type values are code, id_token, and code id_token."
    else if st.response_type == "code"
    then ok st
    else check_front st

unfoldable pub check_scopes : Config → Store → AuthorizeState → Checked
check_scopes cfg s st =
    if not (contains (fields st.scope) "openid")
    then refuse st "invalid_scope" "The openid scope is required."
    else elim (resolve_delegated_scopes cfg s (fields st.scope)) [
      | none ↦ refuse st "invalid_scope" "A requested resource scope is not registered."
      | some _ ↦ ok st
    ]

abbrev pub issues_code : AuthorizeState → Bool
issues_code st = st.response_type == "code" || st.response_type == "code id_token"

unfoldable pub check_challenge : App → AuthorizeState → Checked
check_challenge app st =
    if issues_code st && (not app.is_confidential && st.challenge == "")
    then refuse st "invalid_request" "Public clients must send a PKCE code_challenge."
    else ok st

abbrev pub bounded_age : AuthorizeState → Option ℤ → Checked
bounded_age st (some (pos n)) = ok (record st { max_age = n; has_max_age = true })
bounded_age st (some (negsuc n)) =
    refuse st "invalid_request" "max_age must be a non-negative number of seconds."
bounded_age st none =
    refuse st "invalid_request" "max_age must be a non-negative number of seconds."

unfoldable pub check_max_age : (max_age_raw : String) → AuthorizeState → Checked
check_max_age raw st = if raw == "" then ok st else bounded_age st (parse_int raw)

abbrev pub with_default_method : AuthorizeState → AuthorizeState
with_default_method st = record st {
  method = if not (st.challenge == "") && st.method == "" then "plain" else st.method;
}

unfoldable pub check_method : AuthorizeState → Checked
check_method st =
    let next = with_default_method st in
    if not (next.method == "") && (not (next.method == "S256") && not (next.method == "plain"))
    then refuse next "invalid_request" "code_challenge_method must be S256 or plain."
    else ok next

unfoldable pub check_request :
    Config → Store → App → (inline_request : Bool) (max_age_raw : String) → AuthorizeState → Checked
check_request cfg s app inline raw st =
    and_then
      (and_then
        (and_then
          (and_then (and_then (check_inline inline st) check_response_type) (check_scopes cfg s))
          (check_challenge app))
        (check_max_age raw))
      check_method
