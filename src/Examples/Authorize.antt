-- ===== src/Examples/Authorize.antt =====
-- Requests for authorization, and a sign-in.
use entra_emulator.Identity.Authorize.{
  Delivery, delivered, Params, deliver_authorize_result, normalize_response_type, query,
  AuthorizeState,
}
use entra_emulator.Store.Codes.{insert_auth_code, has_code}
use entra_emulator.Tokens.Codes.{issue_auth_code, redeem_auth_code, verify_pkce}
use entra_emulator.Identity.Authorize.Checks.Valid.{check_request_iff, IsValid}
use entra_emulator.Text.Order.{insert_by, sort_by}
use entra_emulator.Identity.Authorize.Exchange.{issue-redeem}
use entra_emulator.Identity.Authorize.Checks.Steps.{differs, prepared}
use entra_emulator.Identity.Authorize.Issued.{issued_row}
use entra_emulator.Identity.Authorize.Redirects.History.{fresh, no_open_redirect}
use entra_emulator.Identity.Authorize.Silent.{prompt_none-IsSilent, IsSilent}
use entra_emulator.Store.Types.{err, Result, ok, Store}
use entra_emulator.Identity.Authorize.Endpoint.{
  Claim, handle_authorize, AuthorizeRequest, authorize_params, authorize_state,
}
use entra_emulator.Identity.Authorize.FrontChannel.{id_token_by_query, with_mode}
use entra_emulator.Identity.Authorize.Granted.{authorize_params-IsAuthorized, IsAuthorized}
use entra_emulator.Identity.Authorize.SignIn.{handle_sign_in_submit-IsSignedIn, IsSignedIn}
use entra_emulator.Identity.Authorize.NoSession.{login_required, IsUsable, IsUnusable}
use entra_emulator.Identity.Authorize.LoginError.{is_login_error, says_login_required}
use entra_emulator.Identity.Scopes.{
  resolve_scope, resolve_all, ResolvedScopes, resolve_delegated_scopes,
}
use entra_emulator.Text.Integers.{pos, digits, parse_int}
use entra_emulator.Text.{join, fields}
use entra_emulator.Identity.Authorize.Checks.{check_request}
use entra_emulator.Identity.Approval.{SignInForm}
use entra_emulator.Identity.Authorize.Deliver.{issue_code_and_deliver, code_request}
use entra_emulator.Identity.Authorize.Forms.{handle_sign_in_submit}
use entra_emulator.Identity.Authorize.Redirects.{IsSafe}
use entra_emulator.Store.Directory.{app_exists, get_app, has_redirect_uri, user_exists}
use entra_emulator.Tokens.Minting.{DelegatedGrant}
use entra_emulator.Prelude.{
  ℕ, String, ◌≡◌, refl, sym, subst, ◌↔◌, ◌⊎◌, inl, inr, true, false, Option, none, some, [], ◌∷◌,
  arith, ◌==◌, if◌then◌else◌, contains, In, select_first, exists,
}
use entra_emulator.Examples.Data.{crypto, config, directory, web, alice}

abbrev mint : DelegatedGrant → ℕ → Option String
mint g now = some "id-token"

abbrev fetch : Store → String → String → Result String (String → Claim)
fetch s client_id request_uri = err "request_uri returned HTTP 404"

abbrev sent : (prompt mode type nonce : String) → String → String
sent prompt mode type nonce k =
    if k == "client_id"
    then "web"
    else if k == "redirect_uri"
    then "https://app"
    else if k == "scope"
    then "openid"
    else if k == "response_type"
    then type
    else if k == "nonce"
    then nonce
    else if k == "response_mode"
    then mode
    else if k == "prompt"
    then prompt
    else if k == "max_age"
    then "120"
    else if k == "code_challenge"
    then "s:v"
    else if k == "code_challenge_method"
    then "S256"
    else ""

abbrev request : AuthorizeRequest
request = record {
  tenant = "contoso";
  is_post = false;
  form = λ k. "";
  query = sent "" "" "code" "";
  cookie = "sid";
}

no_open_redirect_example :
    IsSafe directory
      (handle_authorize crypto config mint 100 fetch (λ x. none) request "sid2" "c9" directory).0
no_open_redirect_example =
    no_open_redirect crypto config mint 100 fetch (λ x. none) request "sid2" "c9" fresh
      (λ x st e. ground arith)

authorize_params-IsAuthorized_example :
    let t =
      (authorize_params crypto config mint 100 fetch "contoso" "sid" false
        (sent "" "" "code" "")
        "c9"
        directory).1 in
    (t.authorization_codes ≡ directory.authorization_codes)
    ⊎ IsAuthorized config 100 "contoso" "sid" false (sent "" "" "code" "") "c9" directory t
authorize_params-IsAuthorized_example =
    authorize_params-IsAuthorized crypto config mint 100 fetch "contoso" "sid" false
      (sent "" "" "code" "") "c9" directory

prompt_none-IsSilent_example :
    IsSilent
      (authorize_params crypto config mint 100 fetch "contoso" "sid" false
        (sent "none" "" "code" "")
        "c9"
        directory).0
prompt_none-IsSilent_example =
    prompt_none-IsSilent crypto config mint 100 fetch "contoso" "sid" false
      (sent "none" "" "code" "") "c9" directory refl

abbrev wanted : (mode type nonce : String) → AuthorizeState
wanted mode type nonce = record {
  kind = "authorize";
  tenant = "contoso";
  client_id = "web";
  redirect_uri = "https://app";
  scope = "openid";
  state = "";
  nonce = nonce;
  challenge = "s:v";
  method = "S256";
  response_mode = mode;
  response_type = type;
  max_age = 0;
  has_max_age = false;
}

state_of : authorize_state "contoso" (sent "none" "" "code" "") ≡ wanted "" "code" ""
unfolding authorize_state normalize_response_type fields join sort_by insert_by
state_of = refl

abbrev openid_grant : ResolvedScopes
openid_grant = record { granted = "openid" ∷ []; resource = ""; requested = "openid" ∷ [] }

openid_resolves : resolve_delegated_scopes config directory (fields "openid") ≡ some openid_grant
unfolding resolve_delegated_scopes resolve_all resolve_scope fields
openid_resolves = refl

openid_there : contains (fields "openid") "openid" ≡ true
unfolding fields
openid_there = refl

read_120 : parse_int "120" ≡ some (pos 120)
unfolding parse_int digits
read_120 = refl

code-IsValid : IsValid config directory web false "120" (wanted "" "code" "")
code-IsValid = record {
  by_reference = refl;
  response_type = inl refl;
  openid = openid_there;
  scopes = (openid_grant, openid_resolves);
  pkce = inr (inr (differs "s:v" "" refl));
  max_age = inr (120, read_120);
  method = inr (inl refl);
}

token-IsValid : IsValid config directory web false "" (wanted "fragment" "id_token" "n")
token-IsValid = record {
  by_reference = refl;
  response_type = inr (inl refl, differs "n" "" refl, differs "fragment" "query" refl);
  openid = openid_there;
  scopes = (openid_grant, openid_resolves);
  pkce = inl refl;
  max_age = inl refl;
  method = inr (inl refl);
}

check_request_iff_example :
    let b = prepared "120" (wanted "" "code" "") in
    (check_request config directory web false "120" (wanted "" "code" "") ≡ ok b)
    ↔ (IsValid config directory web false "120" (wanted "" "code" "") × (b ≡ b))
check_request_iff_example =
    check_request_iff config directory web false "120" (wanted "" "code" "")
      (prepared "120" (wanted "" "code" ""))

abbrev web_token : AuthorizeState
web_token = prepared "" (wanted "fragment" "id_token" "n")

web_token_passes :
    check_request config directory web false "" (wanted "fragment" "id_token" "n") ≡ ok web_token
web_token_passes =
    (check_request_iff config directory web false "" (wanted "fragment" "id_token" "n") web_token).1
      (token-IsValid, refl)

web_token_code :
    (issue_auth_code config 100 "c9"
      (code_request web_token web alice openid_grant "pwd" 90)
      directory).0
    ≡ ok "c9"
unfolding issue_auth_code insert_auth_code app_exists user_exists exists
web_token_code = refl

id_token_by_query_example :
    (check_request config directory web false "" (wanted "web_message" "id_token" "n")
      ≡ ok (with_mode web_token "web_message"))
    × ((ps : Params) × ((issue_code_and_deliver config mint 100
            (with_mode web_token "web_message")
            web
            alice
            "pwd"
            90
            "c9"
            directory).0
          ≡ delivered record { redirect_uri = "https://app"; mode = query; params = ps })
        × In ("id_token", "id-token") ps)
id_token_by_query_example =
    id_token_by_query config mint 100 directory directory web alice openid_grant "" "pwd" "c9"
      "id-token" "web_message" 90 (wanted "" "id_token" "n") web_token (inl refl)
      (
        differs "web_message" "" refl,
        differs "web_message" "query" refl,
        differs "web_message" "fragment" refl,
        differs "web_message" "form_post" refl,
      )
      web_token_passes openid_resolves web_token_code refl

found_web : get_app directory "web" ≡ ok web
unfolding get_app select_first
found_web = refl

registered_app : has_redirect_uri directory "web" "https://app" ≡ true
unfolding has_redirect_uri exists
registered_app = refl

login_required_example :
    let y =
      authorize_params crypto config mint 100 fetch "contoso" "" false
        (sent "none" "" "code" "")
        "c9"
        directory in
    (IsUnusable directory 100 "" "120"
      × ((d : Delivery) × (y ≡ (delivered d, directory))
          × (d.redirect_uri ≡ "https://app")
          × (exists is_login_error d.params ≡ true)))
    ⊎ (IsUsable directory 100 "" "120" × (says_login_required y.0 ≡ false))
login_required_example =
    login_required crypto config mint 100 fetch "contoso" "" false (sent "none" "" "code" "") "c9"
      directory web refl found_web registered_app
      (subst (IsValid config directory web false "120") (sym state_of) code-IsValid)

has_web : app_exists directory "web" ≡ true
unfolding app_exists exists
has_web = refl

has_alice : user_exists directory "alice" ≡ true
unfolding user_exists exists
has_alice = refl

unused_code : exists (has_code "c9") directory.authorization_codes ≡ false
unfolding exists
unused_code = refl

answers : verify_pkce crypto "s:v" "S256" "v" ≡ true
unfolding verify_pkce
answers = refl

issue-redeem_example :
    let y =
      issue_code_and_deliver config mint 100
        (wanted "" "code" "")
        web
        alice
        "pwd"
        90
        "c9"
        directory in
    (y.0 ≡ deliver_authorize_result (wanted "" "code" "") (("code", "c9") ∷ []))
    × ((redeem_auth_code crypto 200 "c9" "web" "https://app" "v" y.1).0
        ≡ ok (issued_row config 100 (wanted "" "code" "") web alice openid_grant "pwd" 90 "c9"))
issue-redeem_example =
    issue-redeem crypto config mint 100 200 (wanted "" "code" "") web alice openid_grant "pwd" 90
      "c9" "v" directory refl openid_resolves unused_code has_web has_alice (tt, tt) (omega arith)
      (inr (differs "v" "" refl, answers))

abbrev posted : SignInForm
posted = record { user = "alice"; username = ""; password = "" }

handle_sign_in_submit-IsSignedIn_example :
    let t =
      (handle_sign_in_submit crypto config mint 100 "sid2" "c9" posted
        (some (wanted "" "code" ""))
        directory).1 in
    (t ≡ directory)
    ⊎ IsSignedIn crypto config 100 "sid2" "c9" posted (some (wanted "" "code" "")) directory t
handle_sign_in_submit-IsSignedIn_example =
    handle_sign_in_submit-IsSignedIn crypto config mint 100 "sid2" "c9" posted
      (some (wanted "" "code" "")) directory
