-- ===== src/Identity/Authorize/Redirects.antt =====
-- Where the authorization endpoint sends a browser: the redirect URIs that are registered.
pub mod Request
pub mod Forms
pub mod History
use entra_emulator.Identity.Authorize.Deliver.{
  code_params, returns_id_token, id_token_grant, issued_code, code_request, with_id_token,
  issue_code_and_deliver,
}
use entra_emulator.Store.Types.{err, StoreError, Result, ok, Store}
use entra_emulator.Identity.Authorize.{
  delivered, consent_page, fields, account_picker, set_param, User, password_form, App, OauthError,
  Params, error_page, Answer, AuthorizeState, deliver_authorize_error, deliver_authorize_result,
}
use entra_emulator.Store.Directory.{has_redirect_uri, get_app}
use entra_emulator.Identity.Scopes.{ResolvedScopes, resolve_delegated_scopes}
use entra_emulator.Tokens.Codes.{AuthCodeRequest, issue_auth_code}
use entra_emulator.Store.Codes.{insert_auth_code}
use entra_emulator.Store.Sessions.{create_session}
use entra_emulator.Tokens.Minting.{DelegatedGrant}
use entra_emulator.Identity.Authorize.Forms.{render_sign_in}
use entra_emulator.Identity.Sessions.{start_session}
use entra_emulator.Store.Logout.{record_session_app}
use entra_emulator.Tokens.Types.{Config}
use entra_emulator.Prelude.{
  ℕ, code, String, ◌≡◌, ◌∙◌, inl, inr, Bool, true, false, Option, none, some, [], ◌∷◌, arith,
  if◌then◌else◌, Bool-cases, Option-cases,
}

-- The state names an application, and a redirect URI that is registered for it.
abbrev pub IsRegistered : Store → AuthorizeState → Type 0
IsRegistered s st =
    (app : App) × (get_app s st.client_id ≡ ok app)
    × (has_redirect_uri s app.id st.redirect_uri ≡ true)

-- A delivery goes to a redirect URI that is registered for an application of the directory, and a
-- page carries a signed state with such a redirect URI.
abbrev pub IsSafe : Store → Answer → Type 0
IsSafe s (error_page status title message) = Unit
IsSafe s (password_form st hint message) = IsRegistered s st
IsSafe s (account_picker st users message) = IsRegistered s st
IsSafe s (consent_page st app) = IsRegistered s st
IsSafe s (delivered d) =
    (id : String) × (app : App) × (get_app s id ≡ ok app)
    × (has_redirect_uri s app.id d.redirect_uri ≡ true)

pub result-IsSafe :
    (s : Store) (st : AuthorizeState) (ps : Params)
    → IsRegistered s st
    → IsSafe s (deliver_authorize_result st ps)
unfolding deliver_authorize_result
result-IsSafe s st ps (app, found, there) = (st.client_id, app, found, there)

pub error-IsSafe :
    (s : Store) (st : AuthorizeState) (e : OauthError)
    → IsRegistered s st
    → IsSafe s (deliver_authorize_error st e)
unfolding deliver_authorize_error
error-IsSafe s st e h =
    result-IsSafe s st (("error", e.error) ∷ ("error_description", e.description) ∷ []) h

pub sign_in-IsSafe :
    (cfg : Config) (s t : Store) (st : AuthorizeState) (hint message : String)
    → IsRegistered s st
    → IsSafe s (render_sign_in cfg t st hint message)
unfolding render_sign_in
sign_in-IsSafe cfg s t st hint message h = elim (Bool-cases cfg.require_password) [
  | inl e ↦ rw e h
  | inr e ↦ rw e h
]

-- The applications and the redirect URIs are the same.
abbrev pub SameDirectory : Store → Store → Type 0
SameDirectory s t = (t.apps ≡ s.apps) × (t.redirect_uris ≡ s.redirect_uris)

pub recorded-SameDirectory :
    (session_id app_id : String) (t : Store)
    → SameDirectory t (record_session_app session_id app_id t)
unfolding record_session_app
recorded-SameDirectory session_id app_id t = ground arith

pub issued-SameDirectory :
    (cfg : Config) (now : ℕ) (code : String) (r : AuthCodeRequest) (t : Store)
    → SameDirectory t (issue_auth_code cfg now code r t).1
unfolding issue_auth_code insert_auth_code
issued-SameDirectory cfg now code r t = ground arith

pub started-SameDirectory :
    (now : ℕ) (sid user_id method : String) (t : Store)
    → SameDirectory t (start_session now sid user_id method t).1
unfolding start_session create_session
started-SameDirectory now sid user_id method t = ground arith

pub SameDirectory-trans :
    (s t u : Store) → SameDirectory s t → SameDirectory t u → SameDirectory s u
SameDirectory-trans s t u (a, b) (c, d) = (c ∙ a, d ∙ b)

-- A safe answer, and a store with the same directory.
abbrev pub Keeps : Store → Answer × Store → Type 0
Keeps s x = IsSafe s x.0 × SameDirectory s x.1

pub if-Keeps :
    (s : Store) (b : Bool) (x y : Answer × Store)
    → Keeps s x
    → Keeps s y
    → Keeps s (if b then x else y)
if-Keeps s true x y h k = h
if-Keeps s false x y h k = k

pub if-IsSafe :
    (s : Store) (b : Bool) (x y : Answer) → IsSafe s x → IsSafe s y → IsSafe s (if b then x else y)
if-IsSafe s true x y h k = h
if-IsSafe s false x y h k = k

module _ (cfg : Config) (mint : DelegatedGrant → (now : ℕ) → Option String) (now : ℕ)
    (s : Store) where
  token-IsSafe :
      (st : AuthorizeState) (ps : Params) (o : Option String)
      → IsRegistered s st
      → IsSafe s (with_id_token cfg mint now st ps o)
  token-IsSafe st ps none h = tt
  token-IsSafe st ps (some token) h = result-IsSafe s st (set_param "id_token" token ps) h

  issued-Keeps :
      (st : AuthorizeState) (app : App) (user : User) (r : ResolvedScopes) (amr : String) (at : ℕ)
      (x : Result StoreError String × Store)
      → IsRegistered s st
      → SameDirectory s x.1
      → Keeps s (issued_code cfg mint now st app user r amr at x)
  issued-Keeps st app user r amr at (err e, t) h d = (tt, d)
  issued-Keeps st app user r amr at (ok code, t) h d =
      let token = mint (id_token_grant st app user r amr at) now in
      if-Keeps s (returns_id_token st)
        (with_id_token cfg mint now st (code_params st code) token, t)
        (deliver_authorize_result st (code_params st code), t)
        (token-IsSafe st (code_params st code) token h, d)
        (result-IsSafe s st (code_params st code) h, d)

  pub deliver-Keeps :
      (st : AuthorizeState) (app : App) (user : User) (amr : String) (at : ℕ) (code : String)
      (t : Store)
      → IsRegistered s st
      → SameDirectory s t
      → Keeps s (issue_code_and_deliver cfg mint now st app user amr at code t)
  unfolding issue_code_and_deliver
  deliver-Keeps st app user amr at code t h d =
      elim (Option-cases (resolve_delegated_scopes cfg t (fields st.scope))) [
        | inl e ↦ rw (e, issue_code_and_deliver) (error-IsSafe s st _ h, d)
        | inr (r, e) ↦
            let request = code_request st app user r amr at in
            rw (e, issue_code_and_deliver)
              (issued-Keeps st app user r amr at (issue_auth_code cfg now code request t) h (
                SameDirectory-trans s t (issue_auth_code cfg now code request t).1 d
                  (issued-SameDirectory cfg now code request t)))
      ]

  -- A delivery behind a session that is recorded.
  pub recorded-Keeps :
      (st : AuthorizeState) (app : App) (user : User) (amr sid : String) (at : ℕ) (code : String)
      (t : Store)
      → IsRegistered s st
      → SameDirectory s t
      → Keeps s (
          issue_code_and_deliver cfg mint now st app user amr at code
            (record_session_app sid app.id t))
  recorded-Keeps st app user amr sid at code t h d =
      let u = record_session_app sid app.id t in
      deliver-Keeps st app user amr at code u h
        (SameDirectory-trans s t u d (recorded-SameDirectory sid app.id t))
