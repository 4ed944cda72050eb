-- ===== src/Identity/Authorize/Silent.antt =====
-- prompt=none: the endpoint answers without a page that asks the user for anything.
use entra_emulator.Identity.Authorize.Checks.{check_request, Checked}
use entra_emulator.Identity.Errors.{oauth_error}
use entra_emulator.Identity.Sessions.{current_session}
use entra_emulator.Store.Directory.{has_redirect_uri, get_app}
use entra_emulator.Store.Types.{
  Result-cases, auth_time, ok, err, StoreError, Session, Result, Store,
}
use entra_emulator.Identity.Authorize.Endpoint.{
  authorize_state, behind_checks, fresh_session, authorize_params, resolve_session,
  continue_session, no_session, Claim,
}
use entra_emulator.Store.Logout.{record_session_app}
use entra_emulator.Identity.Authorize.Deliver.{
  id_token_grant, code_params, returns_id_token, code_request, issued_code, issue_code_and_deliver,
  with_id_token,
}
use entra_emulator.Tokens.Codes.{issue_auth_code}
use entra_emulator.Identity.Authorize.{
  fields, User, set_param, App, delivered, consent_page, account_picker, OauthError, Params,
  password_form, AuthorizeState, error_page, Answer, deliver_authorize_error,
  deliver_authorize_result,
}
use entra_emulator.Identity.Scopes.{ResolvedScopes, resolve_delegated_scopes}
use entra_emulator.Tokens.Minting.{DelegatedGrant}
use entra_emulator.Tokens.Types.{Config, Crypto}
use entra_emulator.Prelude.{
  ℕ, code, String, ◌≡◌, refl, inl, inr, Bool, true, false, ◌&&◌, Option, none, some, [], ◌∷◌, arith,
  if◌then◌else◌, Bool-cases, Option-cases,
}

-- An error page or a delivery.
abbrev pub IsSilent : Answer → Type 0
IsSilent (error_page status title message) = Unit
IsSilent (password_form st hint message) = ⊥
IsSilent (account_picker st users message) = ⊥
IsSilent (consent_page st app) = ⊥
IsSilent (delivered d) = Unit

result-IsSilent : (st : AuthorizeState) (ps : Params) → IsSilent (deliver_authorize_result st ps)
unfolding deliver_authorize_result
result-IsSilent st ps = tt

error-IsSilent : (st : AuthorizeState) (e : OauthError) → IsSilent (deliver_authorize_error st e)
unfolding deliver_authorize_error
error-IsSilent st e =
    result-IsSilent st (("error", e.error) ∷ ("error_description", e.description) ∷ [])

module _ (c : Crypto) (cfg : Config) (mint : DelegatedGrant → (now : ℕ) → Option String) (now : ℕ)
    (fetch : Store → (client_id request_uri : String) → Result String (String → Claim)) where
  token-IsSilent :
      (st : AuthorizeState) (ps : Params) (o : Option String)
      → IsSilent (with_id_token cfg mint now st ps o)
  token-IsSilent st ps none = tt
  token-IsSilent st ps (some token) = result-IsSilent st (set_param "id_token" token ps)

  issued-IsSilent :
      (st : AuthorizeState) (app : App) (user : User) (r : ResolvedScopes) (amr : String) (at : ℕ)
      (x : Result StoreError String × Store)
      → IsSilent (issued_code cfg mint now st app user r amr at x).0
  issued-IsSilent st app user r amr at (err e, t) = tt
  issued-IsSilent st app user r amr at (ok code, t) = elim (Bool-cases (returns_id_token st)) [
    | inl e ↦
        rw e
          (token-IsSilent st (code_params st code) (mint (id_token_grant st app user r amr at) now))
    | inr e ↦ rw e (result-IsSilent st (code_params st code))
  ]

  deliver-IsSilent :
      (st : AuthorizeState) (app : App) (user : User) (amr : String) (at : ℕ) (code : String)
      (t : Store)
      → IsSilent (issue_code_and_deliver cfg mint now st app user amr at code t).0
  unfolding issue_code_and_deliver
  deliver-IsSilent st app user amr at code t =
      elim (Option-cases (resolve_delegated_scopes cfg t (fields st.scope))) [
        | inl e ↦ rw (e, issue_code_and_deliver) (error-IsSilent st _)
        | inr (r, e) ↦
            rw (e, issue_code_and_deliver)
              (issued-IsSilent st app user r amr at
                (issue_auth_code cfg now code (code_request st app user r amr at) t))
      ]

  unasked :
      (b : Bool) (x y : Answer × Store) → IsSilent y.0 → IsSilent (if b && false then x else y).0
  unasked true x y h = h
  unasked false x y h = h

  either :
      (b : Bool) (x y : Answer × Store)
      → IsSilent x.0
      → (b ≡ false → IsSilent y.0)
      → IsSilent (if b then x else y).0
  either true x y h k = h
  either false x y h k = k refl

  session-IsSilent :
      (st : AuthorizeState) (app : App) (hint code : String) (o : Option (Session × User))
      (t : Store)
      → no_session o ≡ false
      → IsSilent (continue_session c cfg mint now fetch st app "none" hint code o t).0
  session-IsSilent st app hint code none t h = ground arith
  session-IsSilent st app hint code (some (sess, user)) t h =
      let u = record_session_app sess.id app.id t in
      unasked cfg.require_consent (consent_page st app, t)
        (issue_code_and_deliver cfg mint now st app user sess.auth_method (auth_time sess) code u)
        (deliver-IsSilent st app user sess.auth_method (auth_time sess) code u)

  resolved-IsSilent :
      (st : AuthorizeState) (app : App) (cookie hint code : String) (t : Store)
      → IsSilent (resolve_session c cfg mint now fetch st app cookie "none" hint code t).0
  unfolding resolve_session
  resolved-IsSilent st app cookie hint code t =
      let session = fresh_session now st (current_session t now cookie) in
      let required = oauth_error "login_required" "No active session and prompt=none." in
      either (no_session session) (deliver_authorize_error st required, t)
        (continue_session c cfg mint now fetch st app "none" hint code session t)
        (error-IsSilent st required) (session-IsSilent st app hint code session t)

  checked-IsSilent :
      (app : App) (cookie hint code : String) (r : Checked) (t : Store)
      → IsSilent (behind_checks c cfg mint now fetch app cookie "none" hint code r t).0
  checked-IsSilent app cookie hint code (ok st) t = resolved-IsSilent st app cookie hint code t
  checked-IsSilent app cookie hint code (err (st, e)) t = error-IsSilent st e

  -- A request with prompt=none is answered by an error page or by a delivery to the client, and
  -- never by a page that asks for a sign-in or a consent.
  pub prompt_none-IsSilent :
      (tenant cookie : String) (inline : Bool) (param : String → String) (code : String) (s : Store)
      → param "prompt" ≡ "none"
      → IsSilent (authorize_params c cfg mint now fetch tenant cookie inline param code s).0
  unfolding authorize_params
  prompt_none-IsSilent tenant cookie inline param code s h =
      let st = authorize_state tenant param in
      elim (Result-cases (get_app s (param "client_id"))) [
        | inr (x, e) ↦ rw (e, authorize_params) tt
        | inl (app, e) ↦ elim (Bool-cases (has_redirect_uri s app.id (param "redirect_uri"))) [
          | inr n ↦ rw (e, n, authorize_params) tt
          | inl there ↦
              rw (e, there, h, authorize_params)
                (checked-IsSilent app cookie (param "login_hint") code
                  (check_request cfg s app inline (param "max_age") st) s)
        ]
      ]
