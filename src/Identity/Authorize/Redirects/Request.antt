-- ===== src/Identity/Authorize/Redirects/Request.antt =====
-- The redirect URIs of handleAuthorize behind the forms.
use entra_emulator.Identity.Authorize.Redirects.{
  recorded-Keeps, record_session_app, issue_code_and_deliver, error-IsSafe, err, if-Keeps,
  sign_in-IsSafe, has_redirect_uri, ok, IsRegistered, Keeps,
}
use entra_emulator.Identity.Authorize.Endpoint.{
  prompted_session, no_session, apply_request_object, behind_checks, continue_session,
  fresh_session, AuthorizeRequest, authorize_params, authorize_request, authorize_state,
  resolve_session, Claim,
}
use entra_emulator.Identity.Errors.{oauth_error}
use entra_emulator.Store.Types.{auth_time, Result-cases, Session, App, Result, Store}
use entra_emulator.Identity.Authorize.{deliver_authorize_error, consent_page, User, AuthorizeState}
use entra_emulator.Identity.Authorize.Carried.{check_request-SameTarget, carried, SameTarget}
use entra_emulator.Identity.Authorize.Checks.{check_request, Checked}
use entra_emulator.Identity.Sessions.{current_session}
use entra_emulator.Store.Directory.{get_app}
use entra_emulator.Tokens.Minting.{DelegatedGrant}
use entra_emulator.Tokens.Types.{Config, Crypto}
use entra_emulator.Prelude.{
  ℕ, code, String, ◌≡◌, refl, ap, ◌∙◌, inl, inr, Bool, true, not, ◌&&◌, Option, none, some, ◌==◌,
  if◌then◌else◌, Bool-cases,
}

module _ (c : Crypto) (cfg : Config) (mint : DelegatedGrant → (now : ℕ) → Option String) (now : ℕ)
    (fetch : Store → (client_id request_uri : String) → Result String (String → Claim))
    (s : Store) where
  session-Keeps :
      (st : AuthorizeState) (app : App) (prompt hint code : String) (o : Option (Session × User))
      → IsRegistered s st
      → Keeps s (continue_session c cfg mint now fetch st app prompt hint code o s)
  session-Keeps st app prompt hint code none h = (sign_in-IsSafe cfg s s st hint "" h, (refl, refl))
  session-Keeps st app prompt hint code (some (sess, user)) h =
      if-Keeps s (cfg.require_consent && not (prompt == "none")) (consent_page st app, s)
        (issue_code_and_deliver cfg mint now st app user sess.auth_method (auth_time sess) code
          (record_session_app sess.id app.id s))
        (h, (refl, refl))
        (recorded-Keeps cfg mint now s st app user sess.auth_method sess.id (auth_time sess) code s
          h (refl, refl))

  resolved-Keeps :
      (st : AuthorizeState) (app : App) (cookie prompt hint code : String)
      → IsRegistered s st
      → Keeps s (resolve_session c cfg mint now fetch st app cookie prompt hint code s)
  unfolding resolve_session
  resolved-Keeps st app cookie prompt hint code h =
      let session = fresh_session now st (current_session s now cookie) in
      if-Keeps s (prompt == "none" && no_session session)
        (
          deliver_authorize_error st
              (oauth_error "login_required" "No active session and prompt=none."),
          s,
        )
        (continue_session c cfg mint now fetch st app prompt hint code
          (prompted_session prompt session) s)
        (
          error-IsSafe s st (oauth_error "login_required" "No active session and prompt=none.") h,
          (refl, refl),
        )
        (session-Keeps st app prompt hint code (prompted_session prompt session) h)

  target-IsRegistered :
      (a b : AuthorizeState) → SameTarget a b → IsRegistered s b → IsRegistered s a
  target-IsRegistered a b (p, q) (app, found, there) =
      (app, ap (get_app s) p ∙ found, ap (λ u. has_redirect_uri s app.id u) q ∙ there)

  checked-Keeps :
      (app : App) (cookie prompt hint code : String) (r : Checked)
      → IsRegistered s (carried r)
      → Keeps s (behind_checks c cfg mint now fetch app cookie prompt hint code r s)
  checked-Keeps app cookie prompt hint code (ok st) h =
      resolved-Keeps st app cookie prompt hint code h
  checked-Keeps app cookie prompt hint code (err (st, e)) h = (error-IsSafe s st e h, (refl, refl))

  registered :
      (tenant : String) (param : String → String) (app : App)
      → get_app s (param "client_id") ≡ ok app
      → has_redirect_uri s app.id (param "redirect_uri") ≡ true
      → IsRegistered s (authorize_state tenant param)
  unfolding authorize_state
  registered tenant param app e there = (app, e, there)

  params-Keeps :
      (tenant cookie : String) (inline : Bool) (param : String → String) (code : String)
      → Keeps s (authorize_params c cfg mint now fetch tenant cookie inline param code s)
  unfolding authorize_params
  params-Keeps tenant cookie inline param code =
      let st = authorize_state tenant param in
      elim (Result-cases (get_app s (param "client_id"))) [
        | inr (x, e) ↦ rw (e, authorize_params) (tt, (refl, refl))
        | inl (app, e) ↦
            let checked = check_request cfg s app inline (param "max_age") st in
            elim (Bool-cases (has_redirect_uri s app.id (param "redirect_uri"))) [
              | inr n ↦ rw (e, n, authorize_params) (tt, (refl, refl))
              | inl there ↦
                  rw (e, there, authorize_params)
                    (checked-Keeps app cookie (param "prompt") (param "login_hint") code checked (
                      target-IsRegistered (carried checked) st
                        (check_request-SameTarget cfg s app inline (param "max_age") st)
                        (registered tenant param app e there)))
            ]
      ]

  pub request-Keeps :
      (r : AuthorizeRequest) (code : String)
      → Keeps s (authorize_request c cfg mint now fetch r code s)
  unfolding authorize_request
  request-Keeps r code =
      let param : String → String = if r.is_post then r.form else r.query in
      let inline = not (param "request" == "") in
      elim (Bool-cases (param "request_uri" == "")) [
        | inl e ↦ rw e (params-Keeps r.tenant r.cookie inline param code)
        | inr n ↦ elim (Bool-cases (param "client_id" == "")) [
          | inl e ↦ rw (n, e) (tt, (refl, refl))
          | inr m ↦ elim (Result-cases (fetch s (param "client_id") (param "request_uri"))) [
            | inr (x, e) ↦ rw (n, m, e) (tt, (refl, refl))
            | inl (claims, e) ↦
                rw (n, m, e)
                  (params-Keeps r.tenant r.cookie inline (apply_request_object r.query claims) code)
          ]
        ]
      ]
