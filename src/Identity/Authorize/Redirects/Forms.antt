-- ===== src/Identity/Authorize/Redirects/Forms.antt =====
-- The redirect URIs of the two forms of the authorization endpoint.
use entra_emulator.Identity.Authorize.Redirects.{
  recorded-Keeps, recorded-SameDirectory, SameDirectory-trans, error-IsSafe, record_session_app,
  deliver-Keeps, issue_code_and_deliver, started-SameDirectory, sign_in-IsSafe, start_session,
  if-Keeps, get_app, if-IsSafe, SameDirectory, IsSafe, Keeps, IsRegistered,
}
use entra_emulator.Store.Types.{auth_time, Result-cases, Session, Store}
use entra_emulator.Identity.Authorize.{
  consent_page, deliver_authorize_error, User, App, AuthorizeState,
}
use entra_emulator.Identity.Approval.{SignInForm}
use entra_emulator.Identity.Authorize.Forms.{
  sign_in_user, render_sign_in, signed_in, consented, sign_in_again, handle_consent_decision,
  handle_sign_in_submit,
}
use entra_emulator.Identity.Sessions.{current_session}
use entra_emulator.Identity.Errors.{oauth_error}
use entra_emulator.Tokens.Minting.{DelegatedGrant}
use entra_emulator.Tokens.Types.{Config, Crypto}
use entra_emulator.Prelude.{
  ℕ, code, String, ◌≡◌, refl, inl, inr, not, Option, none, some, ◌==◌, Bool-cases,
}

module _ (c : Crypto) (cfg : Config) (mint : DelegatedGrant → (now : ℕ) → Option String) (now : ℕ)
    (s : Store) where
  consented-Keeps :
      (st : AuthorizeState) (app : App) (decision code : String) (o : Option (Session × User))
      → IsRegistered s st
      → Keeps s (consented c cfg mint now st app decision code o s)
  consented-Keeps st app decision code none h = (tt, (refl, refl))
  consented-Keeps st app decision code (some (sess, user)) h =
      let declined = oauth_error "access_denied" "The user declined consent." in
      if-Keeps s (not (decision == "approve")) (deliver_authorize_error st declined, s)
        (issue_code_and_deliver cfg mint now st app user sess.auth_method (auth_time sess) code
          (record_session_app sess.id app.id s))
        (error-IsSafe s st declined h, (refl, refl))
        (recorded-Keeps cfg mint now s st app user sess.auth_method sess.id (auth_time sess) code s
          h (refl, refl))

  pub decision-Keeps :
      (cookie decision code : String) (o : Option AuthorizeState)
      → ((st : AuthorizeState) → o ≡ some st → IsRegistered s st)
      → Keeps s (handle_consent_decision c cfg mint now cookie decision code o s)
  unfolding handle_consent_decision
  decision-Keeps cookie decision code none h = (tt, (refl, refl))
  decision-Keeps cookie decision code (some st) h = elim (Bool-cases (st.kind == "authorize")) [
    | inr n ↦ rw (n, handle_consent_decision) (tt, (refl, refl))
    | inl kind ↦ elim (Result-cases (get_app s st.client_id)) [
      | inr (x, e) ↦ rw (kind, e, handle_consent_decision) (tt, (refl, refl))
      | inl (app, e) ↦
          rw (kind, e, handle_consent_decision)
            (consented-Keeps st app decision code (current_session s now cookie) (h st refl))
    ]
  ]

  signed_in-Keeps :
      (st : AuthorizeState) (app : App) (user : User) (code : String) (x : Option Session × Store)
      → IsRegistered s st
      → SameDirectory s x.1
      → Keeps s (signed_in c cfg mint now st app user code x)
  signed_in-Keeps st app user code (none, t) h d =
      if-Keeps s cfg.require_consent (consent_page st app, t)
        (issue_code_and_deliver cfg mint now st app user "pwd" 0 code t) (h, d)
        (deliver-Keeps cfg mint now s st app user "pwd" 0 code t h d)
  signed_in-Keeps st app user code (some sess, t) h d =
      let u = record_session_app sess.id app.id t in
      if-Keeps s cfg.require_consent (consent_page st app, u)
        (issue_code_and_deliver cfg mint now st app user "pwd" (auth_time sess) code u)
        (h, SameDirectory-trans s t u d (recorded-SameDirectory sess.id app.id t))
        (recorded-Keeps cfg mint now s st app user "pwd" sess.id (auth_time sess) code t h d)

  again-IsSafe :
      (st : AuthorizeState) (form : SignInForm)
      → IsRegistered s st
      → IsSafe s (sign_in_again c cfg mint now s st form)
  again-IsSafe st form h =
      if-IsSafe s cfg.require_password
        (render_sign_in cfg s st form.username "Incorrect email or password.")
        (render_sign_in cfg s st "" "Select a valid account.")
        (sign_in-IsSafe cfg s s st form.username "Incorrect email or password." h)
        (sign_in-IsSafe cfg s s st "" "Select a valid account." h)

  pub submit-Keeps :
      (sid code : String) (form : SignInForm) (o : Option AuthorizeState)
      → ((st : AuthorizeState) → o ≡ some st → IsRegistered s st)
      → Keeps s (handle_sign_in_submit c cfg mint now sid code form o s)
  unfolding handle_sign_in_submit
  submit-Keeps sid code form none h = (tt, (refl, refl))
  submit-Keeps sid code form (some st) h = elim (Bool-cases (st.kind == "authorize")) [
    | inr n ↦ rw (n, handle_sign_in_submit) (tt, (refl, refl))
    | inl kind ↦ elim (Result-cases (get_app s st.client_id)) [
      | inr (x, e) ↦ rw (kind, e, handle_sign_in_submit) (tt, (refl, refl))
      | inl (app, e) ↦ elim (Result-cases (sign_in_user c cfg s form)) [
        | inr (x, f) ↦
            rw (kind, e, f, handle_sign_in_submit) (again-IsSafe st form (h st refl), (refl, refl))
        | inl (user, f) ↦
            rw (kind, e, f, handle_sign_in_submit)
              (signed_in-Keeps st app user code (start_session now sid user.id "pwd" s) (h st refl)
                (started-SameDirectory now sid user.id "pwd" s))
      ]
    ]
  ]
