-- ===== src/Identity/Authorize/Granted.antt =====
-- When a request for authorization gets a code without a page: what has been checked by then.
use entra_emulator.Identity.Authorize.Fresh.{
  fresh_session_lem, prepared_age, prompted_session_lem, recorded_codes,
}
use entra_emulator.Identity.Authorize.Checks.Steps.{
  moded-Agrees, aged_scope, moded, prepared, HasAge,
}
use entra_emulator.Identity.Authorize.Checks.Valid.{check_request_iff, IsValid}
use entra_emulator.Identity.Authorize.Checks.{check_request}
use entra_emulator.Store.Types.{AuthCode, Result-cases, Result, ok, auth_time, Session, Store}
use entra_emulator.Identity.Authorize.Endpoint.{
  authorize_params, continue_session, no_session, resolve_session, Claim, prompted_session,
  authorize_state, fresh_session,
}
use entra_emulator.Identity.Authorize.Issued.{issue_code_and_deliver_lem, issued_row}
use entra_emulator.Tokens.Minting.{DelegatedGrant}
use entra_emulator.Tokens.Types.{Crypto, Config}
use entra_emulator.Identity.Authorize.{fields, App, User, AuthorizeState}
use entra_emulator.Identity.Scopes.{resolve_delegated_scopes, ResolvedScopes}
use entra_emulator.Identity.Sessions.{current_session}
use entra_emulator.Store.Directory.{has_redirect_uri, get_app}
use entra_emulator.Text.Integers.{pos, parse_int}
use entra_emulator.Store.Logout.{record_session_app}
use entra_emulator.Prelude.{
  ℕ, ◌-◌, ◌≤◌, code, String, ◌≡◌, refl, sym, ap, subst, ◌∙◌, ◌≢◌, ◌⊎◌, inl, inr, Bool, true, false,
  not, ◌&&◌, Option, some, [], ◌∷◌, ◌++◌, arith, ◌==◌, eq_iff, Bool-cases, Option-cases,
}

-- A code was issued to the client of the request, for the user of the cookie's live session.
pub record IsAuthorized (cfg : Config) (now : ℕ) (tenant cookie : String) (inline : Bool)
    (param : String → String) (code : String) (s t : Store) : Type 0 where
  pub app : App
  pub sess : Session
  pub user : User
  pub resolved : ResolvedScopes
  pub client : get_app s (param "client_id") ≡ ok app
  pub redirect : has_redirect_uri s app.id (param "redirect_uri") ≡ true
  pub valid : IsValid cfg s app inline (param "max_age") (authorize_state tenant param)
  pub session : current_session s now cookie ≡ some (sess, user)
  pub young :
      (param "max_age" ≡ "")
      ⊎ ((n : ℕ) × (parse_int (param "max_age") ≡ some (pos n)) × (now - auth_time sess ≤ n))
  pub prompt : (param "prompt" ≢ "login") × (param "prompt" ≢ "select_account")
  pub consent : (cfg.require_consent ≡ false) ⊎ (param "prompt" ≡ "none")
  pub scopes :
      resolve_delegated_scopes cfg (record_session_app sess.id app.id s) (fields (param "scope"))
      ≡ some resolved
  pub effect :
      t.authorization_codes
      ≡ s.authorization_codes
        ++ issued_row cfg now
            (prepared (param "max_age") (authorize_state tenant param))
            app
            user
            resolved
            sess.auth_method
            (auth_time sess)
            code
          ∷ []

module _ (c : Crypto) (cfg : Config) (mint : DelegatedGrant → (now : ℕ) → Option String) (now : ℕ)
    (fetch : Store → (client_id request_uri : String) → Result String (String → Claim)) where
  -- What a session and the prompt let through, from the state behind the checks.
  record IsLetThrough (st : AuthorizeState) (app : App) (cookie prompt code : String) (s t : Store)
      : Type 0 where
    sess : Session
    user : User
    resolved : ResolvedScopes
    session : current_session s now cookie ≡ some (sess, user)
    young : (st.has_max_age ≡ false) ⊎ (now - auth_time sess ≤ st.max_age)
    prompt_free : (prompt ≢ "login") × (prompt ≢ "select_account")
    consent : (cfg.require_consent ≡ false) ⊎ (prompt ≡ "none")
    scopes :
        resolve_delegated_scopes cfg (record_session_app sess.id app.id s) (fields st.scope)
        ≡ some resolved
    effect :
        t.authorization_codes
        ≡ s.authorization_codes
          ++ issued_row cfg now st app user resolved sess.auth_method (auth_time sess) code ∷ []

  no_consent :
      (b : Bool) (prompt : String)
      → (b && not (prompt == "none")) ≡ false
      → (b ≡ false) ⊎ (prompt ≡ "none")
  no_consent b prompt h = ground (arith, eq_iff prompt "none")

  continued :
      (st : AuthorizeState) (app : App) (prompt hint code : String) (sess : Session) (user : User)
      (s : Store)
      → let t =
          (continue_session c cfg mint now fetch st app prompt hint code (some (sess, user)) s).1 in
        (t.authorization_codes ≡ s.authorization_codes)
        ⊎ (((cfg.require_consent ≡ false) ⊎ (prompt ≡ "none"))
            × ((r : ResolvedScopes) × (resolve_delegated_scopes cfg
                    (record_session_app sess.id app.id s)
                    (fields st.scope)
                  ≡ some r)
                × (t.authorization_codes
                    ≡ s.authorization_codes
                      ++ issued_row cfg now st app user r sess.auth_method (auth_time sess) code
                        ∷ [])))
  continued st app prompt hint code sess user s =
      let u = record_session_app sess.id app.id s in
      let before = recorded_codes sess.id app.id s in
      elim (Bool-cases (cfg.require_consent && not (prompt == "none"))) [
        | inl asks ↦ inl (rw asks refl)
        | inr free ↦
            rw free
              (elim (issue_code_and_deliver_lem cfg mint now st app user sess.auth_method
                (auth_time sess) code u) [
                  | inl same ↦ inl (same ∙ before)
                  | inr (r, scopes, added) ↦
                      let row =
                        issued_row cfg now st app user r sess.auth_method (auth_time sess) code in
                      inr (
                        no_consent cfg.require_consent prompt free,
                        (r, scopes, added ∙ ap (λ l. l ++ row ∷ []) before),
                      )
                ])
      ]

  let_through :
      (st : AuthorizeState) (app : App) (cookie prompt hint code : String) (s : Store)
      → let t = (resolve_session c cfg mint now fetch st app cookie prompt hint code s).1 in
        (t.authorization_codes ≡ s.authorization_codes) ⊎ IsLetThrough st app cookie prompt code s t
  unfolding resolve_session
  let_through st app cookie prompt hint code s =
      let session = fresh_session now st (current_session s now cookie) in
      elim (Bool-cases (prompt == "none" && no_session session)) [
        | inl e ↦ inl (rw e refl)
        | inr passed ↦ elim (Option-cases (prompted_session prompt session)) [
          | inl out ↦ inl (rw (passed, out) refl)
          | inr ((sess, user), there) ↦
              let (found, not_login, not_select) =
                prompted_session_lem prompt session (sess, user) there in
              let (current, young) =
                fresh_session_lem now st (current_session s now cookie) sess user found in
              let t = (resolve_session c cfg mint now fetch st app cookie prompt hint code s).1 in
              let same : t
                  ≡ (continue_session c cfg mint now fetch st app prompt hint code
                      (some (sess, user)) s).1 =
                rw (passed, there) refl in
              let codes = ap (λ (x : Store). x.authorization_codes) same in
              elim (continued st app prompt hint code sess user s) [
                | inl kept ↦ inl (codes ∙ kept)
                | inr (consent, (r, scopes, added)) ↦ inr record {
                  sess = sess;
                  user = user;
                  resolved = r;
                  session = current;
                  young = young;
                  prompt_free = (not_login, not_select);
                  consent = consent;
                  scopes = scopes;
                  effect = codes ∙ added;
                }
              ]
        ]
      ]

  young_enough :
      (raw : String) (st b : AuthorizeState) (sess : Session)
      → b ≡ prepared raw st
      → HasAge raw
      → (b.has_max_age ≡ false) ⊎ (now - auth_time sess ≤ b.max_age)
      → (raw ≡ "") ⊎ ((n : ℕ) × (parse_int raw ≡ some (pos n)) × (now - auth_time sess ≤ n))
  young_enough raw st b sess same age young = elim (prepared_age raw st age) [
    | inl empty ↦ inl empty
    | inr (n, read, limit, has) ↦
        inr (n, read, ground (arith, ap (λ m. m.max_age) same, ap (λ m. m.has_max_age) same))
  ]

  authorized :
      (tenant cookie : String) (inline : Bool) (param : String → String) (code : String)
      (s t : Store) (app : App) (b : AuthorizeState)
      → get_app s (param "client_id") ≡ ok app
      → has_redirect_uri s app.id (param "redirect_uri") ≡ true
      → IsValid cfg s app inline (param "max_age") (authorize_state tenant param)
        × (b ≡ prepared (param "max_age") (authorize_state tenant param))
      → (t.authorization_codes ≡ s.authorization_codes)
        ⊎ IsLetThrough b app cookie (param "prompt") code s t
      → (t.authorization_codes ≡ s.authorization_codes)
        ⊎ IsAuthorized cfg now tenant cookie inline param code s t
  unfolding authorize_state
  authorized tenant cookie inline param code s t app b e there (valid, same) (inl kept) = inl kept
  authorized tenant cookie inline param code s t app b e there (valid, same) (inr way) =
      let st = authorize_state tenant param in
      let row : AuthorizeState → AuthCode = λ x.
        issued_row cfg now x app way.user way.resolved way.sess.auth_method (auth_time way.sess)
          code in
      let scope : b.scope ≡ param "scope" =
        ap (λ m. m.scope) same
        ∙ (aged_scope (param "max_age") (moded st) ∙ (moded-Agrees st).scope) in
      inr record {
        app = app;
        sess = way.sess;
        user = way.user;
        resolved = way.resolved;
        client = e;
        redirect = there;
        valid = valid;
        session = way.session;
        young = young_enough (param "max_age") st b way.sess same valid.max_age way.young;
        prompt = way.prompt_free;
        consent = way.consent;
        scopes =
            subst
              (λ x.
                resolve_delegated_scopes cfg (record_session_app way.sess.id app.id s) (fields x)
                ≡ some way.resolved)
              scope way.scopes;
        effect = way.effect ∙ ap (λ x. s.authorization_codes ++ row x ∷ []) same;
      }

  -- A request for authorization (a GET, or a POST that is no form of a page) leaves the table of
  -- codes as it is, or adds the one row of a code for the client of the request and the user of the
  -- cookie's session. By then the redirect URI is registered for the client, the request passes the
  -- checks, the session is live and its user enabled, it is not older than max_age, prompt asks for
  -- no sign-in, and no consent is required or prompt=none forbids the page.
  pub authorize_params-IsAuthorized :
      (tenant cookie : String) (inline : Bool) (param : String → String) (code : String) (s : Store)
      → let t = (authorize_params c cfg mint now fetch tenant cookie inline param code s).1 in
        (t.authorization_codes ≡ s.authorization_codes)
        ⊎ IsAuthorized cfg now tenant cookie inline param code s t
  unfolding authorize_params
  authorize_params-IsAuthorized tenant cookie inline param code s =
      let raw = param "max_age" in
      let st = authorize_state tenant param in
      elim (Result-cases (get_app s (param "client_id"))) [
        | inr (x, e) ↦ inl (rw (e, authorize_params) refl)
        | inl (app, e) ↦ elim (Bool-cases (has_redirect_uri s app.id (param "redirect_uri"))) [
          | inr n ↦ inl (rw (e, n, authorize_params) refl)
          | inl there ↦ elim (Result-cases (check_request cfg s app inline raw st)) [
            | inr ((b, x), refused) ↦ inl (rw (e, there, refused, authorize_params) refl)
            | inl (b, passed) ↦
                let t =
                  (authorize_params c cfg mint now fetch tenant cookie inline param code s).1 in
                let same : t
                    ≡ (resolve_session c cfg mint now fetch b app cookie (param "prompt")
                        (param "login_hint") code s).1 =
                  rw (e, there, passed, authorize_params) refl in
                authorized tenant cookie inline param code s t app b e there
                  ((check_request_iff cfg s app inline raw st b).0 passed)
                  (elim (let_through b app cookie (param "prompt") (param "login_hint") code s) [
                    | inl kept ↦ inl (ap (λ (x : Store). x.authorization_codes) same ∙ kept)
                    | inr way ↦
                        inr
                          (subst (IsLetThrough b app cookie (param "prompt") code s) (sym same) way)
                  ])
          ]
        ]
      ]
