-- ===== src/Identity/Authorize/Redirects/History.antt =====
-- Histories of calls of the authorization endpoint, whose forms post back what its pages signed.
use entra_emulator.Identity.Authorize.Redirects.Request.{request-Keeps}
use entra_emulator.Identity.Authorize.Endpoint.{
  form_of, field_state, field_decision, field_consent, Claim, AuthorizeRequest, handle_authorize,
}
use entra_emulator.Identity.Authorize.Redirects.Forms.{submit-Keeps, decision-Keeps}
use entra_emulator.Identity.Authorize.{
  delivered, consent_page, account_picker, App, password_form, error_page, AuthorizeState, Answer,
}
use entra_emulator.Identity.Sessions.{tenant_segment}
use entra_emulator.Identity.Authorize.Redirects.{
  SameDirectory-trans, Result, DelegatedGrant, IsRegistered, IsSafe, SameDirectory,
}
use entra_emulator.Store.Types.{RedirectUri, Store}
use entra_emulator.Store.Directory.{row_or_not_found, has_redirect_uri, get_app}
use entra_emulator.Tokens.Types.{Config, Crypto}
use entra_emulator.Prelude.{
  ℕ, code, String, ◌≡◌, refl, sym, ap, ◌∙◌, inl, inr, not, ◌&&◌, Option, some, List, [], ◌∷◌, ◌++◌,
  ◌==◌, Bool-cases, All, All-append, In, In-All, select_first, exists,
}

-- One call of the endpoint, whose forms carry states with registered redirect URIs.
pub handle_authorize-IsSafe :
    (c : Crypto) (cfg : Config) (mint : DelegatedGrant → (now : ℕ) → Option String) (now : ℕ)
    (fetch : Store → (client_id request_uri : String) → Result String (String → Claim)) (s : Store)
    (verify : String → Option AuthorizeState) (r : AuthorizeRequest) (sid code : String)
    → ((x : String) (st : AuthorizeState) → verify x ≡ some st → IsRegistered s st)
    → let y = handle_authorize c cfg mint now fetch verify r sid code s in
      IsSafe s y.0 × SameDirectory s y.1
unfolding handle_authorize
handle_authorize-IsSafe c cfg mint now fetch s verify r sid code h =
    elim (Bool-cases (tenant_segment cfg s r.tenant).1) [
      | inr e ↦ rw e (tt, (refl, refl))
      | inl known ↦ elim (Bool-cases (r.is_post && not (r.form field_consent == ""))) [
        | inl e ↦
            rw (known, e, handle_authorize)
              (decision-Keeps c cfg mint now s r.cookie (r.form field_decision) code
                (verify (r.form field_state)) (h (r.form field_state)))
        | inr a ↦ elim (Bool-cases (r.is_post && not (r.form field_state == ""))) [
          | inl e ↦
              rw (known, a, e, handle_authorize)
                (submit-Keeps c cfg mint now s sid code (form_of c cfg mint now fetch r)
                  (verify (r.form field_state)) (h (r.form field_state)))
          | inr b ↦ rw (known, a, b, handle_authorize) (request-Keeps c cfg mint now fetch s r code)
        ]
      ]
    ]

-- The states that a page carries.
unfoldable pub signed_states : Answer → List AuthorizeState
signed_states (error_page status title message) = []
signed_states (password_form st hint message) = st ∷ []
signed_states (account_picker st users message) = st ∷ []
signed_states (consent_page st app) = st ∷ []
signed_states (delivered d) = []

registered-SameDirectory :
    (s t : Store) (id uri : String)
    → SameDirectory s t
    → (get_app t id ≡ get_app s id) × (has_redirect_uri t id uri ≡ has_redirect_uri s id uri)
unfolding get_app has_redirect_uri
registered-SameDirectory s t id uri (apps, uris) = (
  ap (λ l. row_or_not_found (select_first (λ (a : App). a.id == id) l)) apps,
  ap (exists (λ (r : RedirectUri). r.app_id == id && r.uri == uri)) uris,
)

to_later :
    (s t : Store) (st : AuthorizeState) → SameDirectory s t → IsRegistered s st → IsRegistered t st
to_later s t st d (app, found, there) = (
  app,
  (registered-SameDirectory s t st.client_id st.redirect_uri d).0 ∙ found,
  (registered-SameDirectory s t app.id st.redirect_uri d).1 ∙ there,
)

to_earlier :
    (s t : Store) (st : AuthorizeState) → SameDirectory s t → IsRegistered t st → IsRegistered s st
to_earlier s t st (apps, uris) = to_later t s st (sym apps, sym uris)

IsSafe-to_earlier : (s t : Store) (a : Answer) → SameDirectory s t → IsSafe t a → IsSafe s a
IsSafe-to_earlier s t (error_page status title message) d h = tt
IsSafe-to_earlier s t (password_form st hint message) d h = to_earlier s t st d h
IsSafe-to_earlier s t (account_picker st users message) d h = to_earlier s t st d h
IsSafe-to_earlier s t (consent_page st app) d h = to_earlier s t st d h
IsSafe-to_earlier s t (delivered v) d (id, app, found, there) = (
  id,
  app,
  sym (registered-SameDirectory s t id v.redirect_uri d).0 ∙ found,
  sym (registered-SameDirectory s t app.id v.redirect_uri d).1 ∙ there,
)

signed-IsRegistered : (s : Store) (a : Answer) → IsSafe s a → All (IsRegistered s) (signed_states a)
unfolding signed_states
signed-IsRegistered s (error_page status title message) h = tt
signed-IsRegistered s (password_form st hint message) h = (h, tt)
signed-IsRegistered s (account_picker st users message) h = (h, tt)
signed-IsRegistered s (consent_page st app) h = (h, tt)
signed-IsRegistered s (delivered d) h = tt

module _ (c : Crypto) (cfg : Config) (mint : DelegatedGrant → (now : ℕ) → Option String) where
  abbrev pub Fetch : Type 0
  Fetch = Store → (client_id request_uri : String) → Result String (String → Claim)

  -- verifyState accepts only states that a page carried.
  abbrev pub Verifies : (String → Option AuthorizeState) → List AuthorizeState → Type 0
  Verifies verify seen = (x : String) (st : AuthorizeState) → verify x ≡ some st → In st seen

  -- The states that were signed, and the store, behind calls of the endpoint that began at `s`. The
  -- clock, the object behind a request_uri and the form are any at every call.
  pub data History (s : Store) : List AuthorizeState → Store → Type 0 where
    fresh : History s [] s
    call :
        {seen : List AuthorizeState} {t : Store} (now : ℕ) (fetch : Fetch)
        (verify : String → Option AuthorizeState) (r : AuthorizeRequest) (sid code : String)
        → History s seen t
        → Verifies verify seen
        → History s
            (signed_states (handle_authorize c cfg mint now fetch verify r sid code t).0 ++ seen)
            (handle_authorize c cfg mint now fetch verify r sid code t).1

  one_call :
      (s t : Store) (seen : List AuthorizeState) (now : ℕ) (fetch : Fetch)
      (verify : String → Option AuthorizeState) (r : AuthorizeRequest) (sid code : String)
      → All (IsRegistered s) seen × SameDirectory s t
      → Verifies verify seen
      → let y = handle_authorize c cfg mint now fetch verify r sid code t in
        IsSafe s y.0 × SameDirectory s y.1
  one_call s t seen now fetch verify r sid code (registered, d) v =
      let (safe, e) =
        handle_authorize-IsSafe c cfg mint now fetch t verify r sid code
          (λ x st h. to_later s t st d (In-All (IsRegistered s) st seen registered (v x st h))) in
      let y = handle_authorize c cfg mint now fetch verify r sid code t in
      (IsSafe-to_earlier s t y.0 d safe, SameDirectory-trans s t y.1 d e)

  History-IsRegistered :
      {s t : Store} {seen : List AuthorizeState}
      → History s seen t
      → All (IsRegistered s) seen × SameDirectory s t
  History-IsRegistered fresh = (tt, (refl, refl))
  History-IsRegistered {s} (call {seen = seen} {t = t} now fetch verify r sid code h v) =
      let (safe, d) = one_call s t seen now fetch verify r sid code (History-IsRegistered h) v in
      (
        All-append (IsRegistered s)
            (signed_states (handle_authorize c cfg mint now fetch verify r sid code t).0) seen
            (signed-IsRegistered s (handle_authorize c cfg mint now fetch verify r sid code t).0
              safe)
            (History-IsRegistered h).0,
        d,
      )

  -- Behind any calls of the authorization endpoint (GET requests, sign-ins, consent decisions), a
  -- call sends a code, a token or an error only to a redirect URI that is registered for an
  -- application of the directory, or shows a page: whatever the request says, by itself, in the
  -- object behind its request_uri, or in a form. The one condition is that verifyState accepts only
  -- states that pages of this endpoint carried.
  pub no_open_redirect :
      {s t : Store} {seen : List AuthorizeState} (now : ℕ) (fetch : Fetch)
      (verify : String → Option AuthorizeState) (r : AuthorizeRequest) (sid code : String)
      → History s seen t
      → Verifies verify seen
      → IsSafe s (handle_authorize c cfg mint now fetch verify r sid code t).0
  no_open_redirect {s} {t} {seen} now fetch verify r sid code h v =
      (one_call s t seen now fetch verify r sid code (History-IsRegistered h) v).0
