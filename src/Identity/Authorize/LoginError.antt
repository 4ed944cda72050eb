-- ===== src/Identity/Authorize/LoginError.antt =====
-- Which answers tell the client login_required.
use entra_emulator.Identity.Authorize.Checks.{issues_code}
use entra_emulator.Identity.Authorize.Deliver.{
  code_params, code_request, id_token_grant, issue_code_and_deliver, issued_code, returns_id_token,
  with_id_token,
}
use entra_emulator.Identity.Authorize.{
  Answer, AuthorizeState, Delivery, Params, account_picker, consent_page, delivered,
  deliver_authorize_error, deliver_authorize_result, error_page, fields, mode_of, password_form,
  set_param,
}
use entra_emulator.Identity.Errors.{oauth_error}
use entra_emulator.Identity.Scopes.{ResolvedScopes, resolve_delegated_scopes}
use entra_emulator.Store.Types.{App, Result, Store, StoreError, User, err, ok}
use entra_emulator.Tokens.Codes.{issue_auth_code}
use entra_emulator.Tokens.Minting.{DelegatedGrant}
use entra_emulator.Tokens.Types.{Config}
use entra_emulator.Prelude.{
  ℕ, code, String, ◌≡◌, refl, inl, inr, Bool, true, false, ◌&&◌, Option, none, some, [], ◌∷◌, ◌==◌,
  Bool-cases, Option-cases, delete, exists, exists-delete, exists-append,
}

abbrev pub is_login_error : String × String → Bool
is_login_error p = p.0 == "error" && p.1 == "login_required"

-- The client is told login_required.
abbrev pub says_login_required : Answer → Bool
says_login_required (error_page status title message) = false
says_login_required (password_form st hint message) = false
says_login_required (account_picker st users message) = false
says_login_required (consent_page st app) = false
says_login_required (delivered d) = exists is_login_error d.params

free-set_param :
    (name value : String) (ps : Params)
    → name == "error" ≡ false
    → exists is_login_error ps ≡ false
    → exists is_login_error (set_param name value ps) ≡ false
unfolding set_param exists
free-set_param name value ps n h =
    exists-append is_login_error (delete (λ (p : String × String). p.0 == name) ps) (name, value)
      (exists-delete is_login_error (λ p. p.0 == name) ps h) (rw n refl)

result-free :
    (st : AuthorizeState) (ps : Params)
    → exists is_login_error ps ≡ false
    → says_login_required (deliver_authorize_result st ps) ≡ false
unfolding deliver_authorize_result
result-free st ps h = elim (Bool-cases (st.state == "")) [
  | inl e ↦ rw e h
  | inr e ↦ rw e (free-set_param "state" st.state ps refl h)
]

scope_error-free :
    (st : AuthorizeState) (description : String)
    → says_login_required (deliver_authorize_error st (oauth_error "invalid_scope" description))
      ≡ false
unfolding deliver_authorize_error exists
scope_error-free st description =
    result-free st (("error", "invalid_scope") ∷ ("error_description", description) ∷ []) refl

code_params-free :
    (st : AuthorizeState) (code : String) → exists is_login_error (code_params st code) ≡ false
unfolding exists
code_params-free st code = elim (Bool-cases (issues_code st)) [
  | inl e ↦ rw e refl
  | inr e ↦ rw e refl
]

module _ (cfg : Config) (mint : DelegatedGrant → (now : ℕ) → Option String) (now : ℕ) where
  token-free :
      (st : AuthorizeState) (ps : Params) (o : Option String)
      → exists is_login_error ps ≡ false
      → says_login_required (with_id_token cfg mint now st ps o) ≡ false
  token-free st ps none h = refl
  token-free st ps (some token) h =
      result-free st (set_param "id_token" token ps) (free-set_param "id_token" token ps refl h)

  issued-free :
      (st : AuthorizeState) (app : App) (user : User) (r : ResolvedScopes) (amr : String) (at : ℕ)
      (x : Result StoreError String × Store)
      → says_login_required (issued_code cfg mint now st app user r amr at x).0 ≡ false
  issued-free st app user r amr at (err e, t) = refl
  issued-free st app user r amr at (ok code, t) = elim (Bool-cases (returns_id_token st)) [
    | inl e ↦ rw e (
        token-free st (code_params st code) (mint (id_token_grant st app user r amr at) now)
          (code_params-free st code))
    | inr e ↦ rw e (result-free st (code_params st code) (code_params-free st code))
  ]

  pub deliver-free :
      (st : AuthorizeState) (app : App) (user : User) (amr : String) (at : ℕ) (code : String)
      (t : Store)
      → says_login_required (issue_code_and_deliver cfg mint now st app user amr at code t).0
        ≡ false
  unfolding issue_code_and_deliver
  deliver-free st app user amr at code t =
      elim (Option-cases (resolve_delegated_scopes cfg t (fields st.scope))) [
        | inl e ↦ rw (e, issue_code_and_deliver) (scope_error-free st _)
        | inr (r, e) ↦
            rw (e, issue_code_and_deliver)
              (issued-free st app user r amr at
                (issue_auth_code cfg now code (code_request st app user r amr at) t))
      ]

-- The error is in what is delivered.
pub told :
    (st : AuthorizeState) (description : String)
    → (d : Delivery) × (deliver_authorize_error st (oauth_error "login_required" description)
        ≡ delivered d)
      × (d.redirect_uri ≡ st.redirect_uri)
      × (exists is_login_error d.params ≡ true)
unfolding deliver_authorize_error deliver_authorize_result set_param exists delete
told st description =
    let ps : Params = ("error", "login_required") ∷ ("error_description", description) ∷ [] in
    let to : Params → Delivery = λ qs. record {
      redirect_uri = st.redirect_uri;
      mode = mode_of st.response_mode;
      params = qs;
    } in
    elim (Bool-cases (st.state == "")) [
      | inl e ↦ (to ps, rw e refl, refl, refl)
      | inr e ↦ (to (set_param "state" st.state ps), rw e refl, refl, refl)
    ]
