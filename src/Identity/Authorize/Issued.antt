-- ===== src/Identity/Authorize/Issued.antt =====
-- The authorization code that the endpoint issues, up to its redemption at the token endpoint.
use entra_emulator.Identity.Authorize.{join, fields, User, App, AuthorizeState}
use entra_emulator.Identity.Authorize.Deliver.{
  returns_id_token, issued_code, code_request, issue_code_and_deliver,
}
use entra_emulator.Store.Types.{ok, err, StoreError, Result-cases, Result, Store, AuthCode}
use entra_emulator.Identity.Scopes.{resolve_delegated_scopes, ResolvedScopes}
use entra_emulator.Tokens.Codes.{new_row, AuthCodeRequest, issue_auth_code}
use entra_emulator.Tokens.Minting.{DelegatedGrant}
use entra_emulator.Store.Codes.{insert_auth_code}
use entra_emulator.Tokens.Types.{Config}
use entra_emulator.Prelude.{
  ℕ, ◌+◌, code, String, ◌≡◌, refl, ap, ◌∙◌, ◌⊎◌, inl, inr, false, Option, some, [], ◌∷◌, ◌++◌,
  arith, Bool-cases, Option-cases,
}

-- What the row of an issued code has to hold, field by field: the client and the user, the request's
-- redirect URI, challenge and nonce, the resolved scopes and resource, the session's method and
-- time, and the lifetime of a code.
abbrev pub issued_row :
    Config
    → (now : ℕ) → AuthorizeState
    → App
    → User
    → ResolvedScopes
    → (amr : String) (auth_time : ℕ) (code : String) → AuthCode
issued_row cfg now st app user resolved amr at code = record {
  code = code;
  app_id = app.id;
  user_id = user.id;
  redirect_uri = st.redirect_uri;
  scopes = join resolved.granted;
  resource = resolved.resource;
  code_challenge = st.challenge;
  code_challenge_method = st.method;
  nonce = st.nonce;
  amr = amr;
  auth_time = at;
  max_age_requested = st.has_max_age;
  expires_at = now + cfg.lifetimes.auth_code;
  consumed = false;
  created_at = now;
}

inserted :
    (row : AuthCode) (s : Store)
    → row.consumed ≡ false
    → let t = (insert_auth_code row s).1 in
      (t.authorization_codes ≡ s.authorization_codes)
      ⊎ (t.authorization_codes ≡ s.authorization_codes ++ row ∷ [])
unfolding insert_auth_code
inserted row s fresh = ground arith

module _ (cfg : Config) (mint : DelegatedGrant → (now : ℕ) → Option String) (now : ℕ) where
  pub store_of_issued :
      (st : AuthorizeState) (app : App) (user : User) (r : ResolvedScopes) (amr : String) (at : ℕ)
      (x : Result StoreError String × Store)
      → (issued_code cfg mint now st app user r amr at x).1 ≡ x.1
  store_of_issued st app user r amr at (err e, t) = refl
  store_of_issued st app user r amr at (ok code, t) = elim (Bool-cases (returns_id_token st)) [
    | inl e ↦ rw e refl
    | inr e ↦ rw e refl
  ]

  issue_store :
      (code : String) (r : AuthCodeRequest) (t : Store)
      → (issue_auth_code cfg now code r t).1 ≡ (insert_auth_code (new_row cfg now code r) t).1
  unfolding issue_auth_code
  issue_store code r t = elim (Result-cases (insert_auth_code (new_row cfg now code r) t).0) [
    | inl (a, e) ↦ ground arith
    | inr (x, e) ↦ ground arith
  ]

  -- The table of codes behind a delivery: it is as before, or the code of resolved scopes was added.
  pub issue_code_and_deliver_lem :
      (st : AuthorizeState) (app : App) (user : User) (amr : String) (at : ℕ) (code : String)
      (t : Store)
      → let u = (issue_code_and_deliver cfg mint now st app user amr at code t).1 in
        (u.authorization_codes ≡ t.authorization_codes)
        ⊎ ((r : ResolvedScopes) × (resolve_delegated_scopes cfg t (fields st.scope) ≡ some r)
            × (u.authorization_codes
                ≡ t.authorization_codes ++ issued_row cfg now st app user r amr at code ∷ []))
  unfolding issue_code_and_deliver
  issue_code_and_deliver_lem st app user amr at code t =
      elim (Option-cases (resolve_delegated_scopes cfg t (fields st.scope))) [
        | inl e ↦ inl (rw (e, issue_code_and_deliver) refl)
        | inr (r, e) ↦
            let request = code_request st app user r amr at in
            let there =
              store_of_issued st app user r amr at (issue_auth_code cfg now code request t)
              ∙ issue_store code request t in
            elim (inserted (new_row cfg now code request) t refl) [
              | inl same ↦ inl (
                  rw (e, issue_code_and_deliver)
                    (ap (λ (u : Store). u.authorization_codes) there ∙ same))
              | inr added ↦ inr (
                r,
                e,
                rw (e, issue_code_and_deliver)
                    (ap (λ (u : Store). u.authorization_codes) there ∙ added),
              )
            ]
      ]
