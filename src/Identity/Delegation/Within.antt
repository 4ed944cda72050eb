-- ===== src/Identity/Delegation/Within.antt =====
-- What an on-behalf-of token rests on.
use entra_emulator.Prelude.{
  ℕ, String, ◌≡◌, sym, ap, ◌∙◌, ◌≢◌, ◌⊎◌, inl, inr, true, false, Option, some, [], ◌∷◌, arith, ◌==◌,
  eq_iff, if◌then◌else◌, Bool-cases, Option-cases, contains, In-of_contains,
}
use entra_emulator.Text.{fields}
use entra_emulator.Store.Types.{App, User, Store, Result-cases, ok}
use entra_emulator.Store.Directory.{get_user}
use entra_emulator.Tokens.Types.{Config, Crypto}
use entra_emulator.Tokens.Minting.{DelegatedGrant, TokenResponse, Minter, Policy}
use entra_emulator.Tokens.Validation.{Claims, ValidatedToken, validate_access_token}
use entra_emulator.Tokens.Validation.Accepts.{IsValid, validate_access_token_iff}
use entra_emulator.Identity.Scopes.{ResolvedScopes, resolve_delegated_scopes}
use entra_emulator.Identity.Grants.Exchange.{build-access}
use entra_emulator.Identity.Delegation.{delegated, accepted_audiences, grant_on_behalf_of}

pub record IsOnBehalf (cfg : Config) (mint : Minter) (now : ℕ) (app : App)
    (verified : Option Claims) (scope : String) (s : Store) (resp : TokenResponse) : Type 0 where
  pub claims : Claims
  pub user : User
  pub scopes : ResolvedScopes
  pub confidential : app.is_confidential ≡ true
  pub signed : verified ≡ some claims
  pub valid : IsValid cfg now (accepted_audiences app) claims
  pub addressed : (claims.aud ≡ app.id) ⊎ ((app.app_id_uri ≢ "") × (claims.aud ≡ app.app_id_uri))
  pub by_user : claims.oid ≢ ""
  pub subject : get_user s claims.oid ≡ ok user
  pub enabled : user.account_enabled ≡ true
  pub resolved : resolve_delegated_scopes cfg s (fields scope) ≡ some scopes
  pub minted :
      let g : DelegatedGrant = record {
        app = app;
        user = user;
        scopes = scopes.granted;
        resource = scopes.resource;
        scope_echo = scopes.requested;
        nonce = "";
        amr = "";
        auth_time = 0;
        auth_code = "";
        max_age_requested = false;
        tenant_id = "";
        skip_refresh_token = false;
      } in
      resp.access_token
      ≡ mint.access g (if scopes.resource == "" then cfg.graph_resource_id else scopes.resource) now

-- The audiences that the grant accepts are the client's id and, where it has one, its URI.
addressed_lem :
    (app : App) (aud : String)
    → contains (accepted_audiences app) aud ≡ true
    → (aud ≡ app.id) ⊎ ((app.app_id_uri ≢ "") × (aud ≡ app.app_id_uri))
addressed_lem app aud h = elim (Bool-cases (app.app_id_uri == "")) [
  | inl empty ↦ elim (In-of_contains (app.id ∷ []) aud (rw empty at h)) [
    | inl e ↦ inl (sym e)
    | inr e ↦ absurd e
  ]
  | inr given ↦ elim (In-of_contains (app.id ∷ (app.app_id_uri ∷ [])) aud (rw given at h)) [
    | inl e ↦ inl (sym e)
    | inr (inl e) ↦ inr (λ z. ground (arith, (eq_iff app.app_id_uri "").1 z), sym e)
    | inr (inr e) ↦ absurd e
  ]
]

-- An on-behalf-of request that answers with tokens comes from a confidential client with a valid
-- access token of a user, whose audience is the client's id or its URI; the new access token is for
-- the same user, who is in the directory and enabled, for scopes that resolve, and its audience is
-- their resource (Graph where they have none).
pub grant_on_behalf_of_within :
    (c : Crypto) (cfg : Config) (mint : Minter) (policy : String → Policy) (now : ℕ)
    (plain : String) (app : App) (requested_use assertion scope : String) (verified : Option Claims)
    (s : Store) (resp : TokenResponse)
    → (grant_on_behalf_of c cfg mint policy now plain app requested_use assertion scope verified
        s).0
      ≡ ok resp
    → IsOnBehalf cfg mint now app verified scope s resp
unfolding grant_on_behalf_of
grant_on_behalf_of_within c cfg mint policy now plain app requested_use assertion scope verified s
      resp e =
    elim (Option-cases (validate_access_token cfg now verified (accepted_audiences app))) [
      | inl invalid ↦ ground arith
      | inr (v, fine) ↦
          let (claims, signed, valid, same) =
            (validate_access_token_iff cfg now verified (accepted_audiences app) v).0 fine in
          let nobody : v.oid == "" ≡ true → ⊥ = λ z. ground arith in
          elim (Result-cases (get_user s v.oid)) [
            | inr (x, gone) ↦ ground arith
            | inl (u, found) ↦ elim (Option-cases (resolve_delegated_scopes cfg s (fields scope))) [
              | inl bad ↦ ground arith
              | inr (r, resolved) ↦ record {
                claims = claims;
                user = u;
                scopes = r;
                confidential = ground arith;
                signed = signed;
                valid = valid;
                addressed = addressed_lem app claims.aud valid.audience;
                by_user = λ z.
                    nobody
                      ((eq_iff v.oid "").1 (sym (ap (λ (w : ValidatedToken). w.oid) same) ∙ z));
                subject = ap (λ (w : ValidatedToken). get_user s w.oid) same ∙ found;
                enabled = ground arith;
                resolved = resolved;
                minted =
                    build-access c cfg mint policy now plain (delegated app u r "") s resp
                      (ground arith);
              }
            ]
          ]
    ]
