-- ===== src/Identity/Authorize/Exchange.antt =====
-- An authorization code from its issue at the authorization endpoint to its redemption.
use entra_emulator.Identity.Authorize.{
  join, deliver_authorize_result, fields, User, App, AuthorizeState,
}
use entra_emulator.Store.Types.{err, StoreError, Result, ok, Store, AuthCode}
use entra_emulator.Tokens.Types.{continue, Config, Crypto}
use entra_emulator.Identity.Authorize.Checks.{issues_code}
use entra_emulator.Tokens.Codes.{
  new_row, AuthCodeRequest, redeem_auth_code, verify_pkce, issue_auth_code,
}
use entra_emulator.Identity.Authorize.Deliver.{
  returns_id_token, issued_code, code_request, issue_code_and_deliver,
}
use entra_emulator.Tokens.Codes.Redemption.{redeem_auth_code_iff, UniqueCodes}
use entra_emulator.Identity.Authorize.Issued.{issued_row}
use entra_emulator.Identity.Scopes.{resolve_delegated_scopes, ResolvedScopes}
use entra_emulator.Tokens.Minting.{DelegatedGrant}
use entra_emulator.Store.Directory.{row_or_not_found, user_exists, app_exists}
use entra_emulator.Store.Codes.{has_code, get_auth_code, insert_auth_code}
use entra_emulator.Prelude.{
  ℕ, ◌+◌, ◌<◌, code, String, ◌≡◌, refl, sym, ap, ◌∙◌, ◌≢◌, ◌⊎◌, true, false, ◌||◌, Option, some, [],
  ◌∷◌, arith, ◌==◌, eq_refl, exists, Distinct-append, select_first-append_new,
}

found_after :
    (row : AuthCode) (s : Store)
    → exists (has_code row.code) s.authorization_codes ≡ false
    → app_exists s row.app_id ≡ true
    → user_exists s row.user_id ≡ true
    → row.consumed ≡ false
    → UniqueCodes s
    → let t = (insert_auth_code row s).1 in
      ((insert_auth_code row s).0 ≡ ok tt) × (get_auth_code t row.code ≡ ok row) × UniqueCodes t
unfolding insert_auth_code get_auth_code
found_after row s new app user fresh u =
    rw (new, app, user)
      (
        refl,
        ap row_or_not_found (
            select_first-append_new (has_code row.code) s.authorization_codes
              (record row { consumed = false }) new (eq_refl row.code)
            ∙ ap some (ap (λ b. record row { consumed = b }) (sym fresh))),
        Distinct-append (λ (r : AuthCode). r.code) s.authorization_codes
            (record row { consumed = false }) u new,
      )

module _ (c : Crypto) (cfg : Config) (mint : DelegatedGrant → (now : ℕ) → Option String)
    (now later : ℕ) where
  by_ok :
      (code : String) (z : Result StoreError (Unit {0}) × Store)
      → z.0 ≡ ok tt
      → continue {E = StoreError} {B = String} (λ _ s. (ok code, s)) z ≡ (ok code, z.1)
  by_ok code (ok x, s) e = refl
  by_ok code (err x, s) e = ground arith

  issued_ok :
      (code : String) (r : AuthCodeRequest) (s : Store)
      → (insert_auth_code (new_row cfg now code r) s).0 ≡ ok tt
      → issue_auth_code cfg now code r s
        ≡ (ok code, (insert_auth_code (new_row cfg now code r) s).1)
  unfolding issue_auth_code
  issued_ok code r s e = by_ok code (insert_auth_code (new_row cfg now code r) s) e

  code_alone :
      (st : AuthorizeState) (app : App) (user : User) (r : ResolvedScopes) (amr : String) (at : ℕ)
      (code : String) (t : Store)
      → st.response_type ≡ "code"
      → issued_code cfg mint now st app user r amr at (ok code, t)
        ≡ (deliver_authorize_result st (("code", code) ∷ []), t)
  code_alone st app user r amr at code t type =
      let no_token : returns_id_token st ≡ false =
        ap (λ x. x == "id_token" || x == "code id_token") type in
      let with_code : issues_code st ≡ true = ap (λ x. x == "code" || x == "code id_token") type in
      rw (no_token, with_code) refl

  issued_code_lem :
      (st : AuthorizeState) (app : App) (user : User) (r : ResolvedScopes) (amr : String) (at : ℕ)
      (code : String) (s : Store)
      → st.response_type ≡ "code"
      → exists (has_code code) s.authorization_codes ≡ false
      → app_exists s app.id ≡ true
      → user_exists s user.id ≡ true
      → UniqueCodes s
      → let row = issued_row cfg now st app user r amr at code in
        let t = (insert_auth_code row s).1 in
        (issued_code cfg mint now st app user r amr at
            (issue_auth_code cfg now code (code_request st app user r amr at) s)
          ≡ (deliver_authorize_result st (("code", code) ∷ []), t))
        × (get_auth_code t code ≡ ok row)
        × UniqueCodes t
  issued_code_lem st app user r amr at code s type new a b u =
      let row = issued_row cfg now st app user r amr at code in
      let (done, found, unique) = found_after row s new a b refl u in
      (
        ap (issued_code cfg mint now st app user r amr at)
              (issued_ok code (code_request st app user r amr at) s done)
            ∙ code_alone st app user r amr at code (insert_auth_code row s).1 type,
        found,
        unique,
      )

  -- A request for a code alone, whose scopes resolve, is delivered its code, and the code is good: if
  -- the drawn code is new, the client and the user are in the directory and the table's codes are
  -- distinct, then the client that presents it with the redirect URI of the request, before it
  -- expires and with the verifier of its challenge if it sent one, redeems it for the scopes, the
  -- resource, the nonce, and the session's method and time of the request, all written out.
  pub issue-redeem :
      (st : AuthorizeState) (app : App) (user : User) (r : ResolvedScopes) (amr : String) (at : ℕ)
      (code verifier : String) (s : Store)
      → st.response_type ≡ "code"
      → resolve_delegated_scopes cfg s (fields st.scope) ≡ some r
      → exists (has_code code) s.authorization_codes ≡ false
      → app_exists s app.id ≡ true
      → user_exists s user.id ≡ true
      → UniqueCodes s
      → later < now + cfg.lifetimes.auth_code
      → (st.challenge ≡ "")
        ⊎ ((verifier ≢ "") × (verify_pkce c st.challenge st.method verifier ≡ true))
      → let y = issue_code_and_deliver cfg mint now st app user amr at code s in
        (y.0 ≡ deliver_authorize_result st (("code", code) ∷ []))
        × ((redeem_auth_code c later code app.id st.redirect_uri verifier y.1).0
            ≡ ok record {
              code = code;
              app_id = app.id;
              user_id = user.id;
              redirect_uri = st.redirect_uri;
              scopes = join r.granted;
              resource = r.resource;
              code_challenge = st.challenge;
              code_challenge_method = st.method;
              nonce = st.nonce;
              amr = amr;
              auth_time = at;
              max_age_requested = st.has_max_age;
              expires_at = now + cfg.lifetimes.auth_code;
              consumed = false;
              created_at = now;
            })
  unfolding issue_code_and_deliver
  issue-redeem st app user r amr at code verifier s type resolved new a b u in_time proof =
      let row = issued_row cfg now st app user r amr at code in
      let (sent, found, unique) = issued_code_lem st app user r amr at code s type new a b u in
      let redeemed =
        (redeem_auth_code_iff c later code app.id st.redirect_uri verifier
            (insert_auth_code row s).1 row unique).1
          (
            found,
            record {
              fresh = refl;
              in_time = in_time;
              client = refl;
              redirect = refl;
              proof = proof;
            },
          ) in
      rw (resolved, sent, issue_code_and_deliver) (refl, redeemed)
