-- ===== src/Identity/Authorize/Checks/Valid.antt =====
-- Which authorization requests pass the checks, and what they are carried on as.
use entra_emulator.Identity.Authorize.Checks.Method.{method_complete, IsMethod, method_sound}
use entra_emulator.Identity.Authorize.Checks.Steps.{
  age_complete, challenge_complete, scopes_complete, inline_complete, aged_method, aged, HasProof,
  moded, HasScopes, age_sound, challenge_sound, moded-Agrees, scopes_sound, inline_sound,
  and_then-ok, prepared,
}
use entra_emulator.Identity.Authorize.Checks.FrontType.{type_complete, type_sound}
use entra_emulator.Identity.Authorize.Checks.{
  with_default_method, check_response_type, check_scopes, check_challenge, pos, check_max_age,
  parse_int, check_method, issues_code, resolve_delegated_scopes, fields, ok, AuthorizeState, App,
  Store, check_request,
}
use entra_emulator.Identity.Scopes.{ResolvedScopes}
use entra_emulator.Tokens.Types.{Config}
use entra_emulator.Prelude.{
  ℕ, String, ◌≡◌, sym, ap, subst, subst₂, ◌∙◌, ◌≢◌, ◌↔◌, ◌⊎◌, Bool, true, false, ◌||◌, some, ◌==◌,
  contains,
}

-- The conditions on a request, each on the request as it was sent.
pub record IsValid (cfg : Config) (s : Store) (app : App) (inline : Bool) (raw : String)
    (st : AuthorizeState) : Type 0 where
  pub by_reference : inline ≡ false
  pub response_type :
      (st.response_type ≡ "code")
      ⊎ (((st.response_type ≡ "id_token") ⊎ (st.response_type ≡ "code id_token"))
          × (st.nonce ≢ "")
          × (st.response_mode ≢ "query"))
  pub openid : contains (fields st.scope) "openid" ≡ true
  pub scopes : (r : ResolvedScopes) × (resolve_delegated_scopes cfg s (fields st.scope) ≡ some r)
  pub pkce : (issues_code st ≡ false) ⊎ ((app.is_confidential ≡ true) ⊎ (st.challenge ≢ ""))
  pub max_age : (raw ≡ "") ⊎ ((n : ℕ) × (parse_int raw ≡ some (pos n)))
  pub method : (st.method ≡ "") ⊎ ((st.method ≡ "S256") ⊎ (st.method ≡ "plain"))

-- The condition of PKCE, by the two fields that it reads.
abbrev Proves : App → (response_type challenge : String) → Type 0
Proves app t challenge =
    ((t == "code" || t == "code id_token") ≡ false)
    ⊎ ((app.is_confidential ≡ true) ⊎ (challenge ≢ ""))

checks_sound :
    (cfg : Config) (s : Store) (app : App) (inline : Bool) (raw : String) (st b : AuthorizeState)
    → check_request cfg s app inline raw st ≡ ok b
    → IsValid cfg s app inline raw st × (b ≡ prepared raw st)
unfolding check_request
checks_sound cfg s app inline raw st b e =
    let (a5, e5, k6) = and_then-ok _ check_method b e in
    let (a4, e4, k5) = and_then-ok _ (check_max_age raw) a5 e5 in
    let (a3, e3, k4) = and_then-ok _ (check_challenge app) a4 e4 in
    let (a2, e2, k3) = and_then-ok _ (check_scopes cfg s) a3 e3 in
    let (a1, e1, k2) = and_then-ok _ check_response_type a2 e2 in
    let (by_reference, p1) = inline_sound inline st a1 e1 in
    let (type, p2) = type_sound st a2 (ap check_response_type (sym p1) ∙ k2) in
    let (scopes, p3) = scopes_sound cfg s a2 a3 k3 in
    let (proof, p4) = challenge_sound app a2 a4 (ap (check_challenge app) (sym p3) ∙ k4) in
    let (age, p5) = age_sound raw a2 a5 (ap (check_max_age raw) (sym p4) ∙ k5) in
    let (method, p6) = method_sound a5 b k6 in
    let there = moded-Agrees st in
    let same_scope : a2.scope ≡ st.scope = ap (λ m. m.scope) p2 ∙ there.scope in
    (
      record {
        by_reference = by_reference;
        response_type = type;
        openid = subst (λ t. contains (fields t) "openid" ≡ true) same_scope scopes.0;
        scopes =
            subst (λ t. (r : ResolvedScopes) × (resolve_delegated_scopes cfg s (fields t) ≡ some r))
              same_scope scopes.1;
        pkce =
            subst₂ (Proves app) (ap (λ m. m.response_type) p2 ∙ there.response_type)
              (ap (λ m. m.challenge) p2 ∙ there.challenge) proof;
        max_age = age;
        method =
            subst IsMethod
              (ap (λ m. m.method) p5
                ∙ (aged_method raw a2 ∙ (ap (λ m. m.method) p2 ∙ there.method)))
              method;
      },
      p6 ∙ ap with_default_method (p5 ∙ ap (aged raw) p2),
    )

checks_complete :
    (cfg : Config) (s : Store) (app : App) (inline : Bool) (raw : String) (st : AuthorizeState)
    → IsValid cfg s app inline raw st
    → check_request cfg s app inline raw st ≡ ok (prepared raw st)
unfolding check_request
checks_complete cfg s app inline raw st v =
    let there = moded-Agrees st in
    let (r, resolved) = v.scopes in
    let scopes : HasScopes cfg s (moded st).scope = (
      subst (λ t. contains (fields t) "openid" ≡ true) (sym there.scope) v.openid,
      (r, ap (λ t. resolve_delegated_scopes cfg s (fields t)) there.scope ∙ resolved),
    ) in
    let proof : HasProof app (moded st) =
      subst₂ (Proves app) (sym there.response_type) (sym there.challenge) v.pkce in
    let method : IsMethod (aged raw (moded st)).method =
      subst IsMethod (sym (aged_method raw (moded st) ∙ there.method)) v.method in
    rw
      (
        v.by_reference,
        inline_complete st,
        type_complete st v.response_type,
        scopes_complete cfg s (moded st) scopes,
        challenge_complete app (moded st) proof,
        age_complete raw (moded st) v.max_age,
      )
      (method_complete (aged raw (moded st)) method)

-- A request passes the checks exactly if it sends its parameters by reference or in the query, asks
-- for code, id_token or both (with a nonce, and not in the query, where an id_token is asked for),
-- has the scope openid, names only scopes that resolve to one resource, has a challenge if a public
-- client is to get a code, has a max_age that is empty or reads as a non-negative integer, and a
-- challenge method that is empty, S256 or plain; it is then carried on with its defaults filled in.
pub check_request_iff :
    (cfg : Config) (s : Store) (app : App) (inline : Bool) (raw : String) (st b : AuthorizeState)
    → (check_request cfg s app inline raw st ≡ ok b)
      ↔ (IsValid cfg s app inline raw st × (b ≡ prepared raw st))
check_request_iff cfg s app inline raw st b = (
  checks_sound cfg s app inline raw st b,
  λ (v, e). checks_complete cfg s app inline raw st v ∙ ap ok (sym e),
)
