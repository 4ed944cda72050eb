-- ===== src/Identity/AppOnly/Within.antt =====
-- What an application-only token rests on.
use entra_emulator.Identity.AppOnly.Audience.{audience_lem, IsAudience, one_scope_lem}
use entra_emulator.Identity.AppOnly.{
  lifetimes_for, oidc_scopes, confidential_required, err, for_audience, Result, for_resource,
  for_scopes, fields, roles_for, azure_aud, get_app, without_oidc, app_response, databricks_aud,
  default_resource, is_public, app_minted, authenticate_client, fabric_aud, ok, ClientRequest,
  TokenResponse, OauthError, build_app_only_response, find_resource_app, grant_client_credentials,
  App, Policy, AppMinter, Store, Config, app_only_audience,
}
use entra_emulator.Text.{◌<>◌}
use entra_emulator.Prelude.{
  ℕ, String, ◌≡◌, refl, sym, ap, subst, inl, inr, Bool, true, false, not, Option, none, some, List,
  [], ◌∷◌, arith, ◌==◌, if◌then◌else◌, Bool-cases, Option-cases, contains, In, select,
}
use entra_emulator.Identity.AppOnly.Roles.{roles_for-IsGivenRole, IsGivenRole}
use entra_emulator.Store.Types.{Result-cases}
use entra_emulator.Tokens.Types.{Crypto}

-- An authenticated confidential client asks for the default scope of one resource, and the token
-- has this resource's audience and roles that the client is given there.
pub record IsAppOnly (c : Crypto) (cfg : Config) (mint : AppMinter) (policy : String → Policy)
    (now : ℕ) (check_assertion : App → Option OauthError) (r : ClientRequest) (scope : String)
    (s : Store) (resp : TokenResponse) : Type 0 where
  pub app : App
  pub resource : String
  pub aud : String
  pub roles : List String
  pub jwt : String
  pub client : authenticate_client c s now check_assertion r ≡ ok app
  pub confidential : app.is_confidential ≡ true
  pub one_scope :
      select (λ sc. not (contains oidc_scopes sc)) (fields scope) ≡ (resource <> "/.default") ∷ []
  pub audience : IsAudience cfg s resource aud
  pub signed : mint app aud roles app.tenant_id now ≡ some jwt
  pub token : resp.access_token ≡ jwt
  pub lifetime : resp.expires_in ≡ (lifetimes_for cfg policy app.id).0
  pub no_refresh : resp.refresh_token ≡ ""
  pub given :
      (role : String)
      → In role roles
      → (ra : App) × (find_resource_app s resource ≡ some ra) × IsGivenRole s app.id ra.id role

given_lem :
    (cfg : Config) (s : Store) (app : App) (resource aud : String) (roles : List String)
    (role : String)
    → app_only_audience cfg s app resource ≡ some (aud, roles)
    → In role roles
    → (ra : App) × (find_resource_app s resource ≡ some ra) × IsGivenRole s app.id ra.id role
unfolding app_only_audience
given_lem cfg s app resource aud roles role e i =
    elim (Bool-cases (resource == cfg.graph_resource_id)) [
      | inl g ↦ absurd (empty (rw g at e))
      | inr a ↦ elim (Bool-cases (fabric_aud resource == "")) [
        | inr f ↦ absurd (empty (rw (a, f) at e))
        | inl b ↦ elim (Bool-cases (databricks_aud resource == "")) [
          | inr f ↦ absurd (empty (rw (a, b, f) at e))
          | inl d ↦ elim (Bool-cases (azure_aud resource == "")) [
            | inr f ↦ absurd (empty (rw (a, b, d, f) at e))
            | inl z ↦ elim (Option-cases (find_resource_app s resource)) [
              | inl missing ↦ ground arith
              | inr (ra, found) ↦
                  let k = rw (a, b, d, z, found) at e in
                  let same : roles_for s app.id ra.id ≡ roles = ground arith in
                  (
                    ra,
                    found,
                    roles_for-IsGivenRole s app.id ra.id role (subst (In role) (sym same) i),
                  )
            ]
          ]
        ]
      ]
    ]
  where
    empty :
        {t : String}
        → ◌≡◌ {A = Option (String × List String)} (some (t, [])) (some (aud, roles))
        → ⊥
    empty h = let same : [] ≡ roles = ground arith in subst (In role) (sym same) i

module _ (c : Crypto) (cfg : Config) (mint : AppMinter) (policy : String → Policy) (now : ℕ) where
  ok_injective :
      (a b : TokenResponse) → ◌≡◌ {A = Result OauthError TokenResponse} (ok a) (ok b) → b ≡ a
  ok_injective a b e = ground arith

  built :
      (app : App) (aud : String) (roles : List String) (resp : TokenResponse)
      → app_minted c cfg mint policy now (build_app_only_response cfg mint policy now app aud roles)
        ≡ ok resp
      → (jwt : String) × (mint app aud roles app.tenant_id now ≡ some jwt)
        × (resp ≡ app_response cfg policy app jwt)
  unfolding build_app_only_response
  built app aud roles resp e = elim (Option-cases (mint app aud roles app.tenant_id now)) [
    | inl failed ↦ ground arith
    | inr (jwt, signed) ↦
        (jwt, signed, ok_injective _ resp (rw (signed, build_app_only_response) at e))
  ]

  guarded :
      (b : Bool) (x : OauthError) (y : Result OauthError TokenResponse) (resp : TokenResponse)
      → (if not b then err x else y) ≡ ok resp
      → (b ≡ true) × (y ≡ ok resp)
  guarded true x y resp e = (refl, e)
  guarded false x y resp e = ground arith

  scopes_lem :
      (s : Store) (app : App) (l : List String) (resp : TokenResponse)
      → for_scopes c cfg mint policy now s app l ≡ ok resp
      → (resource : String) × (default_resource (without_oidc l) ≡ some resource)
        × (for_resource c cfg mint policy now s app (some resource) ≡ ok resp)
  scopes_lem s app [] resp e = ground arith
  scopes_lem s app (sc ∷ scs) resp e =
      elim (Option-cases (default_resource (without_oidc (sc ∷ scs)))) [
        | inl none_at ↦ absurd (no_scope (rw none_at at e))
        | inr (resource, one) ↦ (resource, one, rw one at e)
      ]
    where
      no_scope : for_resource c cfg mint policy now s app none ≡ ok resp → ⊥
      no_scope h = ground arith

  resource_lem :
      (s : Store) (app : App) (resource : String) (resp : TokenResponse)
      → for_resource c cfg mint policy now s app (some resource) ≡ ok resp
      → (aud : String) × (roles : List String) × (app_only_audience cfg s app resource
          ≡ some (aud, roles))
        × (app_minted c cfg mint policy now
              (build_app_only_response cfg mint policy now app aud roles)
            ≡ ok resp)
  resource_lem s app resource resp e = elim (Option-cases (app_only_audience cfg s app resource)) [
    | inl none_at ↦ absurd (no_audience (rw none_at at e))
    | inr ((aud, roles), there) ↦ (aud, roles, there, rw there at e)
  ]
    where
      no_audience : for_audience c cfg mint policy now app resource none ≡ ok resp → ⊥
      no_audience h = ground arith

  granted_lem :
      (check_assertion : App → Option OauthError) (r : ClientRequest) (scope : String) (s : Store)
      (resp : TokenResponse) (app : App)
      → authenticate_client c s now check_assertion r ≡ ok app
      → app.is_confidential ≡ true
      → for_scopes c cfg mint policy now s app (fields scope) ≡ ok resp
      → IsAppOnly c cfg mint policy now check_assertion r scope s resp
  granted_lem check_assertion r scope s resp app client confidential e =
      let (resource, one, k) = scopes_lem s app (fields scope) resp e in
      let (aud, roles, there, m) = resource_lem s app resource resp k in
      let (jwt, signed, answer) = built app aud roles resp m in
      record {
        app = app;
        resource = resource;
        aud = aud;
        roles = roles;
        jwt = jwt;
        client = client;
        confidential = confidential;
        one_scope = one_scope_lem (fields scope) resource one;
        audience = audience_lem cfg s app resource aud roles there;
        signed = signed;
        token = ap (λ (x : TokenResponse). x.access_token) answer;
        lifetime = ap (λ (x : TokenResponse). x.expires_in) answer;
        no_refresh = ap (λ (x : TokenResponse). x.refresh_token) answer;
        given = λ role i. given_lem cfg s app resource aud roles role there i;
      }

  -- The client credentials grant gives a token only to an authenticated confidential client that
  -- asks, beside the reserved scopes, for exactly the default scope of one known resource; the
  -- token has the audience of the resource and no refresh token beside it, and each of its roles is one that is assigned to the
  -- client there or, if the client has no assignment there, an enabled role for applications.
  pub grant_client_credentials-IsAppOnly :
      (check_assertion : App → Option OauthError) (r : ClientRequest) (raw_client scope : String)
      (s : Store) (resp : TokenResponse)
      → grant_client_credentials c cfg mint policy now check_assertion r raw_client scope s
        ≡ ok resp
      → IsAppOnly c cfg mint policy now check_assertion r scope s resp
  unfolding grant_client_credentials
  grant_client_credentials-IsAppOnly check_assertion r raw_client scope s resp e =
      elim (Bool-cases (is_public c cfg mint policy now (get_app s raw_client))) [
        | inl public ↦ ground arith
        | inr a ↦ elim (Result-cases (authenticate_client c s now check_assertion r)) [
          | inr (x, refused) ↦ ground arith
          | inl (app, client) ↦
              let (confidential, k) =
                guarded app.is_confidential (confidential_required c cfg mint policy now)
                  (for_scopes c cfg mint policy now s app (fields scope)) resp
                  (rw (a, client, grant_client_credentials) at e) in
              granted_lem check_assertion r scope s resp app client confidential k
        ]
      ]
