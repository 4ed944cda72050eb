-- ===== src/Identity/Token/Authenticated.antt =====
-- What every response of the token endpoint rests on.
use entra_emulator.Identity.Token.{
  fault_error, unsupported, oauth_error, dispatched, faulted, grant_type_of, handle_token,
  authorization_code, refresh_token, client_credentials, password, jwt_bearer, device_code,
  authenticate_client, err, behind_client, ok, GrantType, TokenResponse, Result, run_grant,
  OauthError, App, tenant_segment, Policy, Store, TokenRequest,
}
use entra_emulator.Faults.{token_fault, FaultConfig}
use entra_emulator.Identity.AppOnly.Within.{grant_client_credentials-IsAppOnly}
use entra_emulator.Identity.AppOnly.{AppMinter}
use entra_emulator.Tokens.Minting.{Minter}
use entra_emulator.Tokens.Types.{Config, Crypto}
use entra_emulator.Prelude.{
  ℕ, String, ◌≡◌, refl, sym, ap, ◌∙◌, ◌⊎◌, inl, inr, Bool, true, false, not, ◌&&◌, ◌||◌, Option,
  none, some, arith, ◌==◌, if◌then◌else◌, Bool-cases, Option-cases,
}

abbrev pub is_none : Option GrantType → Bool
is_none none = true
is_none (some g) = false

-- A request that is stopped before a grant: by a fault that fires, an unknown tenant, a body that does
-- not parse, or a grant type that is not supported.
abbrev pub stops : Config → FaultConfig → (certain hit : Bool) → TokenRequest → Store → Bool
stops cfg f certain hit r s =
    (not (f.token_error == "") && (certain || hit))
    || not (tenant_segment cfg s r.tenant).1
    || not r.well_formed
    || is_none (grant_type_of (r.form "grant_type"))

module _ (c : Crypto) (cfg : Config) (mint : Minter) (mint_app : AppMinter)
    (policy : String → Policy) (now : ℕ) (check_assertion : App → Option OauthError)
    (plain : String) where
  behind_ok :
      (x : Result OauthError App) (f : App → Store → Result OauthError TokenResponse × Store)
      (s : Store) (resp : TokenResponse)
      → (behind_client c cfg mint mint_app policy now check_assertion plain x f s).0 ≡ ok resp
      → (app : App) × (x ≡ ok app)
  behind_ok (ok app) f s resp e = (app, refl)
  behind_ok (err x) f s resp e = ground arith

  run_ok :
      (g : GrantType) (r : TokenRequest) (s : Store) (resp : TokenResponse)
      → (run_grant c cfg mint mint_app policy now check_assertion plain g r s).0 ≡ ok resp
      → (app : App) × (authenticate_client c s now check_assertion r.client ≡ ok app)
  unfolding run_grant
  run_ok authorization_code r s resp e = behind_ok _ _ s resp e
  run_ok refresh_token r s resp e = behind_ok _ _ s resp e
  run_ok client_credentials r s resp e =
      let way =
        grant_client_credentials-IsAppOnly c cfg mint_app policy now check_assertion r.client
          r.raw_client (r.form "scope") s resp e in
      (way.app, way.client)
  run_ok password r s resp e = behind_ok _ _ s resp e
  run_ok jwt_bearer r s resp e = behind_ok _ _ s resp e
  run_ok device_code r s resp e = behind_ok _ _ s resp e

  parse_first :
      (b : Bool) (x y : Result OauthError TokenResponse × Store)
      → b ≡ true
      → (if not b then x else y) ≡ y
  parse_first true x y e = refl
  parse_first false x y e = ground arith

  parse_second :
      (b : Bool) (x y : Result OauthError TokenResponse × Store)
      → b ≡ false
      → (if not b then x else y) ≡ x
  parse_second true x y e = ground arith
  parse_second false x y e = refl

  known_tenant :
      (r : TokenRequest) (s : Store)
      → (tenant_segment cfg s r.tenant).1 ≡ true
      → faulted c cfg mint mint_app policy now check_assertion plain r none s ≡ (
          if not r.well_formed
          then (err (oauth_error "invalid_request" "AADSTS900144: Malformed request body."), s)
          else dispatched c cfg mint mint_app policy now check_assertion plain r
              (grant_type_of (r.form "grant_type"))
              s)
  known_tenant r s known =
      parse_first (tenant_segment cfg s r.tenant).1
        (err (oauth_error "invalid_request" "AADSTS90002: Unknown tenant."), s)
        (if not r.well_formed
          then (err (oauth_error "invalid_request" "AADSTS900144: Malformed request body."), s)
          else dispatched c cfg mint mint_app policy now check_assertion plain r
              (grant_type_of (r.form "grant_type")) s)
        known

  to_dispatch :
      (r : TokenRequest) (s : Store)
      → (tenant_segment cfg s r.tenant).1 ≡ true
      → r.well_formed ≡ true
      → faulted c cfg mint mint_app policy now check_assertion plain r none s
        ≡ dispatched c cfg mint mint_app policy now check_assertion plain r
            (grant_type_of (r.form "grant_type"))
            s
  to_dispatch r s known parsed =
      known_tenant r s known
      ∙ parse_first r.well_formed
          (err (oauth_error "invalid_request" "AADSTS900144: Malformed request body."), s)
          (dispatched c cfg mint mint_app policy now check_assertion plain r
            (grant_type_of (r.form "grant_type")) s)
          parsed

  through :
      (f : FaultConfig) (certain hit : Bool) (r : TokenRequest) (s : Store) (g : GrantType)
      → (token_fault f certain hit).1 ≡ none
      → (tenant_segment cfg s r.tenant).1 ≡ true
      → r.well_formed ≡ true
      → grant_type_of (r.form "grant_type") ≡ some g
      → handle_token c cfg mint mint_app policy now check_assertion plain f certain hit r s
        ≡ run_grant c cfg mint mint_app policy now check_assertion plain g r s
  unfolding handle_token
  through f certain hit r s g quiet known parsed named =
      ap (λ o. faulted c cfg mint mint_app policy now check_assertion plain r o s) quiet
      ∙ (to_dispatch r s known parsed
          ∙ ap (λ o. dispatched c cfg mint mint_app policy now check_assertion plain r o s) named)

  -- A response with tokens rests, whatever the grant, on a request for a known tenant that no fault
  -- stops, that parses and names a supported grant type, and whose client authenticateClient accepts.
  pub handle_token-authenticate_client :
      (f : FaultConfig) (certain hit : Bool) (r : TokenRequest) (s : Store) (resp : TokenResponse)
      → (handle_token c cfg mint mint_app policy now check_assertion plain f certain hit r s).0
        ≡ ok resp
      → ((token_fault f certain hit).1 ≡ none)
        × ((tenant_segment cfg s r.tenant).1 ≡ true)
        × (r.well_formed ≡ true)
        × ((g : GrantType) × (grant_type_of (r.form "grant_type") ≡ some g))
        × ((app : App) × (authenticate_client c s now check_assertion r.client ≡ ok app))
  unfolding handle_token
  handle_token-authenticate_client f certain hit r s resp e =
      elim (Option-cases (token_fault f certain hit).1) [
        | inr (x, fault) ↦ ground arith
        | inl quiet ↦ elim (Bool-cases (tenant_segment cfg s r.tenant).1) [
          | inr unknown ↦ ground arith
          | inl known ↦ elim (Bool-cases r.well_formed) [
            | inr malformed ↦ ground arith
            | inl parsed ↦ elim (Option-cases (grant_type_of (r.form "grant_type"))) [
              | inl other ↦ ground arith
              | inr (g, named) ↦ (
                quiet,
                known,
                parsed,
                (g, named),
                run_ok g r s resp (
                    ap (λ x. x.0) (sym (through f certain hit r s g quiet known parsed named)) ∙ e),
              )
            ]
          ]
        ]
      ]

  fault_code :
      (f : FaultConfig) (certain hit : Bool) (x : String × String)
      → (token_fault f certain hit).1 ≡ some x
      → (fault_error x).error ≡ f.token_error
  unfolding token_fault
  fault_code f certain hit x e = ground arith

  quiet_lem :
      (f : FaultConfig) (certain hit : Bool)
      → (token_fault f certain hit).1 ≡ none
      → (not (f.token_error == "") && (certain || hit)) ≡ false
  unfolding token_fault
  quiet_lem f certain hit e = ground arith

  unfaulted_stops :
      (r : TokenRequest) (s : Store)
      → (not (tenant_segment cfg s r.tenant).1
          || not r.well_formed
          || is_none (grant_type_of (r.form "grant_type")))
        ≡ true
      → (e : OauthError) × (faulted c cfg mint mint_app policy now check_assertion plain r none s
          ≡ (err e, s))
        × ((e.error ≡ "invalid_request") ⊎ (e.error ≡ "unsupported_grant_type"))
  unfaulted_stops r s h = elim (Bool-cases (tenant_segment cfg s r.tenant).1) [
    | inr unknown ↦
        (oauth_error "invalid_request" "AADSTS90002: Unknown tenant.", rw unknown refl, inl refl)
    | inl known ↦ elim (Bool-cases r.well_formed) [
      | inr malformed ↦ (
        oauth_error "invalid_request" "AADSTS900144: Malformed request body.",
        known_tenant r s known
            ∙ parse_second r.well_formed
                (err (oauth_error "invalid_request" "AADSTS900144: Malformed request body."), s)
                (dispatched c cfg mint mint_app policy now check_assertion plain r
                  (grant_type_of (r.form "grant_type")) s)
                malformed,
        inl refl,
      )
      | inl parsed ↦ elim (Option-cases (grant_type_of (r.form "grant_type"))) [
        | inr (g, named) ↦ ground arith
        | inl other ↦ (
          unsupported (r.form "grant_type"),
          to_dispatch r s known parsed
              ∙ ap (λ o. dispatched c cfg mint mint_app policy now check_assertion plain r o s)
                  other,
          inr refl,
        )
      ]
    ]
  ]

  -- A request that a fault stops, that is for an unknown tenant, does not parse or names no supported
  -- grant type changes nothing, and is answered by an error: the fault's, invalid_request or
  -- unsupported_grant_type.
  pub handle_token-stops :
      (f : FaultConfig) (certain hit : Bool) (r : TokenRequest) (s : Store)
      → stops cfg f certain hit r s ≡ true
      → (e : OauthError) × (handle_token c cfg mint mint_app policy now check_assertion plain f
            certain hit r s
          ≡ (err e, s))
        × ((e.error ≡ f.token_error)
            ⊎ ((e.error ≡ "invalid_request") ⊎ (e.error ≡ "unsupported_grant_type")))
  unfolding handle_token
  handle_token-stops f certain hit r s h = elim (Option-cases (token_fault f certain hit).1) [
    | inr (x, fault) ↦ (
      fault_error x,
      ap (λ o. faulted c cfg mint mint_app policy now check_assertion plain r o s) fault,
      inl (fault_code f certain hit x fault),
    )
    | inl quiet ↦
        let (e, way, kind) = unfaulted_stops r s (rw (quiet_lem f certain hit quiet) at h) in
        (
          e,
          ap (λ o. faulted c cfg mint mint_app policy now check_assertion plain r o s) quiet ∙ way,
          inr kind,
        )
  ]
