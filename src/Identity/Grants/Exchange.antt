-- ===== src/Identity/Grants/Exchange.antt =====
-- What the exchange of an authorization code mints, against the authorization.
use entra_emulator.Prelude.{
  ℕ, code, String, ◌≡◌, refl, subst, ◌⊎◌, inl, inr, true, ◌||◌, List, [], ◌∷◌, arith, ◌==◌,
  Bool-cases, Option-cases, All, contains,
}
use entra_emulator.Text.{fields}
use entra_emulator.Store.Types.{App, User, AuthCode, Store, Result-cases, ok}
use entra_emulator.Store.Directory.{get_user}
use entra_emulator.Store.Codes.{get_auth_code}
use entra_emulator.Tokens.Types.{Config, Crypto}
use entra_emulator.Tokens.Codes.{redeem_auth_code}
use entra_emulator.Tokens.Codes.Redemption.{UniqueCodes, MayRedeem, redeem_auth_code_iff}
use entra_emulator.Tokens.Rotation.{issue_refresh_token}
use entra_emulator.Tokens.Minting.{
  DelegatedGrant, TokenResponse, Minter, Policy, audience, build_delegated_response,
}
use entra_emulator.Identity.Scopes.{oidc_scopes, resolve_delegated_scopes}
use entra_emulator.Identity.Grants.{
  enabled_account, within_grant, narrow_code, code_grant, exchange_row, grant_authorization_code,
}
use entra_emulator.Identity.Grants.Within.{enabled_account-ok, granted_itself}

-- A scope of OIDC, or one that was authorized.
abbrev pub IsAllowed : (granted : List String) → String → Type 0
IsAllowed granted sc = (contains oidc_scopes sc ≡ true) ⊎ (contains granted sc ≡ true)

within_grant_lem :
    (granted scs : List String) → within_grant granted scs ≡ true → All (IsAllowed granted) scs
unfolding within_grant
within_grant_lem granted [] h = tt
within_grant_lem granted (sc ∷ scs) h = elim (Bool-cases (contains oidc_scopes sc)) [
  | inl oidc ↦ (inl oidc, within_grant_lem granted scs (rw oidc at h))
  | inr other ↦ elim (Bool-cases (contains granted sc)) [
    | inl held ↦ (inr held, within_grant_lem granted scs (rw (other, held) at h))
    | inr missing ↦ ground arith
  ]
]

All-IsAllowed :
    (granted scs : List String)
    → All (λ (sc : String). contains granted sc ≡ true) scs
    → All (IsAllowed granted) scs
All-IsAllowed granted [] h = tt
All-IsAllowed granted (sc ∷ scs) (h, hs) = (inr h, All-IsAllowed granted scs hs)

narrow_code-IsAllowed :
    (cfg : Config) (s : Store) (granted raw scopes echo : List String)
    → narrow_code cfg s granted raw ≡ ok (scopes, echo)
    → All (IsAllowed granted) scopes
unfolding narrow_code
narrow_code-IsAllowed cfg s granted [] scopes echo e =
    subst (All (IsAllowed granted)) (ground arith)
      (All-IsAllowed granted granted (granted_itself granted granted (λ x i. i)))
narrow_code-IsAllowed cfg s granted (sc ∷ scs) scopes echo e =
    elim (Option-cases (resolve_delegated_scopes cfg s (sc ∷ scs))) [
      | inl bad ↦ ground arith
      | inr (r, fine) ↦ elim (Bool-cases (within_grant granted r.granted)) [
        | inr wide ↦ ground arith
        | inl inside ↦
            subst (All (IsAllowed granted)) (ground arith)
              (within_grant_lem granted r.granted inside)
      ]
    ]

-- What an exchange rests on; `t` is the store behind the redemption.
pub record IsExchanged (c : Crypto) (cfg : Config) (mint : Minter) (now : ℕ) (app : App)
    (code redirect_uri verifier : String) (s t : Store) (resp : TokenResponse) : Type 0 where
  pub row : AuthCode
  pub grant : DelegatedGrant
  pub found : get_auth_code s code ≡ ok row
  pub allowed : MayRedeem c now app.id redirect_uri verifier row
  pub minted : resp.access_token ≡ mint.access grant (audience cfg grant) now
  pub app_kept : grant.app ≡ app
  pub resource : grant.resource ≡ row.resource
  pub source : grant.auth_code ≡ code
  pub user : get_user t row.user_id ≡ ok grant.user
  pub enabled : grant.user.account_enabled ≡ true
  pub subset : All (IsAllowed (fields row.scopes)) grant.scopes

module _ (c : Crypto) (cfg : Config) (mint : Minter) (policy : String → Policy) (now : ℕ) where
  pub build-access :
      (plain : String) (g : DelegatedGrant) (s : Store) (resp : TokenResponse)
      → (build_delegated_response c cfg mint policy now plain g s).0 ≡ ok resp
      → resp.access_token ≡ mint.access g (audience cfg g) now
  unfolding build_delegated_response issue_refresh_token
  build-access plain g s resp e = ground arith

  exchange_row-ok :
      (plain code : String) (app : App) (raw : List String) (row : AuthCode) (t : Store)
      (resp : TokenResponse)
      → (exchange_row c cfg mint policy now plain code app raw row t).0 ≡ ok resp
      → (u : User) × (scopes : List String) × (echo : List String) × (get_user t row.user_id ≡ ok u)
        × (u.account_enabled ≡ true)
        × All (IsAllowed (fields row.scopes)) scopes
        × (resp.access_token
            ≡ mint.access
                (code_grant app u row code scopes echo)
                (audience cfg (code_grant app u row code scopes echo))
                now)
  exchange_row-ok plain code app raw row t resp e =
      elim (Result-cases (enabled_account t row.user_id)) [
        | inr (x, stop) ↦ ground arith
        | inl (u, go) ↦ elim (Result-cases (narrow_code cfg t (fields row.scopes) raw)) [
          | inr (x, stop) ↦ ground arith
          | inl ((scopes, echo), narrowed) ↦
              let (found, on) = enabled_account-ok t row.user_id u go in
              let g = code_grant app u row code scopes echo in
              let built : (build_delegated_response c cfg mint policy now plain g t).0 ≡ ok resp =
                ground arith in
              (
                u,
                scopes,
                echo,
                found,
                on,
                narrow_code-IsAllowed cfg t (fields row.scopes) raw scopes echo narrowed,
                build-access plain g t resp built,
              )
        ]
      ]

-- An exchange that answers with tokens redeemed a code that may be redeemed; its access token is
-- minted for a grant that names this code, with the resource and the user of the code's row, who is
-- enabled, and in which every scope is a protocol scope of OIDC or one that was authorized. The
-- table's codes are distinct.
pub grant_authorization_code_within :
    (c : Crypto) (cfg : Config) (mint : Minter) (policy : String → Policy) (now : ℕ)
    (plain : String) (app : App) (code redirect_uri verifier scope : String) (s : Store)
    (resp : TokenResponse)
    → UniqueCodes s
    → (grant_authorization_code c cfg mint policy now plain app code redirect_uri verifier scope
        s).0
      ≡ ok resp
    → IsExchanged c cfg mint now app code redirect_uri verifier s
        (redeem_auth_code c now code app.id redirect_uri verifier s).1
        resp
unfolding grant_authorization_code
grant_authorization_code_within c cfg mint policy now plain app code redirect_uri verifier scope s
      resp unique e =
    elim (Bool-cases (code == "" || redirect_uri == "")) [
      | inl empty ↦ ground arith
      | inr full ↦
          elim (Result-cases (redeem_auth_code c now code app.id redirect_uri verifier s).0) [
            | inr (x, stop) ↦ ground arith
            | inl (row, won) ↦
                let t = (redeem_auth_code c now code app.id redirect_uri verifier s).1 in
                let (found, allowed) =
                  (redeem_auth_code_iff c now code app.id redirect_uri verifier s row unique).0
                    won in
                let (u, scopes, echo, who, on, subset, access) =
                  exchange_row-ok c cfg mint policy now plain code app (fields scope) row t resp
                    (rw (full, won) at e) in
                record {
                  row = row;
                  grant = code_grant app u row code scopes echo;
                  found = found;
                  allowed = allowed;
                  minted = access;
                  app_kept = refl;
                  resource = refl;
                  source = refl;
                  user = who;
                  enabled = on;
                  subset = subset;
                }
          ]
    ]
