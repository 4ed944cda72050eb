-- ===== src/Identity/Grants/Within.antt =====
-- What a refresh mints, against the grant of the presented token.
use entra_emulator.Prelude.{
  ℕ, ◌<◌, String, ◌≡◌, refl, sym, ap, subst, ◌∙◌, ◌≢◌, ◌⊎◌, inl, inr, true, false, List, [], ◌∷◌,
  arith, ◌==◌, Bool-cases, All, contains, In, contains_of_In,
}
use entra_emulator.Text.{fields}
use entra_emulator.Store.Types.{App, User, RefreshToken, Store, Result-cases, ok}
use entra_emulator.Store.Directory.{get_user}
use entra_emulator.Store.Refresh.{get_refresh_token_by_hash}
use entra_emulator.Tokens.Types.{Config, Crypto}
use entra_emulator.Tokens.Rotation.{RedeemedRefresh, redeem_refresh_token}
use entra_emulator.Tokens.Rotation.Outcome.{redeem_refresh_token_sound}
use entra_emulator.Tokens.Minting.{
  DelegatedGrant, TokenResponse, Minter, Policy, audience, response, build_delegated_response,
}
use entra_emulator.Identity.Grants.{
  enabled_account, refresh_grant, refreshed, narrow_refresh, grant_refresh_token,
}

pub enabled_account-ok :
    (s : Store) (id : String) (u : User)
    → enabled_account s id ≡ ok u
    → (get_user s id ≡ ok u) × (u.account_enabled ≡ true)
enabled_account-ok s id u e = elim (Result-cases (get_user s id)) [
  | inr (x, gone) ↦ ground arith
  | inl (v, found) ↦
      let k = rw (found, enabled_account) at e in
      let same : v ≡ u = ground arith in (found ∙ ap ok same, ground arith)
]

pub granted_itself :
    (scs all : List String)
    → ((x : String) → In x scs → In x all)
    → All (λ (sc : String). contains all sc ≡ true) scs
granted_itself [] all h = tt
granted_itself (sc ∷ scs) all h =
    (contains_of_In all sc (h sc (inl refl)), granted_itself scs all (λ x i. h x (inr i)))

held_scopes :
    (granted requested scopes : List String)
    → All (λ (sc : String). contains granted sc ≡ true) requested
    → ((requested ≡ []) × (scopes ≡ granted)) ⊎ ((requested ≢ []) × (scopes ≡ requested))
    → All (λ (sc : String). contains granted sc ≡ true) scopes
held_scopes granted requested scopes h (inl (none_named, e)) =
    subst (All (λ (sc : String). contains granted sc ≡ true)) (sym e)
      (granted_itself granted granted (λ x i. i))
held_scopes granted requested scopes h (inr (named, e)) =
    subst (All (λ (sc : String). contains granted sc ≡ true)) (sym e) h

-- The token that a refresh answers with, and the row that it rests on.
pub record IsRefreshed (c : Crypto) (cfg : Config) (mint : Minter) (now : ℕ) (app : App)
    (rt : String) (s t : Store) (resp : TokenResponse) : Type 0 where
  pub row : RefreshToken
  pub grant : DelegatedGrant
  pub found : get_refresh_token_by_hash s (c.hash_token rt) ≡ ok row
  pub live : row.revoked ≡ false
  pub client : row.app_id ≡ app.id
  pub in_time : now < row.expires_at
  pub minted : resp.access_token ≡ mint.access grant (audience cfg grant) now
  pub app_kept : grant.app ≡ app
  pub resource : grant.resource ≡ row.resource
  pub user : get_user t row.user_id ≡ ok grant.user
  pub enabled : grant.user.account_enabled ≡ true
  pub subset : All (λ (sc : String). contains (fields row.scopes) sc ≡ true) grant.scopes

module _ (c : Crypto) (cfg : Config) (mint : Minter) (policy : String → Policy) (now : ℕ) where
  build_skip :
      (plain : String) (g : DelegatedGrant) (s : Store)
      → g.skip_refresh_token ≡ true
      → build_delegated_response c cfg mint policy now plain g s
        ≡ (ok (response cfg mint policy now g ""), s)
  unfolding build_delegated_response
  build_skip plain g s e = ground arith

  refreshed-ok :
      (app : App) (echo : List String) (r : RedeemedRefresh) (t : Store) (resp : TokenResponse)
      → (refreshed c cfg mint policy now app echo (ok r, t)).0 ≡ ok resp
      → (u : User) × (get_user t r.user_id ≡ ok u)
        × (u.account_enabled ≡ true)
        × (resp.access_token
            ≡ mint.access
                (refresh_grant c cfg mint policy now app u r echo)
                (audience cfg (refresh_grant c cfg mint policy now app u r echo))
                now)
        × ((refreshed c cfg mint policy now app echo (ok r, t)).1 ≡ t)
  refreshed-ok app echo r t resp e = elim (Result-cases (enabled_account t r.user_id)) [
    | inr (x, stop) ↦ ground arith
    | inl (u, go) ↦
        let (found, on) = enabled_account-ok t r.user_id u go in
        let b = build_skip "" (refresh_grant c cfg mint policy now app u r echo) t refl in
        (u, found, on, ground (arith, b), ground (arith, b))
  ]

  refreshes :
      (successor : String) (app : App) (rt : String) (narrowed echo : List String) (s : Store)
      (resp : TokenResponse)
      → (refreshed c cfg mint policy now app echo
          (redeem_refresh_token c cfg now rt app.id successor narrowed s)).0
        ≡ ok resp
      → IsRefreshed c cfg mint now app rt s
          (refreshed c cfg mint policy now app echo
            (redeem_refresh_token c cfg now rt app.id successor narrowed s)).1
          resp
  refreshes successor app rt narrowed echo s resp e =
      elim (Result-cases (redeem_refresh_token c cfg now rt app.id successor narrowed s).0) [
        | inr (x, stop) ↦ ground arith
        | inl (r, won) ↦
            let t = (redeem_refresh_token c cfg now rt app.id successor narrowed s).1 in
            let (row, found, rot) =
              redeem_refresh_token_sound c cfg now rt app.id successor narrowed s r won in
            let (u, who, on, access, kept) = refreshed-ok app echo r t resp (rw won at e) in
            let there : (refreshed c cfg mint policy now app echo
                  (redeem_refresh_token c cfg now rt app.id successor narrowed s)).1
                ≡ t =
              rw won kept in
            record {
              row = row;
              grant = refresh_grant c cfg mint policy now app u r echo;
              found = found;
              live = rot.allowed.live;
              client = rot.allowed.client;
              in_time = rot.allowed.in_time;
              minted = access;
              app_kept = refl;
              resource = rot.resource;
              user = rw there (ap (λ id. get_user t id) (sym rot.user) ∙ who);
              enabled = on;
              subset =
                  held_scopes (fields row.scopes) narrowed r.scopes rot.allowed.subset rot.scopes;
            }
      ]

-- A refresh that answers with tokens presented a live, unexpired refresh token of this client; the
-- access token is minted for its resource and for its user, who is still enabled, and with scopes
-- that are all in its grant.
pub grant_refresh_token_within :
    (c : Crypto) (cfg : Config) (mint : Minter) (policy : String → Policy) (now : ℕ)
    (successor : String) (app : App) (rt scope : String) (s : Store) (resp : TokenResponse)
    → (grant_refresh_token c cfg mint policy now successor app rt scope s).0 ≡ ok resp
    → IsRefreshed c cfg mint now app rt s
        (grant_refresh_token c cfg mint policy now successor app rt scope s).1
        resp
unfolding grant_refresh_token
grant_refresh_token_within c cfg mint policy now successor app rt scope s resp e =
    elim (Bool-cases (rt == "")) [
      | inl empty ↦ ground arith
      | inr full ↦ elim (Result-cases (narrow_refresh c cfg mint policy now s (fields scope))) [
        | inr (x, stop) ↦ ground arith
        | inl ((narrowed, echo), go) ↦
            rw (full, go, grant_refresh_token)
              (refreshes c cfg mint policy now successor app rt narrowed echo s resp
                (rw (full, go, grant_refresh_token) at e))
      ]
    ]
