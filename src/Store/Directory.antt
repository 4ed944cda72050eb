-- ===== src/Store/Directory.antt =====
-- internal/store: the reads of users, applications, scopes and redirect URIs that the grants use.
use entra_emulator.Prelude.{
  length, drop, take, ℕ, String, ◌≡◌, Bool, true, false, not, ◌&&◌, ◌||◌, Option, none, some, List,
  [], ◌∷◌, arith, ◌==◌, leb, eqb, if◌then◌else◌, select_first, select, exists,
}
use entra_emulator.Text.Order.{sort_by}
use entra_emulator.Text.{eq_nocase}
use entra_emulator.Store.Types.{
  Tenant, User, App, AppScope, AppSecret, RedirectUri, Store, StoreError, not_found, Result, ok,
  err, nullable_eq,
}

abbrev pub row_or_not_found {ℓ} : {A : Type ℓ} → Option A → Result StoreError A
row_or_not_found none = err not_found
row_or_not_found (some a) = ok a

pub row_of_get {ℓ} :
    {A : Type ℓ} (o : Option A) (row : A) → row_or_not_found o ≡ ok row → o ≡ some row
row_of_get none row e = ground arith
row_of_get (some r) row e = ground arith

unfoldable pub get_tenant_by_id : Store → String → Result StoreError Tenant
unfolding select_first
get_tenant_by_id s id = row_or_not_found (select_first (λ (t : Tenant). t.id == id) s.tenants)

unfoldable pub get_user : Store → String → Result StoreError User
unfolding select_first
get_user s id = row_or_not_found (select_first (λ (u : User). u.id == id) s.users)

unfoldable pub get_app : Store → String → Result StoreError App
unfolding select_first
get_app s id = row_or_not_found (select_first (λ (a : App). a.id == id) s.apps)

unfoldable pub get_app_by_id_uri : Store → String → Result StoreError App
unfolding select_first
get_app_by_id_uri s uri =
    row_or_not_found (select_first (λ (a : App). nullable_eq a.app_id_uri uri) s.apps)

-- The foreign keys of the grant tables.
unfoldable pub user_exists : Store → String → Bool
unfolding exists
user_exists s id = exists (λ (u : User). u.id == id) s.users

unfoldable pub app_exists : Store → String → Bool
unfolding exists
app_exists s id = exists (λ (a : App). a.id == id) s.apps

unfoldable pub has_redirect_uri : Store → String → String → Bool
unfolding exists
has_redirect_uri s app_id uri =
    exists (λ (r : RedirectUri). r.app_id == app_id && r.uri == uri) s.redirect_uris

unfoldable pub list_scopes : Store → String → List AppScope
unfolding select
list_scopes s app_id = select (λ (sc : AppScope). sc.app_id == app_id) s.app_scopes

unfoldable pub list_secrets : Store → String → List AppSecret
unfolding select
list_secrets s app_id = select (λ (sec : AppSecret). sec.app_id == app_id) s.app_secrets

unfoldable pub get_user_by_upn : Store → String → Result StoreError User
unfolding select_first
get_user_by_upn s upn =
    row_or_not_found (select_first (λ (u : User). eq_nocase u.user_principal_name upn) s.users)

-- `verify` is VerifySecret.
abbrev pub check_password :
    (verify : String → String → Bool) → String → Result StoreError User → Result StoreError User
check_password verify password (err e) = err e
check_password verify password (ok u) =
    if not u.account_enabled || (u.password_hash == "" || not (verify password u.password_hash))
    then err not_found
    else ok u

unfoldable pub verify_password :
    (verify : String → String → Bool) → Store → (upn password : String) → Result StoreError User
verify_password verify s upn password = check_password verify password (get_user_by_upn s upn)

-- The loop of VerifyAppSecret: an expiry of 0 is none.
unfoldable pub matches_secret :
    (verify : String → String → Bool) → (now : ℕ) → String → List AppSecret → Bool
matches_secret verify now plain [] = false
matches_secret verify now plain (sec ∷ secs) =
    let rest = matches_secret verify now plain secs in
    if not (eqb sec.expires_at 0) && leb sec.expires_at now
    then rest
    else if verify plain sec.secret_hash
    then true
    else rest

unfoldable pub verify_app_secret :
    (verify : String → String → Bool) → Store → (now : ℕ) → (app_id plain : String) → Bool
unfolding matches_secret
verify_app_secret verify s now app_id plain =
    matches_secret verify now plain (list_secrets s app_id)

-- SELECT … ORDER BY id LIMIT ? OFFSET ?, and the count: ListUsers without a search.
unfoldable pub list_users : Store → (top skip : ℕ) → List User × ℕ
unfolding sort_by
list_users s top skip =
    (take top (drop skip (sort_by (λ (u : User). u.id) s.users)), length s.users)
