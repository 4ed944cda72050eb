-- ===== src/Tokens/Lifetimes.antt =====
-- internal/store/tokenlifetime.go: the policies on the lifetimes of tokens.
pub mod TimeSpan
pub mod Assigned
use entra_emulator.Store.Types.{
  constraint, conflict, not_found, err, ok, StoreError, AppPolicy, Result, Store,
  TokenLifetimePolicy,
}
use entra_emulator.Store.Directory.{app_exists, row_or_not_found}
use entra_emulator.Tokens.Lifetimes.TimeSpan.{parse_time_span}
use entra_emulator.Tokens.Minting.{Policy}
use entra_emulator.Prelude.{
  ℕ, String, Bool, ◌&&◌, Option, none, some, List, [], ◌∷◌, ◌++◌, ◌==◌, leb, if◌then◌else◌,
  select_first, select, delete, exists,
}

unfoldable pub get_token_lifetime_policy : Store → String → Result StoreError TokenLifetimePolicy
unfolding select_first
get_token_lifetime_policy s id =
    row_or_not_found
      (select_first (λ (p : TokenLifetimePolicy). p.id == id) s.token_lifetime_policies)

-- INSERT, with the primary key.
unfoldable pub create_token_lifetime_policy :
    TokenLifetimePolicy → Store → Result StoreError (Unit {0}) × Store
unfolding exists
create_token_lifetime_policy p s =
    if exists (λ (q : TokenLifetimePolicy). q.id == p.id) s.token_lifetime_policies
    then (err conflict, s)
    else (ok tt, record s { token_lifetime_policies = s.token_lifetime_policies ++ p ∷ [] })

-- DELETE, which cascades to the assignments.
unfoldable pub delete_token_lifetime_policy : String → Store → Result StoreError (Unit {0}) × Store
unfolding exists delete
delete_token_lifetime_policy id s =
    if exists (λ (q : TokenLifetimePolicy). q.id == id) s.token_lifetime_policies
    then (
      ok tt,
      record s {
        token_lifetime_policies =
            delete (λ (q : TokenLifetimePolicy). q.id == id) s.token_lifetime_policies;
        app_token_lifetime_policies =
            delete (λ (a : AppPolicy). a.policy_id == id) s.app_token_lifetime_policies;
      },
    )
    else (err not_found, s)

abbrev pub of_app : String → AppPolicy → Bool
of_app app_id a = a.app_id == app_id

-- The transaction: without the application the INSERT fails, and the DELETE is rolled back.
unfoldable pub assign_token_lifetime_policy :
    (app_id policy_id : String) → Store → Result StoreError (Unit {0}) × Store
unfolding delete
assign_token_lifetime_policy app_id policy_id s = elim (get_token_lifetime_policy s policy_id) [
  | err e ↦ (err e, s)
  | ok _ ↦
      if app_exists s app_id
      then (
        ok tt,
        record s {
          app_token_lifetime_policies =
              delete (of_app app_id) s.app_token_lifetime_policies
              ++ record { app_id = app_id; policy_id = policy_id } ∷ [];
        },
      )
      else (err constraint, s)
]

unfoldable pub unassign_token_lifetime_policy :
    (app_id policy_id : String) → Store → Result StoreError (Unit {0}) × Store
unfolding exists delete
unassign_token_lifetime_policy app_id policy_id s =
    if exists (λ (a : AppPolicy). a.app_id == app_id && a.policy_id == policy_id)
      s.app_token_lifetime_policies
    then (
      ok tt,
      record s {
        app_token_lifetime_policies =
            delete (λ (a : AppPolicy). a.app_id == app_id && a.policy_id == policy_id)
              s.app_token_lifetime_policies;
      },
    )
    else (err not_found, s)

abbrev joined :
    Result StoreError TokenLifetimePolicy → List TokenLifetimePolicy → List TokenLifetimePolicy
joined (ok p) rest = p ∷ rest
joined (err _) rest = rest

-- The join of the assignments with their policies.
unfoldable pub policies_of : Store → List AppPolicy → List TokenLifetimePolicy
policies_of s [] = []
policies_of s (a ∷ rest) = joined (get_token_lifetime_policy s a.policy_id) (policies_of s rest)

unfoldable pub app_token_lifetime_policies : Store → (app_id : String) → List TokenLifetimePolicy
unfolding select policies_of
app_token_lifetime_policies s app_id =
    policies_of s (select (of_app app_id) s.app_token_lifetime_policies)

-- ORDER BY created_at
unfoldable pub insert_by_age :
    TokenLifetimePolicy → List TokenLifetimePolicy → List TokenLifetimePolicy
insert_by_age p [] = p ∷ []
insert_by_age p (q ∷ qs) =
    let later = insert_by_age p qs in
    if leb p.created_at q.created_at then p ∷ q ∷ qs else q ∷ later

unfoldable pub sort_by_age : List TokenLifetimePolicy → List TokenLifetimePolicy
unfolding insert_by_age
sort_by_age [] = []
sort_by_age (p ∷ ps) = insert_by_age p (sort_by_age ps)

-- The three texts of a definition that json.Unmarshal reads.
pub record Definition : Type 0 where
  pub access_token : String
  pub id_token : String
  pub refresh_token : String

abbrev pub no_lifetimes : Policy
no_lifetimes = record { access_token = 0; id_token = 0; refresh_token = 0 }

abbrev or_before : ℕ → Option ℕ → ℕ
or_before before none = before
or_before before (some v) = v

-- `decode` is json.Unmarshal of a definition; `none` is its error.
module _ (decode : String → Option Definition) where
  unfoldable pub parse_definitions : List String → Policy → Policy
  parse_definitions [] out = out
  parse_definitions (raw ∷ rest) out = elim (decode raw) [
    | none ↦ parse_definitions rest out
    | some d ↦ parse_definitions rest record {
      access_token = or_before out.access_token (parse_time_span d.access_token);
      id_token = or_before out.id_token (parse_time_span d.id_token);
      refresh_token = or_before out.refresh_token (parse_time_span d.refresh_token);
    }
  ]

  unfoldable pub parse_policy_lifetimes : TokenLifetimePolicy → Policy
  unfolding parse_definitions
  parse_policy_lifetimes p = parse_definitions p.definition no_lifetimes

  unfoldable pub first_default : List TokenLifetimePolicy → Policy
  unfolding parse_policy_lifetimes
  first_default [] = no_lifetimes
  first_default (p ∷ ps) =
      let rest = first_default ps in
      if p.is_organization_default then parse_policy_lifetimes p else rest

  abbrev pub effective : List TokenLifetimePolicy → List TokenLifetimePolicy → Policy
  effective [] all = first_default all
  effective (p ∷ ps) all = parse_policy_lifetimes p

  unfoldable pub effective_token_lifetimes : Store → (app_id : String) → Policy
  effective_token_lifetimes s app_id =
      effective (app_token_lifetime_policies s app_id) (sort_by_age s.token_lifetime_policies)
