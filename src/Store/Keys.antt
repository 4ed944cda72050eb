-- ===== src/Store/Keys.antt =====
-- internal/store/grants.go: signing keys. A `not_after` that is NULL in the database is 0.
use entra_emulator.Prelude.{
  ℕ, String, Bool, false, ◌&&◌, ◌||◌, List, [], ◌∷◌, ◌++◌, ◌==◌, ltb, leb, eqb, if◌then◌else◌,
  select_first, select, update, exists,
}
use entra_emulator.Store.Types.{
  SigningKey, Tenant, Store, StoreError, conflict, constraint, Result, ok, err, coalesce,
}
use entra_emulator.Store.Directory.{row_or_not_found}

abbrev pub is_active_in : String → SigningKey → Bool
is_active_in tenant k = k.tenant_id == tenant && k.is_active

abbrev pub has_kid : String → SigningKey → Bool
has_kid kid k = k.kid == kid

abbrev pub is_publishable : (tenant : String) (now : ℕ) → SigningKey → Bool
is_publishable tenant now k =
    k.tenant_id == tenant && (k.is_active || (eqb k.not_after 0 || ltb now k.not_after))

unfoldable pub get_active_signing_key : Store → String → Result StoreError SigningKey
unfolding select_first
get_active_signing_key s tenant =
    row_or_not_found (select_first (is_active_in tenant) s.signing_keys)

unfoldable pub get_signing_key : Store → String → Result StoreError SigningKey
unfolding select_first
get_signing_key s kid = row_or_not_found (select_first (has_kid kid) s.signing_keys)

-- ORDER BY created_at, with the insertion order among equals.
unfoldable pub insert_by_created : SigningKey → List SigningKey → List SigningKey
insert_by_created k [] = k ∷ []
insert_by_created k (x ∷ xs) =
    let rest = insert_by_created k xs in
    if leb k.created_at x.created_at then k ∷ x ∷ xs else x ∷ rest

unfoldable pub sort_by_created : List SigningKey → List SigningKey
unfolding insert_by_created
sort_by_created [] = []
sort_by_created (k ∷ ks) = insert_by_created k (sort_by_created ks)

unfoldable pub list_publishable_keys : Store → (tenant : String) (now : ℕ) → List SigningKey
unfolding select
list_publishable_keys s tenant now =
    sort_by_created (select (is_publishable tenant now) s.signing_keys)

abbrev pub retire : (not_after : ℕ) → SigningKey → SigningKey
retire not_after k = record k { is_active = false; not_after = not_after }

unfoldable pub demote_active_signing_keys : (tenant : String) (not_after : ℕ) → Store → Store
unfolding update
demote_active_signing_keys tenant not_after s = record s {
  signing_keys = update (is_active_in tenant) (retire not_after) s.signing_keys;
}

abbrev pub stored_key : SigningKey → SigningKey
stored_key k = record k { alg = coalesce k.alg "RS256" }

unfoldable pub insert_signing_key : SigningKey → Store → Result StoreError (Unit {0}) × Store
unfolding exists
insert_signing_key k s =
    if exists (has_kid k.kid) s.signing_keys
    then (err conflict, s)
    else if exists (λ (t : Tenant). t.id == k.tenant_id) s.tenants
    then (ok tt, record s { signing_keys = s.signing_keys ++ stored_key k ∷ [] })
    else (err constraint, s)
