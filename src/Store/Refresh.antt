-- ===== src/Store/Refresh.antt =====
-- internal/store/grants.go: refresh tokens. The table keeps revoked and expired rows.
use entra_emulator.Prelude.{
  ℕ, code, String, Bool, true, false, not, ◌&&◌, [], ◌∷◌, ◌++◌, ◌==◌, eqb, if◌then◌else◌,
  select_first, update, count, exists,
}
use entra_emulator.Store.Types.{
  RefreshToken, Store, StoreError, conflict, constraint, Result, ok, err, nullable_eq,
}
use entra_emulator.Store.Directory.{user_exists, app_exists, row_or_not_found}

abbrev pub has_hash : String → RefreshToken → Bool
has_hash hash t = t.token_hash == hash

abbrev pub is_live : String → RefreshToken → Bool
is_live hash t = t.token_hash == hash && not t.revoked

abbrev pub revoke : RefreshToken → RefreshToken
revoke t = record t { revoked = true }

abbrev pub descends_from : String → RefreshToken → Bool
descends_from code t = nullable_eq t.auth_code code && not t.revoked

unfoldable pub get_refresh_token_by_hash : Store → String → Result StoreError RefreshToken
unfolding select_first
get_refresh_token_by_hash s hash = row_or_not_found (select_first (has_hash hash) s.refresh_tokens)

-- INSERT with its primary key and its foreign keys; `revoked` starts as 0.
unfoldable pub insert_refresh_token : RefreshToken → Store → Result StoreError (Unit {0}) × Store
unfolding exists
insert_refresh_token t s =
    if exists (has_hash t.token_hash) s.refresh_tokens
    then (err conflict, s)
    else if app_exists s t.app_id && user_exists s t.user_id
    then (
      ok tt,
      record s { refresh_tokens = s.refresh_tokens ++ record t { revoked = false } ∷ [] },
    )
    else (err constraint, s)

abbrev revoke_live : String → Store → Store
revoke_live hash s = record s { refresh_tokens = update (is_live hash) revoke s.refresh_tokens }

-- The transaction's second statement: a failed INSERT rolls the UPDATE back.
abbrev commit_successor :
    Store → Result StoreError (Unit {0}) × Store → Result StoreError Bool × Store
commit_successor before (ok _, after) = (ok true, after)
commit_successor before (err e, after) = (err e, before)

-- false: the presented token was revoked already, and no successor is inserted.
unfoldable pub rotate_refresh_token : String → RefreshToken → Store → Result StoreError Bool × Store
unfolding count update insert_refresh_token
rotate_refresh_token old_hash successor s =
    if eqb (count (is_live old_hash) s.refresh_tokens) 1
    then commit_successor s (
        insert_refresh_token (record successor { rotated_from = old_hash })
          (revoke_live old_hash s))
    else (ok false, s)

-- The number of rows that it changed, and the store.
unfoldable pub revoke_refresh_tokens_for_auth_code : String → Store → ℕ × Store
unfolding count update
revoke_refresh_tokens_for_auth_code code s = if code == "" then (0, s) else (
  count (descends_from code) s.refresh_tokens,
  record s { refresh_tokens = update (descends_from code) revoke s.refresh_tokens },
)
