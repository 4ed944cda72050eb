-- ===== src/Store/Sessions.antt =====
-- internal/store/grants.go: browser sessions.
use entra_emulator.Prelude.{
  String, Bool, [], ◌∷◌, ◌++◌, ◌==◌, if◌then◌else◌, select_first, delete, exists,
}
use entra_emulator.Store.Types.{
  Session, Store, StoreError, conflict, constraint, Result, ok, err, coalesce,
}
use entra_emulator.Store.Directory.{user_exists, row_or_not_found}

abbrev pub has_id : String → Session → Bool
has_id id s = s.id == id

unfoldable pub create_session : Session → Store → Result StoreError (Unit {0}) × Store
unfolding exists
create_session row s =
    if exists (has_id row.id) s.sessions
    then (err conflict, s)
    else if user_exists s row.user_id
    then (
      ok tt,
      record s {
        sessions = s.sessions ++ record row { auth_method = coalesce row.auth_method "pwd" } ∷ [];
      },
    )
    else (err constraint, s)

unfoldable pub get_session : Store → String → Result StoreError Session
unfolding select_first
get_session s id = row_or_not_found (select_first (has_id id) s.sessions)

unfoldable pub delete_session : String → Store → Store
unfolding delete
delete_session id s = record s { sessions = delete (has_id id) s.sessions }
