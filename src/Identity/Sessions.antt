-- ===== src/Identity/Sessions.antt =====
-- internal/identity/identity.go: browser sessions and the tenant of a request.
use entra_emulator.Prelude.{
  ℕ, ◌+◌, String, Bool, true, false, not, ◌||◌, Option, none, some, List, [], ◌∷◌, ◌==◌, leb,
  if◌then◌else◌,
}
use entra_emulator.Store.Types.{Session, User, Store, StoreError, Result, ok, err}
use entra_emulator.Store.Directory.{get_user, get_tenant_by_id}
use entra_emulator.Store.Sessions.{create_session, get_session, delete_session}
use entra_emulator.Tokens.Types.{Config}

abbrev pub session_lifetime_seconds : ℕ
session_lifetime_seconds = 28800

abbrev enabled_user : Session → Result StoreError User → Option (Session × User)
enabled_user sess (err _) = none
enabled_user sess (ok user) = if not user.account_enabled then none else some (sess, user)

abbrev live_session : Store → (now : ℕ) → Result StoreError Session → Option (Session × User)
live_session s now (err _) = none
live_session s now (ok sess) =
    if leb sess.expires_at now then none else enabled_user sess (get_user s sess.user_id)

-- `cookie` is the value of ee_session, "" where the request has none.
unfoldable pub current_session : Store → (now : ℕ) (cookie : String) → Option (Session × User)
current_session s now cookie =
    if cookie == "" then none else live_session s now (get_session s cookie)

abbrev session_row : (now : ℕ) (id user_id method : String) → Session
session_row now id user_id method = record {
  id = id;
  user_id = user_id;
  auth_method = if method == "" then "pwd" else method;
  created_at = now;
  expires_at = now + session_lifetime_seconds;
}

abbrev started : Session → Result StoreError (Unit {0}) × Store → Option Session × Store
started row (ok _, s) = (some row, s)
started row (err _, s) = (none, s)

-- `id` is what NewOpaqueToken(24) returned; it is also the cookie that is set.
unfoldable pub start_session :
    (now : ℕ) (id user_id method : String) → Store → Option Session × Store
start_session now id user_id method s =
    started (session_row now id user_id method)
      (create_session (session_row now id user_id method) s)

unfoldable pub clear_session : (cookie : String) → Store → Store
clear_session cookie s = if not (cookie == "") then delete_session cookie s else s

unfoldable pub enabled_directory_accounts : List User → List User
enabled_directory_accounts [] = []
enabled_directory_accounts (u ∷ us) =
    let rest = enabled_directory_accounts us in if u.account_enabled then u ∷ rest else rest

-- The tenant, and whether the request names one.
unfoldable pub tenant_segment : Config → Store → String → String × Bool
tenant_segment cfg s seg =
    if seg == cfg.tenant_id || (seg == "common" || (seg == "organizations" || seg == "consumers"))
    then (cfg.tenant_id, true)
    else elim (get_tenant_by_id s seg) [ ok _ ↦ (seg, true) | err _ ↦ (seg, false) ]
