-- ===== src/Store/Logout.antt =====
-- internal/store/frontchannel.go: the applications that a session signed into, and their logout URIs.
use entra_emulator.Store.Types.{not_found, err, ok, App, StoreError, Result, SessionApp, Store}
use entra_emulator.Store.Directory.{app_exists, get_app}
use entra_emulator.Text.Order.{sort_by}
use entra_emulator.Prelude.{
  String, Bool, not, ◌&&◌, ◌||◌, List, [], ◌∷◌, ◌++◌, map, ◌==◌, if◌then◌else◌, select, update,
  delete, exists,
}

abbrev pub is_session_app : (session_id app_id : String) → SessionApp → Bool
is_session_app session_id app_id r = r.session_id == session_id && r.app_id == app_id

abbrev pub of_session : String → SessionApp → Bool
of_session session_id r = r.session_id == session_id

-- UPDATE … WHERE app_id=?; requireRow answers `not_found` where no row has it.
unfoldable pub set_frontchannel_logout_uri :
    (app_id uri : String) → Store → Result StoreError (Unit {0}) × Store
unfolding update
set_frontchannel_logout_uri app_id uri s =
    if app_exists s app_id
    then (
      ok tt,
      record s {
        apps =
            update (λ (a : App). a.id == app_id)
              (λ (a : App). record a { frontchannel_logout_uri = uri }) s.apps;
      },
    )
    else (err not_found, s)

abbrev logout_uri_of : Result StoreError App → Result StoreError String
logout_uri_of (ok a) = ok a.frontchannel_logout_uri
logout_uri_of (err e) = err e

unfoldable pub frontchannel_logout_uri : Store → String → Result StoreError String
frontchannel_logout_uri s app_id = logout_uri_of (get_app s app_id)

-- INSERT OR IGNORE: the pair is the primary key.
unfoldable pub record_session_app : (session_id app_id : String) → Store → Store
unfolding exists
record_session_app session_id app_id s =
    if session_id == "" || app_id == ""
    then s
    else if exists (is_session_app session_id app_id) s.session_apps
    then s
    else record s {
      session_apps = s.session_apps ++ record { session_id = session_id; app_id = app_id } ∷ [];
    }

abbrev pub logs_out : Store → (session_id : String) → App → Bool
logs_out s session_id a =
    exists (is_session_app session_id a.id) s.session_apps && not (a.frontchannel_logout_uri == "")

-- The join, by application: a pair is in session_apps at most once.
unfoldable pub session_logout_uris : Store → (session_id : String) → List String
unfolding select sort_by
session_logout_uris s session_id =
    map (λ (a : App). a.frontchannel_logout_uri)
      (sort_by (λ (a : App). a.id) (select (logs_out s session_id) s.apps))

unfoldable pub forget_session_apps : (session_id : String) → Store → Store
unfolding delete
forget_session_apps session_id s = record s {
  session_apps = delete (of_session session_id) s.session_apps;
}
