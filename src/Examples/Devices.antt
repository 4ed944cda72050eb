-- ===== src/Examples/Devices.antt =====
-- A device that polls, and the user who approves it.
use entra_emulator.Prelude.{
  String, ◌≡◌, refl, ◌⊎◌, inl, inr, false, some, [], ◌∷◌, select_first, select, update, count,
  exists,
}
use entra_emulator.Text.{fields, cut_last_slash, has_prefix, before_suffix}
use entra_emulator.Store.Types.{DeviceCode, Store, ok, err}
use entra_emulator.Store.Directory.{get_user, get_app_by_id_uri, list_scopes}
use entra_emulator.Store.Sessions.{get_session}
use entra_emulator.Store.Devices.{
  has_device_hash, get_device_code_by_hash, get_device_code_by_user_code, set_device_code_decision,
  consume_approved_device_code,
}
use entra_emulator.Identity.Scopes.{
  ResolvedScopes, set_resource, grant_for, find_resource_app, app_exposes_scope, resolve_registered,
  resolve_scope, resolve_all, resolve_delegated_scopes,
}
use entra_emulator.Identity.Scopes.Sound.{IsAsked, AreGranted, resolve_delegated_scopes_sound}
use entra_emulator.Identity.Resources.{azure_delegated_resource, azure_aud, known_azure_resource}
use entra_emulator.Identity.Sessions.{current_session}
use entra_emulator.Identity.Devices.{DeviceGrant, poll_row, grant_device_code, unknown_device}
use entra_emulator.Identity.Devices.Redeem.{IsApproved, grant_device_code_sound}
use entra_emulator.Identity.Devices.History.{decides, done, Change, DeviceStep-Change}
use entra_emulator.Identity.Devices.Table.{IsTable, DeviceStep-IsTable, grant_device_code_once}
use entra_emulator.Identity.Approval.{
  ApprovalState, load_pending_device_code, device_decide, approved_page,
}
use entra_emulator.Identity.Approval.Decision.{IsDecided, device_decide_lem}
use entra_emulator.Examples.Data.{crypto, config, directory, web, alice, device_row}

abbrev approval_form : ApprovalState
approval_form = record { kind = "device"; user_code = "BCDF-GHJK"; sid = "sid" }

abbrev approved_store : Store
approved_store = record directory {
  device_codes = record device_row { status = "approved"; user_id = "alice" } ∷ [];
}

approves :
    device_decide 100 "sid" "approve" (some approval_form) directory
    ≡ (approved_page, approved_store)
unfolding device_decide current_session get_session get_user load_pending_device_code
    get_device_code_by_user_code set_device_code_decision select_first count update
approves = refl

device_decide_lem_example :
    ((device_decide 100 "sid" "approve" (some approval_form) directory).1 ≡ directory)
    ⊎ IsDecided 100 "sid" "approve"
        (some approval_form)
        directory
        (device_decide 100 "sid" "approve" (some approval_form) directory).1
device_decide_lem_example = device_decide_lem 100 "sid" "approve" (some approval_form) directory

abbrev alice_grant : DeviceGrant
alice_grant = record {
  app = web;
  user = alice;
  scopes = record { granted = "openid" ∷ []; resource = ""; requested = "openid" ∷ [] };
}

polls_ok : (grant_device_code crypto config 100 "d1" web approved_store).0 ≡ ok alice_grant
unfolding grant_device_code poll_row get_device_code_by_hash consume_approved_device_code get_user
    resolve_delegated_scopes resolve_all resolve_scope select_first fields
polls_ok = refl

grant_device_code_sound_example :
    (row : DeviceCode) × (get_device_code_by_hash approved_store "h:d1" ≡ ok row)
    × IsApproved config 100 web row alice_grant
        (grant_device_code crypto config 100 "d1" web approved_store).1
    × (exists
          (has_device_hash "h:d1")
          (grant_device_code crypto config 100 "d1" web approved_store).1.device_codes
        ≡ false)
grant_device_code_sound_example =
    grant_device_code_sound crypto config 100 "d1" web approved_store alice_grant (tt, tt) polls_ok

grant_device_code_once_example :
    grant_device_code crypto config 200 "d1" web
      (grant_device_code crypto config 100 "d1" web approved_store).1
    ≡ (err unknown_device, (grant_device_code crypto config 100 "d1" web approved_store).1)
grant_device_code_once_example =
    grant_device_code_once crypto config 100 "d1" web approved_store
      (grant_device_code crypto config 100 "d1" web approved_store).1 alice_grant
      record { hashes = (tt, tt); user_codes = (tt, tt); states = (inr (inl refl), tt) } polls_ok
      done 200 web

DeviceStep-Change_example :
    Change
      (λ h. Unit {0})
      directory.device_codes
      (device_decide 100 "sid" "approve" (some approval_form) directory).1.device_codes
DeviceStep-Change_example =
    DeviceStep-Change {c = crypto} {cfg = config}
      (decides directory 100 "sid" "approve" (some approval_form))

DeviceStep-IsTable_example :
    IsTable (device_decide 100 "sid" "approve" (some approval_form) directory).1.device_codes
DeviceStep-IsTable_example =
    DeviceStep-IsTable {c = crypto} {cfg = config} {Draws = λ h. Unit {0}}
      (decides directory 100 "sid" "approve" (some approval_form))
      record { hashes = (tt, tt); user_codes = (tt, tt); states = (inl (refl, refl), tt) }

abbrev read_grant : ResolvedScopes
read_grant = record {
  granted = "openid" ∷ "read" ∷ [];
  resource = "api://web";
  requested = "openid" ∷ "api://web/read" ∷ [];
}

resolves :
    resolve_delegated_scopes config directory ("openid" ∷ "api://web/read" ∷ []) ≡ some read_grant
unfolding resolve_delegated_scopes resolve_all resolve_scope resolve_registered grant_for
    set_resource find_resource_app app_exposes_scope get_app_by_id_uri list_scopes select exists
    select_first azure_delegated_resource azure_aud known_azure_resource cut_last_slash has_prefix
    before_suffix
resolves = refl

resolve_delegated_scopes_sound_example :
    (read_grant.requested ≡ "openid" ∷ "api://web/read" ∷ [])
    × AreGranted config directory "api://web"
        ("openid" ∷ "api://web/read" ∷ [])
        ("openid" ∷ "read" ∷ [])
    × (◌≡◌ {A = String} "api://web" ""
        ⊎ IsAsked config directory "api://web" ("openid" ∷ "api://web/read" ∷ []))
resolve_delegated_scopes_sound_example =
    resolve_delegated_scopes_sound config directory ("openid" ∷ "api://web/read" ∷ []) read_grant
      resolves
