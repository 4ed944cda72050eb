-- ===== src/Store/Devices.antt =====
-- internal/store/grants.go: device codes. A redeemed, expired or denied code leaves the table.
use entra_emulator.Prelude.{
  ℕ, code, String, Bool, ◌&&◌, ◌||◌, Option, [], ◌∷◌, ◌++◌, ◌==◌, ltb, eqb, if◌then◌else◌,
  select_first, update, count, delete, exists,
}
use entra_emulator.Store.Types.{
  DeviceCode, Store, StoreError, not_found, conflict, constraint, Result, ok, err, coalesce,
}
use entra_emulator.Store.Directory.{app_exists, row_or_not_found}

abbrev pub has_device_hash : String → DeviceCode → Bool
has_device_hash hash d = d.device_code_hash == hash

abbrev pub has_user_code : String → DeviceCode → Bool
has_user_code code d = d.user_code == code

abbrev pub is_pending : String → DeviceCode → Bool
is_pending code d = d.user_code == code && d.status == "pending"

abbrev pub is_redeemable : (hash app_id : String) (now : ℕ) → DeviceCode → Bool
is_redeemable hash app_id now d =
    d.device_code_hash == hash
    && (d.app_id == app_id && (d.status == "approved" && ltb now d.expires_at))

abbrev pub decide : (status user_id : String) → DeviceCode → DeviceCode
decide status user_id d = record d { status = status; user_id = user_id }

-- INSERT with the primary key, the UNIQUE user code and the client's foreign key.
unfoldable pub insert_device_code : DeviceCode → Store → Result StoreError (Unit {0}) × Store
unfolding exists
insert_device_code d s =
    if exists (has_device_hash d.device_code_hash) s.device_codes
      || exists (has_user_code d.user_code) s.device_codes
    then (err conflict, s)
    else if app_exists s d.app_id
    then (
      ok tt,
      record s {
        device_codes = s.device_codes ++ record d { status = coalesce d.status "pending" } ∷ [];
      },
    )
    else (err constraint, s)

unfoldable pub get_device_code_by_hash : Store → String → Result StoreError DeviceCode
unfolding select_first
get_device_code_by_hash s hash =
    row_or_not_found (select_first (has_device_hash hash) s.device_codes)

unfoldable pub get_device_code_by_user_code : Store → String → Result StoreError DeviceCode
unfolding select_first
get_device_code_by_user_code s code =
    row_or_not_found (select_first (has_user_code code) s.device_codes)

unfoldable pub set_device_code_decision :
    (user_code status user_id : String) → Store → Result StoreError (Unit {0}) × Store
unfolding count update
set_device_code_decision user_code status user_id s =
    if eqb (count (is_pending user_code) s.device_codes) 0 then (err not_found, s) else (
      ok tt,
      record s {
        device_codes = update (is_pending user_code) (decide status user_id) s.device_codes;
      },
    )

-- DELETE … RETURNING: `none` if no row matched.
unfoldable pub consume_approved_device_code :
    (hash app_id : String) (now : ℕ) → Store → Option DeviceCode × Store
unfolding select_first delete
consume_approved_device_code hash app_id now s = (
  select_first (is_redeemable hash app_id now) s.device_codes,
  record s { device_codes = delete (is_redeemable hash app_id now) s.device_codes },
)

unfoldable pub delete_device_code : String → Store → Store
unfolding delete
delete_device_code hash s = record s { device_codes = delete (has_device_hash hash) s.device_codes }

unfoldable pub user_code_exists : Store → String → Bool
unfolding count
user_code_exists s code = ltb 0 (count (has_user_code code) s.device_codes)
