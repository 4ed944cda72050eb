-- ===== src/Store/Codes.antt =====
-- internal/store/grants.go: authorization codes.
use entra_emulator.Prelude.{
  code, String, Bool, true, false, not, ◌&&◌, [], ◌∷◌, ◌++◌, ◌==◌, eqb, if◌then◌else◌, select_first,
  update, count, exists,
}
use entra_emulator.Store.Types.{AuthCode, Store, StoreError, conflict, constraint, Result, ok, err}
use entra_emulator.Store.Directory.{user_exists, app_exists, row_or_not_found}

abbrev pub has_code : String → AuthCode → Bool
has_code code c = c.code == code

abbrev pub is_unconsumed : String → AuthCode → Bool
is_unconsumed code c = c.code == code && not c.consumed

-- INSERT of a row with its primary key and its foreign keys; `consumed` starts as 0.
unfoldable pub insert_auth_code : AuthCode → Store → Result StoreError (Unit {0}) × Store
unfolding exists
insert_auth_code c s =
    if exists (has_code c.code) s.authorization_codes
    then (err conflict, s)
    else if app_exists s c.app_id && user_exists s c.user_id
    then (
      ok tt,
      record s {
        authorization_codes = s.authorization_codes ++ record c { consumed = false } ∷ [];
      },
    )
    else (err constraint, s)

unfoldable pub get_auth_code : Store → String → Result StoreError AuthCode
unfolding select_first
get_auth_code s code = row_or_not_found (select_first (has_code code) s.authorization_codes)

-- UPDATE … SET consumed=1 WHERE code=? AND consumed=0; true if it changed one row.
unfoldable pub consume_auth_code : String → Store → Bool × Store
unfolding count update
consume_auth_code code s = (
  eqb (count (is_unconsumed code) s.authorization_codes) 1,
  record s {
    authorization_codes =
        update (is_unconsumed code) (λ c. record c { consumed = true }) s.authorization_codes;
  },
)
