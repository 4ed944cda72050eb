-- ===== src/Examples/Codes.antt =====
-- Redeeming an authorization code.
use entra_emulator.Prelude.{String, ◌≡◌, refl, ◌≢◌, ◌↔◌, arith, eq_iff, select_first, update, count}
use entra_emulator.Store.Types.{ok}
use entra_emulator.Store.Codes.{get_auth_code, consume_auth_code}
use entra_emulator.Tokens.Codes.{redeem_row, verify_pkce, redeem_auth_code}
use entra_emulator.Tokens.Codes.Redemption.{MayRedeem, redeem_auth_code_iff}
use entra_emulator.Tokens.History.{done}
use entra_emulator.Tokens.History.SingleUse.{IsDenied, redeem_auth_code_once}
use entra_emulator.Examples.Data.{crypto, config, directory, code_row}

redeem_auth_code_iff_example :
    ((redeem_auth_code crypto 100 "c1" "web" "https://app" "v" directory).0 ≡ ok code_row) ↔ (
      (get_auth_code directory "c1" ≡ ok code_row)
      × MayRedeem crypto 100 "web" "https://app" "v" code_row)
redeem_auth_code_iff_example =
    redeem_auth_code_iff crypto 100 "c1" "web" "https://app" "v" directory code_row (tt, tt)

text_ne : ◌≢◌ {A = String} "c1" ""
text_ne e = let k = (eq_iff "c1" "").1 e in ground (arith, k)

redeems : (redeem_auth_code crypto 100 "c1" "web" "https://app" "v" directory).0 ≡ ok code_row
unfolding redeem_auth_code get_auth_code consume_auth_code redeem_row verify_pkce select_first count
    update
redeems = refl

redeem_auth_code_once_example : IsDenied "c1" (
    redeem_auth_code crypto 200 "c1" "other" "https://evil" ""
      (redeem_auth_code crypto 100 "c1" "web" "https://app" "v" directory).1)
redeem_auth_code_once_example =
    redeem_auth_code_once crypto config 100 "c1" "web" "https://app" "v" directory
      (redeem_auth_code crypto 100 "c1" "web" "https://app" "v" directory).1 code_row text_ne
      redeems done 200 "other" "https://evil" ""
