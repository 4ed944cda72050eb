-- ===== src/Tokens/History.antt =====
-- The token service's operations on codes and refresh tokens, in any order, by any clients.
pub mod Frames
pub mod SingleUse
pub mod Chains
pub mod Rotations
pub mod OneLive
use entra_emulator.Prelude.{ℕ, code, String, ◌≡◌, List}
use entra_emulator.Store.Types.{Store}
use entra_emulator.Tokens.Types.{Config, Crypto}
use entra_emulator.Tokens.Codes.{AuthCodeRequest, issue_auth_code, redeem_auth_code}
use entra_emulator.Tokens.Rotation.{RefreshRequest, issue_refresh_token, redeem_refresh_token}

-- One call of the service. No caller of IssueRefreshToken sets RotatedFrom.
-- The database serialises the calls (SetMaxOpenConns(1)).
pub data Step (c : Crypto) (cfg : Config) : Store → Store → Type 0 where
  issues_code :
      (s : Store) (now : ℕ) (code : String) (r : AuthCodeRequest)
      → Step c cfg s (issue_auth_code cfg now code r s).1
  redeems_code :
      (s : Store) (now : ℕ) (code app_id redirect_uri verifier : String)
      → Step c cfg s (redeem_auth_code c now code app_id redirect_uri verifier s).1
  issues_refresh :
      (s : Store) (refresh_sec now : ℕ) (plain : String) (r : RefreshRequest)
      → r.rotated_from ≡ ""
      → Step c cfg s (issue_refresh_token c refresh_sec now plain r s).1
  redeems_refresh :
      (s : Store) (now : ℕ) (plaintext app_id successor : String) (requested : List String)
      → Step c cfg s (redeem_refresh_token c cfg now plaintext app_id successor requested s).1

pub data Steps (c : Crypto) (cfg : Config) (s : Store) : Store → Type 0 where
  done : Steps c cfg s s
  more : {t u : Store} → Steps c cfg s t → Step c cfg t u → Steps c cfg s u
