-- ===== src/Tokens/History/Frames.antt =====
-- The authorization codes under the calls on refresh tokens.
use entra_emulator.Prelude.{ℕ, code, String, ◌≡◌, inl, inr, List, arith}
use entra_emulator.Store.Types.{RefreshToken, Store, Result-cases}
use entra_emulator.Store.Refresh.{
  insert_refresh_token, rotate_refresh_token, revoke_refresh_tokens_for_auth_code,
  get_refresh_token_by_hash,
}
use entra_emulator.Store.Family.{revoke_refresh_token_family}
use entra_emulator.Tokens.Types.{Config, Crypto}
use entra_emulator.Tokens.Rotation.{
  successor_of, RefreshRequest, issue_refresh_token, redeem_refresh_row, redeem_refresh_token,
}

pub codes-rotate :
    (old : String) (t : RefreshToken) (s : Store)
    → (rotate_refresh_token old t s).1.authorization_codes ≡ s.authorization_codes
unfolding rotate_refresh_token
codes-rotate old t s = ground arith

pub codes-revoke_family :
    (h : String) (s : Store)
    → (revoke_refresh_token_family h s).authorization_codes ≡ s.authorization_codes
unfolding revoke_refresh_token_family
codes-revoke_family h s = ground arith

pub codes-redeem_refresh_row :
    (c : Crypto) (cfg : Config) (now : ℕ) (hash app_id successor : String) (requested : List String)
    (row : RefreshToken) (s : Store)
    → (redeem_refresh_row c cfg now hash app_id successor requested row s).1.authorization_codes
      ≡ s.authorization_codes
unfolding redeem_refresh_row
codes-redeem_refresh_row c cfg now hash app_id successor requested row s = ground (
  arith,
  codes-rotate hash (successor_of c cfg now app_id successor row) s,
  codes-revoke_family hash s,
  codes-revoke_family hash
      (rotate_refresh_token hash (successor_of c cfg now app_id successor row) s).1,
)

pub codes-redeem_refresh :
    (c : Crypto) (cfg : Config) (now : ℕ) (plaintext app_id successor : String)
    (requested : List String) (s : Store)
    → (redeem_refresh_token c cfg now plaintext app_id successor requested s).1.authorization_codes
      ≡ s.authorization_codes
unfolding redeem_refresh_token
codes-redeem_refresh c cfg now plaintext app_id successor requested s =
    elim (Result-cases (get_refresh_token_by_hash s (c.hash_token plaintext))) [
      | inl (row, e) ↦
          rw (e, redeem_refresh_token)
            (codes-redeem_refresh_row c cfg now (c.hash_token plaintext) app_id successor requested
              row s)
      | inr (x, e) ↦ ground arith
    ]

pub codes-issue_refresh :
    (c : Crypto) (refresh_sec now : ℕ) (plain : String) (r : RefreshRequest) (s : Store)
    → (issue_refresh_token c refresh_sec now plain r s).1.authorization_codes
      ≡ s.authorization_codes
unfolding issue_refresh_token insert_refresh_token
codes-issue_refresh c refresh_sec now plain r s = ground arith

pub codes-revoke_for_code :
    (code : String) (s : Store)
    → (revoke_refresh_tokens_for_auth_code code s).1.authorization_codes ≡ s.authorization_codes
unfolding revoke_refresh_tokens_for_auth_code
codes-revoke_for_code code s = ground arith
