-- ===== src/Identity/Errors.antt =====
-- internal/httpx: the error of an OAuth response.
use entra_emulator.Prelude.{String}

-- httpx.OAuthError
pub record OauthError : Type 0 where
  pub error : String
  pub description : String

abbrev pub oauth_error : (error description : String) → OauthError
oauth_error e d = record { error = e; description = d }
