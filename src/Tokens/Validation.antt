-- ===== src/Tokens/Validation.antt =====
-- internal/tokens/service.go: the validation of an access token behind its signature.
pub mod Accepts
use entra_emulator.Prelude.{
  ℕ, ◌+◌, ◌/◌, String, Bool, true, false, not, ◌||◌, Option, none, some, List, ◌++◌, ◌==◌, ltb,
  if◌then◌else◌, contains,
}
use Prim.Native.String
use entra_emulator.Text.{fields}
use entra_emulator.Tokens.Types.{Config}

abbrev pub clock_skew_seconds : ℕ
clock_skew_seconds = 60

-- The claims that are read, behind VerifyRS256; "" and `none` stand for a missing claim.
pub record Claims : Type 0 where
  pub iss : String
  pub tid : String
  pub exp : Option ℕ
  pub nbf : Option ℕ
  pub aud : String
  pub oid : String
  pub sub : String
  pub scp : String

pub record ValidatedToken : Type 0 where
  pub claims : Claims
  pub oid : String
  pub sub : String
  pub scopes : List String

unfoldable pub issuer_for_tenant : Config → String → String
issuer_for_tenant cfg tid =
    if tid == cfg.tenant_id
    then cfg.issuer
    else String.◌++◌ cfg.login_origin (String.◌++◌ "/" (String.◌++◌ tid "/v2.0"))

abbrev expired : (now : ℕ) → Option ℕ → Bool
expired now none = true
expired now (some exp) = ltb (exp + clock_skew_seconds) now

-- now < nbf - skew
abbrev early : (now : ℕ) → Option ℕ → Bool
early now none = false
early now (some nbf) = ltb (now + clock_skew_seconds) nbf

abbrev pub validated : Claims → ValidatedToken
validated c = record { claims = c; oid = c.oid; sub = c.sub; scopes = fields c.scp }

-- `none` for every error.
unfoldable pub validate_claims :
    Config → (now : ℕ) → (audiences : List String) → Claims → Option ValidatedToken
validate_claims cfg now audiences c =
    if c.tid == "" || not (c.iss == issuer_for_tenant cfg c.tid)
    then none
    else if expired now c.exp
    then none
    else if early now c.nbf
    then none
    else if not (contains audiences c.aud)
    then none
    else some (validated c)

-- `verified` is what the parsing and VerifyRS256 gave.
unfoldable pub validate_access_token :
    Config
    → (now : ℕ) → (verified : Option Claims) → (audiences : List String) → Option ValidatedToken
validate_access_token cfg now none audiences = none
validate_access_token cfg now (some c) audiences = validate_claims cfg now audiences c
