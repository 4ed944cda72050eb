-- ===== src/Tokens/Types.antt =====
-- internal/config and internal/tokens: the configuration that the grants read, the errors of a
-- redemption, and the cryptography as a parameter.
use entra_emulator.Prelude.{ℕ, String, Bool}
use entra_emulator.Store.Types.{Store, StoreError, Result, ok, err}

-- config.Lifetimes, in seconds
pub record Lifetimes : Type 0 where
  pub auth_code : ℕ
  pub access_token : ℕ
  pub id_token : ℕ
  pub refresh_token : ℕ
  pub device_code : ℕ

pub record Config : Type 0 where
  pub tenant_id : String
  pub issuer : String
  pub login_origin : String
  pub graph_origin : String
  pub graph_resource_id : String
  pub lifetimes : Lifetimes
  pub device_interval : ℕ
  pub require_password : Bool
  pub require_consent : Bool

-- Hashes and signatures: crypto/sha256, base64, scrypt and HMAC are not modelled further.
pub record Crypto : Type 0 where
  -- store.HashToken: the hexadecimal SHA-256
  pub hash_token : String → String
  -- the unpadded base64url of the SHA-256, of PKCE's S256
  pub s256 : String → String
  -- store.VerifySecret, of a plaintext and an encoded scrypt hash
  pub verify_secret : String → String → Bool

-- A typed redemption failure, or an error of the store.
pub data RedeemError : Type 0 where
  redeem_err : (code description : String) → RedeemError
  store_err : StoreError → RedeemError

abbrev pub invalid_grant : String → RedeemError
invalid_grant desc = redeem_err "invalid_grant" desc

-- An operation on the store that may fail; what it wrote before it failed stays written.
abbrev pub Exec : Type 0 → Type 0 → Type 0
Exec E A = Store → Result E A × Store

abbrev pub continue : {E A B : Type 0} → (A → Exec E B) → Result E A × Store → Result E B × Store
continue f (ok a, s) = f a s
continue f (err e, s) = (err e, s)

infixl 5 ◌>>=◌
abbrev pub ◌>>=◌ : {E A B : Type 0} → Exec E A → (A → Exec E B) → Exec E B
◌>>=◌ m f s = continue f (m s)

abbrev pub map_err : {E F A : Type 0} → (E → F) → Result E A × Store → Result F A × Store
map_err f (ok a, s) = (ok a, s)
map_err f (err e, s) = (err (f e), s)
