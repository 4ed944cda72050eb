-- ===== src/Tokens/Keys.antt =====
-- internal/tokens: the rotation of the signing key. Generating and encoding a key are arguments.
pub mod Rotate
use entra_emulator.Prelude.{ℕ, ◌+◌, String, true}
use entra_emulator.Store.Types.{SigningKey, StoreError, ok, err}
use entra_emulator.Store.Keys.{
  get_active_signing_key, demote_active_signing_keys, insert_signing_key,
}
use entra_emulator.Tokens.Types.{Config, Exec, ◌>>=◌}

-- What rsa.GenerateKey, publicJWKFor and the PKCS 8 encoding returned.
pub record KeyMaterial : Type 0 where
  pub kid : String
  pub public_jwk : String
  pub private_pkcs8 : String

abbrev pub fresh_key : (tenant : String) (now : ℕ) → KeyMaterial → SigningKey
fresh_key tenant now m = record {
  kid = m.kid;
  tenant_id = tenant;
  alg = "RS256";
  public_jwk = m.public_jwk;
  private_pkcs8 = m.private_pkcs8;
  is_active = true;
  created_at = now;
  not_after = 0;
}

-- The key's identifier stands for the signer.
unfoldable pub generate_and_activate :
    (tenant : String) (now : ℕ) → KeyMaterial → Exec StoreError String
generate_and_activate tenant now m =
    insert_signing_key (fresh_key tenant now m) >>= λ _ s. (ok m.kid, s)

unfoldable pub ensure_active_key :
    (tenant : String) (now : ℕ) → KeyMaterial → Exec StoreError String
ensure_active_key tenant now m s = elim (get_active_signing_key s tenant) [
  | ok k ↦ (ok k.kid, s)
  | err _ ↦ generate_and_activate tenant now m s
]

unfoldable pub rotate : Config → (now grace_seconds : ℕ) → KeyMaterial → Exec StoreError String
rotate cfg now grace m s =
    generate_and_activate cfg.tenant_id now m
      (demote_active_signing_keys cfg.tenant_id (now + grace) s)
