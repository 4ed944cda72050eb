-- ===== src/Examples/Keys.antt =====
-- A rotation of the signing key.
use entra_emulator.Prelude.{String, ◌≡◌, refl, [], ◌∷◌, update, exists}
use entra_emulator.Store.Types.{Store, ok}
use entra_emulator.Store.Keys.{demote_active_signing_keys, insert_signing_key}
use entra_emulator.Tokens.Keys.{KeyMaterial, fresh_key, generate_and_activate, rotate}
use entra_emulator.Tokens.Keys.Rotate.{IsRotation, rotate_lem}
use entra_emulator.Examples.Data.{config, directory}

abbrev material : KeyMaterial
material = record { kid = "k2"; public_jwk = "jwk"; private_pkcs8 = "pem" }

abbrev keyed : Store
keyed = record directory {
  signing_keys =
      fresh_key "contoso" 1 record { kid = "k1"; public_jwk = "j"; private_pkcs8 = "p" } ∷ [];
}

rotates : (rotate config 100 3600 material keyed).0 ≡ ok "k2"
unfolding rotate generate_and_activate insert_signing_key demote_active_signing_keys update exists
rotates = refl

rotate_lem_example :
    ◌≡◌ {A = String} "k2" "k2"
    × IsRotation config 100 3600 material keyed (rotate config 100 3600 material keyed).1
rotate_lem_example = rotate_lem config 100 3600 material keyed "k2" rotates
