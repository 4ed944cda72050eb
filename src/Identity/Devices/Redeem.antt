-- ===== src/Identity/Devices/Redeem.antt =====
-- What a device that is given tokens rests on.
use entra_emulator.Prelude.{
  ℕ, ◌<◌, String, ◌≡◌, refl, sym, subst, inl, inr, true, false, some, arith, ◌==◌, eq_iff,
  Bool-cases, Option-cases, select_first, exists, select_first-holds, Distinct, select_first-key,
  exists-delete_one,
}
use entra_emulator.Text.{fields}
use entra_emulator.Store.Types.{App, DeviceCode, Store, Result-cases, ok}
use entra_emulator.Store.Directory.{get_user}
use entra_emulator.Store.Devices.{
  has_device_hash, is_redeemable, get_device_code_by_hash, consume_approved_device_code,
}
use entra_emulator.Tokens.Types.{Config, Crypto}
use entra_emulator.Identity.Scopes.{resolve_delegated_scopes}
use entra_emulator.Identity.Devices.{DeviceGrant, poll_row, grant_device_code}

-- The column device_code is the primary key of device_codes.
abbrev pub UniqueDevices : Store → Type 0
UniqueDevices s = Distinct (λ (d : DeviceCode). d.device_code_hash) s.device_codes

-- The row was approved, for this client, and in time; the user who approved it is enabled, and the
-- scopes that it was asked for still resolve.
pub record IsApproved (cfg : Config) (now : ℕ) (app : App) (row : DeviceCode) (out : DeviceGrant)
    (t : Store) : Type 0 where
  pub client : row.app_id ≡ app.id
  pub approved : row.status ≡ "approved"
  pub in_time : now < row.expires_at
  pub answer : out.app ≡ app
  pub user : get_user t row.user_id ≡ ok out.user
  pub enabled : out.user.account_enabled ≡ true
  pub scopes : resolve_delegated_scopes cfg t (fields row.scopes) ≡ some out.scopes

module _ (cfg : Config) (now : ℕ) (hash : String) (app : App) (s : Store) where
  abbrev after : Store
  after = (consume_approved_device_code hash app.id now s).1

  redeemable_lem :
      (r : DeviceCode)
      → is_redeemable hash app.id now r ≡ true
      → (r.device_code_hash ≡ hash)
        × (r.app_id ≡ app.id)
        × (r.status ≡ "approved")
        × (now < r.expires_at)
  redeemable_lem r h = (
    (eq_iff r.device_code_hash hash).0 (ground arith),
    (eq_iff r.app_id app.id).0 (ground arith),
    (eq_iff r.status "approved").0 (ground arith),
    ground arith,
  )

  consumes :
      (row : DeviceCode) (out : DeviceGrant)
      → (poll_row cfg now hash app row s).0 ≡ ok out
      → (r : DeviceCode) × ((consume_approved_device_code hash app.id now s).0 ≡ some r)
        × IsApproved cfg now app r out after
        × ((poll_row cfg now hash app row s).1 ≡ after)
  unfolding poll_row consume_approved_device_code
  consumes row out e =
      elim (Option-cases (select_first (is_redeemable hash app.id now) s.device_codes)) [
        | inl lost ↦ ground arith
        | inr (r, won) ↦
            let (h, client, approved, in_time) =
              redeemable_lem r
                (select_first-holds (is_redeemable hash app.id now) s.device_codes r won) in
            elim (Result-cases (get_user after r.user_id)) [
              | inr (x, gone) ↦ ground arith
              | inl (u, found) ↦
                  elim (Option-cases (resolve_delegated_scopes cfg after (fields r.scopes))) [
                    | inl bad ↦ ground arith
                    | inr (sc, fine) ↦ (
                      r,
                      won,
                      record {
                        client = client;
                        approved = approved;
                        in_time = in_time;
                        answer = ground arith;
                        user = ground arith;
                        enabled = ground arith;
                        scopes = ground arith;
                      },
                      ground arith,
                    )
                  ]
            ]
      ]

  -- Behind the redemption the code is not in the table.
  consumed_gone :
      (r : DeviceCode)
      → UniqueDevices s
      → (consume_approved_device_code hash app.id now s).0 ≡ some r
      → (get_device_code_by_hash s hash ≡ ok r)
        × (exists (has_device_hash hash) after.device_codes ≡ false)
  unfolding get_device_code_by_hash consume_approved_device_code
  consumed_gone r u won = (
    rw
        (select_first-key (λ (d : DeviceCode). d.device_code_hash) (has_device_hash hash)
          (is_redeemable hash app.id now) hash s.device_codes r u
          (λ d h. (eq_iff d.device_code_hash hash).0 h) (λ d h. ground arith) won)
        refl,
    exists-delete_one (λ (d : DeviceCode). d.device_code_hash) (has_device_hash hash)
        (is_redeemable hash app.id now) hash s.device_codes r u
        (λ d h. (eq_iff d.device_code_hash hash).0 h) (λ d h. (redeemable_lem d h).0) won,
  )

-- A device that is given tokens presented the code of a row that a user approved, before its expiry
-- and as the client that it was issued to; the user is enabled, the scopes still resolve, and the
-- row has left the table. The table's codes are distinct.
pub grant_device_code_sound :
    (c : Crypto) (cfg : Config) (now : ℕ) (plaintext : String) (app : App) (s : Store)
    (out : DeviceGrant)
    → UniqueDevices s
    → (grant_device_code c cfg now plaintext app s).0 ≡ ok out
    → let t = (grant_device_code c cfg now plaintext app s).1 in
      (row : DeviceCode) × (get_device_code_by_hash s (c.hash_token plaintext) ≡ ok row)
      × IsApproved cfg now app row out t
      × (exists (has_device_hash (c.hash_token plaintext)) t.device_codes ≡ false)
unfolding grant_device_code
grant_device_code_sound c cfg now plaintext app s out u e =
    let hash = c.hash_token plaintext in
    elim (Bool-cases (plaintext == "")) [
      | inl empty ↦ ground arith
      | inr full ↦ elim (Result-cases (get_device_code_by_hash s hash)) [
        | inr (x, missing) ↦ ground arith
        | inl (row, found) ↦
            let (r, won, approved, moved) =
              consumes cfg now hash app s row out (rw (full, found, grant_device_code) at e) in
            let (same, gone) = consumed_gone cfg now hash app s r u won in
            let there : (grant_device_code c cfg now plaintext app s).1 ≡ after cfg now hash app s =
              rw (full, found, grant_device_code) moved in
            (r, same, subst (IsApproved cfg now app r out) (sym there) approved, rw there gone)
      ]
    ]
