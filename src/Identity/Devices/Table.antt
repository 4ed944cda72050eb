-- ===== src/Identity/Devices/Table.antt =====
-- The table of device codes under every call, and a code behind its redemption.
use entra_emulator.Prelude.{
  ℕ, code, String, ◌≡◌, refl, ◌∙◌, ◌≢◌, ◌⊎◌, inl, inr, false, List, arith, ◌==◌, eq_iff, Bool-cases,
  All, exists, select_first-eq-none_of_exists, All-update, All-delete, exists-update, exists-delete,
  exists-append, All-append_single, Distinct, Distinct-delete, Distinct-append, Distinct-update,
}
use entra_emulator.Store.Types.{App, DeviceCode, Store, ok, err}
use entra_emulator.Store.Devices.{has_device_hash, is_pending, decide, get_device_code_by_hash}
use entra_emulator.Tokens.Types.{Config, Crypto}
use entra_emulator.Identity.Devices.{DeviceGrant, unknown_device, grant_device_code}
use entra_emulator.Identity.Devices.Redeem.{grant_device_code_sound}
use entra_emulator.Identity.Devices.History.{
  DeviceStep, DeviceSteps, done, more, IsDecision, approval, denial, Change, kept, added, decided,
  removed, DeviceStep-Change,
}

-- A row is pending or denied and names no user, or is approved.
abbrev pub IsRow : DeviceCode → Type 0
IsRow d =
    ((d.status ≡ "pending") × (d.user_id ≡ ""))
    ⊎ ((d.status ≡ "approved") ⊎ ((d.status ≡ "denied") × (d.user_id ≡ "")))

pub record IsTable (rows : List DeviceCode) : Type 0 where
  pub hashes : Distinct (λ (d : DeviceCode). d.device_code_hash) rows
  pub user_codes : Distinct (λ (d : DeviceCode). d.user_code) rows
  pub states : All IsRow rows

decide-IsRow :
    (status user_id : String) (d : DeviceCode)
    → IsDecision status user_id
    → IsRow (decide status user_id d)
decide-IsRow status user_id d (approval u) = inr (inl refl)
decide-IsRow status user_id d denial = inr (inr (refl, refl))

Change-IsTable :
    {Draws : String → Type 0} {rows next : List DeviceCode}
    → Change Draws rows next
    → IsTable rows
    → IsTable next
Change-IsTable {Draws} {rows} kept h = h
Change-IsTable {Draws} {rows} (added d drawn new free status user) h = record {
  hashes = Distinct-append (λ (u : DeviceCode). u.device_code_hash) rows d h.hashes new;
  user_codes = Distinct-append (λ (u : DeviceCode). u.user_code) rows d h.user_codes free;
  states = All-append_single IsRow rows d h.states (inl (status, user));
}
Change-IsTable {Draws} {rows} (decided code status user_id how) h = record {
  hashes =
      Distinct-update (λ (u : DeviceCode). u.device_code_hash) (is_pending code)
        (decide status user_id) (λ r. refl) rows h.hashes;
  user_codes =
      Distinct-update (λ (u : DeviceCode). u.user_code) (is_pending code) (decide status user_id)
        (λ r. refl) rows h.user_codes;
  states =
      All-update IsRow (is_pending code) (decide status user_id) rows
        (λ r hit was. decide-IsRow status user_id r how) h.states;
}
Change-IsTable {Draws} {rows} (removed q) h = record {
  hashes = Distinct-delete (λ (u : DeviceCode). u.device_code_hash) q rows h.hashes;
  user_codes = Distinct-delete (λ (u : DeviceCode). u.user_code) q rows h.user_codes;
  states = All-delete IsRow q rows h.states;
}

-- Every call of the device flow keeps the table well formed: hashes and user codes are distinct,
-- and each row is pending or denied without a user, or approved.
pub DeviceStep-IsTable :
    {c : Crypto} {cfg : Config} {Draws : String → Type 0} {s t : Store}
    → DeviceStep c cfg Draws s t
    → IsTable s.device_codes
    → IsTable t.device_codes
DeviceStep-IsTable step h = Change-IsTable (DeviceStep-Change step) h

Change-gone :
    {rows next : List DeviceCode} (hash : String)
    → Change (λ h. h ≢ hash) rows next
    → exists (has_device_hash hash) rows ≡ false
    → exists (has_device_hash hash) next ≡ false
Change-gone {rows} hash kept gone = gone
Change-gone {rows} hash (added d drawn new free status user) gone =
    exists-append (has_device_hash hash) rows d gone
      (elim (Bool-cases (d.device_code_hash == hash)) [
        | inl same ↦ absurd (drawn ((eq_iff d.device_code_hash hash).0 same))
        | inr other ↦ other
      ])
Change-gone {rows} hash (decided code status user_id how) gone =
    exists-update (has_device_hash hash) (is_pending code) (decide status user_id) (λ r. refl) rows
    ∙ gone
Change-gone {rows} hash (removed q) gone = exists-delete (has_device_hash hash) q rows gone

Steps-gone :
    {c : Crypto} {cfg : Config} {s : Store} (hash : String) {t : Store}
    → DeviceSteps c cfg (λ h. h ≢ hash) s t
    → exists (has_device_hash hash) s.device_codes ≡ false
    → exists (has_device_hash hash) t.device_codes ≡ false
Steps-gone hash done gone = gone
Steps-gone hash (more steps step) gone =
    Change-gone hash (DeviceStep-Change step) (Steps-gone hash steps gone)

poll_unknown :
    (c : Crypto) (cfg : Config) (now : ℕ) (plaintext : String) (app : App) (s : Store)
    → plaintext ≢ ""
    → exists (has_device_hash (c.hash_token plaintext)) s.device_codes ≡ false
    → grant_device_code c cfg now plaintext app s ≡ (err unknown_device, s)
unfolding grant_device_code get_device_code_by_hash
poll_unknown c cfg now plaintext app s full gone = ground (
  arith,
  eq_iff plaintext "",
  select_first-eq-none_of_exists (has_device_hash (c.hash_token plaintext)) s.device_codes gone,
)

granted_full :
    (c : Crypto) (cfg : Config) (now : ℕ) (plaintext : String) (app : App) (s : Store)
    (out : DeviceGrant)
    → (grant_device_code c cfg now plaintext app s).0 ≡ ok out
    → plaintext ≢ ""
unfolding grant_device_code
granted_full c cfg now plaintext app s out e empty = ground (arith, eq_iff plaintext "", empty)

-- A device code is redeemed once: after a successful poll and any further calls of the device flow
-- that do not draw a code with the same hash again, every poll with the code, by any client at any
-- time, is answered that the code is unknown or already redeemed, and changes nothing. The table is
-- well formed.
pub grant_device_code_once :
    (c : Crypto) (cfg : Config) (now : ℕ) (plaintext : String) (app : App) (s t : Store)
    (out : DeviceGrant)
    → IsTable s.device_codes
    → (grant_device_code c cfg now plaintext app s).0 ≡ ok out
    → DeviceSteps c cfg
        (λ h. h ≢ c.hash_token plaintext)
        (grant_device_code c cfg now plaintext app s).1
        t
    → (later : ℕ) (client : App)
    → grant_device_code c cfg later plaintext client t ≡ (err unknown_device, t)
grant_device_code_once c cfg now plaintext app s t out h e steps later client =
    let (row, found, approved, gone) =
      grant_device_code_sound c cfg now plaintext app s out h.hashes e in
    poll_unknown c cfg later plaintext client t (granted_full c cfg now plaintext app s out e)
      (Steps-gone (c.hash_token plaintext) steps gone)
