-- ===== src/Identity/Devices/History.antt =====
-- The device codes under every call of the device flow, in any order.
use entra_emulator.Prelude.{
  ℕ, String, ◌≡◌, refl, sym, ap, subst, ◌⊎◌, inl, inr, Bool, false, Option, none, some, List, [],
  ◌∷◌, ◌++◌, arith, ◌==◌, Bool-cases, update, delete, exists,
}
use entra_emulator.Store.Types.{App, DeviceCode, Store, Result-cases}
use entra_emulator.Store.Directory.{app_exists}
use entra_emulator.Store.Devices.{
  has_device_hash, has_user_code, is_pending, is_redeemable, decide, insert_device_code,
  get_device_code_by_hash, consume_approved_device_code, delete_device_code,
}
use entra_emulator.Store.Sessions.{create_session}
use entra_emulator.Tokens.Types.{Config, Crypto}
use entra_emulator.Identity.Sessions.{start_session}
use entra_emulator.Identity.Devices.{
  device_authorization, poll_row, grant_device_code, device_row, allocate_user_code,
}
use entra_emulator.Identity.Approval.{ApprovalState, SignInForm, device_sign_in, device_decide}
use entra_emulator.Identity.Approval.Decision.{device_decide_lem}

-- One call. `Draws` says which hashes the device codes that NewOpaqueToken draws may have.
pub data DeviceStep (c : Crypto) (cfg : Config) (Draws : String → Type 0)
    : Store → Store → Type 0 where
  authorizes :
      (s : Store) (now : ℕ) (device_code : String) (candidates : List String) (app : App)
      (scopes : List String)
      → Draws (c.hash_token device_code)
      → DeviceStep c cfg Draws s
          (device_authorization c cfg now device_code candidates app scopes s).1
  polls :
      (s : Store) (now : ℕ) (plaintext : String) (app : App)
      → DeviceStep c cfg Draws s (grant_device_code c cfg now plaintext app s).1
  signs_in :
      (s : Store) (now : ℕ) (sid : String) (state : Option ApprovalState) (form : SignInForm)
      → DeviceStep c cfg Draws s (device_sign_in c cfg now sid state form s).1
  decides :
      (s : Store) (now : ℕ) (cookie decision : String) (state : Option ApprovalState)
      → DeviceStep c cfg Draws s (device_decide now cookie decision state s).1

pub data DeviceSteps (c : Crypto) (cfg : Config) (Draws : String → Type 0) (s : Store)
    : Store → Type 0 where
  done : DeviceSteps c cfg Draws s s
  more :
      {t u : Store}
      → DeviceSteps c cfg Draws s t
      → DeviceStep c cfg Draws t u
      → DeviceSteps c cfg Draws s u

-- A user's decision: an approval names a user, a denial none.
pub data IsDecision : (status user_id : String) → Type 0 where
  approval : (user_id : String) → IsDecision "approved" user_id
  denial : IsDecision "denied" ""

-- The transitions of the table.
pub data Change (Draws : String → Type 0) (rows : List DeviceCode) : List DeviceCode → Type 0 where
  kept : Change Draws rows rows
  added :
      (d : DeviceCode)
      → Draws d.device_code_hash
      → exists (has_device_hash d.device_code_hash) rows ≡ false
      → exists (has_user_code d.user_code) rows ≡ false
      → d.status ≡ "pending"
      → d.user_id ≡ ""
      → Change Draws rows (rows ++ d ∷ [])
  decided :
      (user_code status user_id : String)
      → IsDecision status user_id
      → Change Draws rows (update (is_pending user_code) (decide status user_id) rows)
  removed : (q : DeviceCode → Bool) → Change Draws rows (delete q rows)

module _ (c : Crypto) (cfg : Config) (Draws : String → Type 0) where
  change :
      (s : Store) {rows : List DeviceCode} (t : Store)
      → t.device_codes ≡ rows
      → Change Draws s.device_codes rows
      → Change Draws s.device_codes t.device_codes
  change s t e k = subst (Change Draws s.device_codes) (sym e) k

  inserted :
      (d : DeviceCode) (s : Store)
      → Draws d.device_code_hash
      → d.status ≡ "pending"
      → d.user_id ≡ ""
      → Change Draws s.device_codes (insert_device_code d s).1.device_codes
  unfolding insert_device_code
  inserted d s drawn status user =
      elim (Bool-cases (exists (has_device_hash d.device_code_hash) s.device_codes)) [
        | inl taken ↦ rw taken kept
        | inr new ↦ elim (Bool-cases (exists (has_user_code d.user_code) s.device_codes)) [
          | inl used ↦ rw (new, used) kept
          | inr free ↦ elim (Bool-cases (app_exists s d.app_id)) [
            | inl there ↦ rw (new, free, there) (added _ drawn new free (rw status refl) user)
            | inr gone ↦ rw (new, free, gone) kept
          ]
        ]
      ]

  authorization-Change :
      (s : Store) (now : ℕ) (device_code : String) (candidates : List String) (app : App)
      (scopes : List String)
      → Draws (c.hash_token device_code)
      → Change Draws s.device_codes
          (device_authorization c cfg now device_code candidates app scopes s).1.device_codes
  unfolding device_authorization
  authorization-Change s now device_code candidates app scopes drawn =
      let d = device_row c cfg now device_code (allocate_user_code s candidates) app scopes in
      let t = (device_authorization c cfg now device_code candidates app scopes s).1 in
      let cases : (t.device_codes ≡ s.device_codes)
          ⊎ (t.device_codes ≡ (insert_device_code d s).1.device_codes) =
        ground arith in
      elim cases [
        | inl same ↦ change s t same kept
        | inr moved ↦ change s t moved (inserted d s drawn refl refl)
      ]

  poll_row-Change :
      (s : Store) (now : ℕ) (hash : String) (app : App) (row : DeviceCode)
      → Change Draws s.device_codes (poll_row cfg now hash app row s).1.device_codes
  unfolding poll_row delete_device_code consume_approved_device_code
  poll_row-Change s now hash app row =
      let t = (poll_row cfg now hash app row s).1 in
      let cases : (t.device_codes ≡ s.device_codes)
          ⊎ ((t.device_codes ≡ delete (has_device_hash hash) s.device_codes)
              ⊎ (t.device_codes ≡ delete (is_redeemable hash app.id now) s.device_codes)) =
        ground arith in
      elim cases [
        | inl same ↦ change s t same kept
        | inr (inl gone) ↦ change s t gone (removed (has_device_hash hash))
        | inr (inr used) ↦ change s t used (removed (is_redeemable hash app.id now))
      ]

  poll-Change :
      (s : Store) (now : ℕ) (plaintext : String) (app : App)
      → Change Draws s.device_codes (grant_device_code c cfg now plaintext app s).1.device_codes
  unfolding grant_device_code
  poll-Change s now plaintext app = elim (Bool-cases (plaintext == "")) [
    | inl empty ↦ rw empty kept
    | inr full ↦ elim (Result-cases (get_device_code_by_hash s (c.hash_token plaintext))) [
      | inl (row, found) ↦
          rw (full, found, grant_device_code)
            (poll_row-Change s now (c.hash_token plaintext) app row)
      | inr (x, missing) ↦ rw (full, missing, grant_device_code) kept
    ]
  ]

  sign_in-codes :
      (s : Store) (now : ℕ) (sid : String) (state : Option ApprovalState) (form : SignInForm)
      → (device_sign_in c cfg now sid state form s).1.device_codes ≡ s.device_codes
  unfolding device_sign_in start_session create_session
  sign_in-codes s now sid none form = refl
  sign_in-codes s now sid (some st) form = ground arith

  decide-Change :
      (s : Store) (now : ℕ) (cookie decision : String) (state : Option ApprovalState)
      → Change Draws s.device_codes (device_decide now cookie decision state s).1.device_codes
  decide-Change s now cookie decision state =
      let t = (device_decide now cookie decision state s).1 in
      elim (device_decide_lem now cookie decision state s) [
        | inl same ↦ change s t (ap (λ (u : Store). u.device_codes) same) kept
        | inr d ↦ elim d.effect [
          | inl (said, e) ↦
              change s t (ap (λ (u : Store). u.device_codes) e)
                (decided d.st.user_code "approved" d.user.id (approval d.user.id))
          | inr (said, e) ↦
              change s t (ap (λ (u : Store). u.device_codes) e)
                (decided d.st.user_code "denied" "" denial)
        ]
      ]

-- Every call of the device flow makes one of these transitions of the table of device codes: none;
-- a new pending row with a drawn hash and a user code that no row has; the decision of a pending
-- row; a removal.
pub DeviceStep-Change :
    {c : Crypto} {cfg : Config} {Draws : String → Type 0} {s t : Store}
    → DeviceStep c cfg Draws s t
    → Change Draws s.device_codes t.device_codes
DeviceStep-Change {c} {cfg} {Draws} (authorizes s now device_code candidates app scopes drawn) =
    authorization-Change c cfg Draws s now device_code candidates app scopes drawn
DeviceStep-Change {c} {cfg} {Draws} (polls s now plaintext app) =
    poll-Change c cfg Draws s now plaintext app
DeviceStep-Change {c} {cfg} {Draws} (signs_in s now sid state form) =
    change c cfg Draws s (device_sign_in c cfg now sid state form s).1
      (sign_in-codes c cfg Draws s now sid state form) kept
DeviceStep-Change {c} {cfg} {Draws} (decides s now cookie decision state) =
    decide-Change c cfg Draws s now cookie decision state
