-- ===== src/Identity/Approval.antt =====
-- internal/identity/devicecode.go: the pages on which a user approves a device.
pub mod Decision
use entra_emulator.Store.Types.{
  not_found, App, User, Session, DeviceCode, Store, StoreError, Result, ok, err,
}
use entra_emulator.Store.Directory.{verify_password, get_user, get_app}
use entra_emulator.Prelude.{ℕ, String, not, ◌||◌, Option, none, some, ◌==◌, leb, if◌then◌else◌}
use entra_emulator.Store.Devices.{get_device_code_by_user_code, set_device_code_decision}
use entra_emulator.Tokens.Types.{Config, Crypto}
use entra_emulator.Identity.Sessions.{current_session, start_session}

-- deviceApprovalState: what signState signs into the hidden field.
pub record ApprovalState : Type 0 where
  pub kind : String
  pub user_code : String
  pub sid : String

-- What is rendered: an error page by its title, the sign-in form with its signed state, the consent
-- page of a code, an application and a user with its signed state, or the end of the flow.
pub data Page : Type 0 where
  error_page : (title : String) → Page
  code_entry : Page
  sign_in_form : ApprovalState → Page
  consent_page : DeviceCode → App → User → ApprovalState → Page
  approved_page denied_page : Page

-- The pending row of a code, or the page that says why there is none.
unfoldable pub load_pending_device_code : Store → (now : ℕ) → String → Result Page DeviceCode
load_pending_device_code s now user_code = elim (get_device_code_by_user_code s user_code) [
  | err _ ↦ err (error_page "Code not found")
  | ok row ↦
      if leb row.expires_at now
      then err (error_page "Code expired")
      else if row.status == "denied"
      then err (error_page "Request denied")
      else if row.status == "approved"
      then err (error_page "Code already used")
      else ok row
]

abbrev consent_of : DeviceCode → User → ApprovalState → Result StoreError App → Page
consent_of row user st (err _) = error_page "Code not found"
consent_of row user st (ok app) = consent_page row app user st

abbrev render_device_consent : Store → DeviceCode → User → ApprovalState → Page
render_device_consent s row user st = consent_of row user st (get_app s row.app_id)

abbrev lookup_page : Store → DeviceCode → (user_code : String) → Option (Session × User) → Page
lookup_page s row user_code none =
    sign_in_form record { kind = "device"; user_code = user_code; sid = "" }
lookup_page s row user_code (some (sess, user)) =
    render_device_consent s row user
      record { kind = "device"; user_code = user_code; sid = sess.id }

-- `user_code` is normalised, and "" where it is not eight letters of the alphabet.
unfoldable pub device_lookup : Store → (now : ℕ) (user_code cookie : String) → Page
device_lookup s now user_code cookie =
    if user_code == "" then code_entry else elim (load_pending_device_code s now user_code) [
      | err page ↦ page
      | ok row ↦ lookup_page s row user_code (current_session s now cookie)
    ]

abbrev signed_in : DeviceCode → User → (user_code : String) → Option Session × Store → Page × Store
signed_in row user user_code (none, s) = (error_page "Error", s)
signed_in row user user_code (some sess, s) = (
  render_device_consent s row user record { kind = "device"; user_code = user_code; sid = sess.id },
  s,
)

-- The fields of the sign-in form.
pub record SignInForm : Type 0 where
  pub user : String
  pub username : String
  pub password : String

abbrev pub form_user : Crypto → Config → Store → SignInForm → Result StoreError User
form_user c cfg s form =
    if cfg.require_password
    then verify_password c.verify_secret s form.username form.password
    else elim (get_user s form.user) [
      | err e ↦ err e
      | ok u ↦ if not u.account_enabled then err not_found else ok u
    ]

-- deviceSignIn: `state` is what verifyState read from the hidden field, and `sid` what
-- NewOpaqueToken(24) returned.
unfoldable pub device_sign_in :
    Crypto
    → Config
    → (now : ℕ) (sid : String) → Option ApprovalState
    → SignInForm
    → Store
    → Page × Store
device_sign_in c cfg now sid none form s = (error_page "Invalid request", s)
device_sign_in c cfg now sid (some st) form s =
    if not (st.kind == "device")
    then (error_page "Invalid request", s)
    else elim (load_pending_device_code s now st.user_code) [
      | err page ↦ (page, s)
      | ok row ↦ elim (form_user c cfg s form) [
        | err _ ↦ (error_page "Sign-in failed", s)
        | ok u ↦ signed_in row u st.user_code (start_session now sid u.id "pwd" s)
      ]
    ]

abbrev decided : Page → Result StoreError (Unit {0}) × Store → Page × Store
decided page (ok _, s) = (page, s)
decided page (err _, s) = (error_page "Code already used", s)

abbrev pub decide_row : (decision user_code : String) → User → Store → Page × Store
decide_row decision user_code user s =
    if decision == "approve"
    then decided approved_page (set_device_code_decision user_code "approved" user.id s)
    else if decision == "deny"
    then decided denied_page (set_device_code_decision user_code "denied" "" s)
    else (error_page "Invalid request", s)

abbrev pub decide_session :
    (now : ℕ) (decision : String) → ApprovalState → Option (Session × User) → Store → Page × Store
decide_session now decision st none s = (error_page "Invalid request", s)
decide_session now decision st (some (sess, user)) s =
    if not (sess.id == st.sid)
    then (error_page "Invalid request", s)
    else elim (load_pending_device_code s now st.user_code) [
      | err page ↦ (page, s)
      | ok row ↦ decide_row decision st.user_code user s
    ]

-- deviceDecide: `state` is what verifyState read from the hidden field.
unfoldable pub device_decide :
    (now : ℕ) (cookie decision : String) → Option ApprovalState → Store → Page × Store
device_decide now cookie decision none s = (error_page "Invalid request", s)
device_decide now cookie decision (some st) s =
    if not (st.kind == "device") || st.sid == ""
    then (error_page "Invalid request", s)
    else decide_session now decision st (current_session s now cookie) s
