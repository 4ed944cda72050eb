-- ===== src/Examples/Logout.antt =====
-- A user signs out.
use entra_emulator.Identity.Authorize.Checks.Steps.{differs}
use entra_emulator.Identity.Logout.Out.{handle_logout_lem, IsSafeLogout, IsNotified, frames}
use entra_emulator.Store.Logout.{session_logout_uris}
use entra_emulator.Identity.Sessions.{current_session, tenant_segment}
use entra_emulator.Identity.Logout.{LogoutRequest, handle_logout}
use entra_emulator.Prelude.{
  ℕ, String, ◌≡◌, refl, ◌↔◌, true, none, some, [], ◌==◌, if◌then◌else◌, In,
}
use entra_emulator.Examples.Data.{config, directory}

abbrev request : LogoutRequest
request = record {
  tenant = "contoso";
  cookie = some "sid";
  query = λ k. if k == "post_logout_redirect_uri" then "https://app" else "web";
  hint_audience = "";
}

served : (tenant_segment config directory "contoso").1 ≡ true
unfolding tenant_segment
served = refl

handle_logout_lem_example :
    let y = handle_logout config request directory in
    ((now : ℕ) → current_session y.1 now "sid" ≡ none)
    × (session_logout_uris y.1 "sid" ≡ [])
    × ((uri : String) → In uri (frames y.0) ↔ IsNotified directory "sid" uri)
    × IsSafeLogout directory request y.0
handle_logout_lem_example =
    handle_logout_lem config request directory "sid" served refl (differs "sid" "" refl)
