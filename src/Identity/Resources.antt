-- ===== src/Identity/Resources.antt =====
-- internal/identity/azure.go, fabric.go and databricks.go: the resources of Microsoft that need no
-- registered application.
use entra_emulator.Prelude.{
  String, not, ◌||◌, Option, none, some, List, [], ◌∷◌, ◌==◌, if◌then◌else◌,
}
use Prim.Native.String
use entra_emulator.Text.{cut_last_slash, before_suffix}

abbrev pub fabric_resource : String
fabric_resource = "https://api.fabric.microsoft.com"

abbrev pub power_bi_resource : String
power_bi_resource = "https://analysis.windows.net/powerbi/api"

abbrev pub fabric_first_party_app_id : String
fabric_first_party_app_id = "00000009-0000-0000-c000-000000000000"

abbrev pub known_fabric_scopes : List String
known_fabric_scopes = "Fabric.Embed" ∷ "Item.Read.All" ∷ []

abbrev pub databricks_first_party_app_id : String
databricks_first_party_app_id = "2ff814a6-3304-4ab8-85cb-cd0e6f879c1d"

-- The map's entries; `none` for a missing key.
unfoldable pub known_azure_resource : String → Option String
known_azure_resource resource =
    if resource == "https://vault.azure.net"
    then some "https://vault.azure.net"
    else if resource == "https://storage.azure.com"
    then some "https://storage.azure.com"
    else if resource == "https://management.azure.com"
    then some "https://management.azure.com"
    else if resource == "https://management.core.windows.net"
    then some "https://management.azure.com"
    else if resource == "https://cognitiveservices.azure.com"
    then some "https://cognitiveservices.azure.com"
    else none

abbrev slashed_aud : Option String → String
slashed_aud none = ""
slashed_aud (some aud) = String.◌++◌ aud "/"

abbrev trimmed_aud : Option String → String
trimmed_aud none = ""
trimmed_aud (some trimmed) = slashed_aud (known_azure_resource trimmed)

-- "" where the resource is not recognised.
unfoldable pub azure_aud : String → String
azure_aud resource = elim (known_azure_resource resource) [
  | some aud ↦ aud
  | none ↦ trimmed_aud (before_suffix "/" resource)
]

unfoldable pub azure_delegated_resource : String → String
unfolding azure_aud cut_last_slash
azure_delegated_resource scope = elim (cut_last_slash scope) [
  | none ↦ ""
  | some (resource, name) ↦
      if resource == "" then "" else if not (azure_aud resource == "") then resource else ""
]

unfoldable pub fabric_aud : String → String
fabric_aud resource =
    if resource == fabric_resource || resource == fabric_first_party_app_id
    then fabric_resource
    else if resource == power_bi_resource
    then power_bi_resource
    else ""

unfoldable pub databricks_aud : String → String
databricks_aud resource =
    if resource == databricks_first_party_app_id then databricks_first_party_app_id else ""
