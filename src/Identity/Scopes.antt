-- ===== src/Identity/Scopes.antt =====
-- internal/identity/scopes.go: which delegated scopes a request is granted, and for which resource.
pub mod Sound
use entra_emulator.Prelude.{
  ◌/◌, String, Bool, false, not, ◌&&◌, Option, none, some, List, [], ◌∷◌, ◌++◌, ◌==◌, if◌then◌else◌,
  All, contains, exists,
}
use Prim.Native.String
use entra_emulator.Text.{has_prefix, trim_prefix, cut_last_slash}
use entra_emulator.Store.Types.{App, AppScope, Store, ok, err}
use entra_emulator.Store.Directory.{get_app, get_app_by_id_uri, list_scopes}
use entra_emulator.Tokens.Types.{Config}
use entra_emulator.Identity.Resources.{
  fabric_resource, known_fabric_scopes, azure_aud, azure_delegated_resource,
}

abbrev pub oidc_scopes : List String
oidc_scopes = "openid" ∷ "profile" ∷ "email" ∷ "offline_access" ∷ []

abbrev pub known_graph_scopes : List String
known_graph_scopes = "User.Read" ∷ "User.ReadBasic.All" ∷ "User.Read.All" ∷ "Group.Read.All" ∷ []

pub record ResolvedScopes : Type 0 where
  pub granted : List String
  pub resource : String
  pub requested : List String

-- `none`: there is another resource already.
unfoldable pub set_resource : ResolvedScopes → String → Option ResolvedScopes
set_resource r resource =
    if not (r.resource == "") && not (r.resource == resource)
    then none
    else some (record r { resource = resource })

abbrev pub grant : ResolvedScopes → String → ResolvedScopes
grant r name = record r { granted = r.granted ++ name ∷ [] }

unfoldable pub grant_for : ResolvedScopes → (resource name : String) → Option ResolvedScopes
unfolding set_resource
grant_for r resource name = elim (set_resource r resource) [
  | none ↦ none
  | some next ↦ some (grant next name)
]

unfoldable pub find_resource_app : Store → String → Option App
unfolding get_app get_app_by_id_uri
find_resource_app s resource = elim (get_app_by_id_uri s resource) [
  | ok app ↦ some app
  | err _ ↦ elim (get_app s resource) [ ok app ↦ some app | err _ ↦ none ]
]

unfoldable pub app_exposes_scope : Store → App → String → Bool
unfolding exists list_scopes
app_exposes_scope s app name =
    exists (λ (sc : AppScope). sc.value == name && sc.is_enabled) (list_scopes s app.id)

abbrev exposed_by : Store → Option App → String → Bool
exposed_by s none name = false
exposed_by s (some app) name = app_exposes_scope s app name

-- A scope of a registered application: the text before the last slash is the resource.
unfoldable pub resolve_registered : Store → String → ResolvedScopes → Option ResolvedScopes
resolve_registered s sc out = elim (cut_last_slash sc) [
  | none ↦ some (grant out sc)
  | some (resource, name) ↦
      if exposed_by s (find_resource_app s resource) name then grant_for out resource name else none
]

-- s[strings.LastIndex(s, "/")+1:]
unfoldable pub after_last_slash : String → String
unfolding cut_last_slash
after_last_slash sc = elim (cut_last_slash sc) [ none ↦ sc | some (resource, name) ↦ name ]

abbrev pub graph_prefix : Config → String
graph_prefix cfg = String.◌++◌ cfg.graph_resource_id "/"

abbrev pub fabric_prefix : String
fabric_prefix = String.◌++◌ fabric_resource "/"

-- One turn of the loop.
unfoldable pub resolve_scope : Config → Store → String → ResolvedScopes → Option ResolvedScopes
resolve_scope cfg s sc out =
    if contains oidc_scopes sc
    then some (grant out sc)
    else if has_prefix sc (graph_prefix cfg)
    then some (grant out (trim_prefix sc (graph_prefix cfg)))
    else if contains known_graph_scopes sc
    then some (grant out sc)
    else if has_prefix sc fabric_prefix
    then grant_for out fabric_resource (trim_prefix sc fabric_prefix)
    else if contains known_fabric_scopes sc
    then grant_for out fabric_resource sc
    else if not (azure_delegated_resource sc == "")
    then grant_for out (azure_aud (azure_delegated_resource sc)) (after_last_slash sc)
    else resolve_registered s sc out

unfoldable pub resolve_all : Config → Store → List String → ResolvedScopes → Option ResolvedScopes
resolve_all cfg s [] out = some out
resolve_all cfg s (sc ∷ scs) out = elim (resolve_scope cfg s sc out) [
  | none ↦ none
  | some next ↦ resolve_all cfg s scs next
]

-- `none` is Go's nil.
unfoldable pub resolve_delegated_scopes : Config → Store → List String → Option ResolvedScopes
unfolding resolve_all
resolve_delegated_scopes cfg s scopes =
    resolve_all cfg s scopes (record { granted = []; resource = ""; requested = scopes })
