-- ===== src/Store/Roles.antt =====
-- internal/store/apps.go and consent.go: application roles and their assignments.
use entra_emulator.Store.Types.{
  coalesce, conflict, not_found, err, ok, StoreError, Result, AppRoleAssignment, AppRole, Store,
}
use entra_emulator.Text.Order.{sort_by}
use entra_emulator.Prelude.{
  String, Bool, not, ◌&&◌, Option, none, some, List, [], ◌∷◌, ◌++◌, ◌==◌, if◌then◌else◌,
  select_first, select, delete, exists,
}

abbrev pub zero_guid : String
zero_guid = "00000000-0000-0000-0000-000000000000"

-- INSERT, with the primary key.
unfoldable pub create_app_role_assignment :
    AppRoleAssignment → Store → Result StoreError (Unit {0}) × Store
unfolding exists
create_app_role_assignment a s =
    if exists (λ (x : AppRoleAssignment). x.id == a.id) s.app_role_assignments
    then (err conflict, s)
    else (
      ok tt,
      record s {
        app_role_assignments =
            s.app_role_assignments
            ++ record a { principal_type = coalesce a.principal_type "ServicePrincipal" } ∷ [];
      },
    )

-- requireRow answers `not_found` where no row has the identifier.
unfoldable pub delete_app_role_assignment :
    (id : String) → Store → Result StoreError (Unit {0}) × Store
unfolding exists delete
delete_app_role_assignment id s =
    if exists (λ (x : AppRoleAssignment). x.id == id) s.app_role_assignments
    then (
      ok tt,
      record s {
        app_role_assignments =
            delete (λ (x : AppRoleAssignment). x.id == id) s.app_role_assignments;
      },
    )
    else (err not_found, s)

abbrev value_of : Option AppRole → String
value_of none = ""
value_of (some r) = r.value

-- The left join on the role, whose identifier is its primary key.
abbrev pub joined_value : Store → AppRoleAssignment → String
joined_value s a = value_of (select_first (λ (r : AppRole). r.id == a.app_role_id) s.app_roles)

abbrev pub assigns : (principal_id resource_id : String) → AppRoleAssignment → Bool
assigns principal_id resource_id a = a.principal_id == principal_id && a.resource_id == resource_id

-- The loop over the rows of the pair.
unfoldable pub assigned_values : Store → List AppRoleAssignment → List String
assigned_values s [] = []
assigned_values s (a ∷ rest) =
    let values = assigned_values s rest in
    if not (a.app_role_id == zero_guid) && not (joined_value s a == "")
    then joined_value s a ∷ values
    else values

-- The values, and whether there is an assignment.
unfoldable pub assigned_app_role_values :
    Store → (principal_id resource_id : String) → List String × Bool
unfolding select assigned_values exists
assigned_app_role_values s principal_id resource_id = (
  assigned_values s (select (assigns principal_id resource_id) s.app_role_assignments),
  exists (assigns principal_id resource_id) s.app_role_assignments,
)

unfoldable pub list_roles : Store → (app_id : String) → List AppRole
unfolding select sort_by
list_roles s app_id =
    sort_by (λ (r : AppRole). r.value) (select (λ (r : AppRole). r.app_id == app_id) s.app_roles)
