-- ===== src/Identity/AppOnly/Roles.antt =====
-- Which roles an application is given at a resource.
use entra_emulator.Identity.AppOnly.{
  has_substring, is_application_role, list_roles, AppRole, assigned_app_role_values,
  application_roles, roles_for,
}
use entra_emulator.Text.Order.{sort_by-In}
use entra_emulator.Store.Roles.{
  list_roles, assigned_app_role_values, joined_value, assigns, zero_guid, assigned_values,
}
use entra_emulator.Store.Types.{AppRoleAssignment, Store}
use entra_emulator.Prelude.{
  String, ◌≡◌, refl, ◌≢◌, ◌⊎◌, inl, inr, true, false, not, ◌&&◌, List, [], ◌∷◌, arith, ◌==◌, eq_iff,
  Bool-cases, In, select, exists, In-select,
}

-- A role of an assignment of the pair, or, without any, an enabled role for applications.
abbrev pub IsGivenRole : Store → (principal_id resource_id role : String) → Type 0
IsGivenRole s principal resource role =
    ((a : AppRoleAssignment) × In a s.app_role_assignments
      × (assigns principal resource a ≡ true)
      × (a.app_role_id ≢ zero_guid)
      × (joined_value s a ≡ role))
    ⊎ ((exists (assigns principal resource) s.app_role_assignments ≡ false)
        × ((r : AppRole) × In r s.app_roles
            × (r.app_id ≡ resource)
            × (r.is_enabled ≡ true)
            × (has_substring r.allowed_member_types "Application" ≡ true)
            × (r.value ≡ role)))

assigned_lem :
    (s : Store) (l : List AppRoleAssignment) (role : String)
    → In role (assigned_values s l)
    → (a : AppRoleAssignment) × In a l × (a.app_role_id ≢ zero_guid) × (joined_value s a ≡ role)
unfolding assigned_values
assigned_lem s [] role i = absurd i
assigned_lem s (x ∷ l) role i =
    elim (Bool-cases (not (x.app_role_id == zero_guid) && not (joined_value s x == ""))) [
      | inr skipped ↦ let (a, j, n, e) = assigned_lem s l role (rw skipped at i) in (a, inr j, n, e)
      | inl kept ↦ listed kept (assigned_lem s l role) (rw kept at i)
    ]
  where
    listed :
        (not (x.app_role_id == zero_guid) && not (joined_value s x == "")) ≡ true
        → (In role (assigned_values s l)
            → (a : AppRoleAssignment) × In a l
              × (a.app_role_id ≢ zero_guid)
              × (joined_value s a ≡ role))
        → (joined_value s x ≡ role) ⊎ In role (assigned_values s l)
        → (a : AppRoleAssignment) × ((x ≡ a) ⊎ In a l)
          × (a.app_role_id ≢ zero_guid)
          × (joined_value s a ≡ role)
    listed kept below (inl e) =
        (x, inl refl, λ z. ground (arith, (eq_iff x.app_role_id zero_guid).1 z), e)
    listed kept below (inr j) = let (a, k, n, e) = below j in (a, inr k, n, e)

application_lem :
    (l : List AppRole) (role : String)
    → In role (application_roles l)
    → (r : AppRole) × In r l × (is_application_role r ≡ true) × (r.value ≡ role)
unfolding application_roles
application_lem [] role i = absurd i
application_lem (x ∷ l) role i = elim (Bool-cases (is_application_role x)) [
  | inr skipped ↦ let (r, j, h, e) = application_lem l role (rw skipped at i) in (r, inr j, h, e)
  | inl kept ↦ listed kept (application_lem l role) (rw kept at i)
]
  where
    listed :
        is_application_role x ≡ true
        → (In role (application_roles l)
            → (r : AppRole) × In r l × (is_application_role r ≡ true) × (r.value ≡ role))
        → (x.value ≡ role) ⊎ In role (application_roles l)
        → (r : AppRole) × ((x ≡ r) ⊎ In r l) × (is_application_role r ≡ true) × (r.value ≡ role)
    listed kept below (inl e) = (x, inl refl, kept, e)
    listed kept below (inr j) = let (r, k, h, e) = below j in (r, inr k, h, e)

-- Every role that roles_for gives is one of the pair.
pub roles_for-IsGivenRole :
    (s : Store) (principal resource role : String)
    → In role (roles_for s principal resource)
    → IsGivenRole s principal resource role
unfolding roles_for assigned_app_role_values list_roles
roles_for-IsGivenRole s principal resource role i =
    let p = assigns principal resource in
    let mine = λ (r : AppRole). r.app_id == resource in
    elim (Bool-cases (exists p s.app_role_assignments)) [
      | inl has ↦
          let (a, j, n, e) = assigned_lem s (select p s.app_role_assignments) role (rw has at i) in
          let (k, h) = In-select p s.app_role_assignments a j in inl (a, k, h, n, e)
      | inr none_at ↦
          let (r, j, h, e) = application_lem (list_roles s resource) role (rw none_at at i) in
          let (k, m) =
            In-select mine s.app_roles r
              ((sort_by-In (λ (x : AppRole). x.value) r (select mine s.app_roles)).0 j) in
          inr (none_at, (r, k, (eq_iff r.app_id resource).0 m, ground arith, ground arith, e))
    ]
