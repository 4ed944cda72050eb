-- ===== src/Identity/Scopes/Sound.antt =====
-- What a granted scope rests on.
use entra_emulator.Prelude.{
  String, ◌≡◌, refl, sym, ap, subst, ◌∙◌, ◌≢◌, ◌⊎◌, inl, inr, true, ◌&&◌, none, some, List, [], ◌∷◌,
  ◌++◌, append-nil, append_assoc, arith, ◌==◌, eq_iff, Bool-cases, Option-cases, contains, In,
  select, exists-In, In-select,
}
use entra_emulator.Text.{has_prefix, trim_prefix, cut_last_slash}
use entra_emulator.Store.Types.{App, AppScope, Store}
use entra_emulator.Store.Directory.{list_scopes}
use entra_emulator.Tokens.Types.{Config}
use entra_emulator.Identity.Resources.{
  fabric_resource, known_fabric_scopes, azure_aud, azure_delegated_resource,
}
use entra_emulator.Identity.Scopes.{
  oidc_scopes, known_graph_scopes, graph_prefix, fabric_prefix, ResolvedScopes, grant, grant_for,
  find_resource_app, app_exposes_scope, resolve_registered, after_last_slash, resolve_scope,
  resolve_all, resolve_delegated_scopes,
}

-- A row of app_scopes by which an application exposes a scope.
pub record Exposes (s : Store) (app : App) (name : String) : Type 0 where
  pub row : AppScope
  pub listed : In row s.app_scopes
  pub owner : row.app_id ≡ app.id
  pub value : row.value ≡ name
  pub enabled : row.is_enabled ≡ true

-- Why the scope `sc` is granted, the short name that it is granted as, and the resource that it
-- asks for ("" for none).
pub data Grants (cfg : Config) (s : Store) : (sc name resource : String) → Type 0 where
  oidc : (sc : String) → contains oidc_scopes sc ≡ true → Grants cfg s sc sc ""
  graph :
      (sc : String)
      → has_prefix sc (graph_prefix cfg) ≡ true
      → Grants cfg s sc (trim_prefix sc (graph_prefix cfg)) ""
  known_graph : (sc : String) → contains known_graph_scopes sc ≡ true → Grants cfg s sc sc ""
  fabric :
      (sc : String)
      → has_prefix sc fabric_prefix ≡ true
      → Grants cfg s sc (trim_prefix sc fabric_prefix) fabric_resource
  known_fabric :
      (sc : String) → contains known_fabric_scopes sc ≡ true → Grants cfg s sc sc fabric_resource
  azure :
      (sc : String)
      → azure_delegated_resource sc ≢ ""
      → Grants cfg s sc (after_last_slash sc) (azure_aud (azure_delegated_resource sc))
  registered :
      (sc resource name : String) (app : App)
      → cut_last_slash sc ≡ some (resource, name)
      → find_resource_app s resource ≡ some app
      → Exposes s app name
      → Grants cfg s sc name resource
  bare : (sc : String) → cut_last_slash sc ≡ none → Grants cfg s sc sc ""

-- The scopes are granted as the names, one by one, and all for one resource.
abbrev pub AreGranted : Config → Store → String → List String → List String → Type 0
AreGranted cfg s resource [] [] = Unit
AreGranted cfg s resource [] (n ∷ ns) = ⊥
AreGranted cfg s resource (sc ∷ scs) [] = ⊥
AreGranted cfg s resource (sc ∷ scs) (n ∷ ns) =
    ((r : String) × Grants cfg s sc n r × ((r ≡ "") ⊎ (r ≡ resource)))
    × AreGranted cfg s resource scs ns

Exposes-row :
    (s : Store) (app : App) (name : String)
    → app_exposes_scope s app name ≡ true
    → Exposes s app name
unfolding app_exposes_scope list_scopes
Exposes-row s app name h =
    let (row, i, e) =
      exists-In (λ (sc : AppScope). sc.value == name && sc.is_enabled)
        (select (λ (sc : AppScope). sc.app_id == app.id) s.app_scopes) h in
    let (j, k) = In-select (λ (sc : AppScope). sc.app_id == app.id) s.app_scopes row i in
    record {
      row = row;
      listed = j;
      owner = (eq_iff row.app_id app.id).0 k;
      value = (eq_iff row.value name).0 (ground arith);
      enabled = ground arith;
    }

-- What one turn of the loop does where it goes on.
record Turn (cfg : Config) (s : Store) (sc : String) (out next : ResolvedScopes) : Type 0 where
  name : String
  resource : String
  grants : Grants cfg s sc name resource
  appended : next.granted ≡ out.granted ++ name ∷ []
  kept : next.requested ≡ out.requested
  held : (out.resource ≡ "") ⊎ (next.resource ≡ out.resource)
  fits : (resource ≡ "") ⊎ (resource ≡ next.resource)
  asked : (next.resource ≡ out.resource) ⊎ (next.resource ≡ resource)

plain-Turn :
    (cfg : Config) (s : Store) (sc name : String) (out next : ResolvedScopes)
    → Grants cfg s sc name ""
    → some (grant out name) ≡ some next
    → Turn cfg s sc out next
plain-Turn cfg s sc name out next g e = record {
  name = name;
  resource = "";
  grants = g;
  appended = ground arith;
  kept = ground arith;
  held = inr (ground arith);
  fits = inl refl;
  asked = inl (ground arith);
}

bound-Turn :
    (cfg : Config) (s : Store) (sc name resource : String) (out next : ResolvedScopes)
    → Grants cfg s sc name resource
    → grant_for out resource name ≡ some next
    → Turn cfg s sc out next
unfolding grant_for
bound-Turn cfg s sc name resource out next g e = record {
  name = name;
  resource = resource;
  grants = g;
  appended = ground arith;
  kept = ground arith;
  held = ground (arith, eq_iff out.resource "", eq_iff out.resource resource);
  fits = inr (ground arith);
  asked = inr (ground arith);
}

registered-Turn :
    (cfg : Config) (s : Store) (sc : String) (out next : ResolvedScopes)
    → resolve_registered s sc out ≡ some next
    → Turn cfg s sc out next
unfolding resolve_registered
registered-Turn cfg s sc out next e = elim (Option-cases (cut_last_slash sc)) [
  | inl none_left ↦
      plain-Turn cfg s sc sc out next (bare sc none_left) (rw (none_left, resolve_registered) at e)
  | inr ((resource, name), cut) ↦ elim (Option-cases (find_resource_app s resource)) [
    | inl missing ↦ ground arith
    | inr (app, found) ↦ elim (Bool-cases (app_exposes_scope s app name)) [
      | inl shown ↦
          bound-Turn cfg s sc name resource out next
            (registered sc resource name app cut found (Exposes-row s app name shown))
            (rw (cut, resolve_registered, found, shown) at e)
      | inr hidden ↦ ground arith
    ]
  ]
]

turn :
    (cfg : Config) (s : Store) (sc : String) (out next : ResolvedScopes)
    → resolve_scope cfg s sc out ≡ some next
    → Turn cfg s sc out next
unfolding resolve_scope
turn cfg s sc out next e = elim (Bool-cases (contains oidc_scopes sc)) [
  | inl h ↦ plain-Turn cfg s sc sc out next (oidc sc h) (rw h at e)
  | inr no1 ↦ elim (Bool-cases (has_prefix sc (graph_prefix cfg))) [
    | inl h ↦ plain-Turn cfg s sc _ out next (graph sc h) (rw (no1, h) at e)
    | inr no2 ↦ elim (Bool-cases (contains known_graph_scopes sc)) [
      | inl h ↦ plain-Turn cfg s sc sc out next (known_graph sc h) (rw (no1, no2, h) at e)
      | inr no3 ↦ elim (Bool-cases (has_prefix sc fabric_prefix)) [
        | inl h ↦ bound-Turn cfg s sc _ _ out next (fabric sc h) (rw (no1, no2, no3, h) at e)
        | inr no4 ↦ elim (Bool-cases (contains known_fabric_scopes sc)) [
          | inl h ↦
              bound-Turn cfg s sc sc _ out next (known_fabric sc h)
                (rw (no1, no2, no3, no4, h) at e)
          | inr no5 ↦ elim (Bool-cases (azure_delegated_resource sc == "")) [
            | inl h ↦ registered-Turn cfg s sc out next (rw (no1, no2, no3, no4, no5, h) at e)
            | inr h ↦
                bound-Turn cfg s sc _ _ out next
                  (azure sc (λ z. ground (arith, eq_iff (azure_delegated_resource sc) "")))
                  (rw (no1, no2, no3, no4, no5, h) at e)
          ]
        ]
      ]
    ]
  ]
]

-- Some scope of the request asks for the resource.
abbrev pub IsAsked : Config → Store → (resource : String) → List String → Type 0
IsAsked cfg s resource scopes =
    (sc : String) × (name : String) × In sc scopes × Grants cfg s sc name resource

module _ (cfg : Config) (s : Store) where
  IsAsked-before :
      (sc resource : String) (scs : List String)
      → IsAsked cfg s resource scs
      → IsAsked cfg s resource (sc ∷ scs)
  IsAsked-before sc resource scs (by, name, i, g) = (by, name, inr i, g)

  IsAsked-now :
      (sc : String) (scs : List String) (out next : ResolvedScopes)
      → Turn cfg s sc out next
      → (next.resource ≡ out.resource) ⊎ IsAsked cfg s next.resource (sc ∷ scs)
  IsAsked-now sc scs out next t = elim t.asked [
    | inl kept ↦ inl kept
    | inr e ↦ inr (sc, t.name, inl refl, subst (Grants cfg s sc t.name) (sym e) t.grants)
  ]

  all_turns :
      (scs : List String) (out last : ResolvedScopes)
      → resolve_all cfg s scs out ≡ some last
      → (names : List String) × (last.granted ≡ out.granted ++ names)
        × (last.requested ≡ out.requested)
        × ((out.resource ≡ "") ⊎ (last.resource ≡ out.resource))
        × AreGranted cfg s last.resource scs names
        × ((last.resource ≡ out.resource) ⊎ IsAsked cfg s last.resource scs)
  unfolding resolve_all
  all_turns [] out last e = (
    [],
    ground (arith, append-nil out.granted),
    ground arith,
    ground arith,
    tt,
    inl (ground arith),
  )
  all_turns (sc ∷ scs) out last e = elim (Option-cases (resolve_scope cfg s sc out)) [
    | inl stop ↦ ground arith
    | inr (next, go) ↦
        let t = turn cfg s sc out next go in
        let (names, granted, kept, held, rest, asked) =
          all_turns scs next last (rw (go, resolve_all) at e) in
        (
          t.name ∷ names,
          granted
              ∙ (ap (λ l. l ++ names) t.appended ∙ append_assoc out.granted (t.name ∷ []) names),
          kept ∙ t.kept,
          ground (arith, t.held),
          ((t.resource, t.grants, ground (arith, t.fits)), rest),
          elim asked [
            | inr later ↦ inr (IsAsked-before sc last.resource scs later)
            | inl same ↦ elim (IsAsked-now sc scs out next t) [
              | inl unmoved ↦ inl (same ∙ unmoved)
              | inr here ↦ inr (subst (λ r. IsAsked cfg s r (sc ∷ scs)) (sym same) here)
            ]
          ],
        )
  ]

-- Where the scopes resolve, there is one granted name for each, in order: an OIDC scope, a scope of
-- Graph, Fabric or a known Azure resource, an enabled scope that a registered application exposes,
-- or a name without a slash. Only the scopes of Fabric, of an Azure resource and of an application
-- ask for a resource: all that do ask for the one of the result, and the result has none unless one
-- of them asks for it, so that a scope of Graph beside them is granted for their resource. And
-- `requested` is the request.
pub resolve_delegated_scopes_sound :
    (cfg : Config) (s : Store) (scopes : List String) (out : ResolvedScopes)
    → resolve_delegated_scopes cfg s scopes ≡ some out
    → (out.requested ≡ scopes)
      × AreGranted cfg s out.resource scopes out.granted
      × ((out.resource ≡ "") ⊎ IsAsked cfg s out.resource scopes)
unfolding resolve_delegated_scopes
resolve_delegated_scopes_sound cfg s scopes out e =
    let (names, granted, kept, held, all, asked) = all_turns cfg s scopes _ out e in
    (kept, subst (AreGranted cfg s out.resource scopes) (sym granted) all, asked)
