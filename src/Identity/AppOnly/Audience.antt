-- ===== src/Identity/AppOnly/Audience.antt =====
-- The one resource of a request for an application's token, and its audience.
use text.Mathlib.TextLemmas.{nil-append, cons-append}
use entra_emulator.Text.{before_suffix, ◌<>◌}
use entra_emulator.Identity.AppOnly.{
  oidc_scopes, azure_aud, without_oidc, databricks_aud, default_resource, fabric_aud,
  find_resource_app, App, Store, Config, app_only_audience,
}
use entra_emulator.Prelude.{
  String, ◌≡◌, refl, sym, ap, subst, subst₂, ◌∙◌, ◌≢◌, inl, inr, false, not, Option, some, List, [],
  ◌∷◌, arith, ◌==◌, eq_iff, Bool-cases, Option-cases, contains, select,
}

-- Graph's own id and the known resources come before the registered ones.
abbrev IsOther : Config → (resource : String) → Type 0
IsOther cfg resource =
    (resource ≢ cfg.graph_resource_id)
    × (fabric_aud resource ≡ "")
    × (databricks_aud resource ≡ "")
    × (azure_aud resource ≡ "")

-- The audience of a resource: Graph's, the one of a known resource, or else the URI or the id of the
-- application that is registered for it.
pub data IsAudience (cfg : Config) (s : Store) : (resource aud : String) → Type 0 where
  graph : IsAudience cfg s cfg.graph_resource_id cfg.graph_resource_id
  fabric :
      (resource : String)
      → fabric_aud resource ≢ ""
      → IsAudience cfg s resource (fabric_aud resource)
  databricks :
      (resource : String)
      → databricks_aud resource ≢ ""
      → IsAudience cfg s resource (databricks_aud resource)
  azure :
      (resource : String) → azure_aud resource ≢ "" → IsAudience cfg s resource (azure_aud resource)
  by_uri :
      (resource : String) (ra : App)
      → IsOther cfg resource
      → find_resource_app s resource ≡ some ra
      → ra.app_id_uri ≡ resource
      → IsAudience cfg s resource resource
  by_id :
      (resource : String) (ra : App)
      → IsOther cfg resource
      → find_resource_app s resource ≡ some ra
      → ra.app_id_uri ≢ resource
      → IsAudience cfg s resource ra.id

without_oidc_lem :
    (l : List String) → without_oidc l ≡ select (λ sc. not (contains oidc_scopes sc)) l
unfolding without_oidc select
without_oidc_lem [] = refl
without_oidc_lem (sc ∷ l) = elim (Bool-cases (contains oidc_scopes sc)) [
  | inl e ↦ rw e (without_oidc_lem l)
  | inr e ↦ rw e (ap (λ r. sc ∷ r) (without_oidc_lem l))
]

some_same : {x y : String} → ◌≡◌ {A = Option String} (some x) (some y) → x ≡ y
some_same e = ground arith

before_suffix_lem :
    (suffix t before : String) → before_suffix suffix t ≡ some before → t ≡ before <> suffix
unfolding before_suffix
before_suffix_lem suffix String.[] before e = elim (Bool-cases (suffix == "")) [
  | inl empty ↦
      let same : "" ≡ before = some_same (rw empty at e) in
      sym (ap (λ b. b <> suffix) (sym same) ∙ (nil-append suffix ∙ (eq_iff suffix "").0 empty))
  | inr given ↦ ground arith
]
before_suffix_lem suffix (String.◌∷◌ c t) before e = elim (Bool-cases (String.◌∷◌ c t == suffix)) [
  | inl all ↦
      let same : "" ≡ before = some_same (rw all at e) in
      (eq_iff (String.◌∷◌ c t) suffix).0 all
      ∙ sym (ap (λ b. b <> suffix) (sym same) ∙ nil-append suffix)
  | inr part ↦ elim (Option-cases (before_suffix suffix t)) [
    | inl none_at ↦ ground arith
    | inr (b, found) ↦
        let same : String.◌∷◌ c b ≡ before = some_same (rw (part, found) at e) in
        ap (String.◌∷◌ c) (before_suffix_lem suffix t b found)
        ∙ (sym (cons-append c b suffix) ∙ ap (λ x. x <> suffix) same)
  ]
]

single_scope :
    (k : List String) (resource : String)
    → default_resource k ≡ some resource
    → k ≡ (resource <> "/.default") ∷ []
unfolding default_resource
single_scope [] resource h = ground arith
single_scope (sc ∷ []) resource h = ap (λ w. w ∷ []) (before_suffix_lem "/.default" sc resource h)
single_scope (sc ∷ (sc' ∷ k)) resource h = ground arith

pub one_scope_lem :
    (l : List String) (resource : String)
    → default_resource (without_oidc l) ≡ some resource
    → select (λ sc. not (contains oidc_scopes sc)) l ≡ (resource <> "/.default") ∷ []
one_scope_lem l resource e = sym (without_oidc_lem l) ∙ single_scope (without_oidc l) resource e

differs : (t : String) → t == "" ≡ false → t ≢ ""
differs t n q = ground (arith, (eq_iff t "").1 q)

aud_same :
    {x y : String} {l k : List String}
    → ◌≡◌ {A = Option (String × List String)} (some (x, l)) (some (y, k))
    → x ≡ y
aud_same e = ground arith

pub audience_lem :
    (cfg : Config) (s : Store) (app : App) (resource aud : String) (roles : List String)
    → app_only_audience cfg s app resource ≡ some (aud, roles)
    → IsAudience cfg s resource aud
unfolding app_only_audience
audience_lem cfg s app resource aud roles e =
    elim (Bool-cases (resource == cfg.graph_resource_id)) [
      | inl g ↦
          subst₂ (IsAudience cfg s) (sym ((eq_iff resource cfg.graph_resource_id).0 g))
            (aud_same (rw g at e)) graph
      | inr a ↦ elim (Bool-cases (fabric_aud resource == "")) [
        | inr f ↦
            subst (IsAudience cfg s resource) (aud_same (rw (a, f) at e))
              (fabric resource (differs _ f))
        | inl b ↦ elim (Bool-cases (databricks_aud resource == "")) [
          | inr f ↦
              subst (IsAudience cfg s resource) (aud_same (rw (a, b, f) at e))
                (databricks resource (differs _ f))
          | inl d ↦ elim (Bool-cases (azure_aud resource == "")) [
            | inr f ↦
                subst (IsAudience cfg s resource) (aud_same (rw (a, b, d, f) at e))
                  (azure resource (differs _ f))
            | inl z ↦ elim (Option-cases (find_resource_app s resource)) [
              | inl missing ↦ ground arith
              | inr (ra, found) ↦
                  let other : IsOther cfg resource = (
                    λ q. ground (arith, (eq_iff resource cfg.graph_resource_id).1 q),
                    (eq_iff _ "").0 b,
                    (eq_iff _ "").0 d,
                    (eq_iff _ "").0 z,
                  ) in
                  elim (Bool-cases (ra.app_id_uri == resource)) [
                    | inl u ↦
                        let uri = (eq_iff ra.app_id_uri resource).0 u in
                        subst (IsAudience cfg s resource)
                          (sym uri ∙ aud_same (rw (a, b, d, z, found, u) at e))
                          (by_uri resource ra other found uri)
                    | inr n ↦
                        subst (IsAudience cfg s resource)
                          (aud_same (rw (a, b, d, z, found, n) at e))
                          (by_id resource ra other found
                            (λ q. ground (arith, (eq_iff ra.app_id_uri resource).1 q)))
                  ]
            ]
          ]
        ]
      ]
    ]
