-- ===== src/Tokens/Lifetimes/Assigned.antt =====
-- The assignments of policies to applications, and the policy that is in force.
use entra_emulator.Tokens.Lifetimes.{
  sort_by_age, effective, parse_policy_lifetimes, Definition, policies_of, app_exists,
  app_token_lifetime_policies, effective_token_lifetimes, of_app, assign_token_lifetime_policy,
  create_token_lifetime_policy, delete_token_lifetime_policy, get_token_lifetime_policy,
  unassign_token_lifetime_policy,
}
use entra_emulator.Store.Directory.{row_of_get}
use entra_emulator.Store.Types.{Result-cases, ok, AppPolicy, Store, TokenLifetimePolicy}
use entra_emulator.Prelude.{
  String, ◌≡◌, refl, sym, ap, ◌∙◌, inl, inr, Bool, true, false, ◌&&◌, Option, List, [], ◌∷◌, ◌++◌,
  arith, ◌==◌, eq_iff, eq_refl, Bool-cases, All, All-map, select, delete, exists,
  exists_of_select_first, All-delete, All-append_single, exists-delete_same, Distinct,
  Distinct-delete, Distinct-append,
}

abbrev pub is_policy : String → TokenLifetimePolicy → Bool
is_policy id p = p.id == id

-- An application has at most one policy, and it is in the table of policies.
pub record IsPolicyTable (s : Store) : Type 0 where
  pub one_each : Distinct (λ (a : AppPolicy). a.app_id) s.app_token_lifetime_policies
  pub known :
      All
        (λ (a : AppPolicy). exists (is_policy a.policy_id) s.token_lifetime_policies ≡ true)
        s.app_token_lifetime_policies

exists-append_row :
    (id : String) (l : List TokenLifetimePolicy) (p : TokenLifetimePolicy)
    → exists (is_policy id) l ≡ true
    → exists (is_policy id) (l ++ p ∷ []) ≡ true
unfolding exists
exists-append_row id [] p h = ground arith
exists-append_row id (x ∷ l) p h = ground (arith, exists-append_row id l p)

exists-delete_other :
    (k id : String) (l : List TokenLifetimePolicy)
    → k == id ≡ false
    → exists (is_policy k) l ≡ true
    → exists (is_policy k) (delete (is_policy id) l) ≡ true
unfolding exists delete
exists-delete_other k id [] n h = h
exists-delete_other k id (x ∷ l) n h = elim (Bool-cases (x.id == id)) [
  | inl hit ↦ elim (Bool-cases (x.id == k)) [
    | inl same ↦ absurd (clash (sym ((eq_iff x.id k).0 same) ∙ (eq_iff x.id id).0 hit))
    | inr other ↦ ground (arith, exists-delete_other k id l n)
  ]
  | inr miss ↦ ground (arith, exists-delete_other k id l n)
]
  where
    clash : k ≡ id → ⊥
    clash z = ground (arith, (eq_iff k id).1 z)

All-kept :
    (P Q : AppPolicy → Type 0) (q : AppPolicy → Bool)
    → ((a : AppPolicy) → q a ≡ false → P a → Q a)
    → (l : List AppPolicy) → All P l
    → All Q (delete q l)
unfolding delete
All-kept P Q q keep [] h = tt
All-kept P Q q keep (x ∷ l) (h, hs) = elim (Bool-cases (q x)) [
  | inl hit ↦ rw hit (All-kept P Q q keep l hs)
  | inr miss ↦ rw miss (keep x miss h, All-kept P Q q keep l hs)
]

policy_there :
    (s : Store) (id : String) (p : TokenLifetimePolicy)
    → get_token_lifetime_policy s id ≡ ok p
    → exists (is_policy id) s.token_lifetime_policies ≡ true
unfolding get_token_lifetime_policy
policy_there s id p e =
    exists_of_select_first (is_policy id) s.token_lifetime_policies p (row_of_get _ p e)

create-IsPolicyTable :
    (p : TokenLifetimePolicy) (s : Store)
    → IsPolicyTable s
    → IsPolicyTable (create_token_lifetime_policy p s).1
unfolding create_token_lifetime_policy
create-IsPolicyTable p s t = elim (Bool-cases (exists (is_policy p.id) s.token_lifetime_policies)) [
  | inl there ↦ rw there t
  | inr new ↦ rw new record {
    one_each = t.one_each;
    known =
        All-map (λ a h. exists-append_row a.policy_id s.token_lifetime_policies p h)
          s.app_token_lifetime_policies t.known;
  }
]

delete-IsPolicyTable :
    (id : String) (s : Store)
    → IsPolicyTable s
    → IsPolicyTable (delete_token_lifetime_policy id s).1
unfolding delete_token_lifetime_policy
delete-IsPolicyTable id s t = elim (Bool-cases (exists (is_policy id) s.token_lifetime_policies)) [
  | inr missing ↦ rw missing t
  | inl there ↦ rw there record {
    one_each =
        Distinct-delete (λ (a : AppPolicy). a.app_id) (λ a. a.policy_id == id)
          s.app_token_lifetime_policies t.one_each;
    known =
        All-kept (λ a. exists (is_policy a.policy_id) s.token_lifetime_policies ≡ true)
          (λ a.
            exists (is_policy a.policy_id) (delete (is_policy id) s.token_lifetime_policies) ≡ true)
          (λ a. a.policy_id == id)
          (λ a n h. exists-delete_other a.policy_id id s.token_lifetime_policies n h)
          s.app_token_lifetime_policies t.known;
  }
]

assign-IsPolicyTable :
    (app_id policy_id : String) (s : Store)
    → IsPolicyTable s
    → IsPolicyTable (assign_token_lifetime_policy app_id policy_id s).1
unfolding assign_token_lifetime_policy
assign-IsPolicyTable app_id policy_id s t =
    elim (Result-cases (get_token_lifetime_policy s policy_id)) [
      | inr (e, missing) ↦ rw (missing, assign_token_lifetime_policy) t
      | inl (p, found) ↦ elim (Bool-cases (app_exists s app_id)) [
        | inr none_at ↦ rw (found, none_at, assign_token_lifetime_policy) t
        | inl there ↦
            rw (found, there, assign_token_lifetime_policy)
              record {
                one_each =
                    Distinct-append (λ (a : AppPolicy). a.app_id)
                      (delete (of_app app_id) s.app_token_lifetime_policies)
                      record { app_id = app_id; policy_id = policy_id }
                      (Distinct-delete (λ (a : AppPolicy). a.app_id) (of_app app_id)
                        s.app_token_lifetime_policies t.one_each)
                      (exists-delete_same (of_app app_id) s.app_token_lifetime_policies);
                known =
                    All-append_single
                      (λ (a : AppPolicy).
                        exists (is_policy a.policy_id) s.token_lifetime_policies ≡ true)
                      (delete (of_app app_id) s.app_token_lifetime_policies)
                      record { app_id = app_id; policy_id = policy_id }
                      (All-delete
                        (λ (a : AppPolicy).
                          exists (is_policy a.policy_id) s.token_lifetime_policies ≡ true)
                        (of_app app_id) s.app_token_lifetime_policies t.known)
                      (policy_there s policy_id p found);
              }
      ]
    ]

unassign-IsPolicyTable :
    (app_id policy_id : String) (s : Store)
    → IsPolicyTable s
    → IsPolicyTable (unassign_token_lifetime_policy app_id policy_id s).1
unfolding unassign_token_lifetime_policy
unassign-IsPolicyTable app_id policy_id s t =
    let q : AppPolicy → Bool = λ a. a.app_id == app_id && a.policy_id == policy_id in
    elim (Bool-cases (exists q s.app_token_lifetime_policies)) [
      | inr missing ↦ rw missing t
      | inl there ↦ rw there record {
        one_each =
            Distinct-delete (λ (a : AppPolicy). a.app_id) q s.app_token_lifetime_policies
              t.one_each;
        known =
            All-delete
              (λ (a : AppPolicy). exists (is_policy a.policy_id) s.token_lifetime_policies ≡ true) q
              s.app_token_lifetime_policies t.known;
      }
    ]

-- Every operation on the policies (creating, deleting, assigning, unassigning), failed or not, keeps
-- that an application has at most one policy, and one that is in the table of policies.
pub policies-IsPolicyTable :
    (s : Store) (p : TokenLifetimePolicy) (id app_id policy_id : String)
    → IsPolicyTable s
    → IsPolicyTable (create_token_lifetime_policy p s).1
      × IsPolicyTable (delete_token_lifetime_policy id s).1
      × IsPolicyTable (assign_token_lifetime_policy app_id policy_id s).1
      × IsPolicyTable (unassign_token_lifetime_policy app_id policy_id s).1
policies-IsPolicyTable s p id app_id policy_id t = (
  create-IsPolicyTable p s t,
  delete-IsPolicyTable id s t,
  assign-IsPolicyTable app_id policy_id s t,
  unassign-IsPolicyTable app_id policy_id s t,
)

only_row :
    (app_id : String) (r : AppPolicy)
    → of_app app_id r ≡ true
    → (l : List AppPolicy) → select (of_app app_id) (delete (of_app app_id) l ++ r ∷ []) ≡ r ∷ []
unfolding select delete
only_row app_id r h [] = rw h refl
only_row app_id r h (x ∷ l) = ground (arith, only_row app_id r h l)

assigned :
    (app_id policy_id : String) (s : Store) (p : TokenLifetimePolicy)
    → get_token_lifetime_policy s policy_id ≡ ok p
    → app_exists s app_id ≡ true
    → (assign_token_lifetime_policy app_id policy_id s).1 ≡ record s {
      app_token_lifetime_policies =
          delete (of_app app_id) s.app_token_lifetime_policies
          ++ record { app_id = app_id; policy_id = policy_id } ∷ [];
    }
unfolding assign_token_lifetime_policy
assigned app_id policy_id s p found there = rw (found, there, assign_token_lifetime_policy) refl

-- Assigning a policy to an application makes it the policy in force for the application, whatever
-- was assigned before, where both are in their tables: the lifetimes are those that the policy's
-- definitions decode to, and no default of the organization is asked.
pub assign-effective :
    (decode : String → Option Definition) (app_id policy_id : String) (s : Store)
    (p : TokenLifetimePolicy)
    → get_token_lifetime_policy s policy_id ≡ ok p
    → app_exists s app_id ≡ true
    → effective_token_lifetimes decode (assign_token_lifetime_policy app_id policy_id s).1 app_id
      ≡ parse_policy_lifetimes decode p
unfolding effective_token_lifetimes app_token_lifetime_policies policies_of
    get_token_lifetime_policy
assign-effective decode app_id policy_id s p found there =
    let r : AppPolicy = record { app_id = app_id; policy_id = policy_id } in
    let t : Store = record s {
      app_token_lifetime_policies = delete (of_app app_id) s.app_token_lifetime_policies ++ r ∷ [];
    } in
    let joined_first : get_token_lifetime_policy t policy_id ≡ ok p
        → effective decode (policies_of t (r ∷ [])) (sort_by_age s.token_lifetime_policies)
          ≡ parse_policy_lifetimes decode p =
      λ e. rw e refl in
    ap (λ u. effective_token_lifetimes decode u app_id) (assigned app_id policy_id s p found there)
    ∙ (ap (λ rows. effective decode (policies_of t rows) (sort_by_age s.token_lifetime_policies))
          (only_row app_id r (eq_refl app_id) s.app_token_lifetime_policies)
        ∙ joined_first found)
