-- ===== src/Store/Family/Complete.antt =====
-- The completeness of the walk over a rotation chain.
use entra_emulator.Prelude.{
  ℕ, zero, suc, String, ◌≡◌, refl, sym, subst, subst₂, ◌∙◌, ◌≢◌, ◌⊎◌, inl, inr, Bool, true, false,
  some, List, [], ◌∷◌, ◌++◌, arith, eq_iff, Bool-cases, contains, In, In-of_contains,
  In-append_right, select_first,
}
use entra_emulator.Store.Types.{RefreshToken, nullable_eq}
use entra_emulator.Store.Refresh.{has_hash}
use entra_emulator.Store.Family.{parent_of, push_children, family_loop}
use entra_emulator.Store.Family.Links.{
  Next, child, parent, Unique, select_first-Unique, nullable_eq_iff, In-push_children,
  child-In-push_children,
}

-- Every neighbour of a seen hash is seen or waits in the frontier.
abbrev pub Pending : List RefreshToken → List String → List String → Type 0
Pending rows seen frontier = (b c : String) → In b seen → Next rows b c → In c seen ⊎ In c frontier

module _ (rows : List RefreshToken) (unique : Unique rows) where
  parent-In :
      (t : RefreshToken) (seen frontier : List String)
      → In t rows
      → t.rotated_from ≢ ""
      → In t.rotated_from seen
        ⊎ In t.rotated_from (parent_of (select_first (has_hash t.token_hash) rows) seen ++ frontier)
  parent-In t seen frontier i full =
      rw (select_first-Unique t rows unique i) (go (contains seen t.rotated_from) refl)
    where
      go :
          (b : Bool)
          → contains seen t.rotated_from ≡ b
          → In t.rotated_from seen ⊎ In t.rotated_from (parent_of (some t) seen ++ frontier)
      go true e = inl (In-of_contains seen t.rotated_from e)
      go false e = inr (ground (arith, eq_iff t.rotated_from ""))

  -- Where `x` may be after the visit of `k`.
  AtVisit : String → List String → List String → String → Type 0
  AtVisit k seen frontier x =
      In x (k ∷ seen)
      ⊎ In x (
          push_children k (k ∷ seen) rows
            (parent_of (select_first (has_hash k) rows) (k ∷ seen) ++ frontier))

  child-visit :
      (t : RefreshToken) (k : String) (seen frontier : List String)
      → In t rows
      → nullable_eq t.rotated_from k ≡ true
      → AtVisit k seen frontier t.token_hash
  unfolding AtVisit
  child-visit t k seen frontier i q = elim (Bool-cases (contains (k ∷ seen) t.token_hash)) [
    | inl old ↦ inl (In-of_contains (k ∷ seen) t.token_hash old)
    | inr new ↦ inr (child-In-push_children k (k ∷ seen) t rows _ i q new)
  ]

  parent-visit :
      (t : RefreshToken) (seen frontier : List String)
      → In t rows
      → t.rotated_from ≢ ""
      → AtVisit t.token_hash seen frontier t.rotated_from
  unfolding AtVisit
  parent-visit t seen frontier i full = elim (parent-In t (t.token_hash ∷ seen) frontier i full) [
    | inl old ↦ inl old
    | inr new ↦ inr (In-push_children t.token_hash (t.token_hash ∷ seen) t.rotated_from rows _ new)
  ]

  skip-Pending :
      (k : String) (seen frontier : List String)
      → In k seen
      → Pending rows seen (k ∷ frontier)
      → Pending rows seen frontier
  skip-Pending k seen frontier at_k p b c i n = elim (p b c i n) [
    | inl old ↦ inl old
    | inr (inl e) ↦ inl (subst (λ x. In x seen) e at_k)
    | inr (inr f) ↦ inr f
  ]

  drop_top :
      (k : String) (seen frontier : List String)
      → In k seen
      → (x : String) → In x seen ⊎ In x (k ∷ frontier)
      → In x seen ⊎ In x frontier
  drop_top k seen frontier at_k x (inl s) = inl s
  drop_top k seen frontier at_k x (inr (inl e)) = inl (subst (λ x. In x seen) e at_k)
  drop_top k seen frontier at_k x (inr (inr f)) = inr f

  move_top :
      (k : String) (seen frontier : List String) (x : String)
      → In x seen ⊎ In x (k ∷ frontier)
      → AtVisit k seen frontier x
  unfolding AtVisit
  move_top k seen frontier x (inl s) = inl (inr s)
  move_top k seen frontier x (inr (inl e)) = inl (inl e)
  move_top k seen frontier x (inr (inr f)) =
      inr (In-push_children k (k ∷ seen) x rows _ (In-append_right x _ frontier f))

  visit-Pending :
      (k : String) (seen frontier : List String)
      → Pending rows seen (k ∷ frontier)
      → Pending rows (k ∷ seen) (
          push_children k
            (k ∷ seen)
            rows
            (parent_of (select_first (has_hash k) rows) (k ∷ seen) ++ frontier))
  unfolding AtVisit
  visit-Pending k seen frontier p b c (inl e) (child t i from full to) =
      subst (AtVisit k seen frontier) to (
        child-visit t k seen frontier i
          ((nullable_eq_iff t.rotated_from k).1 (from ∙ sym e, λ z. full (sym e ∙ z))))
  visit-Pending k seen frontier p b c (inl e) (parent t i from to full) =
      subst₂ (λ x y. AtVisit x seen frontier y) (from ∙ sym e) to
        (parent-visit t seen frontier i (λ z. full (sym to ∙ z)))
  visit-Pending k seen frontier p b c (inr i) n = elim (p b c i n) [
    | inl old ↦ inl (inr old)
    | inr (inl e) ↦ inl (inl e)
    | inr (inr f) ↦ inr (In-push_children k (k ∷ seen) c rows _ (In-append_right c _ frontier f))
  ]

  pub family_loop_complete :
      (f : ℕ) (seen frontier all : List String)
      → Pending rows seen frontier
      → family_loop f rows seen frontier ≡ some all
      → ((x : String) → In x seen ⊎ In x frontier → In x all) × Pending rows all []
  unfolding family_loop AtVisit
  family_loop_complete zero seen frontier all p e = ground arith
  family_loop_complete (suc f) seen [] all p e =
      let same : seen ≡ all = ground arith in
      (
        λ x i. elim i [ inl s ↦ subst (In x) same s | inr none_left ↦ absurd none_left ],
        subst (λ l. Pending rows l []) same p,
      )
  family_loop_complete (suc f) seen (k ∷ frontier) all p e = elim (Bool-cases (contains seen k)) [
    | inl old ↦
        let at_k : In k seen = In-of_contains seen k old in
        let (grow, closed) =
          family_loop_complete f seen frontier all (skip-Pending k seen frontier at_k p)
            (rw old at e) in
        (λ x i. grow x (drop_top k seen frontier at_k x i), closed)
    | inr new ↦
        let (grow, closed) =
          family_loop_complete f (k ∷ seen) _ all (visit-Pending k seen frontier p) (rw new at e) in
        (λ x i. grow x (move_top k seen frontier x i), closed)
  ]
