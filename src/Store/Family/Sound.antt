-- ===== src/Store/Family/Sound.antt =====
-- The soundness of the walk over a rotation chain.
use entra_emulator.Prelude.{
  ℕ, zero, suc, String, ◌≡◌, refl, subst, inl, inr, Bool, true, false, ◌||◌, some, List, [], ◌∷◌,
  arith, ◌==◌, eq_iff, if◌then◌else◌, Bool-cases, Option-cases, All, All-append, contains, In,
  select_first, select_first-holds, select_first-In,
}
use entra_emulator.Store.Types.{RefreshToken}
use entra_emulator.Store.Refresh.{has_hash}
use entra_emulator.Store.Family.{parent_of, family_loop}
use entra_emulator.Store.Family.Links.{
  child, parent, Linked, next, nullable_eq_iff, All-push_children,
}

module _ (rows : List RefreshToken) (a : String) where
  All-parent_of :
      (k : String) (seen : List String)
      → Linked rows a k
      → All (Linked rows a) (parent_of (select_first (has_hash k) rows) seen)
  All-parent_of k seen l = elim (Option-cases (select_first (has_hash k) rows)) [
    | inl e ↦ rw e tt
    | inr (t, e) ↦ rw e (
        go t (select_first-In (has_hash k) rows t e)
          ((eq_iff t.token_hash k).0 (select_first-holds (has_hash k) rows t e))
          (t.rotated_from == "" || contains seen t.rotated_from) refl)
  ]
    where
      go :
          (t : RefreshToken)
          → In t rows
          → t.token_hash ≡ k
          → (b : Bool) → (t.rotated_from == "" || contains seen t.rotated_from) ≡ b
          → All (Linked rows a) (if b then [] else t.rotated_from ∷ [])
      go t i e true q = tt
      go t i e false q =
          (next l (parent t i e refl (λ z. ground (arith, eq_iff t.rotated_from ""))), tt)

  -- Everything that is seen is linked with the start.
  pub family_loop_sound :
      (f : ℕ) (seen frontier all : List String)
      → All (Linked rows a) seen
      → All (Linked rows a) frontier
      → family_loop f rows seen frontier ≡ some all
      → All (Linked rows a) all
  unfolding family_loop
  family_loop_sound zero seen frontier all hs hf e = ground arith
  family_loop_sound (suc f) seen [] all hs hf e = subst (All (Linked rows a)) (ground arith) hs
  family_loop_sound (suc f) seen (k ∷ frontier) all hs (hk, hf) e =
      elim (Bool-cases (contains seen k)) [
        | inl old ↦ family_loop_sound f seen frontier all hs hf (rw old at e)
        | inr new ↦
            family_loop_sound f (k ∷ seen) _ all (hk, hs)
              (All-push_children k (k ∷ seen) (Linked rows a) rows _
                (λ t i q.
                  let (from, full) = (nullable_eq_iff t.rotated_from k).0 q in
                  next hk (child t i from full refl))
                (All-append (Linked rows a) _ frontier (All-parent_of k (k ∷ seen) hk) hf))
              (rw new at e)
      ]
