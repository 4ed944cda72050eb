-- ===== src/Store/Family/Links.antt =====
-- The links between the rows of a rotation chain, and what one visit pushes.
use entra_emulator.Prelude.{
  String, ◌≡◌, refl, ◌≢◌, ◌↔◌, inl, inr, true, false, some, List, [], ◌∷◌, arith, eq_iff, All,
  contains, In, In-All, select_first, Distinct,
}
use entra_emulator.Store.Types.{RefreshToken, nullable_eq}
use entra_emulator.Store.Refresh.{has_hash}
use entra_emulator.Store.Family.{push_children}

-- One row links a token with the one that it was rotated from.
pub data Next (rows : List RefreshToken) (a b : String) : Type 0 where
  child :
      (t : RefreshToken)
      → In t rows
      → t.rotated_from ≡ a
      → a ≢ ""
      → t.token_hash ≡ b
      → Next rows a b
  parent :
      (t : RefreshToken)
      → In t rows
      → t.token_hash ≡ a
      → t.rotated_from ≡ b
      → b ≢ ""
      → Next rows a b

-- The family of a token: what the rows link with it in any number of steps, up or down.
pub data Linked (rows : List RefreshToken) (a : String) : String → Type 0 where
  here : Linked rows a a
  next : {b c : String} → Linked rows a b → Next rows b c → Linked rows a c

-- `token` is the primary key of the table.
abbrev pub Unique : List RefreshToken → Type 0
Unique = Distinct (λ (t : RefreshToken). t.token_hash)

pub select_first-Unique :
    (t : RefreshToken) (rows : List RefreshToken)
    → Unique rows
    → In t rows
    → select_first (has_hash t.token_hash) rows ≡ some t
unfolding select_first
select_first-Unique t [] u i = absurd i
select_first-Unique t (r ∷ rows) (new, u) (inl e) = ground (arith, eq_iff r.token_hash t.token_hash)
select_first-Unique t (r ∷ rows) (new, u) (inr i) = ground (
  arith,
  eq_iff r.token_hash t.token_hash,
  In-All (λ (u : RefreshToken). u.token_hash ≢ r.token_hash) t rows new i,
  select_first-Unique t rows u i,
)

pub nullable_eq_iff : (a b : String) → (nullable_eq a b ≡ true) ↔ ((a ≡ b) × (b ≢ ""))
nullable_eq_iff a b = (
  λ h. (ground (arith, eq_iff a "", eq_iff a b), λ e. ground (arith, eq_iff a "", eq_iff a b)),
  λ (e, n). ground (arith, eq_iff a "", eq_iff a b),
)

module _ (h : String) (seen : List String) where
  pub In-push_children :
      (x : String) (rows : List RefreshToken) (frontier : List String)
      → In x frontier
      → In x (push_children h seen rows frontier)
  unfolding push_children
  In-push_children x [] frontier i = i
  In-push_children x (t ∷ rows) frontier i = In-push_children x rows _ (ground arith)

  pub child-In-push_children :
      (t : RefreshToken) (rows : List RefreshToken) (frontier : List String)
      → In t rows
      → nullable_eq t.rotated_from h ≡ true
      → contains seen t.token_hash ≡ false
      → In t.token_hash (push_children h seen rows frontier)
  unfolding push_children
  child-In-push_children t [] frontier i e new = absurd i
  child-In-push_children t (r ∷ rows) frontier (inl same) e new =
      In-push_children t.token_hash rows _ (ground arith)
  child-In-push_children t (r ∷ rows) frontier (inr i) e new =
      child-In-push_children t rows _ i e new

  pub All-push_children {κ} :
      (P : String → Type κ) (rows : List RefreshToken) (frontier : List String)
      → ((t : RefreshToken) → In t rows → nullable_eq t.rotated_from h ≡ true → P t.token_hash)
      → All P frontier
      → All P (push_children h seen rows frontier)
  unfolding push_children
  All-push_children P [] frontier k a = a
  All-push_children P (t ∷ rows) frontier k a =
      All-push_children P rows _ (λ u i. k u (inr i)) (ground (arith, k t (inl refl)))
