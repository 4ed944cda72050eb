-- ===== src/Store/Family/Fuel.antt =====
-- The fuel of the walk over a rotation chain.
use entra_emulator.Prelude.{
  ℕ, zero, suc, ◌+◌, ◌*◌, ◌≤◌, ◌<◌, String, ◌≡◌, refl, inl, inr, false, Option, none, some, List,
  [], ◌∷◌, ◌++◌, arith, eq_iff, if◌then◌else◌, Bool-cases, Option-cases, length, length-append,
  contains, select_first, count, count-pos_of_select_first,
}
use entra_emulator.Store.Types.{RefreshToken}
use entra_emulator.Store.Refresh.{has_hash}
use entra_emulator.Store.Family.{parent_of, push_children, family_loop, family_fuel, family}

-- How often a row still can bring a hash to the frontier.
weight : List String → List RefreshToken → ℕ
weight seen [] = 0
weight seen (t ∷ rows) =
    (if contains seen t.token_hash then 0 else 1)
    + (if contains seen t.rotated_from then 0 else 1)
    + weight seen rows

push_children-weight :
    (h : String) (seen : List String) (rows : List RefreshToken) (frontier : List String)
    → contains seen h ≡ false
    → length (push_children h (h ∷ seen) rows frontier)
        + weight (h ∷ seen) rows
        + count (has_hash h) rows
      ≤ length frontier + weight seen rows
unfolding push_children weight count
push_children-weight h seen [] frontier new = omega arith
push_children-weight h seen (t ∷ rows) frontier new = ground (
  arith,
  eq_iff h t.token_hash,
  eq_iff t.token_hash h,
  eq_iff h t.rotated_from,
  eq_iff t.rotated_from h,
  push_children-weight h seen rows frontier new,
  push_children-weight h seen rows (t.token_hash ∷ frontier) new,
)

length-parent_of : (o : Option RefreshToken) (seen : List String) → length (parent_of o seen) ≤ 1
length-parent_of none seen = omega arith
length-parent_of (some t) seen = ground arith

parent_weight :
    (h : String) (seen : List String) (rows : List RefreshToken)
    → length (parent_of (select_first (has_hash h) rows) seen) ≤ count (has_hash h) rows
parent_weight h seen rows = elim (Option-cases (select_first (has_hash h) rows)) [
  | inl e ↦ rw e (omega arith)
  | inr (t, e) ↦ rw e (
      omega
        (arith, length-parent_of (some t) seen, count-pos_of_select_first (has_hash h) rows t e))
]

family_loop_total :
    (f : ℕ) (rows : List RefreshToken) (seen frontier : List String)
    → length frontier + weight seen rows < f
    → (all : List String) × (family_loop f rows seen frontier ≡ some all)
unfolding family_loop
family_loop_total zero rows seen frontier h = elim h [ ]
family_loop_total (suc f) rows seen [] h = (seen, refl)
family_loop_total (suc f) rows seen (k ∷ frontier) h = elim (Bool-cases (contains seen k)) [
  | inl old ↦ rw old (family_loop_total f rows seen frontier (omega arith))
  | inr new ↦ rw new (
      family_loop_total f rows (k ∷ seen) _ (
        omega (
          arith,
          push_children-weight k seen rows
              (parent_of (select_first (has_hash k) rows) (k ∷ seen) ++ frontier) new,
          length-append (parent_of (select_first (has_hash k) rows) (k ∷ seen)) frontier,
          parent_weight k (k ∷ seen) rows,
        )))
]

weight_le : (rows : List RefreshToken) → weight [] rows ≤ 2 * length rows
unfolding weight
weight_le [] = omega arith
weight_le (t ∷ rows) = omega (arith, weight_le rows)

-- The fuel is enough: the walk from any hash over any table ends with a set of seen hashes.
pub family_total :
    (hash : String) (rows : List RefreshToken)
    → (seen : List String) × (family hash rows ≡ some seen)
unfolding family
family_total hash rows =
    family_loop_total (family_fuel rows) rows [] (hash ∷ []) (omega (arith, weight_le rows))
