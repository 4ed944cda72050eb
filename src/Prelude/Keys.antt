-- ===== src/Prelude/Keys.antt =====
-- Tables with a primary key: no two rows have the same key.
use Prim.Native.String.{String}
use mathlib.Core.Path.{◌≡◌, refl, sym, subst, ◌∙◌}
use mathlib.Core.Logic.{◌≢◌, inl, inr}
use mathlib.Core.Bool.{Bool, true, false}
use mathlib.Core.Option
use mathlib.Core.Option.{Option, some}
use mathlib.Core.List.{List, [], ◌∷◌, ◌++◌}
use native.Mathlib.Omega.{arith}
use text.Mathlib.Text.{◌==◌}
use text.Mathlib.TextEquality.{eq_iff}
use entra_emulator.Prelude.Tests.{if◌then◌else◌, Bool-cases}
use entra_emulator.Prelude.Lists.{All, All-append}
use entra_emulator.Prelude.Rows.{
  select_first, update, count, delete, exists, exists-delete, All-update, All-delete,
}

module _ {A : Type 0} where
  abbrev pub Distinct : (A → String) → List A → Type 0
  Distinct key [] = Unit
  Distinct key (r ∷ rs) = All (λ (u : A). key u ≢ key r) rs × Distinct key rs

  module _ (key : A → String) where
    count_zero :
        (q : A → Bool) (k : String) (rs : List A)
        → ((r : A) → q r ≡ true → key r ≡ k)
        → All (λ (u : A). key u ≢ k) rs
        → count q rs ≡ 0
    unfolding count
    count_zero q k [] h a = refl
    count_zero q k (x ∷ rs) h (n, a) = elim (Bool-cases (q x)) [
      | inl hit ↦ absurd (n (h x hit))
      | inr miss ↦ ground (arith, count_zero q k rs h a)
    ]

    -- A test that holds of the row with the key `k`, and of no row with another key, counts one.
    pub count_one :
        (p q : A → Bool) (k : String) (rs : List A) (r : A)
        → Distinct key rs
        → ((u : A) → p u ≡ true → key u ≡ k)
        → ((u : A) → q u ≡ true → p u ≡ true)
        → select_first p rs ≡ some r
        → q r ≡ true
        → count q rs ≡ 1
    unfolding select_first count
    count_one p q k [] r d hp hq e hr = ground arith
    count_one p q k (x ∷ rs) r (new, d) hp hq e hr = elim (Bool-cases (p x)) [
      | inl hit ↦
          ground (arith, count_zero q (key x) rs (λ u c. hp u (hq u c) ∙ sym (hp x hit)) new)
      | inr miss ↦ ground (arith, hq x, count_one p q k rs r d hp hq (ground arith) hr)
    ]

    exists_of_keys :
        (p : A → Bool) (k : String) (rs : List A)
        → ((u : A) → p u ≡ true → key u ≡ k)
        → All (λ (u : A). key u ≢ k) rs
        → exists p rs ≡ false
    unfolding exists
    exists_of_keys p k [] h a = refl
    exists_of_keys p k (x ∷ rs) h (n, a) = elim (Bool-cases (p x)) [
      | inl hit ↦ absurd (n (h x hit))
      | inr miss ↦ ground (arith, exists_of_keys p k rs h a)
    ]

    All-key :
        (q : A → Bool) (k : String) (rs : List A) (r : A)
        → ((u : A) → q u ≡ true → key u ≡ k)
        → select_first q rs ≡ some r
        → All (λ (u : A). key u ≢ k) rs
        → ⊥
    unfolding select_first
    All-key q k [] r h e a = ground arith
    All-key q k (x ∷ rs) r h e (n, a) = elim (Bool-cases (q x)) [
      | inl hit ↦ n (h x hit)
      | inr miss ↦ All-key q k rs r h (rw miss at e) a
    ]

    -- The one row with this key, by a weaker test.
    pub select_first-key :
        (p q : A → Bool) (k : String) (rs : List A) (r : A)
        → Distinct key rs
        → ((u : A) → p u ≡ true → key u ≡ k)
        → ((u : A) → q u ≡ true → p u ≡ true)
        → select_first q rs ≡ some r
        → select_first p rs ≡ some r
    unfolding select_first
    select_first-key p q k [] r d hp hq e = e
    select_first-key p q k (x ∷ rs) r (new, d) hp hq e = elim (Bool-cases (q x)) [
      | inl hit ↦ ground (arith, hq x hit)
      | inr miss ↦ elim (Bool-cases (p x)) [
        | inl here ↦
            absurd
              (All-key q (key x) rs r (λ u h. hp u (hq u h) ∙ sym (hp x here)) (rw miss at e) new)
        | inr there ↦ ground (arith, select_first-key p q k rs r d hp hq (rw miss at e))
      ]
    ]

    -- Deleting the one row with this key.
    pub exists-delete_one :
        (p q : A → Bool) (k : String) (rs : List A) (r : A)
        → Distinct key rs
        → ((u : A) → p u ≡ true → key u ≡ k)
        → ((u : A) → q u ≡ true → key u ≡ k)
        → select_first q rs ≡ some r
        → exists p (delete q rs) ≡ false
    unfolding select_first exists delete
    exists-delete_one p q k [] r d hp hq e = refl
    exists-delete_one p q k (x ∷ rs) r (new, d) hp hq e = elim (Bool-cases (q x)) [
      | inl hit ↦ rw hit (
          exists-delete p q rs
            (exists_of_keys p k rs hp (subst (λ z. All (λ (u : A). key u ≢ z) rs) (hq x hit) new)))
      | inr miss ↦ elim (Bool-cases (p x)) [
        | inl here ↦
            absurd (All-key q (key x) rs r (λ u h. hq u h ∙ sym (hp x here)) (rw miss at e) new)
        | inr there ↦ ground (arith, exists-delete_one p q k rs r d hp hq (rw miss at e))
      ]
    ]

    pub Distinct-delete :
        (q : A → Bool) (rs : List A) → Distinct key rs → Distinct key (delete q rs)
    unfolding delete
    Distinct-delete q [] d = tt
    Distinct-delete q (x ∷ rs) (new, d) = elim (Bool-cases (q x)) [
      | inl hit ↦ rw hit (Distinct-delete q rs d)
      | inr miss ↦ rw miss (All-delete (λ (u : A). key u ≢ key x) q rs new, Distinct-delete q rs d)
    ]

    pub Distinct-append :
        (rs : List A) (r : A)
        → Distinct key rs
        → exists (λ (u : A). key u == key r) rs ≡ false
        → Distinct key (rs ++ r ∷ [])
    unfolding exists
    Distinct-append [] r d h = (tt, tt)
    Distinct-append (x ∷ rs) r (new, d) h = (
      All-append (λ (u : A). key u ≢ key x) rs (r ∷ []) new
          (ground (arith, eq_iff (key x) (key r)), tt),
      Distinct-append rs r d (ground arith),
    )

    module _ (q : A → Bool) (f : A → A) (same : (r : A) → key (f r) ≡ key r) where
      pub Distinct-update : (rs : List A) → Distinct key rs → Distinct key (update q f rs)
      unfolding update
      Distinct-update [] d = tt
      Distinct-update (x ∷ rs) (new, d) = elim (Bool-cases (q x)) [
        | inl hit ↦ rw (hit, same x) (keep x rs new, Distinct-update rs d)
        | inr miss ↦ rw miss (keep x rs new, Distinct-update rs d)
      ]
        where
          keep :
              (x : A) (rs : List A)
              → All (λ (u : A). key u ≢ key x) rs
              → All (λ (u : A). key u ≢ key x) (update q f rs)
          keep x rs =
              All-update (λ (u : A). key u ≢ key x) q f rs (λ r hit n e. n (sym (same r) ∙ e))

  module _ (p q : A → Bool) (f : A → A) (stable : (r : A) → p (f r) ≡ p r) where
    pub select_first-update :
        (rs : List A)
        → select_first p (update q f rs)
          ≡ Option.map (λ (r : A). if q r then f r else r) (select_first p rs)
    unfolding select_first update
    select_first-update [] = refl
    select_first-update (x ∷ rs) = ground (arith, stable x, select_first-update rs)

  pub select_first-append :
      (p : A → Bool) (rs : List A) (r u : A)
      → select_first p rs ≡ some u
      → select_first p (rs ++ r ∷ []) ≡ some u
  unfolding select_first
  select_first-append p [] r u e = ground arith
  select_first-append p (x ∷ rs) r u e = ground (arith, select_first-append p rs r u)

  pub select_first-append_new :
      (p : A → Bool) (rs : List A) (r : A)
      → exists p rs ≡ false
      → p r ≡ true
      → select_first p (rs ++ r ∷ []) ≡ some r
  unfolding select_first exists
  select_first-append_new p [] r h e = ground arith
  select_first-append_new p (x ∷ rs) r h e = ground (arith, select_first-append_new p rs r)
