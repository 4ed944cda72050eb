-- ===== src/Prelude/Rows.antt =====
-- SQL statements over a table that is a list of rows. A `WHERE` clause is a test on a row.
use Prim.Native.Nat.{ℕ, ◌+◌, ◌<◌}
use mathlib.Core.Path.{◌≡◌, refl, sym, ap, ◌∙◌}
use mathlib.Core.Bool.{Bool, true, false}
use mathlib.Core.Option.{Option, none, some}
use mathlib.Core.List.{List, [], ◌∷◌, ◌++◌}
use native.Mathlib.Omega.{arith}
use entra_emulator.Prelude.Tests.{if◌then◌else◌, Bool-cases}
use mathlib.Core.Logic.{◌⊎◌, inl, inr}
use entra_emulator.Prelude.Lists.{All, In}

module _ {ℓ} {A : Type ℓ} where
  -- SELECT … WHERE p, of which the first row is read
  unfoldable pub select_first : (A → Bool) → List A → Option A
  select_first p [] = none
  select_first p (r ∷ rs) = if p r then some r else select_first p rs

  -- SELECT … WHERE p
  unfoldable pub select : (A → Bool) → List A → List A
  select p [] = []
  select p (r ∷ rs) = let rest = select p rs in if p r then r ∷ rest else rest

  -- UPDATE … SET f WHERE p
  unfoldable pub update : (A → Bool) → (A → A) → List A → List A
  update p f [] = []
  update p f (r ∷ rs) = (if p r then f r else r) ∷ update p f rs

  -- RowsAffected of an UPDATE or a DELETE with this WHERE clause
  unfoldable pub count : (A → Bool) → List A → ℕ
  count p [] = 0
  count p (r ∷ rs) = (if p r then 1 else 0) + count p rs

  -- DELETE … WHERE p
  unfoldable pub delete : (A → Bool) → List A → List A
  delete p [] = []
  delete p (r ∷ rs) = let rest = delete p rs in if p r then rest else r ∷ rest

  unfoldable pub exists : (A → Bool) → List A → Bool
  exists p [] = false
  exists p (r ∷ rs) = if p r then true else exists p rs

  pub exists_of_select_first :
      (p : A → Bool) (rs : List A) (r : A) → select_first p rs ≡ some r → exists p rs ≡ true
  unfolding select_first exists
  exists_of_select_first p [] r h = ground arith
  exists_of_select_first p (x ∷ rs) r h = ground (arith, exists_of_select_first p rs r)

  pub select_first-holds :
      (p : A → Bool) (rs : List A) (r : A) → select_first p rs ≡ some r → p r ≡ true
  unfolding select_first
  select_first-holds p [] r h = ground arith
  select_first-holds p (x ∷ rs) r h = ground (arith, select_first-holds p rs r)

  pub select_first-eq-none_of_exists :
      (p : A → Bool) (rs : List A) → exists p rs ≡ false → select_first p rs ≡ none
  unfolding select_first exists
  select_first-eq-none_of_exists p [] h = refl
  select_first-eq-none_of_exists p (x ∷ rs) h = ground (arith, select_first-eq-none_of_exists p rs)

  pub All-select_first {κ} :
      (P : A → Type κ) (p : A → Bool) (rs : List A) (r : A)
      → All P rs
      → select_first p rs ≡ some r
      → P r
  unfolding select_first
  All-select_first P p [] r h e = ground arith
  All-select_first P p (x ∷ rs) r (h, hs) e = elim (Bool-cases (p x)) [
    | inl hit ↦ ground arith
    | inr miss ↦ All-select_first P p rs r hs (ground arith)
  ]

  pub All-update {κ} :
      (P : A → Type κ) (p : A → Bool) (f : A → A) (rs : List A)
      → ((r : A) → p r ≡ true → P r → P (f r))
      → All P rs
      → All P (update p f rs)
  unfolding update
  All-update P p f [] k h = tt
  All-update P p f (x ∷ rs) k (h, hs) = (ground (arith, k x), All-update P p f rs k hs)

  pub All-delete {κ} :
      (P : A → Type κ) (p : A → Bool) (rs : List A) → All P rs → All P (delete p rs)
  unfolding delete
  All-delete P p [] h = tt
  All-delete P p (x ∷ rs) (h, hs) = ground (arith, All-delete P p rs hs)

  pub exists-update :
      (p q : A → Bool) (f : A → A)
      → ((r : A) → p (f r) ≡ p r)
      → (rs : List A) → exists p (update q f rs) ≡ exists p rs
  unfolding exists update
  exists-update p q f same [] = refl
  exists-update p q f same (x ∷ rs) = ground (arith, same x, exists-update p q f same rs)

  pub count-pos_of_select_first :
      (p : A → Bool) (rs : List A) (r : A) → select_first p rs ≡ some r → 0 < count p rs
  unfolding select_first count
  count-pos_of_select_first p [] r h = ground arith
  count-pos_of_select_first p (x ∷ rs) r h = ground (arith, count-pos_of_select_first p rs r)

module _ {A : Type 0} where
  pub select_first-In : (p : A → Bool) (rs : List A) (r : A) → select_first p rs ≡ some r → In r rs
  unfolding select_first
  select_first-In p [] r h = ground arith
  select_first-In p (x ∷ rs) r h = ground (arith, select_first-In p rs r)

  pub In-update :
      (q : A → Bool) (f : A → A) (rs : List A) (t : A)
      → In t (update q f rs)
      → (r : A) × In r rs × ((if q r then f r else r) ≡ t)
  unfolding update
  In-update q f [] t i = absurd i
  In-update q f (x ∷ rs) t (inl e) = (x, inl refl, e)
  In-update q f (x ∷ rs) t (inr i) = let (r, j, e) = In-update q f rs t i in (r, inr j, e)

  pub update-In :
      (q : A → Bool) (f : A → A) (rs : List A) (r : A)
      → In r rs
      → In (if q r then f r else r) (update q f rs)
  unfolding update
  update-In q f [] r i = absurd i
  update-In q f (x ∷ rs) r (inl e) = inl (ap (λ (y : A). if q y then f y else y) e)
  update-In q f (x ∷ rs) r (inr i) = inr (update-In q f rs r i)

  pub In-append_single : (rs : List A) (n t : A) → In t (rs ++ n ∷ []) → In t rs ⊎ (n ≡ t)
  In-append_single [] n t (inl e) = inr e
  In-append_single [] n t (inr i) = absurd i
  In-append_single (x ∷ rs) n t (inl e) = inl (inl e)
  In-append_single (x ∷ rs) n t (inr i) = elim (In-append_single rs n t i) [
    | inl j ↦ inl (inr j)
    | inr e ↦ inr e
  ]

  pub exists-In :
      (p : A → Bool) (rs : List A) → exists p rs ≡ true → (r : A) × In r rs × (p r ≡ true)
  unfolding exists
  exists-In p [] h = ground arith
  exists-In p (x ∷ rs) h = elim (Bool-cases (p x)) [
    | inl hit ↦ (x, inl refl, hit)
    | inr miss ↦ let (r, i, e) = exists-In p rs (ground arith) in (r, inr i, e)
  ]

  pub In-select : (p : A → Bool) (rs : List A) (r : A) → In r (select p rs) → In r rs × (p r ≡ true)
  unfolding select
  In-select p [] r i = absurd i
  In-select p (x ∷ rs) r i = elim (Bool-cases (p x)) [
    | inl hit ↦ listed (In-select p rs r) hit (rw hit at i)
    | inr miss ↦ let (j, e) = In-select p rs r (rw miss at i) in (inr j, e)
  ]
    where
      listed :
          (In r (select p rs) → In r rs × (p r ≡ true))
          → p x ≡ true
          → (x ≡ r) ⊎ In r (select p rs)
          → In r (x ∷ rs) × (p r ≡ true)
      listed below hit (inl e) = (inl e, ap p (sym e) ∙ hit)
      listed below hit (inr k) = let (j, e) = below k in (inr j, e)

  pub exists-delete :
      (p q : A → Bool) (rs : List A) → exists p rs ≡ false → exists p (delete q rs) ≡ false
  unfolding exists delete
  exists-delete p q [] h = refl
  exists-delete p q (x ∷ rs) h = ground (arith, exists-delete p q rs)

  pub exists-append :
      (p : A → Bool) (rs : List A) (r : A)
      → exists p rs ≡ false
      → p r ≡ false
      → exists p (rs ++ r ∷ []) ≡ false
  unfolding exists
  exists-append p [] r h e = ground arith
  exists-append p (x ∷ rs) r h e = ground (arith, exists-append p rs r)

  pub All-append_single {κ} :
      (P : A → Type κ) (rs : List A) (r : A) → All P rs → P r → All P (rs ++ r ∷ [])
  All-append_single P [] r h e = (e, tt)
  All-append_single P (x ∷ rs) r (h, hs) e = (h, All-append_single P rs r hs e)

  pub select-In : (p : A → Bool) (rs : List A) (r : A) → In r rs → p r ≡ true → In r (select p rs)
  unfolding select
  select-In p [] r i h = absurd i
  select-In p (x ∷ rs) r i h = elim (Bool-cases (p x)) [
    | inl hit ↦ rw hit (listed (select-In p rs r) i)
    | inr miss ↦ rw miss (later miss (select-In p rs r) i)
  ]
    where
      listed :
          (In r rs → p r ≡ true → In r (select p rs))
          → (x ≡ r) ⊎ In r rs
          → (x ≡ r) ⊎ In r (select p rs)
      listed below (inl e) = inl e
      listed below (inr k) = inr (below k h)

      later :
          p x ≡ false
          → (In r rs → p r ≡ true → In r (select p rs))
          → (x ≡ r) ⊎ In r rs
          → In r (select p rs)
      later miss below (inl e) = absurd (clash (sym miss ∙ (ap p e ∙ h)))
        where
          clash : false ≡ true → ⊥
          clash z = ground arith
      later miss below (inr k) = below k h

  pub exists-update_none :
      (p : A → Bool) (f : A → A)
      → ((r : A) → p (f r) ≡ false)
      → (rs : List A) → exists p (update p f rs) ≡ false
  unfolding exists update
  exists-update_none p f never [] = refl
  exists-update_none p f never (x ∷ rs) = ground (arith, never x, exists-update_none p f never rs)

  pub exists-delete_same : (p : A → Bool) (rs : List A) → exists p (delete p rs) ≡ false
  unfolding exists delete
  exists-delete_same p [] = refl
  exists-delete_same p (x ∷ rs) = ground (arith, exists-delete_same p rs)

  pub delete-append_kept :
      (q : A → Bool) (rs : List A) (r : A)
      → q r ≡ false
      → delete q (rs ++ r ∷ []) ≡ delete q rs ++ r ∷ []
  unfolding delete
  delete-append_kept q [] r h = rw h refl
  delete-append_kept q (x ∷ rs) r h = ground (arith, delete-append_kept q rs r h)
