-- ===== src/Audit/Slots.antt =====
-- The arithmetic of the ring: which slot holds which event, and writes to a slot.
use native.Mathlib.Nat.{mod-eq_of_lt, mod-eq-sub-mod}
use entra_emulator.Prelude.{
  ℕ, zero, suc, ◌+◌, ◌-◌, ◌%◌, ◌≤◌, ◌<◌, ◌≡◌, refl, sym, ap, ◌∙◌, ◌≢◌, ◌⊎◌, inl, inr, List, [], ◌∷◌,
  arith, ltb, ltb→lt, Bool-cases, length,
}
use entra_emulator.Audit.{Event, make, set, at}

wrap : (a c : ℕ) → a < c → (a + c) % c ≡ a
wrap a c h = mod-eq-sub-mod (omega (arith, h)) ∙ (ap (λ n. n % c) (omega arith) ∙ mod-eq_of_lt h)

pub slot_low : (next cap i : ℕ) → i < next → next < cap → (next + cap - 1 - i) % cap ≡ next - 1 - i
slot_low next cap i h k =
    ap (λ n. n % cap) (omega (arith, h, k)) ∙ wrap (next - 1 - i) cap (omega (arith, h, k))

pub slot_high :
    (next cap i : ℕ)
    → next ≤ i
    → i < cap
    → next < cap
    → (next + cap - 1 - i) % cap ≡ next + cap - 1 - i
slot_high next cap i h k l = mod-eq_of_lt (omega (arith, h, k, l))

pub length-make : (n : ℕ) → length (make n) ≡ n
unfolding make
length-make zero = refl
length-make (suc n) = ap suc (length-make n)

pub length-set : (xs : List Event) (i : ℕ) (e : Event) → length (set xs i e) ≡ length xs
unfolding set
length-set [] i e = refl
length-set (x ∷ xs) zero e = refl
length-set (x ∷ xs) (suc i) e = ap suc (length-set xs i e)

pub at-set : (xs : List Event) (i : ℕ) (e : Event) → i < length xs → at (set xs i e) i ≡ e
unfolding at set
at-set [] i e h = ground arith
at-set (x ∷ xs) zero e h = refl
at-set (x ∷ xs) (suc i) e h = at-set xs i e (omega (arith, h))

pub at-set_other : (xs : List Event) (i j : ℕ) (e : Event) → i ≢ j → at (set xs i e) j ≡ at xs j
unfolding at set
at-set_other [] i j e h = refl
at-set_other (x ∷ xs) zero zero e h = absurd (h refl)
at-set_other (x ∷ xs) zero (suc j) e h = refl
at-set_other (x ∷ xs) (suc i) zero e h = refl
at-set_other (x ∷ xs) (suc i) (suc j) e h = at-set_other xs i j e (λ z. h (ap suc z))

-- Where the next event goes.
pub advance :
    (next cap : ℕ)
    → next < cap
    → ((next + 1 < cap) × ((next + 1) % cap ≡ next + 1))
      ⊎ ((next + 1 ≡ cap) × ((next + 1) % cap ≡ 0))
advance next cap h = elim (Bool-cases (ltb (next + 1) cap)) [
  | inl low ↦ inl (ltb→lt (next + 1) cap low, mod-eq_of_lt (ltb→lt (next + 1) cap low))
  | inr top ↦
      let e : next + 1 ≡ cap = ground arith in
      inr (
        e,
        ap (λ n. n % cap) e
            ∙ (mod-eq-sub-mod (omega arith)
                ∙ (ap (λ n. n % cap) (omega arith) ∙ mod-eq_of_lt (omega (arith, h)))),
      )
]

abbrev pub place : (next cap i : ℕ) → ℕ
place next cap i = (next + cap - 1 - i) % cap

pub place-zero : (next cap : ℕ) → next < cap → place ((next + 1) % cap) cap 0 ≡ next
place-zero next cap h = elim (advance next cap h) [
  | inl (low, e) ↦ rw e (slot_low (next + 1) cap 0 (omega arith) low ∙ omega arith)
  | inr (top, e) ↦
      rw e
        (slot_high 0 cap 0 (omega arith) (omega (arith, h)) (omega (arith, h)) ∙ omega (arith, top))
]

pub place-suc :
    (next cap i : ℕ)
    → next < cap
    → suc i < cap
    → place ((next + 1) % cap) cap (suc i) ≡ place next cap i
place-suc next cap i h k = elim (advance next cap h) [
  | inl (low, e) ↦ elim (Bool-cases (ltb i next)) [
    | inl b ↦
        let l = ltb→lt i next b in
        rw e (
          slot_low (next + 1) cap (suc i) (omega (arith, l)) low
          ∙ (omega (arith, l) ∙ sym (slot_low next cap i l h)))
    | inr b ↦
        let g : next ≤ i = ground arith in
        rw e (
          slot_high (next + 1) cap (suc i) (omega (arith, g)) k low
          ∙ (omega (arith, g) ∙ sym (slot_high next cap i g (omega (arith, k)) h)))
  ]
  | inr (top, e) ↦
      let l : i < next = omega (arith, top, k) in
      rw e (
        slot_high 0 cap (suc i) (omega arith) k (omega (arith, h))
        ∙ (omega (arith, top, l) ∙ sym (slot_low next cap i l h)))
]

pub place-ne : (next cap i : ℕ) → next < cap → suc i < cap → next ≢ place next cap i
place-ne next cap i h k z = elim (Bool-cases (ltb i next)) [
  | inl b ↦ let l = ltb→lt i next b in omega (arith, z, slot_low next cap i l h, l)
  | inr b ↦
      let g : next ≤ i = ground arith in
      omega (arith, z, slot_high next cap i g (omega (arith, k)) h, k)
]
