-- ===== src/Tokens/Lifetimes/TimeSpan/Pieces.antt =====
-- Texts of digits, and cutting and splitting a text at a character.
use entra_emulator.Tokens.Lifetimes.TimeSpan.{count_char, cut_at, split_at}
use entra_emulator.Text.Integers.{pos, digits_from, digits, is_digit, parse_int}
use entra_emulator.Text.{◌<>◌}
use entra_emulator.Prelude.{
  ℕ, ◌+◌, ◌-◌, ◌*◌, ◌^◌, ◌<◌, Char, code, String, ◌≡◌, refl, sym, ap, subst, ◌∙◌, inl, inr, true,
  false, Option, none, some, [], ◌∷◌, arith, ◌==◌, eq_iff, ltb, eqb, if◌then◌else◌, lt→ltb,
  Bool-cases,
}
use text.Mathlib.TextLemmas.{nil-append, cons-append}

-- The character is not in the text.
abbrev pub Without : ℕ → String → Type 0
Without k String.[] = Unit
Without k (String.◌∷◌ c s) = (eqb (code c) k ≡ false) × Without k s

other_char : (a k : ℕ) → is_digit a ≡ true → is_digit k ≡ false → eqb a k ≡ false
other_char a k h n = ground arith

digits_from-Without :
    (k n m : ℕ) (w : String) → is_digit k ≡ false → digits_from n w ≡ some m → Without k w
unfolding digits_from
digits_from-Without k n m String.[] h e = tt
digits_from-Without k n m (String.◌∷◌ c w) h e = elim (Bool-cases (is_digit (code c))) [
  | inl digit ↦ (
    other_char (code c) k digit h,
    digits_from-Without k (n * 10 + (code c - b'0')) m w h (rw digit at e),
  )
  | inr other ↦ absurd (clash (rw other at e))
]
  where
    clash : ◌≡◌ {A = Option ℕ} none (some m) → ⊥
    clash z = ground arith

pub digits-Without : (k m : ℕ) (w : String) → is_digit k ≡ false → digits w ≡ some m → Without k w
unfolding digits
digits-Without k m String.[] h e = tt
digits-Without k m (String.◌∷◌ c w) h e = digits_from-Without k 0 m (String.◌∷◌ c w) h e

first_digit :
    (c : Char) (w : String) (m : ℕ) → digits (String.◌∷◌ c w) ≡ some m → is_digit (code c) ≡ true
unfolding digits digits_from
first_digit c w m e = ground arith

small : (n : ℕ) → n < 2 ^ 63 → (if ltb n (2 ^ 63) then some (pos n) else none) ≡ some (pos n)
small n h = rw (lt→ltb n (2 ^ 63) h) refl

no_digits : (n : ℕ) → digits "" ≡ some n → ⊥
unfolding digits
no_digits n e = ground arith

pub parse_int-digits :
    (w : String) (n : ℕ) → digits w ≡ some n → n < 2 ^ 63 → parse_int w ≡ some (pos n)
unfolding parse_int
parse_int-digits String.[] n e h = absurd (no_digits n e)
parse_int-digits (String.◌∷◌ c w) n e h =
    let digit = first_digit c w n e in
    rw (other_char (code c) b'+' digit refl, other_char (code c) b'-' digit refl, e) (small n h)

pub cut_at-append :
    (k : ℕ) (c : Char) (w rest : String)
    → eqb (code c) k ≡ true
    → Without k w
    → cut_at k (w <> (String.◌∷◌ c String.[] <> rest)) ≡ some (w, rest)
unfolding cut_at
cut_at-append k c String.[] rest e h = rw (nil-append, cons-append, nil-append, e) refl
cut_at-append k c (String.◌∷◌ d w) rest e (hd, h) =
    rw (cons-append, hd, cut_at-append k c w rest e h) refl

pub split_at-Without : (k : ℕ) (w : String) → Without k w → split_at k w ≡ w ∷ []
unfolding split_at
split_at-Without k String.[] h = refl
split_at-Without k (String.◌∷◌ d w) (hd, h) = rw (hd, split_at-Without k w h) refl

pub split_at-append :
    (k : ℕ) (c : Char) (w rest : String)
    → eqb (code c) k ≡ true
    → Without k w
    → split_at k (w <> (String.◌∷◌ c String.[] <> rest)) ≡ w ∷ split_at k rest
unfolding split_at
split_at-append k c String.[] rest e h = rw (nil-append, cons-append, nil-append, e) refl
split_at-append k c (String.◌∷◌ d w) rest e (hd, h) =
    rw (cons-append, hd, split_at-append k c w rest e h) refl

pub count_char-append :
    (k : ℕ) (a b : String) → count_char k (a <> b) ≡ count_char k a + count_char k b
unfolding count_char
count_char-append k String.[] b = rw nil-append (omega arith)
count_char-append k (String.◌∷◌ c a) b = rw (cons-append, count_char-append k a b) (omega arith)

pub count_char-Without : (k : ℕ) (w : String) → Without k w → count_char k w ≡ 0
unfolding count_char
count_char-Without k String.[] h = refl
count_char-Without k (String.◌∷◌ c w) (hc, h) = rw (hc, count_char-Without k w h) refl

pub not_empty : (w : String) → count_char b':' w ≡ 2 → w == "" ≡ false
unfolding count_char
not_empty w two = elim (Bool-cases (w == "")) [
  | inr e ↦ e
  | inl e ↦ absurd (none_there (sym (ap (count_char b':') ((eq_iff w "").0 e)) ∙ two))
]
  where
    none_there : ◌≡◌ {A = ℕ} 0 2 → ⊥
    none_there z = omega (arith, z)

pub cut_at-Without : (k : ℕ) (w : String) → Without k w → cut_at k w ≡ none
unfolding cut_at
cut_at-Without k String.[] h = refl
cut_at-Without k (String.◌∷◌ c w) (hc, h) = rw (hc, cut_at-Without k w h) refl

pub append-Without : (k : ℕ) (a b : String) → Without k a → Without k b → Without k (a <> b)
append-Without k String.[] b h g = subst (Without k) (sym (nil-append b)) g
append-Without k (String.◌∷◌ c a) b (hc, h) g =
    subst (Without k) (sym (cons-append c a b)) (hc, append-Without k a b h g)
