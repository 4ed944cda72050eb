-- ===== src/Text/Integers.antt =====
-- Go's strconv.ParseInt in base 10 with 64 bits, and strconv.Atoi, which is the same function there.
use entra_emulator.Prelude.{
  ℕ, zero, suc, ◌+◌, ◌-◌, ◌*◌, ◌^◌, code, String, Bool, ◌&&◌, Option, none, some, ltb, leb, eqb,
  if◌then◌else◌,
}

-- The signed integers: `negsuc n` is -(n + 1).
pub data ℤ : Type 0 where
  pos : (n : ℕ) → ℤ
  negsuc : (n : ℕ) → ℤ

abbrev pub is_digit : ℕ → Bool
is_digit c = leb b'0' c && leb c b'9'

-- The digits behind the value `n`; `none` at another character.
unfoldable pub digits_from : (n : ℕ) → String → Option ℕ
digits_from n String.[] = some n
digits_from n (String.◌∷◌ c s) =
    let rest = digits_from (n * 10 + (code c - b'0')) s in if is_digit (code c) then rest else none

-- At least one digit.
unfoldable pub digits : String → Option ℕ
unfolding digits_from
digits String.[] = none
digits (String.◌∷◌ c s) = digits_from 0 (String.◌∷◌ c s)

abbrev negated : ℕ → ℤ
negated zero = pos 0
negated (suc n) = negsuc n

abbrev positive : Option ℕ → Option ℤ
positive none = none
positive (some n) = if ltb n (2 ^ 63) then some (pos n) else none

abbrev negative : Option ℕ → Option ℤ
negative none = none
negative (some n) = if leb n (2 ^ 63) then some (negated n) else none

-- strconv.ParseInt(s, 10, 64); `none` is its error.
unfoldable pub parse_int : String → Option ℤ
unfolding digits
parse_int String.[] = none
parse_int (String.◌∷◌ c s) =
    if eqb (code c) b'+'
    then positive (digits s)
    else if eqb (code c) b'-'
    then negative (digits s)
    else positive (digits (String.◌∷◌ c s))
