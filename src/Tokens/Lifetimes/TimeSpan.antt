-- ===== src/Tokens/Lifetimes/TimeSpan.antt =====
-- internal/store/tokenlifetime.go: ParseTimeSpan.
pub mod Pieces
pub mod Spans
use entra_emulator.Text.Integers.{negsuc, pos, parse_int, ℤ}
use entra_emulator.Prelude.{
  ℕ, ◌+◌, ◌-◌, ◌*◌, ◌%◌, ◌^◌, Char, code, String, ◌&&◌, Option, none, some, List, [], ◌∷◌, ◌==◌,
  ltb, eqb, if◌then◌else◌,
}
use Prim.Native.String

-- strings.Count of one character
unfoldable pub count_char : ℕ → String → ℕ
count_char k String.[] = 0
count_char k (String.◌∷◌ c s) = (if eqb (code c) k then 1 else 0) + count_char k s

-- s[:i], s[i+1:] at i = strings.IndexByte(s, k); `none` if it is not there.
unfoldable pub cut_at : ℕ → String → Option (String × String)
cut_at k String.[] = none
cut_at k (String.◌∷◌ c s) =
    let rest : Option (String × String) = elim (cut_at k s) [
      | none ↦ none
      | some (before, behind) ↦ some (String.◌∷◌ c before, behind)
    ] in
    if eqb (code c) k then some (String.[], s) else rest

abbrev pub extend : Char → List String → List String
extend c [] = String.◌∷◌ c String.[] ∷ []
extend c (w ∷ ws) = String.◌∷◌ c w ∷ ws

-- strings.Split at one character
unfoldable pub split_at : ℕ → String → List String
split_at k String.[] = String.[] ∷ []
split_at k (String.◌∷◌ c s) =
    let rest = split_at k s in if eqb (code c) k then String.[] ∷ rest else extend c rest

-- A 64-bit integer by its bits.
abbrev pub bits : ℤ → ℕ
bits (pos n) = n % 2 ^ 64
bits (negsuc n) = 2 ^ 64 - 1 - n % 2 ^ 64

abbrev pub with_days : String → Option ℤ → Option (ℤ × String)
with_days rest none = none
with_days rest (some d) = some (d, rest)

-- The days, and what is behind them: a dot before the first of two colons.
unfoldable pub leading_days : String → Option (ℤ × String)
leading_days v = elim (cut_at b'.' v) [
  | none ↦ some (pos 0, v)
  | some (before, rest) ↦
      if eqb (count_char b':' v) 2 && eqb (count_char b':' before) 0
      then with_days rest (parse_int before)
      else some (pos 0, v)
]

abbrev pub natural : Option ℤ → Option ℕ
natural none = none
natural (some (negsuc n)) = none
natural (some (pos n)) = some n

abbrev pub hms : Option ℕ → Option ℕ → Option ℕ → Option (ℕ × ℕ × ℕ)
hms (some h) (some m) (some s) = some (h, m, s)
hms (some h) (some m) none = none
hms (some h) none s = none
hms none m s = none

unfoldable pub clock_parts : List String → Option (ℕ × ℕ × ℕ)
clock_parts [] = none
clock_parts (a ∷ []) = none
clock_parts (a ∷ (b ∷ [])) = none
clock_parts (a ∷ (b ∷ (c ∷ []))) =
    hms (natural (parse_int a)) (natural (parse_int b)) (natural (parse_int c))
clock_parts (a ∷ (b ∷ (c ∷ (d ∷ rest)))) = none

-- The sum wraps around in 64 bits.
abbrev pub total : ℤ → ℕ × ℕ × ℕ → ℕ
total days (h, m, s) = (bits days * 86400 + h * 3600 + m * 60 + s) % 2 ^ 64

abbrev pub positive_total : ℕ → Option ℕ
positive_total t = if eqb t 0 then none else if ltb t (2 ^ 63) then some t else none

abbrev pub timed : ℤ → Option (ℕ × ℕ × ℕ) → Option ℕ
timed days none = none
timed days (some parts) = positive_total (total days parts)

abbrev pub spanned : Option (ℤ × String) → Option ℕ
spanned none = none
spanned (some (days, rest)) = timed days (clock_parts (split_at b':' rest))

unfoldable pub parse_time_span : String → Option ℕ
parse_time_span v = if v == "" then none else spanned (leading_days v)
