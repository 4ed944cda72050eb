-- ===== src/Text.antt =====
-- The functions of Go's package strings that the program calls, over the native texts.
pub mod Fields
pub mod Integers
pub mod Order
pub mod Tests
use Prim.Native.String
use entra_emulator.Prelude.{
  ℕ, ◌+◌, Char, code, String, Bool, true, false, ◌&&◌, ◌||◌, Option, none, some, List, [], ◌∷◌,
  ◌++◌, ◌==◌, leb, eqb, if◌then◌else◌,
}

-- unicode.IsSpace
unfoldable pub is_space : ℕ → Bool
is_space c =
    (leb 9 c && leb c 13)
    || eqb c 32
    || eqb c 0x85
    || eqb c 0xa0
    || eqb c 0x1680
    || (leb 0x2000 c && leb c 0x200a)
    || eqb c 0x2028
    || eqb c 0x2029
    || eqb c 0x202f
    || eqb c 0x205f
    || eqb c 0x3000

infixr 67 ◌<>◌
abbrev pub ◌<>◌ : String → String → String
s <> t = String.◌++◌ s t

abbrev pub push : String → Char → String
push s c = s <> String.◌∷◌ c String.[]

abbrev pub emit : String → List String → List String
emit String.[] rest = rest
emit (String.◌∷◌ c s) rest = String.◌∷◌ c s ∷ rest

-- The loop of strings.Fields: `cur` is the field that is being read.
unfoldable pub fields_from : String → String → List String
unfolding is_space
fields_from cur String.[] = emit cur []
fields_from cur (String.◌∷◌ c s) =
    let closed = emit cur (fields_from String.[] s) in
    let longer = fields_from (push cur c) s in if is_space (code c) then closed else longer

-- strings.Fields
unfoldable pub fields : String → List String
unfolding fields_from
fields s = fields_from String.[] s

-- strings.Join(ws, " ")
unfoldable pub join_from : String → List String → String
join_from w [] = w
join_from w (v ∷ vs) = w <> (" " <> join_from v vs)

unfoldable pub join : List String → String
unfolding join_from
join [] = ""
join (w ∷ ws) = join_from w ws

-- What is left of a text behind a prefix; `none` if it does not begin with it.
unfoldable pub after_prefix : String → String → Option String
after_prefix String.[] s = some s
after_prefix (String.◌∷◌ c p) String.[] = none
after_prefix (String.◌∷◌ c p) (String.◌∷◌ d s) =
    let rest = after_prefix p s in if eqb (code c) (code d) then rest else none

-- strings.HasPrefix(s, p)
unfoldable pub has_prefix : String → String → Bool
unfolding after_prefix
has_prefix s p = elim (after_prefix p s) [ none ↦ false | some _ ↦ true ]

-- strings.Contains(s, p)
unfoldable pub has_substring : String → String → Bool
unfolding has_prefix
has_substring String.[] p = has_prefix String.[] p
has_substring (String.◌∷◌ c s) p = has_prefix (String.◌∷◌ c s) p || has_substring s p

-- strings.TrimPrefix(s, p)
unfoldable pub trim_prefix : String → String → String
unfolding after_prefix
trim_prefix s p = elim (after_prefix p s) [ none ↦ s | some rest ↦ rest ]

-- s[:i], s[i+1:] at i = strings.LastIndex(s, "/"); `none` if there is no slash.
unfoldable pub cut_last_slash : String → Option (String × String)
cut_last_slash String.[] = none
cut_last_slash (String.◌∷◌ c s) = elim (cut_last_slash s) [
  | some (before, behind) ↦ some (String.◌∷◌ c before, behind)
  | none ↦ if eqb (code c) b'/' then some (String.[], s) else none
]

-- The text before a suffix; `none` if it does not end with it.
unfoldable pub before_suffix : String → String → Option String
before_suffix suffix String.[] = if suffix == "" then some "" else none
before_suffix suffix (String.◌∷◌ c s) =
    let shorter : Option String = elim (before_suffix suffix s) [
      | none ↦ none
      | some before ↦ some (String.◌∷◌ c before)
    ] in
    if String.◌∷◌ c s == suffix then some "" else shorter

-- A-Z to a-z: what SQLite's NOCASE folds.
abbrev pub lower : ℕ → ℕ
lower n = if leb 65 n && leb n 90 then n + 32 else n

-- a = b COLLATE NOCASE
unfoldable pub eq_nocase : String → String → Bool
eq_nocase String.[] String.[] = true
eq_nocase String.[] (String.◌∷◌ d b) = false
eq_nocase (String.◌∷◌ c a) String.[] = false
eq_nocase (String.◌∷◌ c a) (String.◌∷◌ d b) = eqb (lower (code c)) (lower (code d)) && eq_nocase a b
