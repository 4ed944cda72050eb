-- ===== src/Text/Fields.antt =====
-- Splitting on white space, and joining by a space.
use text.Mathlib.TextLemmas.{nil-append, cons-append, append-nil, append_assoc}
use entra_emulator.Prelude.{Char, code, String, ◌≡◌, refl, sym, ap, ◌∙◌, false, List, [], ◌∷◌, All}
use entra_emulator.Text.{is_space, ◌<>◌, push, emit, fields_from, fields, join_from, join}

-- No character of the text is white space.
abbrev pub NoSpace : String → Type 0
NoSpace String.[] = Unit
NoSpace (String.◌∷◌ c s) = (is_space (code c) ≡ false) × NoSpace s

-- A scope value: not empty and with no white space in it.
abbrev pub IsWord : String → Type 0
IsWord String.[] = ⊥
IsWord (String.◌∷◌ c s) = NoSpace (String.◌∷◌ c s)

fields_from-append :
    (cur w rest : String) → NoSpace w → fields_from cur (w <> rest) ≡ fields_from (cur <> w) rest
unfolding fields_from
fields_from-append cur String.[] rest h = rw (nil-append, append-nil)
fields_from-append cur (String.◌∷◌ c w) rest (hc, hw) =
    rw (cons-append, hc)
      (fields_from-append (push cur c) w rest hw
        ∙ ap (λ t. fields_from t rest) (push-append cur c w))
  where
    push-append : (cur : String) (c : Char) (w : String) → push cur c <> w ≡ cur <> String.◌∷◌ c w
    push-append cur c w = rw (append_assoc, cons-append, nil-append)

emit-IsWord : (w : String) (rest : List String) → IsWord w → emit w rest ≡ w ∷ rest
emit-IsWord String.[] rest h = absurd h
emit-IsWord (String.◌∷◌ c w) rest h = refl

NoSpace-of_IsWord : (w : String) → IsWord w → NoSpace w
NoSpace-of_IsWord String.[] h = absurd h
NoSpace-of_IsWord (String.◌∷◌ c w) h = h

fields_from_space : (cur rest : String) → fields_from cur (" " <> rest) ≡ emit cur (fields rest)
unfolding fields is_space
fields_from_space cur rest = rw (cons-append, nil-append)

fields_from_end : (cur : String) → fields_from cur "" ≡ emit cur []
unfolding fields
fields_from_end cur = refl

fields-append : (w rest : String) → NoSpace w → fields (w <> rest) ≡ fields_from w rest
unfolding fields
fields-append w rest h =
    fields_from-append "" w rest h ∙ ap (λ t. fields_from t rest) (nil-append w)

fields-join_from :
    (w : String) (ws : List String) → IsWord w → All IsWord ws → fields (join_from w ws) ≡ w ∷ ws
unfolding join_from
fields-join_from w [] h hs =
    ap fields (sym (append-nil w))
    ∙ (fields-append w "" (NoSpace-of_IsWord w h) ∙ (fields_from_end w ∙ emit-IsWord w [] h))
fields-join_from w (v ∷ vs) h (hv, hs) =
    fields-append w (" " <> join_from v vs) (NoSpace-of_IsWord w h)
    ∙ (fields_from_space w (join_from v vs)
        ∙ (emit-IsWord w _ h ∙ ap (λ l. w ∷ l) (fields-join_from v vs hv hs)))

-- Joining scope values by a space and splitting the result on white space gives them back, for any
-- values that are not empty and hold no white space.
pub fields-join : (ws : List String) → All IsWord ws → fields (join ws) ≡ ws
unfolding join fields
fields-join [] h = refl
fields-join (w ∷ ws) (h, hs) = fields-join_from w ws h hs
