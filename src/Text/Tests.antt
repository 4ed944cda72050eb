-- ===== src/Text/Tests.antt =====
-- Runs of the text functions on inputs of Go's documentation and of the program's tests.
use entra_emulator.Prelude.{◌≡◌, refl, some, [], ◌∷◌}
use entra_emulator.Text.{fields, cut_last_slash, before_suffix}

fields_of_padded : fields " a  bc d " ≡ "a" ∷ "bc" ∷ "d" ∷ []
unfolding fields
fields_of_padded = refl

cut_last_slash_of_uri : cut_last_slash "api://x/y" ≡ some ("api://x", "y")
unfolding cut_last_slash
cut_last_slash_of_uri = refl

before_suffix_of_default : before_suffix "/.default" "a/.default" ≡ some "a"
unfolding before_suffix
before_suffix_of_default = refl
