-- ===== src/Text/Order.antt =====
-- The byte order of texts (SQL's ORDER BY, Go's sort.Strings), and sorting by it.
use entra_emulator.Prelude.{
  code, String, ◌≡◌, ◌↔◌, ◌⊎◌, inl, inr, Bool, true, false, List, [], ◌∷◌, ltb, eqb, if◌then◌else◌,
  Bool-cases, In,
}

-- a <= b
unfoldable pub leb_text : String → String → Bool
leb_text String.[] b = true
leb_text (String.◌∷◌ c a) String.[] = false
leb_text (String.◌∷◌ c a) (String.◌∷◌ d b) =
    let rest = leb_text a b in
    if ltb (code c) (code d) then true else if eqb (code c) (code d) then rest else false

module _ {A : Type 0} (key : A → String) where
  unfoldable pub insert_by : A → List A → List A
  insert_by a [] = a ∷ []
  insert_by a (b ∷ bs) =
      let rest = insert_by a bs in if leb_text (key a) (key b) then a ∷ b ∷ bs else b ∷ rest

  -- ORDER BY key
  unfoldable pub sort_by : List A → List A
  sort_by [] = []
  sort_by (a ∷ rest) = insert_by a (sort_by rest)

  insert_by-In : (x a : A) (bs : List A) → In x (insert_by a bs) ↔ ((a ≡ x) ⊎ In x bs)
  unfolding insert_by
  insert_by-In x a [] = (λ i. i, λ i. i)
  insert_by-In x a (b ∷ bs) = elim (Bool-cases (leb_text (key a) (key b))) [
    | inl first ↦ rw first (λ i. i, λ i. i)
    | inr later ↦ rw later (below (insert_by-In x a bs))
  ]
    where
      below :
          In x (insert_by a bs) ↔ ((a ≡ x) ⊎ In x bs)
          → ((b ≡ x) ⊎ In x (insert_by a bs)) ↔ ((a ≡ x) ⊎ ((b ≡ x) ⊎ In x bs))
      below ih = (there ih, back ih)
        where
          there :
              In x (insert_by a bs) ↔ ((a ≡ x) ⊎ In x bs)
              → (b ≡ x) ⊎ In x (insert_by a bs)
              → (a ≡ x) ⊎ ((b ≡ x) ⊎ In x bs)
          there ih (inl e) = inr (inl e)
          there ih (inr i) = elim (ih.0 i) [ inl e ↦ inl e | inr j ↦ inr (inr j) ]

          back :
              In x (insert_by a bs) ↔ ((a ≡ x) ⊎ In x bs)
              → (a ≡ x) ⊎ ((b ≡ x) ⊎ In x bs)
              → (b ≡ x) ⊎ In x (insert_by a bs)
          back ih (inl e) = inr (ih.1 (inl e))
          back ih (inr (inl e)) = inl e
          back ih (inr (inr i)) = inr (ih.1 (inr i))

  -- Sorting keeps the elements.
  pub sort_by-In : (x : A) (bs : List A) → In x (sort_by bs) ↔ In x bs
  unfolding sort_by
  sort_by-In x [] = (λ i. i, λ i. i)
  sort_by-In x (b ∷ bs) =
      let (there, back) = insert_by-In x b (sort_by bs) in
      let (down, up) = sort_by-In x bs in
      (
        λ i. elim (there i) [ inl e ↦ inl e | inr j ↦ inr (down j) ],
        λ i. back (elim i [ inl e ↦ inl e | inr j ↦ inr (up j) ]),
      )
