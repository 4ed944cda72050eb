-- ===== src/Identity/Authorize/Checks/FrontType.antt =====
-- Which response types and modes of an authorization request pass.
use entra_emulator.Identity.Authorize.Checks.Steps.{
  not-false, ok_injective, passed, moded, differs, equal_false,
}
use entra_emulator.Identity.Authorize.Checks.{check_front, ok, check_response_type}
use entra_emulator.Identity.Authorize.{AuthorizeState}
use entra_emulator.Prelude.{
  code, String, ◌≡◌, refl, sym, ◌∙◌, ◌≢◌, ◌⊎◌, inl, inr, Bool, true, false, ◌||◌, arith, ◌==◌,
  eq_iff, if◌then◌else◌, Bool-cases,
}

supported :
    (t : String)
    → (t == "code" || (t == "id_token" || t == "code id_token")) ≡ true
    → (t ≡ "code") ⊎ ((t ≡ "id_token") ⊎ (t ≡ "code id_token"))
supported t h = elim (Bool-cases (t == "code")) [
  | inl e ↦ inl ((eq_iff t "code").0 e)
  | inr n ↦ elim (Bool-cases (t == "id_token")) [
    | inl e ↦ inr (inl ((eq_iff t "id_token").0 e))
    | inr m ↦ inr (inr ((eq_iff t "code id_token").0 (rw (n, m) at h)))
  ]
]

or_right : (b c : Bool) → c ≡ true → (b || c) ≡ true
or_right true c e = refl
or_right false c e = e

of_supported :
    (t : String)
    → (t ≡ "code") ⊎ ((t ≡ "id_token") ⊎ (t ≡ "code id_token"))
    → (t == "code" || (t == "id_token" || t == "code id_token")) ≡ true
of_supported t (inl e) = rw ((eq_iff t "code").1 e) refl
of_supported t (inr (inl e)) = or_right (t == "code") _ (rw ((eq_iff t "id_token").1 e) refl)
of_supported t (inr (inr e)) =
    or_right (t == "code") _ (or_right (t == "id_token") _ ((eq_iff t "code id_token").1 e))

abbrev pub HasType : AuthorizeState → Type 0
HasType st =
    (st.response_type ≡ "code")
    ⊎ (((st.response_type ≡ "id_token") ⊎ (st.response_type ≡ "code id_token"))
        × (st.nonce ≢ "")
        × (st.response_mode ≢ "query"))

default_mode : (m : String) → m ≢ "query" → (if m == "" then "fragment" else m) == "query" ≡ false
default_mode m n = elim (Bool-cases (m == "")) [
  | inl e ↦ rw e refl
  | inr k ↦ rw k (equal_false m "query" n)
]

default_mode_not :
    (m : String) → (if m == "" then "fragment" else m) == "query" ≡ false → m ≢ "query"
default_mode_not m h z = elim (Bool-cases (m == "")) [
  | inl e ↦ absurd (clash (sym z ∙ (eq_iff m "").0 e))
  | inr k ↦ differs m "query" (rw k at h) z
]
  where
    clash : ◌≡◌ {A = String} "query" "" → ⊥
    clash z = let k = (eq_iff "query" "").1 z in ground (arith, k)

type_front :
    (st a : AuthorizeState)
    → st.response_type == "code" ≡ false
    → (st.response_type ≡ "code")
      ⊎ ((st.response_type ≡ "id_token") ⊎ (st.response_type ≡ "code id_token"))
    → check_front st ≡ ok a
    → HasType st × (a ≡ moded st)
type_front st a front (inl e) k = absurd (differs _ _ front e)
type_front st a front (inr kind) k =
    let (nonce, k1) = passed _ _ _ a k in
    let (mode, k2) = passed _ _ _ a k1 in
    (
      inr (kind, differs _ _ nonce, default_mode_not st.response_mode mode),
      rw front (ok_injective _ a k2),
    )

pub type_sound :
    (st a : AuthorizeState) → check_response_type st ≡ ok a → HasType st × (a ≡ moded st)
unfolding check_response_type
type_sound st a e =
    let (known, k) = passed _ _ _ a e in
    let kind = supported st.response_type (not-false _ known) in
    elim (Bool-cases (st.response_type == "code")) [
      | inl code ↦
          (inl ((eq_iff st.response_type "code").0 code), rw code (ok_injective _ a (rw code at k)))
      | inr front ↦ type_front st a front kind (rw front at k)
    ]

pub type_complete : (st : AuthorizeState) → HasType st → check_response_type st ≡ ok (moded st)
unfolding check_response_type
type_complete st (inl e) = rw ((eq_iff st.response_type "code").1 e) refl
type_complete st (inr (kind, nonce, mode)) =
    rw
      (
        of_supported st.response_type (inr kind),
        not_code kind,
        equal_false st.nonce "" nonce,
        default_mode st.response_mode mode,
      )
      refl
  where
    not_code :
        (st.response_type ≡ "id_token") ⊎ (st.response_type ≡ "code id_token")
        → st.response_type == "code" ≡ false
    not_code (inl e) = rw e refl
    not_code (inr e) = rw e refl
