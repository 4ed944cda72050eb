-- ===== src/Identity/Authorize/Checks/Method.antt =====
-- Which code_challenge_methods pass.
use entra_emulator.Identity.Authorize.Checks.Steps.{ok_injective, passed, not-false}
use entra_emulator.Identity.Authorize.Checks.{with_default_method, ok, AuthorizeState, check_method}
use entra_emulator.Prelude.{
  String, ◌≡◌, refl, ◌⊎◌, inl, inr, Bool, false, not, ◌&&◌, arith, ◌==◌, eq_iff, if◌then◌else◌,
  Bool-cases,
}

abbrev pub IsMethod : String → Type 0
IsMethod m = (m ≡ "") ⊎ ((m ≡ "S256") ⊎ (m ≡ "plain"))

abbrev unknown_method : String → Bool
unknown_method m = not (m == "") && (not (m == "S256") && not (m == "plain"))

known-IsMethod : (m : String) → unknown_method m ≡ false → IsMethod m
known-IsMethod m h = elim (Bool-cases (m == "")) [
  | inl e ↦ inl ((eq_iff m "").0 e)
  | inr a ↦ elim (Bool-cases (m == "S256")) [
    | inl e ↦ inr (inl ((eq_iff m "S256").0 e))
    | inr b ↦ inr (inr ((eq_iff m "plain").0 (not-false _ (rw (a, b) at h))))
  ]
]

of_IsMethod : (m : String) → IsMethod m → unknown_method m ≡ false
of_IsMethod m (inl e) = rw e refl
of_IsMethod m (inr (inl e)) = rw e refl
of_IsMethod m (inr (inr e)) = rw e refl

abbrev chosen : (challenge method : String) → String
chosen challenge method = if not (challenge == "") && method == "" then "plain" else method

chosen-IsMethod : (challenge m : String) → unknown_method (chosen challenge m) ≡ false → IsMethod m
chosen-IsMethod challenge m h = elim (Bool-cases (not (challenge == "") && m == "")) [
  | inl e ↦ inl ((eq_iff m "").0 (ground arith))
  | inr k ↦ known-IsMethod m (rw k at h)
]

of_chosen : (challenge m : String) → IsMethod m → unknown_method (chosen challenge m) ≡ false
of_chosen challenge m h = elim (Bool-cases (not (challenge == "") && m == "")) [
  | inl e ↦ rw e refl
  | inr k ↦ rw k (of_IsMethod m h)
]

pub method_sound :
    (st a : AuthorizeState)
    → check_method st ≡ ok a
    → IsMethod st.method × (a ≡ with_default_method st)
unfolding check_method
method_sound st a e =
    let (h, k) = passed _ _ _ a e in (chosen-IsMethod st.challenge st.method h, ok_injective _ a k)

pub method_complete :
    (st : AuthorizeState) → IsMethod st.method → check_method st ≡ ok (with_default_method st)
unfolding check_method
method_complete st h = rw (of_chosen st.challenge st.method h) refl
