-- ===== src/Identity/Authorize/Checks/Steps.antt =====
-- Each check of an authorization request against its condition.
use entra_emulator.Identity.Authorize.Checks.{
  resolve_delegated_scopes, bounded_age, check_scopes, err, negsuc, Store, and_then, issues_code,
  ok, pos, with_default_method, with_default_mode, ℤ, Checked, check_challenge, check_inline,
  check_max_age,
}
use entra_emulator.Identity.Scopes.{ResolvedScopes}
use entra_emulator.Identity.Authorize.{fields, OauthError, AuthorizeState}
use entra_emulator.Store.Types.{App}
use entra_emulator.Text.Integers.{parse_int}
use entra_emulator.Tokens.Types.{Config}
use entra_emulator.Prelude.{
  ℕ, String, ◌≡◌, refl, ◌≢◌, ◌⊎◌, inl, inr, Bool, true, false, not, ◌&&◌, Option, none, some, arith,
  ◌==◌, eq_iff, if◌then◌else◌, Bool-cases, Option-cases, contains,
}

abbrev pub moded : AuthorizeState → AuthorizeState
moded st = if st.response_type == "code" then st else with_default_mode st

abbrev pub aged_by : AuthorizeState → Option ℤ → AuthorizeState
aged_by st (some (pos n)) = record st { max_age = n; has_max_age = true }
aged_by st (some (negsuc n)) = st
aged_by st none = st

abbrev pub aged : (raw : String) → AuthorizeState → AuthorizeState
aged raw st = if raw == "" then st else aged_by st (parse_int raw)

-- The state behind the checks: the default response mode, the age, and the default method.
abbrev pub prepared : (raw : String) → AuthorizeState → AuthorizeState
prepared raw st = with_default_method (aged raw (moded st))

pub and_then-ok :
    (r : Checked) (f : AuthorizeState → Checked) (b : AuthorizeState)
    → and_then r f ≡ ok b
    → (a : AuthorizeState) × (r ≡ ok a) × (f a ≡ ok b)
and_then-ok (ok a) f b e = (a, refl, e)
and_then-ok (err x) f b e = ground arith

-- A guard that did not refuse.
pub passed :
    (b : Bool) (x : AuthorizeState × OauthError) (r : Checked) (a : AuthorizeState)
    → (if b then err x else r) ≡ ok a
    → (b ≡ false) × (r ≡ ok a)
passed true x r a e = ground arith
passed false x r a e = (refl, e)

pub ok_injective : (a b : AuthorizeState) → ◌≡◌ {A = Checked} (ok a) (ok b) → b ≡ a
ok_injective a b e = ground arith

pub not-false : (b : Bool) → not b ≡ false → b ≡ true
not-false b e = ground arith

pub differs : (t u : String) → t == u ≡ false → t ≢ u
differs t u n e = ground (arith, (eq_iff t u).1 e)

pub equal_false : (t u : String) → t ≢ u → t == u ≡ false
equal_false t u n = elim (Bool-cases (t == u)) [ inl e ↦ absurd (n ((eq_iff t u).0 e)) | inr e ↦ e ]

module _ (cfg : Config) (s : Store) where
  abbrev pub HasScopes : String → Type 0
  HasScopes scope =
      (contains (fields scope) "openid" ≡ true)
      × ((r : ResolvedScopes) × (resolve_delegated_scopes cfg s (fields scope) ≡ some r))

  pub scopes_sound :
      (st a : AuthorizeState) → check_scopes cfg s st ≡ ok a → HasScopes st.scope × (a ≡ st)
  unfolding check_scopes
  scopes_sound st a e =
      let (openid, k) = passed _ _ _ a e in
      elim (Option-cases (resolve_delegated_scopes cfg s (fields st.scope))) [
        | inl none_at ↦ ground arith
        | inr (r, found) ↦ ((not-false _ openid, (r, found)), ok_injective st a (rw found at k))
      ]

  pub scopes_complete : (st : AuthorizeState) → HasScopes st.scope → check_scopes cfg s st ≡ ok st
  unfolding check_scopes
  scopes_complete st (openid, (r, found)) = rw (openid, found) refl

abbrev pub HasProof : App → AuthorizeState → Type 0
HasProof app st = (issues_code st ≡ false) ⊎ ((app.is_confidential ≡ true) ⊎ (st.challenge ≢ ""))

proof_test :
    (b c : Bool) (t : String)
    → (b && (not c && t == "")) ≡ false
    → (b ≡ false) ⊎ ((c ≡ true) ⊎ (t ≢ ""))
proof_test false c t h = inl refl
proof_test true true t h = inr (inl refl)
proof_test true false t h = inr (inr (differs t "" h))

proof_test_back :
    (b c : Bool) (t : String)
    → (b ≡ false) ⊎ ((c ≡ true) ⊎ (t ≢ ""))
    → (b && (not c && t == "")) ≡ false
proof_test_back b c t (inl e) = rw e refl
proof_test_back true c t (inr (inl e)) = rw e refl
proof_test_back false c t (inr (inl e)) = refl
proof_test_back false c t (inr (inr n)) = refl
proof_test_back true true t (inr (inr n)) = refl
proof_test_back true false t (inr (inr n)) = equal_false t "" n

pub challenge_sound :
    (app : App) (st a : AuthorizeState) → check_challenge app st ≡ ok a → HasProof app st × (a ≡ st)
unfolding check_challenge
challenge_sound app st a e =
    let (h, k) = passed _ _ _ a e in
    (proof_test (issues_code st) app.is_confidential st.challenge h, ok_injective st a k)

pub challenge_complete :
    (app : App) (st : AuthorizeState) → HasProof app st → check_challenge app st ≡ ok st
unfolding check_challenge
challenge_complete app st h =
    rw (proof_test_back (issues_code st) app.is_confidential st.challenge h) refl

abbrev pub HasAge : String → Type 0
HasAge raw = (raw ≡ "") ⊎ ((n : ℕ) × (parse_int raw ≡ some (pos n)))

bounded_sound :
    (st a : AuthorizeState) (o : Option ℤ)
    → bounded_age st o ≡ ok a
    → ((n : ℕ) × (o ≡ some (pos n))) × (a ≡ aged_by st o)
bounded_sound st a (some (pos n)) e = ((n, refl), ok_injective _ a e)
bounded_sound st a (some (negsuc n)) e = ground arith
bounded_sound st a none e = ground arith

pub age_sound :
    (raw : String) (st a : AuthorizeState)
    → check_max_age raw st ≡ ok a
    → HasAge raw × (a ≡ aged raw st)
unfolding check_max_age
age_sound raw st a e = elim (Bool-cases (raw == "")) [
  | inl empty ↦ (inl ((eq_iff raw "").0 empty), rw empty (ok_injective st a (rw empty at e)))
  | inr given ↦
      let (age, k) = bounded_sound st a (parse_int raw) (rw given at e) in (inr age, rw given k)
]

pub age_complete :
    (raw : String) (st : AuthorizeState) → HasAge raw → check_max_age raw st ≡ ok (aged raw st)
unfolding check_max_age
age_complete raw st (inl e) = rw ((eq_iff raw "").1 e) refl
age_complete raw st (inr (n, e)) = elim (Bool-cases (raw == "")) [
  | inl empty ↦ rw empty refl
  | inr given ↦ rw (given, e) refl
]

pub inline_sound :
    (inline : Bool) (st a : AuthorizeState)
    → check_inline inline st ≡ ok a
    → (inline ≡ false) × (a ≡ st)
unfolding check_inline
inline_sound inline st a e = let (h, k) = passed inline _ (ok st) a e in (h, ok_injective st a k)

pub inline_complete : (st : AuthorizeState) → check_inline false st ≡ ok st
unfolding check_inline
inline_complete st = refl

-- What the checks leave of a request.
pub record Agrees (st m : AuthorizeState) : Type 0 where
  pub scope : m.scope ≡ st.scope
  pub response_type : m.response_type ≡ st.response_type
  pub challenge : m.challenge ≡ st.challenge
  pub method : m.method ≡ st.method

pub moded-Agrees : (st : AuthorizeState) → Agrees st (moded st)
moded-Agrees st = elim (Bool-cases (st.response_type == "code")) [
  | inl e ↦ rw e record { scope = refl; response_type = refl; challenge = refl; method = refl }
  | inr n ↦ rw n record { scope = refl; response_type = refl; challenge = refl; method = refl }
]

-- max_age changes no other field.
pub aged_field :
    {A : Type 0} (f : AuthorizeState → A)
    → ((st : AuthorizeState) (n : ℕ) → f (record st { max_age = n; has_max_age = true }) ≡ f st)
    → (raw : String) (st : AuthorizeState) → f (aged raw st) ≡ f st
aged_field f same raw st = elim (Bool-cases (raw == "")) [
  | inl e ↦ rw e refl
  | inr n ↦ rw n (by_age (parse_int raw))
]
  where
    by_age : (o : Option ℤ) → f (aged_by st o) ≡ f st
    by_age (some (pos n)) = same st n
    by_age (some (negsuc n)) = refl
    by_age none = refl

pub aged_method : (raw : String) (st : AuthorizeState) → (aged raw st).method ≡ st.method
aged_method = aged_field (λ m. m.method) (λ st n. refl)

pub aged_scope : (raw : String) (st : AuthorizeState) → (aged raw st).scope ≡ st.scope
aged_scope = aged_field (λ m. m.scope) (λ st n. refl)

pub aged_response_mode :
    (raw : String) (st : AuthorizeState) → (aged raw st).response_mode ≡ st.response_mode
aged_response_mode = aged_field (λ m. m.response_mode) (λ st n. refl)
