-- ===== src/Identity/Authorize/Fresh.antt =====
-- The session that max_age and the prompt of a request let through.
use entra_emulator.Identity.Authorize.Checks.Steps.{prepared, HasAge, moded}
use entra_emulator.Store.Types.{auth_time, Store, Session}
use entra_emulator.Text.Integers.{pos, parse_int}
use entra_emulator.Identity.Authorize.Endpoint.{fresh_session, prompted_session}
use entra_emulator.Identity.Authorize.{User, AuthorizeState}
use entra_emulator.Store.Logout.{record_session_app}
use entra_emulator.Prelude.{
  ℕ, ◌-◌, ◌≤◌, String, ◌≡◌, refl, ap₂, subst, ◌≢◌, ◌⊎◌, inl, inr, Bool, true, false, ◌&&◌, ◌||◌,
  Option, none, some, arith, ◌==◌, eq_iff, ltb, Bool-cases,
}

pub recorded_codes :
    (session_id app_id : String) (t : Store)
    → (record_session_app session_id app_id t).authorization_codes ≡ t.authorization_codes
unfolding record_session_app
recorded_codes session_id app_id t = ground arith

pub not_older :
    (b : Bool) (limit age : ℕ) → (b && ltb limit age) ≡ false → (b ≡ false) ⊎ (age ≤ limit)
not_older b limit age h = ground arith

-- A session that max_age leaves is the current one, and young enough.
pub fresh_session_lem :
    (now : ℕ) (st : AuthorizeState) (o : Option (Session × User)) (sess : Session) (user : User)
    → fresh_session now st o ≡ some (sess, user)
    → (o ≡ some (sess, user)) × ((st.has_max_age ≡ false) ⊎ (now - auth_time sess ≤ st.max_age))
fresh_session_lem now st none sess user e = ground arith
fresh_session_lem now st (some (a, u)) sess user e =
    elim (Bool-cases (st.has_max_age && ltb st.max_age (now - auth_time a))) [
      | inl stale ↦ ground arith
      | inr fine ↦
          let same : a ≡ sess = ground arith in
          let who : u ≡ user = ground arith in
          (
            ap₂ (λ x y. some (x, y)) same who,
            subst (λ (x : Session). (st.has_max_age ≡ false) ⊎ (now - auth_time x ≤ st.max_age))
                same (not_older st.has_max_age st.max_age (now - auth_time a) fine),
          )
    ]

pub prompted_session_lem :
    (prompt : String) (o : Option (Session × User)) (x : Session × User)
    → prompted_session prompt o ≡ some x
    → (o ≡ some x) × (prompt ≢ "login") × (prompt ≢ "select_account")
prompted_session_lem prompt o x e =
    elim (Bool-cases (prompt == "login" || prompt == "select_account")) [
      | inl forced ↦ ground arith
      | inr free ↦ (
        rw free at e,
        λ z. ground (arith, (eq_iff prompt "login").1 z),
        λ z. ground (arith, (eq_iff prompt "select_account").1 z),
      )
    ]

pub moded_has_max_age : (st : AuthorizeState) → (moded st).has_max_age ≡ st.has_max_age
moded_has_max_age st = elim (Bool-cases (st.response_type == "code")) [
  | inl e ↦ rw e refl
  | inr e ↦ rw e refl
]

-- What the checks make of max_age.
pub prepared_age :
    (raw : String) (st : AuthorizeState)
    → HasAge raw
    → (raw ≡ "")
      ⊎ ((n : ℕ) × (parse_int raw ≡ some (pos n))
          × ((prepared raw st).max_age ≡ n)
          × ((prepared raw st).has_max_age ≡ true))
prepared_age raw st (inl e) = inl e
prepared_age raw st (inr (n, e)) = elim (Bool-cases (raw == "")) [
  | inl empty ↦ inl ((eq_iff raw "").0 empty)
  | inr given ↦ inr (n, e, rw (given, e) refl, rw (given, e) refl)
]
