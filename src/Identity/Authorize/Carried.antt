-- ===== src/Identity/Authorize/Carried.antt =====
-- The client and the redirect URI of a request through its checks.
use entra_emulator.Identity.Authorize.Checks.{
  issues_code, with_default_method, with_default_mode, check_front, bounded_age, and_then, Checked,
  check_challenge, check_inline, check_max_age, check_method, check_request, check_response_type,
  check_scopes,
}
use entra_emulator.Identity.Errors.{oauth_error}
use entra_emulator.Identity.Authorize.{fields, App, OauthError, AuthorizeState}
use entra_emulator.Text.Integers.{negsuc, pos, parse_int, ℤ}
use entra_emulator.Identity.Scopes.{resolve_delegated_scopes}
use entra_emulator.Store.Types.{Store, err, ok}
use entra_emulator.Tokens.Types.{Config}
use entra_emulator.Prelude.{
  String, ◌≡◌, refl, ◌∙◌, inl, inr, Bool, true, false, not, ◌&&◌, Option, none, some, ◌==◌,
  if◌then◌else◌, Bool-cases, Option-cases, contains,
}

-- The state that a result of the checks carries.
abbrev pub carried : Checked → AuthorizeState
carried (ok st) = st
carried (err (st, e)) = st

-- The same client and the same redirect URI.
abbrev pub SameTarget : AuthorizeState → AuthorizeState → Type 0
SameTarget a b = (a.client_id ≡ b.client_id) × (a.redirect_uri ≡ b.redirect_uri)

carried_if :
    (b : Bool) (x : AuthorizeState × OauthError) (r : Checked) (st : AuthorizeState)
    → SameTarget x.0 st
    → SameTarget (carried r) st
    → SameTarget (carried (if b then err x else r)) st
carried_if true x r st h k = h
carried_if false x r st h k = k

inline-SameTarget :
    (inline : Bool) (st : AuthorizeState) → SameTarget (carried (check_inline inline st)) st
unfolding check_inline
inline-SameTarget inline st = carried_if inline _ (ok st) st (refl, refl) (refl, refl)

front-SameTarget : (st : AuthorizeState) → SameTarget (carried (check_front st)) st
front-SameTarget st = elim (Bool-cases (st.nonce == "")) [
  | inl e ↦ rw e (refl, refl)
  | inr n ↦ elim (Bool-cases ((with_default_mode st).response_mode == "query")) [
    | inl e ↦ rw (n, e) (refl, refl)
    | inr m ↦ rw (n, m) (refl, refl)
  ]
]

type-SameTarget : (st : AuthorizeState) → SameTarget (carried (check_response_type st)) st
unfolding check_response_type
type-SameTarget st =
    carried_if _ _ (if st.response_type == "code" then ok st else check_front st) st (refl, refl)
      (elim (Bool-cases (st.response_type == "code")) [
        | inl e ↦ rw e (refl, refl)
        | inr n ↦ rw n (front-SameTarget st)
      ])

scopes-SameTarget :
    (cfg : Config) (s : Store) (st : AuthorizeState)
    → SameTarget (carried (check_scopes cfg s st)) st
unfolding check_scopes
scopes-SameTarget cfg s st =
    elim (Option-cases (resolve_delegated_scopes cfg s (fields st.scope))) [
      | inl e ↦ rw e (
          carried_if (not (contains (fields st.scope) "openid"))
            (st, oauth_error "invalid_scope" "The openid scope is required.")
            (err (st, oauth_error "invalid_scope" "A requested resource scope is not registered."))
            st (refl, refl) (refl, refl))
      | inr (r, e) ↦ rw e (
          carried_if (not (contains (fields st.scope) "openid"))
            (st, oauth_error "invalid_scope" "The openid scope is required.") (ok st) st
            (refl, refl) (refl, refl))
    ]

challenge-SameTarget :
    (app : App) (st : AuthorizeState) → SameTarget (carried (check_challenge app st)) st
unfolding check_challenge
challenge-SameTarget app st =
    elim (Bool-cases (issues_code st && (not app.is_confidential && st.challenge == ""))) [
      | inl e ↦ rw e (refl, refl)
      | inr e ↦ rw e (refl, refl)
    ]

bounded-SameTarget :
    (st : AuthorizeState) (o : Option ℤ) → SameTarget (carried (bounded_age st o)) st
bounded-SameTarget st (some (pos n)) = (refl, refl)
bounded-SameTarget st (some (negsuc n)) = (refl, refl)
bounded-SameTarget st none = (refl, refl)

age-SameTarget :
    (raw : String) (st : AuthorizeState) → SameTarget (carried (check_max_age raw st)) st
unfolding check_max_age
age-SameTarget raw st = elim (Bool-cases (raw == "")) [
  | inl e ↦ rw e (refl, refl)
  | inr n ↦ rw n (bounded-SameTarget st (parse_int raw))
]

method-SameTarget : (st : AuthorizeState) → SameTarget (carried (check_method st)) st
unfolding check_method
method-SameTarget st =
    let m = (with_default_method st).method in
    elim (Bool-cases (not (m == "") && (not (m == "S256") && not (m == "plain")))) [
      | inl e ↦ rw e (refl, refl)
      | inr e ↦ rw e (refl, refl)
    ]

and_then-SameTarget :
    (r : Checked) (f : AuthorizeState → Checked) (st : AuthorizeState)
    → ((a : AuthorizeState) → SameTarget (carried (f a)) a)
    → SameTarget (carried r) st
    → SameTarget (carried (and_then r f)) st
and_then-SameTarget (ok a) f st h (p, q) = let (x, y) = h a in (x ∙ p, y ∙ q)
and_then-SameTarget (err e) f st h k = k

-- Accepted or refused, the client and the redirect URI are the request's.
pub check_request-SameTarget :
    (cfg : Config) (s : Store) (app : App) (inline : Bool) (raw : String) (st : AuthorizeState)
    → SameTarget (carried (check_request cfg s app inline raw st)) st
unfolding check_request
check_request-SameTarget cfg s app inline raw st =
    let c1 = check_inline inline st in
    let c2 = and_then c1 check_response_type in
    let c3 = and_then c2 (check_scopes cfg s) in
    let c4 = and_then c3 (check_challenge app) in
    let c5 = and_then c4 (check_max_age raw) in
    and_then-SameTarget c5 check_method st method-SameTarget (
      and_then-SameTarget c4 (check_max_age raw) st (age-SameTarget raw) (
        and_then-SameTarget c3 (check_challenge app) st (challenge-SameTarget app) (
          and_then-SameTarget c2 (check_scopes cfg s) st (scopes-SameTarget cfg s) (
            and_then-SameTarget c1 check_response_type st type-SameTarget
              (inline-SameTarget inline st)))))
