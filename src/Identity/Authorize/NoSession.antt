-- ===== src/Identity/Authorize/NoSession.antt =====
-- prompt=none without a usable session.
use entra_emulator.Identity.Authorize.LoginError.{
  deliver-free, told, is_login_error, says_login_required,
}
use entra_emulator.Identity.Authorize.Checks.Valid.{check_request_iff, IsValid}
use entra_emulator.Identity.Authorize.Checks.Steps.{prepared}
use entra_emulator.Identity.Authorize.Fresh.{not_older, prepared_age, moded_has_max_age}
use entra_emulator.Identity.Authorize.Carried.{carried, check_request-SameTarget}
use entra_emulator.Identity.Authorize.Deliver.{issue_code_and_deliver}
use entra_emulator.Identity.Authorize.Endpoint.{
  authorize_params, authorize_state, continue_session, fresh_session, resolve_session, Claim,
}
use entra_emulator.Identity.Authorize.{
  Answer, AuthorizeState, Delivery, consent_page, delivered, deliver_authorize_error,
}
use entra_emulator.Identity.Errors.{oauth_error}
use entra_emulator.Identity.Sessions.{current_session}
use entra_emulator.Store.Directory.{get_app, has_redirect_uri}
use entra_emulator.Store.Logout.{record_session_app}
use entra_emulator.Store.Types.{App, Result, Session, Store, User, auth_time, ok}
use entra_emulator.Text.Integers.{parse_int, pos}
use entra_emulator.Tokens.Minting.{DelegatedGrant}
use entra_emulator.Tokens.Types.{Config, Crypto}
use entra_emulator.Prelude.{
  ℕ, ◌-◌, ◌≤◌, ◌<◌, code, String, ◌≡◌, refl, sym, ap, subst, ◌∙◌, ◌⊎◌, inl, inr, Bool, true, false,
  ◌&&◌, Option, none, some, arith, ltb, if◌then◌else◌, Bool-cases, exists,
}

-- The cookie's live session of an enabled user, not older than a max_age that is sent.
abbrev pub IsUsable : Store → (now : ℕ) (cookie max_age : String) → Type 0
IsUsable s now cookie raw =
    (sess : Session) × (user : User) × (current_session s now cookie ≡ some (sess, user))
    × ((raw ≡ "") ⊎ ((n : ℕ) × (parse_int raw ≡ some (pos n)) × (now - auth_time sess ≤ n)))

-- No such session: none at all, or one that is older than max_age.
abbrev pub IsUnusable : Store → (now : ℕ) (cookie max_age : String) → Type 0
IsUnusable s now cookie raw =
    (current_session s now cookie ≡ none)
    ⊎ ((sess : Session) × (user : User) × (n : ℕ) × (current_session s now cookie
          ≡ some (sess, user))
        × (parse_int raw ≡ some (pos n))
        × (n < now - auth_time sess))

-- The session that max_age leaves, if any, and why there is none.
fresh_cases :
    (now : ℕ) (st : AuthorizeState) (o : Option (Session × User))
    → ((fresh_session now st o ≡ none)
        × ((o ≡ none)
            ⊎ ((sess : Session) × (user : User) × (o ≡ some (sess, user))
                × (st.has_max_age ≡ true)
                × (st.max_age < now - auth_time sess))))
      ⊎ ((sess : Session) × (user : User) × (fresh_session now st o ≡ some (sess, user))
          × (o ≡ some (sess, user))
          × ((st.has_max_age ≡ false) ⊎ (now - auth_time sess ≤ st.max_age)))
fresh_cases now st none = inl (refl, inl refl)
fresh_cases now st (some (sess, user)) =
    elim (Bool-cases (st.has_max_age && ltb st.max_age (now - auth_time sess))) [
      | inl stale ↦ inl (rw stale refl, inr (sess, user, refl, ground arith, ground arith))
      | inr fine ↦ inr (
        sess,
        user,
        rw fine refl,
        refl,
        not_older st.has_max_age st.max_age (now - auth_time sess) fine,
      )
    ]

unasked-free :
    (b : Bool) (x y : Answer × Store)
    → says_login_required y.0 ≡ false
    → says_login_required (if b && false then x else y).0 ≡ false
unasked-free true x y h = h
unasked-free false x y h = h

no_clash : {b : Bool} → b ≡ false → b ≡ true → ⊥
no_clash h k = ground arith

no_max_age : (st : AuthorizeState) → st.has_max_age ≡ false → (prepared "" st).has_max_age ≡ false
no_max_age st h = moded_has_max_age st ∙ h

module _ (c : Crypto) (cfg : Config) (mint : DelegatedGrant → (now : ℕ) → Option String) (now : ℕ)
    (fetch : Store → (client_id request_uri : String) → Result String (String → Claim)) where
  session-free :
      (st : AuthorizeState) (app : App) (hint code : String) (sess : Session) (user : User)
      (t : Store)
      → says_login_required
          (continue_session c cfg mint now fetch st app "none" hint code (some (sess, user)) t).0
        ≡ false
  session-free st app hint code sess user t =
      let u = record_session_app sess.id app.id t in
      unasked-free cfg.require_consent (consent_page st app, t)
        (issue_code_and_deliver cfg mint now st app user sess.auth_method (auth_time sess) code u)
        (deliver-free cfg mint now st app user sess.auth_method (auth_time sess) code u)

  -- What prompt=none makes of a state behind the checks, by its session.
  resolved_cases :
      (st : AuthorizeState) (app : App) (cookie hint code : String) (s : Store)
      → let y = resolve_session c cfg mint now fetch st app cookie "none" hint code s in
        ((y ≡ (
          deliver_authorize_error st
              (oauth_error "login_required" "No active session and prompt=none."),
          s,
        ))
          × ((current_session s now cookie ≡ none)
              ⊎ ((sess : Session) × (user : User) × (current_session s now cookie
                    ≡ some (sess, user))
                  × (st.has_max_age ≡ true)
                  × (st.max_age < now - auth_time sess))))
        ⊎ ((says_login_required y.0 ≡ false)
            × ((sess : Session) × (user : User) × (current_session s now cookie ≡ some (sess, user))
                × ((st.has_max_age ≡ false) ⊎ (now - auth_time sess ≤ st.max_age))))
  unfolding resolve_session
  resolved_cases st app cookie hint code s =
      elim (fresh_cases now st (current_session s now cookie)) [
        | inl (gone, why) ↦ inl (rw (gone, resolve_session) refl, why)
        | inr (sess, user, there, found, young) ↦ inr (
          rw (there, resolve_session) (session-free st app hint code sess user s),
          (sess, user, found, young),
        )
      ]

  usable :
      (tenant cookie raw : String) (param : String → String) (s : Store) (sess : Session)
      (user : User)
      → (raw ≡ "") ⊎ ((n : ℕ) × (parse_int raw ≡ some (pos n)))
      → current_session s now cookie ≡ some (sess, user)
      → let st = prepared raw (authorize_state tenant param) in
        (st.has_max_age ≡ false) ⊎ (now - auth_time sess ≤ st.max_age) → IsUsable s now cookie raw
  usable tenant cookie raw param s sess user age found young =
      elim (prepared_age raw (authorize_state tenant param) age) [
        | inl empty ↦ (sess, user, found, inl empty)
        | inr (n, read, limit, has) ↦ (
          sess,
          user,
          found,
          inr (
            n,
            read,
            elim young [
              | inl unset ↦ absurd (no_clash unset has)
              | inr le ↦ subst (λ k. now - auth_time sess ≤ k) limit le
            ],
          ),
        )
      ]

  unusable :
      (tenant cookie raw : String) (param : String → String) (s : Store) (sess : Session)
      (user : User)
      → (raw ≡ "") ⊎ ((n : ℕ) × (parse_int raw ≡ some (pos n)))
      → current_session s now cookie ≡ some (sess, user)
      → (prepared raw (authorize_state tenant param)).has_max_age ≡ true
      → (prepared raw (authorize_state tenant param)).max_age < now - auth_time sess
      → IsUnusable s now cookie raw
  unfolding authorize_state
  unusable tenant cookie raw param s sess user age found has old =
      let st = authorize_state tenant param in
      elim (prepared_age raw st age) [
        | inl empty ↦ absurd (
            no_clash (no_max_age st refl) (ap (λ r. (prepared r st).has_max_age) (sym empty) ∙ has))
        | inr (n, read, limit, set) ↦
            inr (sess, user, n, found, read, subst (λ k. k < now - auth_time sess) limit old)
      ]

  -- A request with prompt=none, whose client and redirect URI are registered and which passes the
  -- checks. Where the cookie has no live session of an enabled user, or one that is older than the
  -- max_age that is sent, login_required is delivered to the request's redirect URI and nothing is
  -- written; where it has one that is not too old, the answer, whatever it is, is not
  -- login_required.
  pub login_required :
      (tenant cookie : String) (inline : Bool) (param : String → String) (code : String) (s : Store)
      (app : App)
      → param "prompt" ≡ "none"
      → get_app s (param "client_id") ≡ ok app
      → has_redirect_uri s app.id (param "redirect_uri") ≡ true
      → IsValid cfg s app inline (param "max_age") (authorize_state tenant param)
      → let y = authorize_params c cfg mint now fetch tenant cookie inline param code s in
        (IsUnusable s now cookie (param "max_age")
          × ((d : Delivery) × (y ≡ (delivered d, s))
              × (d.redirect_uri ≡ param "redirect_uri")
              × (exists is_login_error d.params ≡ true)))
        ⊎ (IsUsable s now cookie (param "max_age") × (says_login_required y.0 ≡ false))
  unfolding authorize_params authorize_state
  login_required tenant cookie inline param code s app h found there valid =
      let st = authorize_state tenant param in
      let raw = param "max_age" in
      let b = prepared raw st in
      let accepted = (check_request_iff cfg s app inline raw st b).1 (valid, refl) in
      let target : b.redirect_uri ≡ param "redirect_uri" =
        ap (λ r. (carried r).redirect_uri) (sym accepted)
        ∙ (check_request-SameTarget cfg s app inline raw st).1 in
      let same : authorize_params c cfg mint now fetch tenant cookie inline param code s
          ≡ resolve_session c cfg mint now fetch b app cookie "none" (param "login_hint") code s =
        rw (found, there, h, accepted, authorize_params) refl in
      elim (resolved_cases b app cookie (param "login_hint") code s) [
        | inl (answer, why) ↦
            let (d, sent, to, error) = told b "No active session and prompt=none." in
            inl (
              elim why [
                | inl none_at ↦ inl none_at
                | inr (sess, user, current, has, old) ↦
                    unusable tenant cookie raw param s sess user valid.max_age current has old
              ],
              (d, same ∙ (answer ∙ ap (λ x. (x, s)) sent), to ∙ target, error),
            )
        | inr (free, (sess, user, current, young)) ↦ inr (
          usable tenant cookie raw param s sess user valid.max_age current young,
          ap (λ (x : Answer × Store). says_login_required x.0) same ∙ free,
        )
      ]
