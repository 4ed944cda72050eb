-- ===== src/Identity/Authorize/SignIn.antt =====
-- The sign-in form: what it takes to get a session and a code.
use entra_emulator.Store.Types.{
  not_found, err, StoreError, Result, auth_time, Result-cases, ok, Store, Session,
}
use entra_emulator.Store.Directory.{
  check_password, get_user, get_user_by_upn, verify_password, user_exists, get_app,
}
use entra_emulator.Identity.Authorize.{consent_page, Answer, fields, User, App, AuthorizeState}
use entra_emulator.Identity.Authorize.Forms.{handle_sign_in_submit, signed_in, sign_in_user}
use entra_emulator.Identity.Authorize.Issued.{
  issue_code_and_deliver_lem, issued_row, store_of_issued,
}
use entra_emulator.Store.Sessions.{has_id, create_session}
use entra_emulator.Identity.Scopes.{ResolvedScopes, resolve_delegated_scopes}
use entra_emulator.Identity.Approval.{SignInForm}
use entra_emulator.Identity.Authorize.Deliver.{code_request, issue_code_and_deliver}
use entra_emulator.Tokens.Codes.{AuthCodeRequest, issue_auth_code}
use entra_emulator.Store.Codes.{insert_auth_code}
use entra_emulator.Tokens.Minting.{DelegatedGrant}
use entra_emulator.Identity.Sessions.{start_session}
use entra_emulator.Store.Logout.{record_session_app}
use entra_emulator.Tokens.Types.{Config, Crypto}
use entra_emulator.Prelude.{
  ℕ, ◌+◌, code, String, ◌≡◌, refl, sym, ap, subst, ◌∙◌, ◌⊎◌, inl, inr, Bool, true, false, not,
  Option, none, some, [], ◌∷◌, ◌++◌, arith, ◌==◌, eq_iff, if◌then◌else◌, Bool-cases, Option-cases,
  exists,
}

abbrev pub new_session : (now : ℕ) (sid user_id : String) → Session
new_session now sid user_id = record {
  id = sid;
  user_id = user_id;
  auth_method = "pwd";
  created_at = now;
  expires_at = now + 28800;
}

-- The form carries a state that was signed for authorization, and names a user that it may sign in.
pub record IsSignedIn (c : Crypto) (cfg : Config) (now : ℕ) (sid code : String) (form : SignInForm)
    (state : Option AuthorizeState) (s t : Store) : Type 0 where
  pub st : AuthorizeState
  pub app : App
  pub user : User
  pub signed : state ≡ some st
  pub kind : st.kind ≡ "authorize"
  pub client : get_app s st.client_id ≡ ok app
  pub known :
      ((cfg.require_password ≡ true)
        × (get_user_by_upn s form.username ≡ ok user)
        × (c.verify_secret form.password user.password_hash ≡ true))
      ⊎ ((cfg.require_password ≡ false) × (get_user s form.user ≡ ok user))
  pub enabled : user.account_enabled ≡ true
  pub sessions :
      (t.sessions ≡ s.sessions) ⊎ (t.sessions ≡ s.sessions ++ new_session now sid user.id ∷ [])
  pub codes :
      (t.authorization_codes ≡ s.authorization_codes)
      ⊎ ((cfg.require_consent ≡ false)
          × ((r : ResolvedScopes) × (at : ℕ) × (t.authorization_codes
                ≡ s.authorization_codes ++ issued_row cfg now st app user r "pwd" at code ∷ [])))

by_password :
    (verify : String → String → Bool) (password : String) (user : User) (r : Result StoreError User)
    → check_password verify password r ≡ ok user
    → (r ≡ ok user) × (verify password user.password_hash ≡ true) × (user.account_enabled ≡ true)
by_password verify password user (err x) e = ground arith
by_password verify password user (ok u) e =
    let same : u ≡ user = ground arith in (ap ok same, ground arith, ground arith)

by_id :
    (user : User) (r : Result StoreError User)
    → (elim r [ err x ↦ err x | ok u ↦ if not u.account_enabled then err not_found else ok u ])
      ≡ ok user
    → (r ≡ ok user) × (user.account_enabled ≡ true)
by_id user (err x) e = ground arith
by_id user (ok u) e = let same : u ≡ user = ground arith in (ap ok same, ground arith)

user_lem :
    (c : Crypto) (cfg : Config) (s : Store) (form : SignInForm) (user : User)
    → sign_in_user c cfg s form ≡ ok user
    → (((cfg.require_password ≡ true)
          × (get_user_by_upn s form.username ≡ ok user)
          × (c.verify_secret form.password user.password_hash ≡ true))
        ⊎ ((cfg.require_password ≡ false) × (get_user s form.user ≡ ok user)))
      × (user.account_enabled ≡ true)
unfolding verify_password
user_lem c cfg s form user e = elim (Bool-cases cfg.require_password) [
  | inl asked ↦
      let (found, right, on) =
        by_password c.verify_secret form.password user (get_user_by_upn s form.username)
          (rw asked at e) in
      (inl (asked, found, right), on)
  | inr free ↦
      let (found, on) = by_id user (get_user s form.user) (rw free at e) in (inr (free, found), on)
]

recorded_tables :
    (session_id app_id : String) (t : Store)
    → let u = record_session_app session_id app_id t in
      (u.sessions ≡ t.sessions) × (u.authorization_codes ≡ t.authorization_codes)
unfolding record_session_app
recorded_tables session_id app_id t = ground arith

started_tables :
    (now : ℕ) (sid user_id : String) (s : Store)
    → let t = (start_session now sid user_id "pwd" s).1 in
      ((t.sessions ≡ s.sessions) ⊎ (t.sessions ≡ s.sessions ++ new_session now sid user_id ∷ []))
      × (t.authorization_codes ≡ s.authorization_codes)
unfolding start_session create_session
started_tables now sid user_id s = elim (Bool-cases (exists (has_id sid) s.sessions)) [
  | inl e ↦ rw e (inl refl, refl)
  | inr n ↦ elim (Bool-cases (user_exists s user_id)) [
    | inl u ↦ rw (n, u) (inr refl, refl)
    | inr u ↦ rw (n, u) (inl refl, refl)
  ]
]

module _ (cfg : Config) (mint : DelegatedGrant → (now : ℕ) → Option String) (now : ℕ) where
  issue_sessions :
      (code : String) (r : AuthCodeRequest) (t : Store)
      → (issue_auth_code cfg now code r t).1.sessions ≡ t.sessions
  unfolding issue_auth_code insert_auth_code
  issue_sessions code r t = ground arith

  deliver_sessions :
      (st : AuthorizeState) (app : App) (user : User) (amr : String) (at : ℕ) (code : String)
      (t : Store)
      → (issue_code_and_deliver cfg mint now st app user amr at code t).1.sessions ≡ t.sessions
  unfolding issue_code_and_deliver
  deliver_sessions st app user amr at code t =
      elim (Option-cases (resolve_delegated_scopes cfg t (fields st.scope))) [
        | inl e ↦ rw (e, issue_code_and_deliver) refl
        | inr (r, e) ↦
            let request = code_request st app user r amr at in
            rw (e, issue_code_and_deliver)
              (ap (λ (u : Store). u.sessions)
                  (store_of_issued cfg mint now st app user r amr at
                    (issue_auth_code cfg now code request t))
                ∙ issue_sessions code request t)
      ]

  abbrev Codes : AuthorizeState → App → User → (code : String) → Store → Store → Type 0
  Codes st app user code s t =
      (t.authorization_codes ≡ s.authorization_codes)
      ⊎ ((cfg.require_consent ≡ false)
          × ((r : ResolvedScopes) × (at : ℕ) × (t.authorization_codes
                ≡ s.authorization_codes ++ issued_row cfg now st app user r "pwd" at code ∷ [])))

  delivered-Codes :
      (st : AuthorizeState) (app : App) (user : User) (at : ℕ) (code : String) (s t : Store)
      → cfg.require_consent ≡ false
      → t.authorization_codes ≡ s.authorization_codes
      → Codes st app user code s (issue_code_and_deliver cfg mint now st app user "pwd" at code t).1
  delivered-Codes st app user at code s t free same =
      elim (issue_code_and_deliver_lem cfg mint now st app user "pwd" at code t) [
        | inl kept ↦ inl (kept ∙ same)
        | inr (r, scopes, added) ↦
            let row = issued_row cfg now st app user r "pwd" at code in
            inr (free, (r, at, added ∙ ap (λ l. l ++ row ∷ []) same))
      ]

module _ (c : Crypto) (cfg : Config) (mint : DelegatedGrant → (now : ℕ) → Option String)
    (now : ℕ) where
  -- The tables behind a consent page or a delivery.
  if_tables :
      (b : Bool) (st : AuthorizeState) (app : App) (user : User) (code : String)
      (x y : Answer × Store) (s t : Store)
      → (x.1.sessions ≡ t.sessions) × (x.1.authorization_codes ≡ s.authorization_codes)
      → (y.1.sessions ≡ t.sessions)
      → (b ≡ false → Codes cfg mint now st app user code s y.1)
      → let z = (if b then x else y).1 in
        (z.sessions ≡ t.sessions) × Codes cfg mint now st app user code s z
  if_tables true st app user code x y s t (h, k) l m = (h, inl k)
  if_tables false st app user code x y s t (h, k) l m = (l, m refl)

  signed_in_tables :
      (st : AuthorizeState) (app : App) (user : User) (code : String) (s : Store)
      (x : Option Session × Store)
      → x.1.authorization_codes ≡ s.authorization_codes
      → let z = (signed_in c cfg mint now st app user code x).1 in
        (z.sessions ≡ x.1.sessions) × Codes cfg mint now st app user code s z
  signed_in_tables st app user code s (none, t) same =
      if_tables cfg.require_consent st app user code (consent_page st app, t)
        (issue_code_and_deliver cfg mint now st app user "pwd" 0 code t) s t (refl, same)
        (deliver_sessions cfg mint now st app user "pwd" 0 code t)
        (λ free. delivered-Codes cfg mint now st app user 0 code s t free same)
  signed_in_tables st app user code s (some sess, t) same =
      let u = record_session_app sess.id app.id t in
      let (before, codes) = recorded_tables sess.id app.id t in
      if_tables cfg.require_consent st app user code (consent_page st app, u)
        (issue_code_and_deliver cfg mint now st app user "pwd" (auth_time sess) code u) s t
        (before, codes ∙ same)
        (deliver_sessions cfg mint now st app user "pwd" (auth_time sess) code u ∙ before)
        (λ free.
          delivered-Codes cfg mint now st app user (auth_time sess) code s u free (codes ∙ same))

  -- The sign-in form changes nothing, or it carries a state that was signed for authorization, names
  -- a client of the directory and an enabled user (by the user's name and password where a password is
  -- required, else by the id); it then adds at most one session, of this user, and at most one code,
  -- which is for this user and this client, and only where no consent is required.
  pub handle_sign_in_submit-IsSignedIn :
      (sid code : String) (form : SignInForm) (state : Option AuthorizeState) (s : Store)
      → let t = (handle_sign_in_submit c cfg mint now sid code form state s).1 in
        (t ≡ s) ⊎ IsSignedIn c cfg now sid code form state s t
  unfolding handle_sign_in_submit
  handle_sign_in_submit-IsSignedIn sid code form none s = inl refl
  handle_sign_in_submit-IsSignedIn sid code form (some st) s =
      elim (Bool-cases (st.kind == "authorize")) [
        | inr n ↦ inl (rw (n, handle_sign_in_submit) refl)
        | inl kind ↦ elim (Result-cases (get_app s st.client_id)) [
          | inr (x, e) ↦ inl (rw (kind, e, handle_sign_in_submit) refl)
          | inl (app, e) ↦ elim (Result-cases (sign_in_user c cfg s form)) [
            | inr (x, f) ↦ inl (rw (kind, e, f, handle_sign_in_submit) refl)
            | inl (user, f) ↦
                let x = start_session now sid user.id "pwd" s in
                let (sessions, same) = started_tables now sid user.id s in
                let (after, codes) = signed_in_tables st app user code s x same in
                let there : (handle_sign_in_submit c cfg mint now sid code form (some st) s).1
                    ≡ (signed_in c cfg mint now st app user code x).1 =
                  rw (kind, e, f, handle_sign_in_submit) refl in
                inr (
                  subst (IsSignedIn c cfg now sid code form (some st) s) (sym there) record {
                    st = st;
                    app = app;
                    user = user;
                    signed = refl;
                    kind = (eq_iff st.kind "authorize").0 kind;
                    client = e;
                    known = (user_lem c cfg s form user f).0;
                    enabled = (user_lem c cfg s form user f).1;
                    sessions = elim sessions [
                      | inl kept ↦ inl (after ∙ kept)
                      | inr added ↦ inr (after ∙ added)
                    ];
                    codes = codes;
                  })
          ]
        ]
      ]
