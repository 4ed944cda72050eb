-- ===== src/Identity/Logout/Out.antt =====
-- What a logout leaves: no session, and a redirect only to a registered URI.
use entra_emulator.Identity.Logout.{
  notified_of, session_of, ended, tenant_segment, Config, handle_logout, clear_session,
  forget_session_apps, logout_answer, post_logout, validated_post_logout_redirect, unknown_tenant,
  signed_out, redirect, logout_client, has_redirect_uri, frontchannel, LogoutAnswer, LogoutRequest,
}
use entra_emulator.Store.Logout.{
  of_session, is_session_app, forget_session_apps, logs_out, session_logout_uris,
}
use entra_emulator.Identity.Authorize.Checks.Steps.{equal_false}
use entra_emulator.Identity.Sessions.{clear_session, current_session}
use entra_emulator.Store.Sessions.{delete_session, get_session, has_id}
use entra_emulator.Store.Directory.{has_redirect_uri}
use entra_emulator.Store.Types.{SessionApp, App, Store}
use entra_emulator.Text.Order.{sort_by-In, sort_by}
use entra_emulator.Prelude.{
  ℕ, String, ◌≡◌, refl, sym, ap, subst, ◌∙◌, ◌≢◌, ◌↔◌, ◌⊎◌, inl, inr, Bool, true, false, none, some,
  List, [], ◌∷◌, map, arith, ◌==◌, Bool-cases, In, select, delete, exists,
  select_first-eq-none_of_exists, In-select, select-In, exists-delete_same,
}

-- A redirect behind a logout goes to a URI that is registered for the client of the request.
abbrev pub IsSafeLogout : Store → LogoutRequest → LogoutAnswer → Type 0
IsSafeLogout s r unknown_tenant = Unit
IsSafeLogout s r signed_out = Unit
IsSafeLogout s r (frontchannel uris target sid) =
    (target ≡ "") ⊎ (has_redirect_uri s (logout_client r) target ≡ true)
IsSafeLogout s r (redirect target state) = has_redirect_uri s (logout_client r) target ≡ true

-- The logout URIs of the applications that the session signed into.
abbrev pub IsNotified : Store → (session_id uri : String) → Type 0
IsNotified s id uri =
    (app : App) × In app s.apps × (logs_out s id app ≡ true) × (app.frontchannel_logout_uri ≡ uri)

In-map :
    (f : App → String) (l : List App) (u : String)
    → In u (map f l) ↔ ((a : App) × In a l × (f a ≡ u))
In-map f [] u = (λ i. absurd i, λ (a, i, e). absurd i)
In-map f (x ∷ l) u = (there (In-map f l u), back (In-map f l u))
  where
    there :
        (In u (map f l) ↔ ((a : App) × In a l × (f a ≡ u)))
        → (f x ≡ u) ⊎ In u (map f l)
        → (a : App) × ((x ≡ a) ⊎ In a l) × (f a ≡ u)
    there ih (inl e) = (x, inl refl, e)
    there ih (inr i) = let (a, j, e) = ih.0 i in (a, inr j, e)

    back :
        (In u (map f l) ↔ ((a : App) × In a l × (f a ≡ u)))
        → (a : App) × ((x ≡ a) ⊎ In a l) × (f a ≡ u)
        → (f x ≡ u) ⊎ In u (map f l)
    back ih (a, inl e, h) = inl (ap f e ∙ h)
    back ih (a, inr i, h) = inr (ih.1 (a, i, h))

-- The logout URIs of a session are those of the applications that it signed into, each if it has one.
pub In-session_logout_uris :
    (s : Store) (session_id uri : String)
    → In uri (session_logout_uris s session_id) ↔ IsNotified s session_id uri
unfolding session_logout_uris
In-session_logout_uris s id uri =
    let l = select (logs_out s id) s.apps in
    let (there, back) =
      In-map (λ (a : App). a.frontchannel_logout_uri) (sort_by (λ (a : App). a.id) l) uri in
    (
      λ i.
          let (a, j, e) = there i in
          let (k, h) =
            In-select (logs_out s id) s.apps a ((sort_by-In (λ (x : App). x.id) a l).0 j) in
          (a, k, h, e),
      λ (a, k, h, e).
          back
            (a, (sort_by-In (λ (x : App). x.id) a l).1 (select-In (logs_out s id) s.apps a k h), e),
    )

abbrev pub frames : LogoutAnswer → List String
frames unknown_tenant = []
frames signed_out = []
frames (frontchannel uris target sid) = uris
frames (redirect target state) = []

frames-post_logout : (s : Store) (r : LogoutRequest) → frames (post_logout s r) ≡ []
unfolding post_logout
frames-post_logout s r = ground arith

answer_frames :
    (s : Store) (r : LogoutRequest) (uris : List String) → frames (logout_answer s r uris) ≡ uris
answer_frames s r [] = frames-post_logout s r
answer_frames s r (uri ∷ uris) = refl

validated_lem :
    (s : Store) (r : LogoutRequest)
    → let target = validated_post_logout_redirect s r in
      (target ≡ "") ⊎ (has_redirect_uri s (logout_client r) target ≡ true)
unfolding validated_post_logout_redirect
validated_lem s r = ground arith

post_logout-IsSafeLogout : (s : Store) (r : LogoutRequest) → IsSafeLogout s r (post_logout s r)
unfolding post_logout
post_logout-IsSafeLogout s r =
    let target = r.query "post_logout_redirect_uri" in
    elim (Bool-cases (target == "")) [
      | inl e ↦ rw e tt
      | inr a ↦ elim (Bool-cases (logout_client r == "")) [
        | inl e ↦ rw (a, e) tt
        | inr b ↦ elim (Bool-cases (has_redirect_uri s (logout_client r) target)) [
          | inl there ↦ rw (a, b, there) there
          | inr n ↦ rw (a, b, n) tt
        ]
      ]
    ]

answer-IsSafeLogout :
    (s : Store) (r : LogoutRequest) (uris : List String) → IsSafeLogout s r (logout_answer s r uris)
answer-IsSafeLogout s r [] = post_logout-IsSafeLogout s r
answer-IsSafeLogout s r (uri ∷ uris) = validated_lem s r

same_redirects :
    (id client uri : String) (s : Store)
    → has_redirect_uri (ended id s) client uri ≡ has_redirect_uri s client uri
unfolding ended has_redirect_uri clear_session delete_session forget_session_apps
same_redirects id client uri s = ground arith

ended_store :
    (id : String) (s : Store) → id ≢ "" → ended id s ≡ forget_session_apps id (delete_session id s)
unfolding ended clear_session
ended_store id s n = rw (equal_false id "" n) refl

no_session_left :
    (id : String) (s : Store) (now : ℕ) → id ≢ "" → current_session (ended id s) now id ≡ none
unfolding current_session get_session forget_session_apps delete_session
no_session_left id s now n =
    rw
      (
        equal_false id "" n,
        ended_store id s n,
        select_first-eq-none_of_exists (has_id id) (delete (has_id id) s.sessions)
            (exists-delete_same (has_id id) s.sessions),
      )
      refl

select_none : (p : App → Bool) → ((a : App) → p a ≡ false) → (l : List App) → select p l ≡ []
unfolding select
select_none p never [] = refl
select_none p never (x ∷ l) = ground (arith, never x, select_none p never l)

exists_deleted :
    (p q : SessionApp → Bool)
    → ((r : SessionApp) → p r ≡ true → q r ≡ true)
    → (l : List SessionApp) → exists p (delete q l) ≡ false
unfolding exists delete
exists_deleted p q sub [] = refl
exists_deleted p q sub (x ∷ l) = ground (arith, sub x, exists_deleted p q sub l)

not_signed_in :
    (id : String) (s : Store) (a : App)
    → logs_out (forget_session_apps id (delete_session id s)) id a ≡ false
unfolding forget_session_apps delete_session
not_signed_in id s a =
    rw
      (exists_deleted (is_session_app id a.id) (of_session id) (λ x h. ground arith) s.session_apps)
      refl

no_uris_left : (id : String) (s : Store) → id ≢ "" → session_logout_uris (ended id s) id ≡ []
unfolding session_logout_uris sort_by
no_uris_left id s n =
    let t = forget_session_apps id (delete_session id s) in
    ap (λ x. session_logout_uris x id) (ended_store id s n)
    ∙ ap (λ l. map (λ (a : App). a.frontchannel_logout_uri) (sort_by (λ (a : App). a.id) l))
        (select_none (logs_out t id) (not_signed_in id s) t.apps)

safe_before :
    (id : String) (s : Store) (r : LogoutRequest) (a : LogoutAnswer)
    → IsSafeLogout (ended id s) r a
    → IsSafeLogout s r a
safe_before id s r unknown_tenant h = tt
safe_before id s r signed_out h = tt
safe_before id s r (frontchannel uris target sid) (inl e) = inl e
safe_before id s r (frontchannel uris target sid) (inr h) =
    inr (sym (same_redirects id (logout_client r) target s) ∙ h)
safe_before id s r (redirect target state) h =
    sym (same_redirects id (logout_client r) target s) ∙ h

-- A logout with the cookie of a session, in a tenant that the emulator serves, ends it: nobody is
-- signed in by the cookie any more, whatever the time, and the session's list of applications is
-- empty. Its page notifies exactly the applications that the session signed into and that have a
-- logout URI, and a redirect goes only to a URI that is registered for the client of the request.
pub handle_logout_lem :
    (cfg : Config) (r : LogoutRequest) (s : Store) (id : String)
    → (tenant_segment cfg s r.tenant).1 ≡ true
    → r.cookie ≡ some id
    → id ≢ ""
    → let y = handle_logout cfg r s in
      ((now : ℕ) → current_session y.1 now id ≡ none)
      × (session_logout_uris y.1 id ≡ [])
      × ((uri : String) → In uri (frames y.0) ↔ IsNotified s id uri)
      × IsSafeLogout s r y.0
unfolding handle_logout
handle_logout_lem cfg r s id known has n =
    let uris = session_logout_uris s id in
    let same : handle_logout cfg r s ≡ (logout_answer (ended id s) r uris, ended id s) =
      rw (known, handle_logout)
        (ap
          (λ o.
            (logout_answer (ended (session_of o) s) r (notified_of s o), ended (session_of o) s))
          has) in
    rw same (
      λ now. no_session_left id s now n,
      no_uris_left id s n,
      λ uri.
          subst (λ l. In uri l ↔ IsNotified s id uri) (sym (answer_frames (ended id s) r uris))
            (In-session_logout_uris s id uri),
      safe_before id s r (logout_answer (ended id s) r uris)
          (answer-IsSafeLogout (ended id s) r uris),
    )
