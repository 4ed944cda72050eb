-- ===== src/Identity/Authorize/FrontChannel.antt =====
-- How an id_token comes back to the client through the browser.
use entra_emulator.Store.Types.{err, Store, App, User, StoreError, Result, ok}
use entra_emulator.Text.Integers.{negsuc, pos, parse_int, ℤ}
use entra_emulator.Identity.Authorize.Checks.Steps.{
  aged_field, aged, aged_by, prepared, differs, equal_false, moded,
}
use entra_emulator.Identity.Authorize.Checks.Valid.{IsValid, check_request_iff}
use entra_emulator.Identity.Authorize.Checks.{check_request, with_default_method}
use entra_emulator.Identity.Authorize.Deliver.{
  code_params, code_request, id_token_grant, issue_code_and_deliver, issued_code, returns_id_token,
}
use entra_emulator.Identity.Authorize.{
  Params, set_param, query, AuthorizeState, mode_of, delivered, deliver_authorize_result,
}
use entra_emulator.Identity.Scopes.{ResolvedScopes, resolve_delegated_scopes}
use entra_emulator.Text.{fields}
use entra_emulator.Tokens.Codes.{issue_auth_code}
use entra_emulator.Tokens.Minting.{DelegatedGrant}
use entra_emulator.Tokens.Types.{Config}
use entra_emulator.Prelude.{
  ℕ, code, String, ◌≡◌, refl, sym, ap, subst, ◌∙◌, ◌≢◌, ◌⊎◌, inl, inr, Bool, true, false, ◌||◌,
  Option, none, some, [], ◌∷◌, ◌++◌, arith, ◌==◌, eq_iff, Bool-cases, In, In-append_left,
  In-append_right, delete,
}

-- The request with another response mode.
abbrev pub with_mode : AuthorizeState → (mode : String) → AuthorizeState
with_mode st m = record st { response_mode = m }

-- A response mode that is none of those that the documents list.
abbrev pub IsUnknown : String → Type 0
IsUnknown m = (m ≢ "") × (m ≢ "query") × (m ≢ "fragment") × (m ≢ "form_post")

-- The request asks for an id_token.
abbrev pub AsksToken : AuthorizeState → Type 0
AsksToken st = (st.response_type ≡ "id_token") ⊎ (st.response_type ≡ "code id_token")

not_code : (st : AuthorizeState) → AsksToken st → st.response_type == "code" ≡ false
not_code st (inl e) = ap (λ t. t == "code") e
not_code st (inr e) = ap (λ t. t == "code") e

returns_token : (st : AuthorizeState) → AsksToken st → returns_id_token st ≡ true
returns_token st (inl e) = ap (λ t. t == "id_token" || t == "code id_token") e
returns_token st (inr e) = ap (λ t. t == "id_token" || t == "code id_token") e

-- What the checks leave of a request for an id_token, by its response mode.
moded-with_mode :
    (st : AuthorizeState) (m : String)
    → st.response_type == "code" ≡ false
    → m ≢ ""
    → moded (with_mode st m) ≡ with_mode st m
moded-with_mode st m n given = rw (n, equal_false m "" given) refl

aged_by-with_mode :
    (m : String) (st : AuthorizeState) (o : Option ℤ)
    → aged_by (with_mode st m) o ≡ with_mode (aged_by st o) m
aged_by-with_mode m st none = refl
aged_by-with_mode m st (some (pos n)) = refl
aged_by-with_mode m st (some (negsuc n)) = refl

aged-with_mode :
    (raw m : String) (st : AuthorizeState) → aged raw (with_mode st m) ≡ with_mode (aged raw st) m
aged-with_mode raw m st = elim (Bool-cases (raw == "")) [
  | inl e ↦ rw e refl
  | inr e ↦ rw e (aged_by-with_mode m st (parse_int raw))
]

prepared_by_mode :
    (raw m : String) (st : AuthorizeState)
    → AsksToken st
    → m ≢ ""
    → prepared raw (with_mode st m) ≡ with_mode (with_default_method (aged raw st)) m
prepared_by_mode raw m st asks given =
    ap (λ x. with_default_method (aged raw x)) (moded-with_mode st m (not_code st asks) given)
    ∙ ap with_default_method (aged-with_mode raw m st)

prepared-with_mode :
    (raw m : String) (st : AuthorizeState)
    → AsksToken st
    → m ≢ ""
    → prepared raw (with_mode st m) ≡ with_mode (prepared raw (with_mode st "fragment")) m
prepared-with_mode raw m st asks given =
    prepared_by_mode raw m st asks given
    ∙ sym (
        ap (λ x. with_mode x m)
          (prepared_by_mode raw "fragment" st asks (differs "fragment" "" refl)))

with_mode-IsValid :
    (cfg : Config) (s : Store) (app : App) (inline : Bool) (raw m : String) (st : AuthorizeState)
    → AsksToken st
    → IsUnknown m
    → IsValid cfg s app inline raw (with_mode st "fragment")
    → IsValid cfg s app inline raw (with_mode st m)
with_mode-IsValid cfg s app inline raw m st asks unknown v = record {
  by_reference = v.by_reference;
  response_type = elim v.response_type [
    | inl code ↦ absurd (clash (sym (not_code st asks) ∙ (eq_iff st.response_type "code").1 code))
    | inr (type, nonce, q) ↦ inr (type, nonce, unknown.1)
  ];
  openid = v.openid;
  scopes = v.scopes;
  pkce = v.pkce;
  max_age = v.max_age;
  method = v.method;
}
  where
    clash : ◌≡◌ {A = Bool} false true → ⊥
    clash z = ground arith

unknown_mode : (m : String) → IsUnknown m → mode_of m ≡ query
unfolding mode_of
unknown_mode m (a, b, c, d) = rw (equal_false m "form_post" d, equal_false m "fragment" c) refl

In-delete :
    (p : String × String → Bool) (x : String × String) (ps : Params)
    → p x ≡ false
    → In x ps
    → In x (delete p ps)
unfolding delete
In-delete p x [] h i = absurd i
In-delete p x (y ∷ ps) h i = elim (Bool-cases (p y)) [
  | inl hit ↦
      rw hit
        (elim i [ inl e ↦ absurd (clash (sym hit ∙ (ap p e ∙ h))) | inr j ↦ In-delete p x ps h j ])
  | inr miss ↦ rw miss (elim i [ inl e ↦ inl e | inr j ↦ inr (In-delete p x ps h j) ])
]
  where
    clash : ◌≡◌ {A = Bool} true false → ⊥
    clash z = ground arith

-- The parameters that an id_token is delivered with.
with_token :
    (st : AuthorizeState) (token : String) (ps : Params)
    → mode_of st.response_mode ≡ query
    → (qs : Params) × (deliver_authorize_result st (set_param "id_token" token ps)
        ≡ delivered record { redirect_uri = st.redirect_uri; mode = query; params = qs })
      × In ("id_token", token) qs
unfolding deliver_authorize_result set_param
with_token st token ps mode =
    let p : String × String = ("id_token", token) in
    let set : Params = delete (λ (q : String × String). q.0 == "id_token") ps ++ p ∷ [] in
    let there : In p set =
      In-append_right p (delete (λ (q : String × String). q.0 == "id_token") ps) (p ∷ [])
        (inl refl) in
    elim (Bool-cases (st.state == "")) [
      | inl none_sent ↦ (set, rw (none_sent, mode) refl, there)
      | inr sent ↦ (
        _,
        rw (sent, mode) refl,
        In-append_left p (delete (λ (q : String × String). q.0 == "state") set)
            (("state", st.state) ∷ []) (In-delete (λ q. q.0 == "state") p set refl there),
      )
    ]

module _ (cfg : Config) (mint : DelegatedGrant → (now : ℕ) → Option String) (now : ℕ) (s t : Store)
    (app : App) (user : User) (r : ResolvedScopes) (raw amr code token m : String) (at : ℕ)
    (st b : AuthorizeState) where
  issued_token :
      (a : AuthorizeState)
      → AsksToken a
      → mode_of a.response_mode ≡ query
      → mint (id_token_grant a app user r amr at) now ≡ some token
      → (x : Result StoreError String × Store) → x.0 ≡ ok code
      → (ps : Params) × ((issued_code cfg mint now a app user r amr at x).0
          ≡ delivered record { redirect_uri = a.redirect_uri; mode = query; params = ps })
        × In ("id_token", token) ps
  issued_token a asks mode minted (ok drawn, u) e =
      rw (returns_token a asks, minted) (with_token a token (code_params a drawn) mode)
  issued_token a asks mode minted (err x, u) e = ground arith

  token_delivered :
      (a : AuthorizeState)
      → AsksToken a
      → mode_of a.response_mode ≡ query
      → resolve_delegated_scopes cfg t (fields a.scope) ≡ some r
      → (issue_auth_code cfg now code (code_request a app user r amr at) t).0 ≡ ok code
      → mint (id_token_grant a app user r amr at) now ≡ some token
      → (ps : Params) × ((issue_code_and_deliver cfg mint now a app user amr at code t).0
          ≡ delivered record { redirect_uri = a.redirect_uri; mode = query; params = ps })
        × In ("id_token", token) ps
  unfolding issue_code_and_deliver
  token_delivered a asks mode resolved issued minted =
      rw (resolved, issue_code_and_deliver)
        (issued_token a asks mode minted
          (issue_auth_code cfg now code (code_request a app user r amr at) t) issued)

  -- An unknown response mode, though an id_token must not come back in the query: take a request
  -- for an id_token that passes the checks in the mode fragment, and give it a response mode other
  -- than query, fragment and form_post. It passes the checks all the same, and where its scopes
  -- resolve, its code is stored and the token is minted, the token is delivered to the redirect URI
  -- among the parameters of the query.
  pub id_token_by_query :
      AsksToken st
      → IsUnknown m
      → check_request cfg s app false raw (with_mode st "fragment") ≡ ok b
      → resolve_delegated_scopes cfg t (fields b.scope) ≡ some r
      → (issue_auth_code cfg now code (code_request b app user r amr at) t).0 ≡ ok code
      → mint (id_token_grant b app user r amr at) now ≡ some token
      → (check_request cfg s app false raw (with_mode st m) ≡ ok (with_mode b m))
        × ((ps : Params) × ((issue_code_and_deliver cfg mint now
                (with_mode b m)
                app
                user
                amr
                at
                code
                t).0
              ≡ delivered record { redirect_uri = b.redirect_uri; mode = query; params = ps })
            × In ("id_token", token) ps)
  id_token_by_query asks unknown passes resolved issued minted =
      let (v, same) =
        (check_request_iff cfg s app false raw (with_mode st "fragment") b).0 passes in
      let valid = with_mode-IsValid cfg s app false raw m st asks unknown v in
      let kept : with_mode b m ≡ prepared raw (with_mode st m) =
        ap (λ x. with_mode x m) same ∙ sym (prepared-with_mode raw m st asks unknown.0) in
      let type : b.response_type ≡ st.response_type =
        ap (λ (x : AuthorizeState). x.response_type)
          (same ∙ prepared_by_mode raw "fragment" st asks (differs "fragment" "" refl))
        ∙ aged_field (λ x. x.response_type) (λ x n. refl) raw st in
      let still : AsksToken b =
        subst (λ y. (y ≡ "id_token") ⊎ (y ≡ "code id_token")) (sym type) asks in
      (
        (check_request_iff cfg s app false raw (with_mode st m) (with_mode b m)).1 (valid, kept),
        token_delivered (with_mode b m) still (unknown_mode m unknown) resolved issued minted,
      )
