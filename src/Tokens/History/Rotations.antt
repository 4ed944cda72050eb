-- ===== src/Tokens/History/Rotations.antt =====
-- The chains of the table of refresh tokens, under every call of the service.
use entra_emulator.Prelude.{
  ℕ, code, String, ◌≡◌, refl, sym, ap, ◌∙◌, ◌≢◌, ◌⊎◌, inl, inr, false, some, List, [], ◌∷◌, ◌++◌,
  arith, ◌==◌, eq_iff, if◌then◌else◌, Bool-cases, Option-cases, In, select_first, update, exists,
  select_first-holds, select_first-In, In-update, update-In,
}
use entra_emulator.Store.Types.{
  AuthCode, RefreshToken, Store, Result-cases, not_found, conflict, constraint,
}
use entra_emulator.Store.Codes.{insert_auth_code, consume_auth_code, get_auth_code}
use entra_emulator.Store.Refresh.{
  has_hash, is_live, revoke, descends_from, get_refresh_token_by_hash, insert_refresh_token,
  rotate_refresh_token, revoke_refresh_tokens_for_auth_code,
}
use entra_emulator.Store.Family.{family, revoke_all, revoke_refresh_token_family}
use entra_emulator.Store.Family.Links.{select_first-Unique}
use entra_emulator.Tokens.Types.{Config, Crypto}
use entra_emulator.Tokens.Codes.{AuthCodeRequest, issue_auth_code, redeem_row, redeem_auth_code}
use entra_emulator.Tokens.Rotation.{
  new_token, RefreshRequest, successor_of, issue_refresh_token, redeem_refresh_row,
  redeem_refresh_token,
}
use entra_emulator.Tokens.History.{
  Step, issues_code, redeems_code, issues_refresh, redeems_refresh, Steps, done, more,
}
use entra_emulator.Tokens.History.Chains.{
  Inherits, Parent, IsChained, update-IsChained, append-IsChained,
}

insert_cases :
    (n : RefreshToken) (s : Store)
    → let t = (insert_refresh_token n s).1 in
      (t.refresh_tokens ≡ s.refresh_tokens)
      ⊎ ((exists (has_hash n.token_hash) s.refresh_tokens ≡ false)
          × (t.refresh_tokens ≡ s.refresh_tokens ++ record n { revoked = false } ∷ []))
unfolding insert_refresh_token
insert_cases n s = ground arith

rotate_cases :
    (hash : String) (n : RefreshToken) (s : Store)
    → let t = (rotate_refresh_token hash n s).1 in
      let rows = update (is_live hash) revoke s.refresh_tokens in
      (t.refresh_tokens ≡ s.refresh_tokens)
      ⊎ ((exists (has_hash n.token_hash) rows ≡ false)
          × (t.refresh_tokens ≡ rows ++ record n { rotated_from = hash; revoked = false } ∷ []))
unfolding rotate_refresh_token insert_refresh_token
rotate_cases hash n s = ground arith

module _ (rows : List RefreshToken) (h : IsChained rows) (hash : String) (row : RefreshToken)
    (found : select_first (has_hash hash) rows ≡ some row) (live : row.revoked ≡ false) where
  -- No token was rotated from a live one.
  childless : (t : RefreshToken) → In t rows → hash ≢ "" → t.rotated_from ≢ hash
  childless t i full e =
      let p = h.lineage t i (λ z. full (sym e ∙ z)) in
      let first = select_first-Unique p.row rows h.unique p.listed in
      let same : some p.row ≡ some row =
        sym first ∙ (ap (λ k. select_first (has_hash k) rows) (p.token ∙ e) ∙ found) in
      ground (arith, p.used)

  successor-Parent :
      (n : RefreshToken)
      → Inherits n row
      → Parent
          (update (is_live hash) revoke rows)
          (record n { rotated_from = hash; revoked = false })
  successor-Parent n same = record {
    row = if is_live hash row then revoke row else row;
    listed =
        update-In (is_live hash) revoke rows row (select_first-In (has_hash hash) rows row found);
    token =
        ground
          (arith, eq_iff row.token_hash hash, select_first-holds (has_hash hash) rows row found);
    used = ground (arith, select_first-holds (has_hash hash) rows row found);
    inherits = ground arith;
  }

rotate-IsChained :
    (hash : String) (n row : RefreshToken) (s : Store)
    → IsChained s.refresh_tokens
    → select_first (has_hash hash) s.refresh_tokens ≡ some row
    → row.revoked ≡ false
    → Inherits n row
    → IsChained (rotate_refresh_token hash n s).1.refresh_tokens
rotate-IsChained hash n row s h found live same = elim (rotate_cases hash n s) [
  | inl e ↦ rw e h
  | inr (new, e) ↦ rw e (
      append-IsChained _ (record n { rotated_from = hash; revoked = false })
        (update-IsChained (is_live hash) s.refresh_tokens h) new
        (λ full. successor-Parent s.refresh_tokens h hash row found live n same)
        (λ t i full z.
          let (r, j, e') = In-update (is_live hash) revoke s.refresh_tokens t i in
          childless s.refresh_tokens h hash row found live r j full (ground arith)))
]

insert-IsChained :
    (n : RefreshToken) (s : Store)
    → n.rotated_from ≡ ""
    → IsChained s.refresh_tokens
    → IsChained (insert_refresh_token n s).1.refresh_tokens
insert-IsChained n s own h = elim (insert_cases n s) [
  | inl e ↦ rw e h
  | inr (new, e) ↦ rw e (
      append-IsChained s.refresh_tokens (record n { revoked = false }) h new
        (λ full. absurd (full own)) (λ t i full. absurd (full own)))
]

revoke_all-IsChained :
    (seen : List String) (rows : List RefreshToken)
    → IsChained rows
    → IsChained (revoke_all seen rows)
unfolding revoke_all
revoke_all-IsChained [] rows h = h
revoke_all-IsChained (k ∷ seen) rows h =
    revoke_all-IsChained seen _ (update-IsChained (has_hash k) rows h)

family-IsChained :
    (hash : String) (s : Store)
    → IsChained s.refresh_tokens
    → IsChained (revoke_refresh_token_family hash s).refresh_tokens
unfolding revoke_refresh_token_family
family-IsChained hash s h = elim (Option-cases (family hash s.refresh_tokens)) [
  | inl e ↦ rw (e, revoke_refresh_token_family) h
  | inr (seen, e) ↦
      rw (e, revoke_refresh_token_family) (revoke_all-IsChained seen s.refresh_tokens h)
]

code-IsChained :
    (code : String) (s : Store)
    → IsChained s.refresh_tokens
    → IsChained (revoke_refresh_tokens_for_auth_code code s).1.refresh_tokens
unfolding revoke_refresh_tokens_for_auth_code
code-IsChained code s h = elim (Bool-cases (code == "")) [
  | inl e ↦ rw e h
  | inr e ↦ rw e (update-IsChained (descends_from code) s.refresh_tokens h)
]

-- Where a redemption of a refresh token may leave the store.
row_cases :
    (c : Crypto) (cfg : Config) (now : ℕ) (hash app_id successor : String) (requested : List String)
    (row : RefreshToken) (s : Store)
    → let t = (redeem_refresh_row c cfg now hash app_id successor requested row s).1 in
      let u = (rotate_refresh_token hash (successor_of c cfg now app_id successor row) s).1 in
      (t ≡ s)
      ⊎ (t ≡ revoke_refresh_token_family hash s)
      ⊎ ((row.revoked ≡ false)
          × (row.app_id ≡ app_id)
          × ((t ≡ u) ⊎ (t ≡ revoke_refresh_token_family hash u)))
unfolding redeem_refresh_row
row_cases c cfg now hash app_id successor requested row s = ground (arith, eq_iff row.app_id app_id)

redeem_refresh_row-IsChained :
    (c : Crypto) (cfg : Config) (now : ℕ) (hash app_id successor : String) (requested : List String)
    (row : RefreshToken) (s : Store)
    → IsChained s.refresh_tokens
    → select_first (has_hash hash) s.refresh_tokens ≡ some row
    → IsChained
        (redeem_refresh_row c cfg now hash app_id successor requested row s).1.refresh_tokens
redeem_refresh_row-IsChained c cfg now hash app_id successor requested row s h found =
    elim (row_cases c cfg now hash app_id successor requested row s) [
      | inl e ↦ rw e h
      | inr (inl e) ↦ rw e (family-IsChained hash s h)
      | inr (inr (live, same, inl e)) ↦ rw e (rotated live same)
      | inr (inr (live, same, inr e)) ↦ rw e (family-IsChained hash _ (rotated live same))
    ]
  where
    rotated :
        row.revoked ≡ false
        → row.app_id ≡ app_id
        → IsChained
            (rotate_refresh_token hash
              (successor_of c cfg now app_id successor row)
              s).1.refresh_tokens
    rotated live same =
        rotate-IsChained hash (successor_of c cfg now app_id successor row) row s h found live
          (sym same, refl, refl, refl, refl, refl, refl)

redeem_refresh-IsChained :
    (c : Crypto) (cfg : Config) (now : ℕ) (plaintext app_id successor : String)
    (requested : List String) (s : Store)
    → IsChained s.refresh_tokens
    → IsChained
        (redeem_refresh_token c cfg now plaintext app_id successor requested s).1.refresh_tokens
unfolding redeem_refresh_token get_refresh_token_by_hash
redeem_refresh-IsChained c cfg now plaintext app_id successor requested s h =
    elim (Option-cases (select_first (has_hash (c.hash_token plaintext)) s.refresh_tokens)) [
      | inl e ↦ rw (e, redeem_refresh_token, get_refresh_token_by_hash) h
      | inr (row, e) ↦
          rw (e, redeem_refresh_token, get_refresh_token_by_hash)
            (redeem_refresh_row-IsChained c cfg now (c.hash_token plaintext) app_id successor
              requested row s h e)
    ]

redeem_row_tokens :
    (c : Crypto) (now : ℕ) (code app_id redirect_uri verifier : String) (row : AuthCode) (s : Store)
    → let t = (redeem_row c now code app_id redirect_uri verifier row s).1 in
      (t.refresh_tokens ≡ s.refresh_tokens) ⊎ (t ≡ (revoke_refresh_tokens_for_auth_code code s).1)
unfolding redeem_row consume_auth_code
redeem_row_tokens c now code app_id redirect_uri verifier row s = ground arith

redeem-IsChained :
    (c : Crypto) (now : ℕ) (code app_id redirect_uri verifier : String) (s : Store)
    → IsChained s.refresh_tokens
    → IsChained (redeem_auth_code c now code app_id redirect_uri verifier s).1.refresh_tokens
unfolding redeem_auth_code
redeem-IsChained c now code app_id redirect_uri verifier s h =
    elim (Result-cases (get_auth_code s code)) [
      | inl (row, e) ↦
          rw (e, redeem_auth_code)
            (elim (redeem_row_tokens c now code app_id redirect_uri verifier row s) [
              | inl same ↦ rw same h
              | inr moved ↦ rw moved (code-IsChained code s h)
            ])
      | inr (conflict, e) ↦ rw (e, redeem_auth_code) h
      | inr (constraint, e) ↦ rw (e, redeem_auth_code) h
      | inr (not_found, e) ↦ rw (e, redeem_auth_code) h
    ]

issue_code-tokens :
    (cfg : Config) (now : ℕ) (code : String) (r : AuthCodeRequest) (s : Store)
    → (issue_auth_code cfg now code r s).1.refresh_tokens ≡ s.refresh_tokens
unfolding issue_auth_code insert_auth_code
issue_code-tokens cfg now code r s = ground arith

issue_refresh-store :
    (c : Crypto) (sec now : ℕ) (plain : String) (r : RefreshRequest) (s : Store)
    → (issue_refresh_token c sec now plain r s).1
      ≡ (insert_refresh_token (new_token c sec now plain r) s).1
unfolding issue_refresh_token
issue_refresh-store c sec now plain r s = ground arith

-- Every call of the service keeps the refresh tokens in chains: hashes are distinct, a rotated
-- token's row is in the table, revoked, and hands its client, user, scopes, resource, sign-in and
-- authorization code on to its successor, and no token has two successors.
pub Step-IsChained :
    {c : Crypto} {cfg : Config} {s t : Store}
    → Step c cfg s t
    → IsChained s.refresh_tokens
    → IsChained t.refresh_tokens
Step-IsChained {c} {cfg} (issues_code s now code r) h = rw (issue_code-tokens cfg now code r s) h
Step-IsChained {c} {cfg} (redeems_code s now code app_id uri verifier) h =
    redeem-IsChained c now code app_id uri verifier s h
Step-IsChained {c} {cfg} (issues_refresh s sec now plain r own) h =
    rw (issue_refresh-store c sec now plain r s)
      (insert-IsChained (new_token c sec now plain r) s own h)
Step-IsChained {c} {cfg} (redeems_refresh s now plain app_id next requested) h =
    redeem_refresh-IsChained c cfg now plain app_id next requested s h

pub Steps-IsChained :
    {c : Crypto} {cfg : Config} {s t : Store}
    → IsChained s.refresh_tokens
    → Steps c cfg s t
    → IsChained t.refresh_tokens
Steps-IsChained h done = h
Steps-IsChained h (more steps step) = Step-IsChained step (Steps-IsChained h steps)
