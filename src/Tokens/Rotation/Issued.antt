-- ===== src/Tokens/Rotation/Issued.antt =====
-- A refresh token from its issue to its redemption.
use entra_emulator.Text.{fields, join}
use entra_emulator.Text.Fields.{fields-join, IsWord}
use entra_emulator.Store.Types.{RefreshToken, Result, Store, StoreError, err, ok}
use entra_emulator.Store.Directory.{app_exists, row_or_not_found, user_exists}
use entra_emulator.Store.Refresh.{get_refresh_token_by_hash, has_hash, insert_refresh_token}
use entra_emulator.Store.Family.Links.{Unique}
use entra_emulator.Tokens.Types.{Config, Crypto, continue}
use entra_emulator.Tokens.Rotation.{
  RefreshRequest, hand_out, issue_refresh_token, narrow, new_token, redeem_refresh_token,
}
use entra_emulator.Tokens.Rotation.Outcome.{MayRotate, redeem_refresh_token_complete}
use entra_emulator.Prelude.{
  ℕ, ◌+◌, ◌<◌, String, ◌≡◌, refl, sym, ap, subst, ◌∙◌, ◌≢◌, ◌⊎◌, inl, inr, true, false, ◌&&◌, some,
  List, [], ◌∷◌, arith, eq_refl, if◌then◌else◌, Bool-cases, All, contains, exists, Distinct-append,
  select_first-append_new,
}

-- What an insertion that succeeds leaves.
inserted :
    (n : RefreshToken) (s : Store)
    → (insert_refresh_token n s).0 ≡ ok tt
    → n.revoked ≡ false
    → Unique s.refresh_tokens
    → let t = (insert_refresh_token n s).1 in
      (get_refresh_token_by_hash t n.token_hash ≡ ok n)
      × Unique t.refresh_tokens
      × ((app_exists t n.app_id && user_exists t n.user_id) ≡ true)
unfolding insert_refresh_token get_refresh_token_by_hash app_exists user_exists
inserted n s e fresh u = elim (Bool-cases (exists (has_hash n.token_hash) s.refresh_tokens)) [
  | inl there ↦ absurd (refused (rw there at e))
  | inr new ↦ elim (Bool-cases (app_exists s n.app_id && user_exists s n.user_id)) [
    | inr gone ↦ absurd (refused (rw (new, gone) at e))
    | inl keys ↦
        rw (new, keys)
          (
            ap row_or_not_found (
                select_first-append_new (has_hash n.token_hash) s.refresh_tokens
                  (record n { revoked = false }) new (eq_refl n.token_hash)
                ∙ ap some (ap (λ b. record n { revoked = b }) (sym fresh))),
            Distinct-append (λ (r : RefreshToken). r.token_hash) s.refresh_tokens
                (record n { revoked = false }) u new,
            keys,
          )
  ]
]
  where
    refused : {x : StoreError} → ◌≡◌ {A = Result StoreError (Unit {0})} (err x) (ok tt) → ⊥
    refused z = ground arith

by_ok :
    (plain : String) (z : Result StoreError (Unit {0}) × Store)
    → (continue {E = StoreError} {B = String} (λ _ s. (ok plain, s)) z).0 ≡ ok plain
    → (z.0 ≡ ok tt) × ((continue {E = StoreError} {B = String} (λ _ s. (ok plain, s)) z).1 ≡ z.1)
by_ok plain (ok x, s) e = (refl, refl)
by_ok plain (err x, s) e = ground arith

issued :
    (c : Crypto) (refresh_sec now : ℕ) (plain : String) (r : RefreshRequest) (s : Store)
    → (issue_refresh_token c refresh_sec now plain r s).0 ≡ ok plain
    → ((insert_refresh_token (new_token c refresh_sec now plain r) s).0 ≡ ok tt)
      × ((issue_refresh_token c refresh_sec now plain r s).1
          ≡ (insert_refresh_token (new_token c refresh_sec now plain r) s).1)
unfolding issue_refresh_token
issued c refresh_sec now plain r s e =
    by_ok plain (insert_refresh_token (new_token c refresh_sec now plain r) s) e

-- A refresh token that was issued is redeemed, before it expires, by the client that it was issued
-- to and for scopes of the request: the answer has the user, the resource and the sign-in of the
-- request and the scopes asked for (all of the request's where none are), and the successor if
-- these hold offline_access. The scopes are words, the hashes in the table are distinct, and the
-- successor's is new.
pub issue_refresh_token-redeem_refresh_token :
    (c : Crypto) (cfg : Config) (refresh_sec now later : ℕ) (plain successor : String)
    (requested scopes : List String) (r : RefreshRequest) (s : Store)
    → All IsWord r.scopes
    → Unique s.refresh_tokens
    → (issue_refresh_token c refresh_sec now plain r s).0 ≡ ok plain
    → later < now + refresh_sec
    → All (λ (sc : String). contains r.scopes sc ≡ true) requested
    → ((requested ≡ []) × (scopes ≡ r.scopes)) ⊎ ((requested ≢ []) × (scopes ≡ requested))
    → exists
        (has_hash (c.hash_token successor))
        (issue_refresh_token c refresh_sec now plain r s).1.refresh_tokens
      ≡ false
    → (redeem_refresh_token c cfg later plain r.app_id successor requested
        (issue_refresh_token c refresh_sec now plain r s).1).0
      ≡ ok record {
        user_id = r.user_id;
        resource = r.resource;
        scopes = scopes;
        new_refresh_token = if contains scopes "offline_access" then successor else "";
        amr = r.amr;
        auth_time = r.auth_time;
      }
issue_refresh_token-redeem_refresh_token c cfg refresh_sec now later plain successor requested
      scopes r s words u done in_time subset asked new =
    let row = new_token c refresh_sec now plain r in
    let t = (issue_refresh_token c refresh_sec now plain r s).1 in
    let (stored, same) = issued c refresh_sec now plain r s done in
    let (found, unique, keys) = inserted row s stored refl u in
    let read : fields row.scopes ≡ r.scopes = fields-join r.scopes words in
    let allowed : MayRotate later r.app_id requested row = record {
      live = refl;
      client = refl;
      in_time = in_time;
      subset = subst (λ g. All (λ (sc : String). contains g sc ≡ true) requested) (sym read) subset;
    } in
    let redeemed =
      redeem_refresh_token_complete c cfg later plain r.app_id successor requested t row
        (subst (λ (x : Store). Unique x.refresh_tokens) (sym same) unique)
        (subst (λ (x : Store). get_refresh_token_by_hash x row.token_hash ≡ ok row) (sym same)
          found)
        allowed new
        (subst (λ (x : Store). (app_exists x r.app_id && user_exists x r.user_id) ≡ true) (sym same)
          keys) in
    redeemed ∙ ap (λ scs. ok (hand_out row scs successor)) (narrowed requested asked read)
  where
    narrowed :
        (requested : List String)
        → ((requested ≡ []) × (scopes ≡ r.scopes)) ⊎ ((requested ≢ []) × (scopes ≡ requested))
        → fields (join r.scopes) ≡ r.scopes
        → narrow (fields (join r.scopes)) requested ≡ scopes
    narrowed [] (inl (e, k)) read = read ∙ sym k
    narrowed [] (inr (n, k)) read = absurd (n refl)
    narrowed (sc ∷ scs) (inl (e, k)) read = ground arith
    narrowed (sc ∷ scs) (inr (n, k)) read = sym k
