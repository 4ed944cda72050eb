-- ===== src/Tokens/Rotation/Outcome.antt =====
-- What a successful redemption of a refresh token has checked, returned and written.
use entra_emulator.Prelude.{
  ℕ, ◌+◌, ◌<◌, String, ◌≡◌, refl, sym, ap, subst, ◌∙◌, ◌≢◌, ◌↔◌, ◌⊎◌, inl, inr, Bool, true, false,
  ◌&&◌, none, some, List, [], ◌∷◌, ◌++◌, arith, eq_iff, eq_refl, if◌then◌else◌, Bool-cases, All,
  contains, select_first, update, exists, select_first-holds, exists-update, count_one,
  select_first-update, select_first-append, select_first-append_new,
}
use entra_emulator.Text.{fields}
use entra_emulator.Store.Types.{RefreshToken, Store, Result-cases, ok}
use entra_emulator.Store.Directory.{app_exists, user_exists, row_of_get}
use entra_emulator.Store.Refresh.{
  has_hash, is_live, revoke, get_refresh_token_by_hash, insert_refresh_token, rotate_refresh_token,
}
use entra_emulator.Store.Family.Links.{Unique}
use entra_emulator.Tokens.Types.{Config, Crypto}
use entra_emulator.Tokens.Rotation.{
  first_missing, narrow, successor_of, RedeemedRefresh, hand_out, redeem_refresh_row,
  redeem_refresh_token,
}

first_missing_iff :
    (granted scs : List String)
    → (first_missing granted scs ≡ none) ↔ All (λ (sc : String). contains granted sc ≡ true) scs
unfolding first_missing
first_missing_iff granted [] = (λ e. tt, λ a. refl)
first_missing_iff granted (sc ∷ scs) =
    let (to, from) = first_missing_iff granted scs in
    elim (Bool-cases (contains granted sc)) [
      | inl e ↦ (λ h. (e, to (rw (e, first_missing) at h)), λ (k, a). rw e (from a))
      | inr e ↦ (λ h. ground arith, λ (k, a). ground arith)
    ]

-- What a presented refresh token has to satisfy: OAuth 2.0 section 6, and rotation.
pub record MayRotate (now : ℕ) (app_id : String) (requested : List String) (row : RefreshToken)
    : Type 0 where
  pub live : row.revoked ≡ false
  pub client : row.app_id ≡ app_id
  pub in_time : now < row.expires_at
  pub subset : All (λ (sc : String). contains (fields row.scopes) sc ≡ true) requested

module _ (c : Crypto) (cfg : Config) (now : ℕ) (hash app_id successor : String)
    (requested : List String) (row : RefreshToken) (s : Store) where
  abbrev next_row : RefreshToken
  next_row = successor_of c cfg now app_id successor row

  row_sound :
      (out : RedeemedRefresh)
      → (redeem_refresh_row c cfg now hash app_id successor requested row s).0 ≡ ok out
      → MayRotate now app_id requested row
        × (out ≡ hand_out row (narrow (fields row.scopes) requested) successor)
        × ((redeem_refresh_row c cfg now hash app_id successor requested row s).1
            ≡ (rotate_refresh_token hash next_row s).1)
        × ((rotate_refresh_token hash next_row s).0 ≡ ok true)
  unfolding redeem_refresh_row
  row_sound out e = (
    record {
      live = ground arith;
      client = ground (arith, eq_iff row.app_id app_id);
      in_time = ground arith;
      subset = (first_missing_iff (fields row.scopes) requested).0 (ground arith);
    },
    ground arith,
    ground arith,
    ground arith,
  )

  row_complete :
      MayRotate now app_id requested row
      → (rotate_refresh_token hash next_row s).0 ≡ ok true
      → (redeem_refresh_row c cfg now hash app_id successor requested row s).0
        ≡ ok (hand_out row (narrow (fields row.scopes) requested) successor)
  unfolding redeem_refresh_row
  row_complete m e = ground (
    arith,
    eq_iff row.app_id app_id,
    (first_missing_iff (fields row.scopes) requested).1 m.subset,
  )

-- A rotation wins on a live row with this primary key, if the successor's hash is new and its
-- client and user are still there.
rotate_wins :
    (hash : String) (n row : RefreshToken) (s : Store)
    → Unique s.refresh_tokens
    → select_first (has_hash hash) s.refresh_tokens ≡ some row
    → row.revoked ≡ false
    → exists (has_hash n.token_hash) (update (is_live hash) revoke s.refresh_tokens) ≡ false
    → (app_exists s n.app_id && user_exists s n.user_id) ≡ true
    → (rotate_refresh_token hash n s).0 ≡ ok true
unfolding rotate_refresh_token insert_refresh_token app_exists user_exists
rotate_wins hash n row s u found live new keys = ground (
  arith,
  count_one (λ (t : RefreshToken). t.token_hash) (has_hash hash) (is_live hash) hash
      s.refresh_tokens row u (λ t h. (eq_iff t.token_hash hash).0 h) (λ t h. ground arith) found
      (ground (arith, select_first-holds (has_hash hash) s.refresh_tokens row found)),
)

rotate_store :
    (hash : String) (n : RefreshToken) (s : Store)
    → (rotate_refresh_token hash n s).0 ≡ ok true
    → let rows = update (is_live hash) revoke s.refresh_tokens in
      (exists (has_hash n.token_hash) rows ≡ false)
      × ((rotate_refresh_token hash n s).1.refresh_tokens
          ≡ rows ++ record n { rotated_from = hash; revoked = false } ∷ [])
unfolding rotate_refresh_token insert_refresh_token
rotate_store hash n s e = (ground arith, ground arith)

-- The rows that a rotation of `row` leaves under the presented hash and under the successor's.
rotated_rows :
    (hash : String) (n row : RefreshToken) (s t : Store)
    → select_first (has_hash hash) s.refresh_tokens ≡ some row
    → row.revoked ≡ false
    → exists (has_hash n.token_hash) (update (is_live hash) revoke s.refresh_tokens) ≡ false
    → t.refresh_tokens ≡ update (is_live hash) revoke s.refresh_tokens ++ n ∷ []
    → (get_refresh_token_by_hash t hash ≡ ok (revoke row))
      × (get_refresh_token_by_hash t n.token_hash ≡ ok n)
unfolding get_refresh_token_by_hash
rotated_rows hash n row s t found live new e =
    let rows = update (is_live hash) revoke s.refresh_tokens in
    let holds = select_first-holds (has_hash hash) s.refresh_tokens row found in
    let moved : select_first (has_hash hash) rows ≡ some (revoke row) = ground (
      arith,
      select_first-update (has_hash hash) (is_live hash) revoke (λ r. refl) s.refresh_tokens,
      found,
      holds,
      live,
    ) in
    (
      rw (e, select_first-append (has_hash hash) rows n (revoke row) moved) refl,
      rw (e, select_first-append_new (has_hash n.token_hash) rows n new (eq_refl n.token_hash))
          refl,
    )

-- What a redemption of the token with this hash has done, where its row was `row` and the store
-- is now `t`.
pub record IsRotated (c : Crypto) (cfg : Config) (now : ℕ) (hash app_id successor : String)
    (requested : List String) (row : RefreshToken) (out : RedeemedRefresh) (t : Store)
    : Type 0 where
  pub allowed : MayRotate now app_id requested row
  pub user : out.user_id ≡ row.user_id
  pub resource : out.resource ≡ row.resource
  pub sign_in : (out.amr ≡ row.amr) × (out.auth_time ≡ row.auth_time)
  pub scopes :
      ((requested ≡ []) × (out.scopes ≡ fields row.scopes))
      ⊎ ((requested ≢ []) × (out.scopes ≡ requested))
  pub handed :
      ((contains out.scopes "offline_access" ≡ true) × (out.new_refresh_token ≡ successor))
      ⊎ ((contains out.scopes "offline_access" ≡ false) × (out.new_refresh_token ≡ ""))
  pub spent : get_refresh_token_by_hash t hash ≡ ok (revoke row)
  pub stored :
      get_refresh_token_by_hash t (c.hash_token successor)
      ≡ ok record {
        token_hash = c.hash_token successor;
        app_id = app_id;
        user_id = row.user_id;
        scopes = row.scopes;
        resource = row.resource;
        amr = row.amr;
        auth_time = row.auth_time;
        auth_code = row.auth_code;
        expires_at = now + cfg.lifetimes.refresh_token;
        rotated_from = hash;
        revoked = false;
        created_at = now;
      }

scopes_lem :
    (granted requested : List String)
    → ((requested ≡ []) × (narrow granted requested ≡ granted))
      ⊎ ((requested ≢ []) × (narrow granted requested ≡ requested))
scopes_lem granted [] = inl (refl, refl)
scopes_lem granted (sc ∷ scs) = inr (λ z. ground arith, refl)

handed_lem :
    (b : Bool) (plain : String)
    → ((b ≡ true) × ((if b then plain else "") ≡ plain))
      ⊎ ((b ≡ false) × ((if b then plain else "") ≡ ""))
handed_lem true plain = inl (refl, refl)
handed_lem false plain = inr (refl, refl)

row_IsRotated :
    (c : Crypto) (cfg : Config) (now : ℕ) (hash app_id successor : String) (requested : List String)
    (row : RefreshToken) (s : Store) (out : RedeemedRefresh)
    → get_refresh_token_by_hash s hash ≡ ok row
    → (redeem_refresh_row c cfg now hash app_id successor requested row s).0 ≡ ok out
    → IsRotated c cfg now hash app_id successor requested row out
        (redeem_refresh_row c cfg now hash app_id successor requested row s).1
unfolding get_refresh_token_by_hash
row_IsRotated c cfg now hash app_id successor requested row s out found e =
    let (m, answer, moved, won) = row_sound c cfg now hash app_id successor requested row s out e in
    let n = successor_of c cfg now app_id successor row in
    let (new, after) = rotate_store hash n s won in
    let t = (redeem_refresh_row c cfg now hash app_id successor requested row s).1 in
    let (spent, stored) =
      rotated_rows hash (record n { rotated_from = hash }) row s t (row_of_get _ row found) m.live
        new (ap (λ (t : Store). t.refresh_tokens) moved ∙ after) in
    let rotated : IsRotated c cfg now hash app_id successor requested row
        (hand_out row (narrow (fields row.scopes) requested) successor) t =
      record {
        allowed = m;
        user = refl;
        resource = refl;
        sign_in = (refl, refl);
        scopes = scopes_lem (fields row.scopes) requested;
        handed =
            handed_lem (contains (narrow (fields row.scopes) requested) "offline_access") successor;
        spent = spent;
        stored = stored;
      } in
    subst (λ x. IsRotated c cfg now hash app_id successor requested row x t) (sym answer) rotated

-- A successful redemption found the presented token live, unexpired, of this client and with every
-- requested scope in its grant; it answers with the row's user, resource and sign-in and with the
-- requested scopes (the whole grant where none are requested), and it hands out the successor if
-- these hold offline_access and no token if they do not; it leaves
-- the presented token revoked and the successor stored, live, as rotated from it and with the
-- original grant, its user, resource and sign-in, for a new lifetime.
pub redeem_refresh_token_sound :
    (c : Crypto) (cfg : Config) (now : ℕ) (plaintext app_id successor : String)
    (requested : List String) (s : Store) (out : RedeemedRefresh)
    → (redeem_refresh_token c cfg now plaintext app_id successor requested s).0 ≡ ok out
    → (row : RefreshToken) × (get_refresh_token_by_hash s (c.hash_token plaintext) ≡ ok row)
      × IsRotated c cfg now
          (c.hash_token plaintext)
          app_id
          successor
          requested
          row
          out
          (redeem_refresh_token c cfg now plaintext app_id successor requested s).1
unfolding redeem_refresh_token
redeem_refresh_token_sound c cfg now plaintext app_id successor requested s out e =
    elim (Result-cases (get_refresh_token_by_hash s (c.hash_token plaintext))) [
      | inl (row, found) ↦ (
        row,
        found,
        rw (found, redeem_refresh_token)
            (row_IsRotated c cfg now (c.hash_token plaintext) app_id successor requested row s out
              found (rw (found, redeem_refresh_token) at e)),
      )
      | inr (x, failed) ↦ ground arith
    ]

-- A live, unexpired token that is presented by its client for scopes of its grant is redeemed, and
-- the successor is handed out where the scopes hold offline_access. The table's hashes are
-- distinct, the successor's is new, and the client and the user are still in the directory.
pub redeem_refresh_token_complete :
    (c : Crypto) (cfg : Config) (now : ℕ) (plaintext app_id successor : String)
    (requested : List String) (s : Store) (row : RefreshToken)
    → Unique s.refresh_tokens
    → get_refresh_token_by_hash s (c.hash_token plaintext) ≡ ok row
    → MayRotate now app_id requested row
    → exists (has_hash (c.hash_token successor)) s.refresh_tokens ≡ false
    → (app_exists s app_id && user_exists s row.user_id) ≡ true
    → (redeem_refresh_token c cfg now plaintext app_id successor requested s).0
      ≡ ok (hand_out row (narrow (fields row.scopes) requested) successor)
unfolding redeem_refresh_token get_refresh_token_by_hash
redeem_refresh_token_complete c cfg now plaintext app_id successor requested s row u found m new
      keys =
    rw (found, redeem_refresh_token)
      (row_complete c cfg now (c.hash_token plaintext) app_id successor requested row s m (
        rotate_wins (c.hash_token plaintext) (successor_of c cfg now app_id successor row) row s u
          (row_of_get _ row found) m.live
          (exists-update (has_hash (c.hash_token successor)) (is_live (c.hash_token plaintext))
              revoke (λ r. refl) s.refresh_tokens
            ∙ new)
          keys))
