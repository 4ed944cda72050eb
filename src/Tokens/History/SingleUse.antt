-- ===== src/Tokens/History/SingleUse.antt =====
-- An authorization code between its exchange and a replay, over any calls of the service.
use entra_emulator.Prelude.{
  ℕ, code, String, ◌≡◌, refl, sym, subst, ◌≢◌, ◌⊎◌, inl, inr, true, false, List, [], ◌∷◌, arith,
  ◌==◌, eq_iff, Bool-cases, All, update, select_first-holds, select_first-update,
  select_first-append,
}
use entra_emulator.Store.Types.{AuthCode, RefreshToken, Store, Result, Result-cases, ok, err}
use entra_emulator.Store.Codes.{
  has_code, is_unconsumed, insert_auth_code, get_auth_code, consume_auth_code,
}
use entra_emulator.Store.Refresh.{descends_from, revoke, revoke_refresh_tokens_for_auth_code}
use entra_emulator.Tokens.Types.{Config, Crypto, RedeemError, invalid_grant}
use entra_emulator.Tokens.Codes.{
  AuthCodeRequest, issue_auth_code, redeem_row, redeem_auth_code, new_row,
}
use entra_emulator.Store.Directory.{row_of_get}
use entra_emulator.Tokens.History.Frames.{
  codes-redeem_refresh, codes-issue_refresh, codes-revoke_for_code,
}
use entra_emulator.Tokens.History.{
  Step, issues_code, redeems_code, issues_refresh, redeems_refresh, Steps, done, more,
}

-- The code is in the table and is consumed.
abbrev pub Spent : String → Store → Type 0
Spent code s = (row : AuthCode) × (get_auth_code s code ≡ ok row) × (row.consumed ≡ true)

Spent-of_same :
    (code : String) (s t : Store)
    → t.authorization_codes ≡ s.authorization_codes
    → Spent code s
    → Spent code t
unfolding get_auth_code
Spent-of_same code s t e (row, found, used) = (row, rw e found, used)

consume-Spent :
    (code other : String) (s : Store) → Spent code s → Spent code (consume_auth_code other s).1
unfolding get_auth_code consume_auth_code
consume-Spent code other s (row, found, used) = (
  row,
  rw
      (
        select_first-update (has_code code) (is_unconsumed other)
            (λ (r : AuthCode). record r { consumed = true }) (λ r. refl) s.authorization_codes,
        row_of_get _ row found,
      )
      (ground arith),
  used,
)

issue-Spent :
    (cfg : Config) (now : ℕ) (code other : String) (r : AuthCodeRequest) (s : Store)
    → Spent code s
    → Spent code (issue_auth_code cfg now other r s).1
unfolding issue_auth_code insert_auth_code get_auth_code
issue-Spent cfg now code other r s (row, found, used) = (
  row,
  ground (
    arith,
    select_first-append (has_code code) s.authorization_codes (new_row cfg now other r) row
        (row_of_get _ row found),
  ),
  used,
)

-- A redemption leaves the codes alone, or consumes its code.
redeem_row-codes :
    (c : Crypto) (now : ℕ) (code app_id redirect_uri verifier : String) (row : AuthCode) (s : Store)
    → let t = (redeem_row c now code app_id redirect_uri verifier row s).1 in
      (t.authorization_codes ≡ s.authorization_codes)
      ⊎ (t.authorization_codes ≡ (consume_auth_code code s).1.authorization_codes)
unfolding redeem_row
redeem_row-codes c now code app_id redirect_uri verifier row s =
    ground (arith, codes-revoke_for_code code s)

redeem-codes :
    (c : Crypto) (now : ℕ) (code app_id redirect_uri verifier : String) (s : Store)
    → let t = (redeem_auth_code c now code app_id redirect_uri verifier s).1 in
      (t.authorization_codes ≡ s.authorization_codes)
      ⊎ (t.authorization_codes ≡ (consume_auth_code code s).1.authorization_codes)
unfolding redeem_auth_code
redeem-codes c now code app_id redirect_uri verifier s =
    elim (Result-cases (get_auth_code s code)) [
      | inl (row, e) ↦
          rw (e, redeem_auth_code) (redeem_row-codes c now code app_id redirect_uri verifier row s)
      | inr (x, e) ↦ ground arith
    ]

redeem-Spent :
    (c : Crypto) (now : ℕ) (code other app_id redirect_uri verifier : String) (s : Store)
    → Spent code s
    → Spent code (redeem_auth_code c now other app_id redirect_uri verifier s).1
redeem-Spent c now code other app_id redirect_uri verifier s sp =
    elim (redeem-codes c now other app_id redirect_uri verifier s) [
      | inl e ↦ Spent-of_same code s _ e sp
      | inr e ↦ Spent-of_same code (consume_auth_code other s).1 _ e (consume-Spent code other s sp)
    ]

Step-Spent :
    {c : Crypto} {cfg : Config} {s t : Store} (code : String)
    → Step c cfg s t
    → Spent code s
    → Spent code t
Step-Spent {c} {cfg} code (issues_code s now other r) sp = issue-Spent cfg now code other r s sp
Step-Spent {c} {cfg} code (redeems_code s now other app_id uri verifier) sp =
    redeem-Spent c now code other app_id uri verifier s sp
Step-Spent {c} {cfg} code (issues_refresh s sec now plain r own) sp =
    Spent-of_same code s _ (codes-issue_refresh c sec now plain r s) sp
Step-Spent {c} {cfg} code (redeems_refresh s now plain app_id next requested) sp =
    Spent-of_same code s _ (codes-redeem_refresh c cfg now plain app_id next requested s) sp

Steps-Spent :
    {c : Crypto} {cfg : Config} {s t : Store} (code : String)
    → Spent code s
    → Steps c cfg s t
    → Spent code t
Steps-Spent code sp done = sp
Steps-Spent code sp (more steps step) = Step-Spent code step (Steps-Spent code sp steps)

consumes-Spent :
    (code : String) (s : Store) (row : AuthCode)
    → get_auth_code s code ≡ ok row
    → row.consumed ≡ false
    → Spent code (consume_auth_code code s).1
unfolding get_auth_code consume_auth_code
consumes-Spent code s row found fresh = (
  record row { consumed = true },
  rw
      (
        select_first-update (has_code code) (is_unconsumed code)
            (λ (r : AuthCode). record r { consumed = true }) (λ r. refl) s.authorization_codes,
        row_of_get _ row found,
      )
      (ground (
        arith,
        select_first-holds (has_code code) s.authorization_codes row (row_of_get _ row found),
      )),
  refl,
)

redeem_row_store :
    (c : Crypto) (now : ℕ) (code app_id redirect_uri verifier : String) (row row' : AuthCode)
    (s : Store)
    → (redeem_row c now code app_id redirect_uri verifier row s).0 ≡ ok row'
    → ((redeem_row c now code app_id redirect_uri verifier row s).1 ≡ (consume_auth_code code s).1)
      × (row.consumed ≡ false)
unfolding redeem_row
redeem_row_store c now code app_id redirect_uri verifier row row' s e = ground arith

exchange-Spent :
    (c : Crypto) (now : ℕ) (code app_id redirect_uri verifier : String) (s : Store) (row : AuthCode)
    → (redeem_auth_code c now code app_id redirect_uri verifier s).0 ≡ ok row
    → Spent code (redeem_auth_code c now code app_id redirect_uri verifier s).1
unfolding redeem_auth_code
exchange-Spent c now code app_id redirect_uri verifier s row e =
    elim (Result-cases (get_auth_code s code)) [
      | inl (r, found) ↦
          let (moved, fresh) =
            redeem_row_store c now code app_id redirect_uri verifier r row s
              (rw (found, redeem_auth_code) at e) in
          rw (found, redeem_auth_code)
            (subst (Spent code) (sym moved) (consumes-Spent code s r found fresh))
      | inr (x, failed) ↦ ground arith
    ]

-- What a replay answers and does.
abbrev pub IsDenied : String → Result RedeemError AuthCode × Store → Type 0
IsDenied code (r, t) =
    (r ≡ err (invalid_grant "AADSTS54005: The authorization code was already redeemed."))
    × All (λ (u : RefreshToken). u.auth_code ≡ code → u.revoked ≡ true) t.refresh_tokens

revoked_for_code :
    (code : String) (rows : List RefreshToken)
    → code ≢ ""
    → All
        (λ (u : RefreshToken). u.auth_code ≡ code → u.revoked ≡ true)
        (update (descends_from code) revoke rows)
unfolding update
revoked_for_code code [] full = tt
revoked_for_code code (t ∷ rows) full = (
  λ e. ground (arith, eq_iff t.auth_code code, eq_iff t.auth_code ""),
  revoked_for_code code rows full,
)

revokes_for_code :
    (code : String) (s : Store)
    → code ≢ ""
    → All
        (λ (u : RefreshToken). u.auth_code ≡ code → u.revoked ≡ true)
        (revoke_refresh_tokens_for_auth_code code s).1.refresh_tokens
unfolding revoke_refresh_tokens_for_auth_code
revokes_for_code code s full = elim (Bool-cases (code == "")) [
  | inl empty ↦ absurd (full ((eq_iff code "").0 empty))
  | inr e ↦ rw e (revoked_for_code code s.refresh_tokens full)
]

-- A replay at a spent code.
Spent-IsDenied :
    (c : Crypto) (now : ℕ) (code app_id redirect_uri verifier : String) (s : Store)
    → code ≢ ""
    → Spent code s
    → IsDenied code (redeem_auth_code c now code app_id redirect_uri verifier s)
unfolding redeem_auth_code redeem_row
Spent-IsDenied c now code app_id redirect_uri verifier s full (row, found, used) =
    rw (found, redeem_auth_code, used) (refl, revokes_for_code code s full)

-- A code that is not empty is good for one exchange: after a successful one and any further calls
-- of the service, every redemption of the code, by any client at any time, is refused as already
-- redeemed, and leaves every refresh token that is recorded with the code revoked.
pub redeem_auth_code_once :
    (c : Crypto) (cfg : Config) (now : ℕ) (code app_id redirect_uri verifier : String) (s t : Store)
    (row : AuthCode)
    → code ≢ ""
    → (redeem_auth_code c now code app_id redirect_uri verifier s).0 ≡ ok row
    → Steps c cfg (redeem_auth_code c now code app_id redirect_uri verifier s).1 t
    → (later : ℕ) (client uri proof : String)
    → IsDenied code (redeem_auth_code c later code client uri proof t)
redeem_auth_code_once c cfg now code app_id redirect_uri verifier s t row full e steps later client
      uri proof =
    Spent-IsDenied c later code client uri proof t full
      (Steps-Spent code (exchange-Spent c now code app_id redirect_uri verifier s row e) steps)
