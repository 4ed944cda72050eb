-- ===== src/Tokens/Codes/Redemption.antt =====
-- When a code is redeemed: RedeemAuthCode against the conditions of RFC 6749 and RFC 7636.
use entra_emulator.Prelude.{
  ℕ, ◌<◌, code, String, ◌≡◌, ap, subst, ◌∙◌, ◌≢◌, ◌↔◌, ◌⊎◌, inl, inr, true, false, arith, eq_iff,
  select_first-holds, Distinct, count_one,
}
use entra_emulator.Store.Types.{AuthCode, Store, ok, Result-cases}
use entra_emulator.Store.Directory.{row_of_get}
use entra_emulator.Store.Codes.{has_code, is_unconsumed, get_auth_code, consume_auth_code}
use entra_emulator.Tokens.Types.{Crypto}
use entra_emulator.Tokens.Codes.{verify_pkce, redeem_row, redeem_auth_code}

-- `code` is the primary key of authorization_codes.
abbrev pub UniqueCodes : Store → Type 0
UniqueCodes s = Distinct (λ (r : AuthCode). r.code) s.authorization_codes

-- What a redemption has to present: RFC 6749 4.1.3, and RFC 7636 4.6 if there is a challenge.
pub record MayRedeem (c : Crypto) (now : ℕ) (app_id redirect_uri verifier : String) (row : AuthCode)
    : Type 0 where
  pub fresh : row.consumed ≡ false
  pub in_time : now < row.expires_at
  pub client : row.app_id ≡ app_id
  pub redirect : row.redirect_uri ≡ redirect_uri
  pub proof :
      (row.code_challenge ≡ "")
      ⊎ ((verifier ≢ "")
          × (verify_pkce c row.code_challenge row.code_challenge_method verifier ≡ true))

consumed_true :
    (code : String) (s : Store) (row : AuthCode)
    → UniqueCodes s
    → get_auth_code s code ≡ ok row
    → row.consumed ≡ false
    → (consume_auth_code code s).0 ≡ true
unfolding get_auth_code consume_auth_code
consumed_true code s row u e fresh =
    let found = row_of_get _ row e in
    let one =
      count_one (λ (r : AuthCode). r.code) (has_code code) (is_unconsumed code) code
        s.authorization_codes row u (λ r h. (eq_iff r.code code).0 h) (λ r h. ground arith) found
        (ground (arith, select_first-holds (has_code code) s.authorization_codes row found)) in
    ground (arith, one)

redeem_row_sound :
    (c : Crypto) (now : ℕ) (code app_id redirect_uri verifier : String) (s : Store)
    (row row' : AuthCode)
    → (redeem_row c now code app_id redirect_uri verifier row s).0 ≡ ok row'
    → (row ≡ row') × MayRedeem c now app_id redirect_uri verifier row
unfolding redeem_row
redeem_row_sound c now code app_id redirect_uri verifier s row row' e = (
  ground arith,
  record {
    fresh = ground arith;
    in_time = ground arith;
    client = ground (arith, eq_iff row.app_id app_id);
    redirect = ground (arith, eq_iff row.redirect_uri redirect_uri);
    proof = ground (arith, eq_iff row.code_challenge "", eq_iff verifier "");
  },
)

redeem_row_complete :
    (c : Crypto) (now : ℕ) (code app_id redirect_uri verifier : String) (s : Store) (row : AuthCode)
    → MayRedeem c now app_id redirect_uri verifier row
    → (consume_auth_code code s).0 ≡ true
    → (redeem_row c now code app_id redirect_uri verifier row s).0 ≡ ok row
unfolding redeem_row
redeem_row_complete c now code app_id redirect_uri verifier s row m e = ground (
  arith,
  eq_iff row.app_id app_id,
  eq_iff row.redirect_uri redirect_uri,
  eq_iff row.code_challenge "",
  eq_iff verifier "",
)

-- A redemption succeeds exactly if the code is in the table, is not consumed, has not expired, was
-- issued to this client for this redirect URI, and its PKCE challenge, if it has one, is answered;
-- it then returns the row. The table's codes are distinct.
pub redeem_auth_code_iff :
    (c : Crypto) (now : ℕ) (code app_id redirect_uri verifier : String) (s : Store) (row : AuthCode)
    → UniqueCodes s
    → ((redeem_auth_code c now code app_id redirect_uri verifier s).0 ≡ ok row)
      ↔ ((get_auth_code s code ≡ ok row) × MayRedeem c now app_id redirect_uri verifier row)
unfolding redeem_auth_code
redeem_auth_code_iff c now code app_id redirect_uri verifier s row u = (
  λ e. elim (Result-cases (get_auth_code s code)) [
    | inl (r, found) ↦
        let (same, m) =
          redeem_row_sound c now code app_id redirect_uri verifier s r row
            (rw (found, redeem_auth_code) at e) in
        (found ∙ ap ok same, subst (MayRedeem c now app_id redirect_uri verifier) same m)
    | inr (x, failed) ↦ ground arith
  ],
  λ (found, m).
      rw (found, redeem_auth_code)
        (redeem_row_complete c now code app_id redirect_uri verifier s row m
          (consumed_true code s row u found m.fresh)),
)
