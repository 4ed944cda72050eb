-- ===== src/Tokens/Validation/Accepts.antt =====
-- Which access tokens are accepted.
use entra_emulator.Prelude.{
  ℕ, ◌+◌, ◌≤◌, String, ◌≡◌, refl, ap, ◌∙◌, ◌≢◌, ◌↔◌, inl, inr, true, Option, none, some, List,
  arith, eq_iff, Option-cases, contains,
}
use entra_emulator.Tokens.Types.{Config}
use entra_emulator.Tokens.Validation.{
  Claims, ValidatedToken, clock_skew_seconds, issuer_for_tenant, validated, validate_claims,
  validate_access_token,
}

-- The issuer is the one of the token's own tenant, the audience is accepted, and the time is within
-- the token's, with the skew allowed on both sides.
pub record IsValid (cfg : Config) (now : ℕ) (audiences : List String) (c : Claims) : Type 0 where
  pub tenant : c.tid ≢ ""
  pub issuer : c.iss ≡ issuer_for_tenant cfg c.tid
  pub expiry : (exp : ℕ) × (c.exp ≡ some exp) × (now ≤ exp + clock_skew_seconds)
  pub begun : (nbf : ℕ) → c.nbf ≡ some nbf → nbf ≤ now + clock_skew_seconds
  pub audience : contains audiences c.aud ≡ true

validate_claims_sound :
    (cfg : Config) (now : ℕ) (audiences : List String) (c : Claims) (v : ValidatedToken)
    → validate_claims cfg now audiences c ≡ some v
    → IsValid cfg now audiences c × (validated c ≡ v)
unfolding validate_claims
validate_claims_sound cfg now audiences c v e = elim (Option-cases c.exp) [
  | inl missing ↦ ground arith
  | inr (exp, has) ↦ (
    record {
      tenant = λ z. ground (arith, eq_iff c.tid "");
      issuer = (eq_iff c.iss (issuer_for_tenant cfg c.tid)).0 (ground arith);
      expiry = (exp, has, ground arith);
      begun = λ nbf h. ground arith;
      audience = ground arith;
    },
    ground arith,
  )
]

validate_claims_complete :
    (cfg : Config) (now : ℕ) (audiences : List String) (c : Claims)
    → IsValid cfg now audiences c
    → validate_claims cfg now audiences c ≡ some (validated c)
unfolding validate_claims
validate_claims_complete cfg now audiences c h =
    let (exp, has, late) = h.expiry in
    let named = eq_iff c.tid "" in
    let issued = (eq_iff c.iss (issuer_for_tenant cfg c.tid)).1 h.issuer in
    elim (Option-cases c.nbf) [
      | inl missing ↦ ground (arith, named, h.tenant, h.audience)
      | inr (nbf, from) ↦ ground (arith, named, h.tenant, h.audience, h.begun nbf from)
    ]

-- The validation accepts exactly the tokens whose claims were verified, name a tenant and its
-- issuer, have an expiry that is not past, are not from the future (both within the clock skew),
-- and name an accepted audience; it returns the claims' object, subject and scopes.
pub validate_access_token_iff :
    (cfg : Config) (now : ℕ) (verified : Option Claims) (audiences : List String)
    (v : ValidatedToken)
    → (validate_access_token cfg now verified audiences ≡ some v)
      ↔ ((c : Claims) × (verified ≡ some c) × IsValid cfg now audiences c × (validated c ≡ v))
unfolding validate_access_token
validate_access_token_iff cfg now none audiences v =
    (λ e. ground arith, λ (c, e, h, same). ground arith)
validate_access_token_iff cfg now (some c) audiences v = (
  λ e. let (valid, same) = validate_claims_sound cfg now audiences c v e in (c, refl, valid, same),
  λ (d, e, h, same).
      let k : c ≡ d = ground arith in
      ap (validate_claims cfg now audiences) k
      ∙ (validate_claims_complete cfg now audiences d h ∙ ap some same),
)
