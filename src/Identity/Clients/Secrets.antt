-- ===== src/Identity/Clients/Secrets.antt =====
-- Which clients authenticate without an assertion.
use entra_emulator.Prelude.{
  ℕ, ◌<◌, String, ◌≡◌, refl, ap, subst, ◌∙◌, ◌≢◌, ◌↔◌, ◌⊎◌, inl, inr, Bool, true, false, not, ◌&&◌,
  Option, List, [], ◌∷◌, arith, ◌==◌, eq_iff, leb, eqb, if◌then◌else◌, Bool-cases, In, select,
  In-select, select-In,
}
use entra_emulator.Store.Types.{App, AppSecret, Store, Result-cases, ok}
use entra_emulator.Store.Directory.{get_app, matches_secret, verify_app_secret, list_secrets}
use entra_emulator.Tokens.Types.{Crypto}
use entra_emulator.Identity.Errors.{OauthError}
use entra_emulator.Identity.Clients.{
  ClientRequest, client_id_of, client_secret_of, check_secret, authenticate_client,
}

-- A stored secret of the application that has not expired and that the plaintext matches.
pub record HasSecret (c : Crypto) (s : Store) (now : ℕ) (app : App) (plain : String) : Type 0 where
  pub row : AppSecret
  pub listed : In row s.app_secrets
  pub owner : row.app_id ≡ app.id
  pub in_time : (row.expires_at ≡ 0) ⊎ (now < row.expires_at)
  pub matches : c.verify_secret plain row.secret_hash ≡ true

-- A confidential client presents one of its secrets, a public one none.
abbrev pub IsAuthentic : Crypto → Store → (now : ℕ) → App → String → Type 0
IsAuthentic c s now app secret =
    ((app.is_confidential ≡ true) × (secret ≢ "") × HasSecret c s now app secret)
    ⊎ ((app.is_confidential ≡ false) × (secret ≡ ""))

module _ (verify : String → String → Bool) (now : ℕ) (plain : String) where
  abbrev Fits : AppSecret → Type 0
  Fits sec = ((sec.expires_at ≡ 0) ⊎ (now < sec.expires_at)) × (verify plain sec.secret_hash ≡ true)

  Fits-cases :
      (sec : AppSecret) (rest : Bool)
      → (if not (eqb sec.expires_at 0) && leb sec.expires_at now
          then rest
          else if verify plain sec.secret_hash
          then true
          else rest)
        ≡ true
      → Fits sec ⊎ (rest ≡ true)
  Fits-cases sec rest h = ground arith

  matching_row :
      (secs : List AppSecret)
      → matches_secret verify now plain secs ≡ true
      → (sec : AppSecret) × In sec secs × Fits sec
  unfolding matches_secret
  matching_row [] h = ground arith
  matching_row (sec ∷ secs) h = elim (Fits-cases sec (matches_secret verify now plain secs) h) [
    | inl fits ↦ (sec, inl refl, fits)
    | inr rest ↦ let (r, i, f) = matching_row secs rest in (r, inr i, f)
  ]

  row_matches :
      (secs : List AppSecret) (sec : AppSecret)
      → In sec secs
      → Fits sec
      → matches_secret verify now plain secs ≡ true
  unfolding matches_secret
  row_matches [] sec i f = absurd i
  row_matches (x ∷ secs) sec (inl e) f = ground arith
  row_matches (x ∷ secs) sec (inr i) f = ground (arith, row_matches secs sec i f)

verify_app_secret_iff :
    (c : Crypto) (s : Store) (now : ℕ) (app : App) (plain : String)
    → (verify_app_secret c.verify_secret s now app.id plain ≡ true) ↔ HasSecret c s now app plain
unfolding verify_app_secret list_secrets
verify_app_secret_iff c s now app plain =
    let mine : AppSecret → Bool = λ sec. sec.app_id == app.id in
    (
      λ h.
          let (sec, i, (in_time, matched)) =
            matching_row c.verify_secret now plain (select mine s.app_secrets) h in
          let (listed, owner) = In-select mine s.app_secrets sec i in
          record {
            row = sec;
            listed = listed;
            owner = (eq_iff sec.app_id app.id).0 owner;
            in_time = in_time;
            matches = matched;
          },
      λ k.
          row_matches c.verify_secret now plain (select mine s.app_secrets) k.row
            (select-In mine s.app_secrets k.row k.listed ((eq_iff k.row.app_id app.id).1 k.owner))
            (k.in_time, k.matches),
    )

check_secret_iff :
    (c : Crypto) (s : Store) (now : ℕ) (app : App) (secret : String)
    → (check_secret c s now app secret ≡ ok app) ↔ IsAuthentic c s now app secret
unfolding check_secret
check_secret_iff c s now app secret =
    let (sound, complete) = verify_app_secret_iff c s now app secret in
    (
      λ h. elim (Bool-cases app.is_confidential) [
        | inl conf ↦ inl (
          conf,
          (λ z. ground (arith, eq_iff secret "")),
          sound (ground (arith, eq_iff secret "")),
        )
        | inr pub_ ↦ inr (pub_, ground (arith, eq_iff secret ""))
      ],
      λ a. elim a [
        | inl (conf, full, has) ↦ ground (arith, eq_iff secret "", complete has)
        | inr (pub_, none_sent) ↦ ground (arith, eq_iff secret "")
      ],
    )

check_secret-app :
    (c : Crypto) (s : Store) (now : ℕ) (app out : App) (secret : String)
    → check_secret c s now app secret ≡ ok out
    → app ≡ out
unfolding check_secret
check_secret-app c s now app out secret h = ground arith

-- Without an assertion a client authenticates exactly if its identifier is not empty and names an
-- application that is returned, and it presents an unexpired stored secret of that application, if
-- this is confidential, and no secret at all, if it is public.
pub authenticate_client_iff :
    (c : Crypto) (s : Store) (now : ℕ) (check_assertion : App → Option OauthError)
    (r : ClientRequest) (app : App)
    → r.assertion ≡ ""
    → (authenticate_client c s now check_assertion r ≡ ok app) ↔ (
        (client_id_of r ≢ "")
        × (get_app s (client_id_of r) ≡ ok app)
        × IsAuthentic c s now app (client_secret_of r))
unfolding authenticate_client
authenticate_client_iff c s now check_assertion r app bare =
    let no_assertion = (eq_iff r.assertion "").1 bare in
    (
      λ h. elim (Bool-cases (client_id_of r == "")) [
        | inl empty ↦ ground arith
        | inr full ↦ elim (Result-cases (get_app s (client_id_of r))) [
          | inr (x, missing) ↦ ground arith
          | inl (found, e) ↦
              let k : check_secret c s now found (client_secret_of r) ≡ ok app =
                ground (arith, no_assertion) in
              let same = check_secret-app c s now found app (client_secret_of r) k in
              (
                λ z. ground (arith, eq_iff (client_id_of r) ""),
                e ∙ ap ok same,
                (check_secret_iff c s now app (client_secret_of r)).0
                    (subst (λ a. check_secret c s now a (client_secret_of r) ≡ ok app) same k),
              )
        ]
      ],
      λ (full, found, a).
          let k = (check_secret_iff c s now app (client_secret_of r)).1 a in
          ground (arith, no_assertion, eq_iff (client_id_of r) "", found, k),
    )
