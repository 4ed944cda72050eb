-- ===== src/Tokens/History/Chains.antt =====
-- The shape of the table of refresh tokens.
use entra_emulator.Prelude.{
  ◌≡◌, refl, subst, ◌≢◌, ◌⊎◌, inl, inr, Bool, true, false, List, [], ◌∷◌, ◌++◌, arith,
  if◌then◌else◌, In, In-append_left, update, exists, In-update, update-In, In-append_single,
  Distinct-append, Distinct-update,
}
use entra_emulator.Store.Types.{RefreshToken}
use entra_emulator.Store.Refresh.{has_hash, revoke}
use entra_emulator.Store.Family.Links.{Unique}

-- What a successor takes over from the token that it was rotated from.
abbrev pub Inherits : RefreshToken → RefreshToken → Type 0
Inherits t p =
    (t.app_id ≡ p.app_id)
    × (t.user_id ≡ p.user_id)
    × (t.scopes ≡ p.scopes)
    × (t.resource ≡ p.resource)
    × (t.amr ≡ p.amr)
    × (t.auth_time ≡ p.auth_time)
    × (t.auth_code ≡ p.auth_code)

-- The row that `t` was rotated from is in the table, revoked, and what `t` inherits from.
pub record Parent (rows : List RefreshToken) (t : RefreshToken) : Type 0 where
  pub row : RefreshToken
  pub listed : In row rows
  pub token : row.token_hash ≡ t.rotated_from
  pub used : row.revoked ≡ true
  pub inherits : Inherits t row

pub record IsChained (rows : List RefreshToken) : Type 0 where
  pub unique : Unique rows
  pub lineage : (t : RefreshToken) → In t rows → t.rotated_from ≢ "" → Parent rows t
  pub one_child :
      (t u : RefreshToken)
      → In t rows
      → In u rows
      → t.rotated_from ≢ ""
      → t.rotated_from ≡ u.rotated_from
      → t.token_hash ≡ u.token_hash

-- `t` is `r`, or `r` after a revocation.
abbrev Same : RefreshToken → RefreshToken → Type 0
Same t r = (t ≡ r) ⊎ (t ≡ revoke r)

Same-update :
    (q : RefreshToken → Bool) (r t : RefreshToken) → (if q r then revoke r else r) ≡ t → Same t r
Same-update q r t e = ground arith

Parent-update :
    (q : RefreshToken → Bool) (rows : List RefreshToken) (t r : RefreshToken)
    → Same t r
    → Parent rows r
    → Parent (update q revoke rows) t
Parent-update q rows t r same p = record {
  row = if q p.row then revoke p.row else p.row;
  listed = update-In q revoke rows p.row p.listed;
  token = ground (arith, p.token);
  used = ground (arith, p.used);
  inherits = ground (arith, p.inherits);
}

pub update-IsChained :
    (q : RefreshToken → Bool) (rows : List RefreshToken)
    → IsChained rows
    → IsChained (update q revoke rows)
update-IsChained q rows h = record {
  unique = Distinct-update (λ (t : RefreshToken). t.token_hash) q revoke (λ r. refl) rows h.unique;
  lineage = λ t i full.
      let (r, j, e) = In-update q revoke rows t i in
      let same = Same-update q r t e in
      Parent-update q rows t r same (h.lineage r j (λ z. full (ground arith)));
  one_child = λ t u i j full same.
      let (r, i', e) = In-update q revoke rows t i in
      let (v, j', e') = In-update q revoke rows u j in
      ground (arith, h.one_child r v i' j', Same-update q r t e, Same-update q v u e');
}

Parent-append :
    (rows : List RefreshToken) (n t : RefreshToken) → Parent rows t → Parent (rows ++ n ∷ []) t
Parent-append rows n t p = record {
  row = p.row;
  listed = In-append_left p.row rows (n ∷ []) p.listed;
  token = p.token;
  used = p.used;
  inherits = p.inherits;
}

-- A new row whose parent, if it has one, is revoked and has no other child.
pub append-IsChained :
    (rows : List RefreshToken) (n : RefreshToken)
    → IsChained rows
    → exists (has_hash n.token_hash) rows ≡ false
    → (n.rotated_from ≢ "" → Parent rows n)
    → ((t : RefreshToken) → In t rows → n.rotated_from ≢ "" → t.rotated_from ≢ n.rotated_from)
    → IsChained (rows ++ n ∷ [])
append-IsChained rows n h new parent alone = record {
  unique = Distinct-append (λ (t : RefreshToken). t.token_hash) rows n h.unique new;
  lineage = λ t i full. elim (In-append_single rows n t i) [
    | inl j ↦ Parent-append rows n t (h.lineage t j full)
    | inr e ↦
        subst (Parent (rows ++ n ∷ [])) e
          (Parent-append rows n n (parent (λ z. full (ground arith))))
  ];
  one_child = λ t u i j full same.
      one (In-append_single rows n t i) (In-append_single rows n u j) full same;
}
  where
    one :
        {t u : RefreshToken}
        → In t rows ⊎ (n ≡ t)
        → In u rows ⊎ (n ≡ u)
        → t.rotated_from ≢ ""
        → t.rotated_from ≡ u.rotated_from
        → t.token_hash ≡ u.token_hash
    one {t} {u} (inl i) (inl j) full same = h.one_child t u i j full same
    one {t} {u} (inl i) (inr e) full same =
        absurd (alone t i (λ z. full (ground arith)) (ground arith))
    one {t} {u} (inr e) (inl j) full same =
        absurd (alone u j (λ z. full (ground arith)) (ground arith))
    one {t} {u} (inr e) (inr e') full same = ground arith
