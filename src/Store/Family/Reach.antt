-- ===== src/Store/Family/Reach.antt =====
-- What RevokeRefreshTokenFamily revokes.
use entra_emulator.Prelude.{
  String, ◌≡◌, refl, ap, ◌∙◌, ◌↔◌, inl, inr, true, some, List, [], ◌∷◌, map, arith, eq_iff,
  if◌then◌else◌, contains, In, In-of_contains, contains_of_In, In-All, update,
}
use entra_emulator.Store.Refresh.{has_hash, revoke}
use entra_emulator.Store.Types.{RefreshToken, Store}
use entra_emulator.Store.Family.{family_fuel, family, revoke_all, revoke_refresh_token_family}
use entra_emulator.Store.Family.Fuel.{family_total}
use entra_emulator.Store.Family.Sound.{family_loop_sound}
use entra_emulator.Store.Family.Complete.{Pending, family_loop_complete}
use entra_emulator.Store.Family.Links.{Linked, here, next, Unique}

closed_under :
    (rows : List RefreshToken) (hash x : String) (seen : List String)
    → Pending rows seen []
    → In hash seen
    → Linked rows hash x
    → In x seen
closed_under rows hash x seen p h here = h
closed_under rows hash x seen p h (next {b} {c} l n) =
    elim (p b c (closed_under rows hash b seen p h l) n) [ inl i ↦ i | inr i ↦ absurd i ]

pub family_iff :
    (rows : List RefreshToken) (hash : String) (seen : List String)
    → Unique rows
    → family hash rows ≡ some seen
    → (x : String) → (contains seen x ≡ true) ↔ Linked rows hash x
unfolding family
family_iff rows hash seen unique e x =
    let (grow, closed) =
      family_loop_complete rows unique (family_fuel rows) [] (hash ∷ []) seen (λ b c i n. absurd i)
        e in
    (
      λ q.
          In-All (Linked rows hash) x seen
            (family_loop_sound rows hash (family_fuel rows) [] (hash ∷ []) seen tt (here, tt) e)
            (In-of_contains seen x q),
      λ l.
          contains_of_In seen x
            (closed_under rows hash x seen closed (grow hash (inr (inl refl))) l),
    )

abbrev pub revoke_if : List String → RefreshToken → RefreshToken
revoke_if seen t = if contains seen t.token_hash then revoke t else t

revoke_all-cons :
    (seen : List String) (t : RefreshToken) (rows : List RefreshToken)
    → revoke_all seen (t ∷ rows) ≡ revoke_if seen t ∷ revoke_all seen rows
unfolding revoke_all
revoke_all-cons [] t rows = refl
revoke_all-cons (h ∷ seen) t rows = ground (
  arith,
  revoke_all-cons seen t (update (has_hash h) revoke rows),
  revoke_all-cons seen (revoke t) (update (has_hash h) revoke rows),
  eq_iff h t.token_hash,
  eq_iff t.token_hash h,
)

revoke_all-nil : (seen : List String) → revoke_all seen [] ≡ []
unfolding revoke_all
revoke_all-nil [] = refl
revoke_all-nil (h ∷ seen) = revoke_all-nil seen

revoke_all-eq-map :
    (seen : List String) (rows : List RefreshToken)
    → revoke_all seen rows ≡ map (revoke_if seen) rows
revoke_all-eq-map seen [] = revoke_all-nil seen
revoke_all-eq-map seen (t ∷ rows) =
    revoke_all-cons seen t rows ∙ ap (λ l. revoke_if seen t ∷ l) (revoke_all-eq-map seen rows)

-- Revoking the family of a token ends, with a set of hashes that are exactly those linked with the
-- token by any number of rotations, up or down; it sets `revoked` in the rows with such a hash, and
-- changes nothing else in the store. The table's hashes are distinct.
pub revoke_refresh_token_family_lem :
    (hash : String) (s : Store)
    → Unique s.refresh_tokens
    → (seen : List String) × ((x : String)
        → (contains seen x ≡ true) ↔ Linked s.refresh_tokens hash x)
      × (revoke_refresh_token_family hash s
          ≡ record s { refresh_tokens = map (revoke_if seen) s.refresh_tokens })
unfolding revoke_refresh_token_family
revoke_refresh_token_family_lem hash s unique =
    let (seen, e) = family_total hash s.refresh_tokens in
    (
      seen,
      family_iff s.refresh_tokens hash seen unique e,
      rw (e, revoke_all-eq-map seen s.refresh_tokens) refl,
    )
