-- ===== src/Tokens/Keys/Rotate.antt =====
-- What a rotation of the signing key leaves.
use entra_emulator.Prelude.{
  ℕ, ◌+◌, ◌<◌, String, ◌≡◌, refl, sym, subst, ◌⊎◌, inl, inr, true, List, [], ◌∷◌, ◌++◌, arith,
  eq_refl, leb, lt→ltb, Bool-cases, In, In-append_left, In-append_right, update, update-In,
  select-In, exists-update_none, select_first-append_new,
}
use entra_emulator.Store.Types.{SigningKey, Store, ok}
use entra_emulator.Store.Keys.{
  is_active_in, is_publishable, retire, get_active_signing_key, insert_by_created, sort_by_created,
  list_publishable_keys, demote_active_signing_keys, insert_signing_key,
}
use entra_emulator.Tokens.Types.{Config}
use entra_emulator.Tokens.Keys.{KeyMaterial, fresh_key, generate_and_activate, rotate}

In-insert_head : (k : SigningKey) (ks : List SigningKey) → In k (insert_by_created k ks)
unfolding insert_by_created
In-insert_head k [] = inl refl
In-insert_head k (x ∷ xs) = elim (Bool-cases (leb k.created_at x.created_at)) [
  | inl before ↦ rw before (inl refl)
  | inr behind ↦ rw behind (inr (In-insert_head k xs))
]

In-insert : (k r : SigningKey) (ks : List SigningKey) → In r ks → In r (insert_by_created k ks)
unfolding insert_by_created
In-insert k r [] i = absurd i
In-insert k r (x ∷ xs) i = elim (Bool-cases (leb k.created_at x.created_at)) [
  | inl before ↦ rw before (inr i)
  | inr behind ↦ rw behind (later (In-insert k r xs) i)
]
  where
    later :
        (In r xs → In r (insert_by_created k xs))
        → (x ≡ r) ⊎ In r xs
        → (x ≡ r) ⊎ In r (insert_by_created k xs)
    later below (inl e) = inl e
    later below (inr j) = inr (below j)

In-sort : (r : SigningKey) (ks : List SigningKey) → In r ks → In r (sort_by_created ks)
unfolding sort_by_created
In-sort r [] i = absurd i
In-sort r (k ∷ ks) (inl e) =
    subst (λ z. In z (insert_by_created k (sort_by_created ks))) e
      (In-insert_head k (sort_by_created ks))
In-sort r (k ∷ ks) (inr i) = In-insert k r (sort_by_created ks) (In-sort r ks i)

pub record IsRotation (cfg : Config) (now grace : ℕ) (m : KeyMaterial) (s t : Store) : Type 0 where
  pub active : get_active_signing_key t cfg.tenant_id ≡ ok (fresh_key cfg.tenant_id now m)
  pub published :
      (later : ℕ) → In (fresh_key cfg.tenant_id now m) (list_publishable_keys t cfg.tenant_id later)
  pub grace_window :
      (k : SigningKey) (later : ℕ)
      → In k s.signing_keys
      → is_active_in cfg.tenant_id k ≡ true
      → later < now + grace
      → In (retire (now + grace) k) (list_publishable_keys t cfg.tenant_id later)

rotate-keys :
    (cfg : Config) (now grace : ℕ) (m : KeyMaterial) (s : Store) (kid : String)
    → (rotate cfg now grace m s).0 ≡ ok kid
    → ((rotate cfg now grace m s).1.signing_keys
        ≡ update (is_active_in cfg.tenant_id) (retire (now + grace)) s.signing_keys
          ++ fresh_key cfg.tenant_id now m ∷ [])
      × (m.kid ≡ kid)
unfolding rotate generate_and_activate insert_signing_key demote_active_signing_keys
rotate-keys cfg now grace m s kid e = (ground arith, ground arith)

In-published :
    (t : Store) (tenant : String) (later : ℕ) (k : SigningKey)
    → In k t.signing_keys
    → is_publishable tenant later k ≡ true
    → In k (list_publishable_keys t tenant later)
unfolding list_publishable_keys
In-published t tenant later k i h =
    In-sort k _ (select-In (is_publishable tenant later) t.signing_keys k i h)

-- A rotation that succeeds answers with the identifier of the new key, which is then the tenant's
-- active key and always publishable, and every key that was active stays publishable until the
-- grace period is over.
pub rotate_lem :
    (cfg : Config) (now grace : ℕ) (m : KeyMaterial) (s : Store) (kid : String)
    → (rotate cfg now grace m s).0 ≡ ok kid
    → (m.kid ≡ kid) × IsRotation cfg now grace m s (rotate cfg now grace m s).1
unfolding get_active_signing_key
rotate_lem cfg now grace m s kid e =
    let t = (rotate cfg now grace m s).1 in
    let tenant = cfg.tenant_id in
    let new = fresh_key tenant now m in
    let old = update (is_active_in tenant) (retire (now + grace)) s.signing_keys in
    let (keys, same) = rotate-keys cfg now grace m s kid e in
    let own = eq_refl tenant in
    (
      same,
      record {
        active =
            rw
              (
                keys,
                select_first-append_new (is_active_in tenant) old new
                    (exists-update_none (is_active_in tenant) (retire (now + grace))
                      (λ r. ground arith) s.signing_keys)
                    (ground (arith, own)),
              )
              refl;
        published = λ later.
            In-published t tenant later new
              (subst (In new) (sym keys) (In-append_right new old (new ∷ []) (inl refl)))
              (ground (arith, own));
        grace_window = λ k later i was h.
            In-published t tenant later (retire (now + grace) k)
              (subst (In (retire (now + grace) k)) (sym keys) (
                In-append_left (retire (now + grace) k) old (new ∷ []) (
                  subst (λ z. In z old) (rw was refl)
                    (update-In (is_active_in tenant) (retire (now + grace)) s.signing_keys k i))))
              (ground (arith, lt→ltb later (now + grace) h));
      },
    )
