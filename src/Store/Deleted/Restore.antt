-- ===== src/Store/Deleted/Restore.antt =====
-- A user that is deleted and restored.
use entra_emulator.Prelude.{
  ℕ, ◌+◌, ◌<◌, String, ◌≡◌, refl, ap, ◌∙◌, ◌≢◌, inl, inr, true, false, List, [], ◌∷◌, ◌++◌, arith,
  ◌==◌, eq_iff, eq_refl, eqb, Bool-cases, All, delete, exists, exists-delete, exists-delete_same,
  delete-append_kept, select_first-append_new,
}
use entra_emulator.Store.Types.{
  StoreError, Tenant, User, AuthCode, RefreshToken, DeletedUser, Store, Result, ok, err,
}
use entra_emulator.Store.Directory.{get_user}
use entra_emulator.Store.Deleted.{
  retention_seconds, has_user_id, has_upn, is_deleted, is_expired, without_user, snapshot,
  soft_delete_user, purge_expired, get_deleted_item, restored, reattach_members, restore_user,
  emptied, restore_from, restore_deleted_item, list_groups_for_user,
}

users-reattach :
    (user_id : String) (gs : List String) (s : Store)
    → (reattach_members user_id gs s).users ≡ s.users
unfolding reattach_members
users-reattach user_id [] s = refl
users-reattach user_id (g ∷ gs) s = users-reattach user_id gs _ ∙ ground arith

tokens-reattach :
    (user_id : String) (gs : List String) (s : Store)
    → (reattach_members user_id gs s).refresh_tokens ≡ s.refresh_tokens
unfolding reattach_members
tokens-reattach user_id [] s = refl
tokens-reattach user_id (g ∷ gs) s = tokens-reattach user_id gs _ ∙ ground arith

codes-reattach :
    (user_id : String) (gs : List String) (s : Store)
    → (reattach_members user_id gs s).authorization_codes ≡ s.authorization_codes
unfolding reattach_members
codes-reattach user_id [] s = refl
codes-reattach user_id (g ∷ gs) s = codes-reattach user_id gs _ ∙ ground arith

All-delete_key :
    {A : Type 0} (key : A → String) (k : String) (rs : List A)
    → All (λ (r : A). key r ≢ k) (delete (λ (r : A). key r == k) rs)
unfolding delete
All-delete_key key k [] = tt
All-delete_key key k (r ∷ rs) = elim (Bool-cases (key r == k)) [
  | inl hit ↦ rw hit (All-delete_key key k rs)
  | inr miss ↦ rw miss ((λ e. ground (arith, (eq_iff (key r) k).1 e)), All-delete_key key k rs)
]

-- The store behind the deletion, and the one behind the purge that a restoring starts with.
abbrev deleted_store : (now : ℕ) → User → Store → Store
deleted_store now u s = record (without_user u.id s) {
  deleted_users = s.deleted_users ++ snapshot s now u ∷ [];
}

deletes :
    (now : ℕ) (u : User) (s : Store)
    → get_user s u.id ≡ ok u
    → exists (is_deleted u.id) s.deleted_users ≡ false
    → soft_delete_user u.id now s ≡ (ok tt, deleted_store now u s)
unfolding soft_delete_user
deletes now u s found absent = rw (found, soft_delete_user, absent) refl

still_there :
    (now later : ℕ) (u : User) (s : Store)
    → exists (is_deleted u.id) s.deleted_users ≡ false
    → later < now + retention_seconds
    → get_deleted_item u.id (purge_expired later (deleted_store now u s)) ≡ ok (snapshot s now u)
unfolding get_deleted_item purge_expired
still_there now later u s absent h =
    let d = snapshot s now u in
    let fresh : is_expired later d ≡ false = ground (arith, h) in
    rw
      (
        delete-append_kept (is_expired later) s.deleted_users d fresh,
        select_first-append_new (is_deleted u.id) (delete (is_expired later) s.deleted_users) d
            (exists-delete (is_deleted u.id) (is_expired later) s.deleted_users absent)
            (eq_refl u.id),
      )
      refl

abbrev back : User → User
back u = record u { user_type = "Member"; external_user_state = ""; invite_redirect_url = "" }

restored-back :
    (later : ℕ) (u : User) → u.created_at ≢ 0 → u.updated_at ≢ 0 → restored later u ≡ back u
restored-back later u c d =
    let a : eqb u.created_at 0 ≡ false = ground (arith, c) in
    let b : eqb u.updated_at 0 ≡ false = ground (arith, d) in rw (a, b) refl

abbrev purged : (now later : ℕ) → User → Store → Store
purged now later u s = purge_expired later (deleted_store now u s)

restores :
    (now later : ℕ) (u : User) (s : Store)
    → exists (has_upn u.user_principal_name) (delete (has_user_id u.id) s.users) ≡ false
    → exists (λ (t : Tenant). t.id == u.tenant_id) s.tenants ≡ true
    → restore_user later (snapshot s now u) (purged now later u s) ≡ (
      ok tt,
      reattach_members u.id (list_groups_for_user s u.id) (record (purged now later u s) {
        users = delete (has_user_id u.id) s.users ++ restored later u ∷ [];
      }),
    )
unfolding restore_user purge_expired
restores now later u s free tenant =
    rw (exists-delete_same (has_user_id u.id) s.users, free, tenant) refl

-- What a deletion and a restoring leave of a user.
pub record IsRestored (u : User) (t : Store) : Type 0 where
  pub row :
      get_user t u.id
      ≡ ok (record u { user_type = "Member"; external_user_state = ""; invite_redirect_url = "" })
  pub codes : All (λ (c : AuthCode). c.user_id ≢ u.id) t.authorization_codes
  pub tokens : All (λ (r : RefreshToken). r.user_id ≢ u.id) t.refresh_tokens

restored_store :
    (now later : ℕ) (u : User) (s : Store)
    → get_user s u.id ≡ ok u
    → exists (is_deleted u.id) s.deleted_users ≡ false
    → later < now + retention_seconds
    → exists (has_upn u.user_principal_name) (delete (has_user_id u.id) s.users) ≡ false
    → exists (λ (t : Tenant). t.id == u.tenant_id) s.tenants ≡ true
    → let gs = list_groups_for_user s u.id in
      let base = record (purged now later u s) {
        users = delete (has_user_id u.id) s.users ++ restored later u ∷ [];
      } in
      let t = reattach_members u.id gs base in
      restore_deleted_item u.id later (soft_delete_user u.id now s).1 ≡ (
        ok (snapshot s now u),
        record t { deleted_users = delete (is_deleted u.id) t.deleted_users },
      )
unfolding restore_deleted_item
restored_store now later u s found absent h free tenant =
    ap
      (λ (x : Result StoreError (Unit {0}) × Store).
        restore_from u.id later (purge_expired later x.1))
      (deletes now u s found absent)
    ∙ (ap
          (λ (x : Result StoreError DeletedUser). elim x [
            | err e ↦ (err e, purged now later u s)
            | ok d ↦
                emptied u.id d (purged now later u s) (restore_user later d (purged now later u s))
          ])
          (still_there now later u s absent h)
        ∙ ap (emptied u.id (snapshot s now u) (purged now later u s))
            (restores now later u s free tenant))

-- A user that is deleted and restored within the retention time comes back with the same
-- identifier, names, password, tenant and dates, but as a member without an external state and an
-- invitation, whatever they were before; no authorization code and no refresh token of the user is
-- left. The user is in the table with dates that are set, its tenant exists, no snapshot of it is
-- in the bin, and no other user has its principal name.
pub restore_deleted_item-soft_delete_user :
    (now later : ℕ) (u : User) (s : Store)
    → get_user s u.id ≡ ok u
    → exists (is_deleted u.id) s.deleted_users ≡ false
    → later < now + retention_seconds
    → exists (has_upn u.user_principal_name) (delete (has_user_id u.id) s.users) ≡ false
    → exists (λ (t : Tenant). t.id == u.tenant_id) s.tenants ≡ true
    → u.created_at ≢ 0
    → u.updated_at ≢ 0
    → IsRestored u (restore_deleted_item u.id later (soft_delete_user u.id now s).1).1
unfolding get_user purge_expired
restore_deleted_item-soft_delete_user now later u s found absent h free tenant c d =
    let gs = list_groups_for_user s u.id in
    let users = delete (has_user_id u.id) s.users in
    let base = record (purged now later u s) { users = users ++ restored later u ∷ [] } in
    rw (restored_store now later u s found absent h free tenant) record {
      row =
          rw
            (
              users-reattach u.id gs base,
              restored-back later u c d,
              select_first-append_new (has_user_id u.id) users (back u)
                  (exists-delete_same (has_user_id u.id) s.users) (eq_refl u.id),
            )
            refl;
      codes =
          rw (codes-reattach u.id gs base)
            (All-delete_key (λ (k : AuthCode). k.user_id) u.id s.authorization_codes);
      tokens =
          rw (tokens-reattach u.id gs base)
            (All-delete_key (λ (k : RefreshToken). k.user_id) u.id s.refresh_tokens);
    }
