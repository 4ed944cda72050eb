-- ===== src/Store/Deleted.antt =====
-- internal/store/deleted.go: the recycle bin, for users.
pub mod Restore
use entra_emulator.Prelude.{
  ℕ, ◌+◌, String, Bool, ◌&&◌, ◌||◌, List, [], ◌∷◌, ◌++◌, map, ◌==◌, leb, eqb, if◌then◌else◌,
  select_first, select, update, delete, exists,
}
use entra_emulator.Store.Types.{
  Tenant, User, Group, Member, AuthCode, RefreshToken, Session, DeviceCode, DeletedUser, Store,
  StoreError, conflict, constraint, Result, ok, err,
}
use entra_emulator.Store.Directory.{get_user, row_or_not_found}

-- DeletedItemRetentionSeconds: 30 days
abbrev pub retention_seconds : ℕ
retention_seconds = 2592000

abbrev pub has_user_id : String → User → Bool
has_user_id id u = u.id == id

abbrev pub has_upn : String → User → Bool
has_upn upn u = u.user_principal_name == upn

abbrev pub is_deleted : String → DeletedUser → Bool
is_deleted id d = d.id == id

-- deleted_at <= now - retention
abbrev pub is_expired : (now : ℕ) → DeletedUser → Bool
is_expired now d = leb (d.deleted_at + retention_seconds) now

-- ListGroupsForUser, by the groups' identifiers and in the order of the table.
unfoldable pub list_groups_for_user : Store → String → List String
unfolding select exists
list_groups_for_user s user_id =
    map (λ (g : Group). g.id)
      (select
        (λ (g : Group).
          exists (λ (m : Member). m.group_id == g.id && m.user_id == user_id) s.group_members)
        s.groups)

-- The user's grants are deleted, and the rows that the schema's CASCADE deletes.
abbrev pub without_user : String → Store → Store
without_user id s = record s {
  authorization_codes = delete (λ (c : AuthCode). c.user_id == id) s.authorization_codes;
  refresh_tokens = delete (λ (t : RefreshToken). t.user_id == id) s.refresh_tokens;
  device_codes =
      update (λ (d : DeviceCode). d.user_id == id) (λ d. record d { user_id = "" }) s.device_codes;
  users = delete (has_user_id id) s.users;
  group_members = delete (λ (m : Member). m.user_id == id) s.group_members;
  sessions = delete (λ (v : Session). v.user_id == id) s.sessions;
}

abbrev pub snapshot : Store → (now : ℕ) → User → DeletedUser
snapshot s now u = record {
  id = u.id;
  user = u;
  group_ids = list_groups_for_user s u.id;
  deleted_at = now;
}

-- The transaction; a snapshot with this identifier in the bin rolls it back.
abbrev recycle : String → (now : ℕ) → User → Store → Result StoreError (Unit {0}) × Store
recycle id now u s = if exists (is_deleted u.id) s.deleted_users then (err constraint, s) else (
  ok tt,
  record (without_user id s) { deleted_users = s.deleted_users ++ snapshot s now u ∷ [] },
)

unfoldable pub soft_delete_user : String → (now : ℕ) → Store → Result StoreError (Unit {0}) × Store
soft_delete_user id now s = elim (get_user s id) [ err e ↦ (err e, s) | ok u ↦ recycle id now u s ]

unfoldable pub purge_expired : (now : ℕ) → Store → Store
unfolding delete
purge_expired now s = record s { deleted_users = delete (is_expired now) s.deleted_users }

unfoldable pub get_deleted_item : String → Store → Result StoreError DeletedUser
unfolding select_first
get_deleted_item id s = row_or_not_found (select_first (is_deleted id) s.deleted_users)

-- The columns that the INSERT of restoreUserTx names; the others take their defaults.
abbrev pub restored : (now : ℕ) → User → User
restored now u =
    let created = if eqb u.created_at 0 then now else u.created_at in
    record u {
      user_type = "Member";
      external_user_state = "";
      invite_redirect_url = "";
      created_at = created;
      updated_at = if eqb u.updated_at 0 then created else u.updated_at;
    }

abbrev add_member : (group_id user_id : String) → Store → Store
add_member group_id user_id s =
    if exists (λ (m : Member). m.group_id == group_id && m.user_id == user_id) s.group_members
    then s
    else record s {
      group_members = s.group_members ++ record { group_id = group_id; user_id = user_id } ∷ [];
    }

-- The groups that still exist.
unfoldable pub reattach_members : (user_id : String) → List String → Store → Store
reattach_members user_id [] s = s
reattach_members user_id (g ∷ gs) s =
    reattach_members user_id gs
      (if exists (λ (x : Group). x.id == g) s.groups then add_member g user_id s else s)

unfoldable pub restore_user : (now : ℕ) → DeletedUser → Store → Result StoreError (Unit {0}) × Store
restore_user now d s =
    if exists (has_user_id d.user.id) s.users || exists (has_upn d.user.user_principal_name) s.users
    then (err conflict, s)
    else if exists (λ (t : Tenant). t.id == d.user.tenant_id) s.tenants
    then (
      ok tt,
      reattach_members d.user.id d.group_ids
          (record s { users = s.users ++ restored now d.user ∷ [] }),
    )
    else (err constraint, s)

-- A restoring that fails is rolled back; the purge before it is not.
abbrev pub emptied :
    String
    → DeletedUser
    → Store
    → Result StoreError (Unit {0}) × Store
    → Result StoreError DeletedUser × Store
emptied id d before (err e, s) = (err e, before)
emptied id d before (ok _, s) =
    (ok d, record s { deleted_users = delete (is_deleted id) s.deleted_users })

abbrev pub restore_from : String → (now : ℕ) → Store → Result StoreError DeletedUser × Store
restore_from id now s = elim (get_deleted_item id s) [
  | err e ↦ (err e, s)
  | ok d ↦ emptied id d s (restore_user now d s)
]

unfoldable pub restore_deleted_item :
    String → (now : ℕ) → Store → Result StoreError DeletedUser × Store
restore_deleted_item id now s = restore_from id now (purge_expired now s)
