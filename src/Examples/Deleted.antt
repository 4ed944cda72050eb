-- ===== src/Examples/Deleted.antt =====
-- Deleting a guest and restoring it.
use entra_emulator.Prelude.{
  ℕ, ◌≡◌, refl, ◌≢◌, true, false, [], ◌∷◌, arith, ◌==◌, ltb→lt, select_first, delete, exists,
}
use entra_emulator.Store.Types.{Tenant, User, Store, ok}
use entra_emulator.Store.Directory.{get_user}
use entra_emulator.Store.Deleted.{
  has_user_id, has_upn, is_deleted, soft_delete_user, restore_deleted_item,
}
use entra_emulator.Store.Deleted.Restore.{IsRestored, restore_deleted_item-soft_delete_user}
use entra_emulator.Examples.Data.{directory, alice}

abbrev guest : User
guest = record alice { user_type = "Guest"; external_user_state = "Accepted" }

abbrev with_guest : Store
with_guest = record directory { users = guest ∷ [] }

is_found : get_user with_guest "alice" ≡ ok guest
unfolding get_user select_first
is_found = refl

not_in_bin : exists (is_deleted "alice") with_guest.deleted_users ≡ false
unfolding exists
not_in_bin = refl

name_free :
    exists (has_upn "alice@contoso.test") (delete (has_user_id "alice") with_guest.users) ≡ false
unfolding exists delete
name_free = refl

has_tenant : exists (λ (t : Tenant). t.id == "contoso") with_guest.tenants ≡ true
unfolding exists
has_tenant = refl

restore_deleted_item-soft_delete_user_example :
    IsRestored guest
      (restore_deleted_item "alice" 200 (soft_delete_user "alice" 100 with_guest).1).1
restore_deleted_item-soft_delete_user_example =
    restore_deleted_item-soft_delete_user 100 200 guest with_guest is_found not_in_bin
      (ltb→lt 200 2592100 refl) name_free has_tenant one_ne_zero one_ne_zero
  where
    one_ne_zero : ◌≢◌ {A = ℕ} 1 0
    one_ne_zero e = omega (arith, e)
