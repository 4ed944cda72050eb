-- ===== src/Examples/Refresh.antt =====
-- Redeeming, rotating and revoking a refresh token.
use entra_emulator.Prelude.{
  String, ◌≡◌, refl, sym, ap, ◌∙◌, ◌↔◌, inl, inr, true, false, ◌&&◌, List, [], ◌∷◌, map, arith, All,
  contains, In, select_first, update, count, exists,
}
use entra_emulator.Text.{fields, is_space}
use entra_emulator.Store.Types.{RefreshToken, ok}
use entra_emulator.Store.Directory.{app_exists, user_exists}
use entra_emulator.Store.Refresh.{
  get_refresh_token_by_hash, insert_refresh_token, rotate_refresh_token, has_hash,
}
use entra_emulator.Store.Family.{revoke_refresh_token_family}
use entra_emulator.Store.Family.Links.{Linked, here}
use entra_emulator.Store.Family.Reach.{revoke_if, revoke_refresh_token_family_lem}
use entra_emulator.Text.Fields.{IsWord}
use entra_emulator.Tokens.Rotation.Issued.{issue_refresh_token-redeem_refresh_token}
use entra_emulator.Tokens.Rotation.{
  RefreshRequest, issue_refresh_token, first_missing, hand_out, redeem_refresh_row,
  redeem_refresh_token,
}
use entra_emulator.Tokens.Rotation.Outcome.{
  IsRotated, redeem_refresh_token_sound, redeem_refresh_token_complete,
}
use entra_emulator.Tokens.History.{Step, done, more, redeems_refresh}
use entra_emulator.Tokens.History.Chains.{IsChained}
use entra_emulator.Tokens.History.Rotations.{Step-IsChained}
use entra_emulator.Tokens.History.OneLive.{Steps-one_live}
use entra_emulator.Examples.Data.{crypto, config, directory, token_row}

abbrev wanted : RefreshRequest
wanted = record {
  app_id = "web";
  user_id = "alice";
  scopes = "openid" ∷ ("offline_access" ∷ []);
  resource = "";
  rotated_from = "";
  amr = "pwd";
  auth_time = 90;
  auth_code = "c1";
}

words : All IsWord wanted.scopes
unfolding is_space
words = ground arith

issues : (issue_refresh_token crypto 3600 100 "r7" wanted directory).0 ≡ ok "r7"
unfolding issue_refresh_token insert_refresh_token app_exists user_exists exists
issues = refl

unused_hash :
    exists
      (has_hash (crypto.hash_token "r8"))
      (issue_refresh_token crypto 3600 100 "r7" wanted directory).1.refresh_tokens
    ≡ false
unfolding issue_refresh_token insert_refresh_token app_exists user_exists exists
unused_hash = refl

issue_refresh_token-redeem_refresh_token_example :
    (redeem_refresh_token crypto config 200 "r7" "web" "r8"
      ("openid" ∷ [])
      (issue_refresh_token crypto 3600 100 "r7" wanted directory).1).0
    ≡ ok record {
      user_id = "alice";
      resource = "";
      scopes = "openid" ∷ [];
      new_refresh_token = "";
      amr = "pwd";
      auth_time = 90;
    }
issue_refresh_token-redeem_refresh_token_example =
    issue_refresh_token-redeem_refresh_token crypto config 3600 100 200 "r7" "r8" ("openid" ∷ [])
      ("openid" ∷ []) wanted directory words (tt, tt) issues (omega arith) (refl, tt)
      (inr (λ z. ground arith, refl)) unused_hash

redeems_r1 :
    (redeem_refresh_token crypto config 100 "r1" "web" "r2" ("openid" ∷ []) directory).0
    ≡ ok (hand_out token_row ("openid" ∷ []) "r2")
unfolding redeem_refresh_token get_refresh_token_by_hash insert_refresh_token rotate_refresh_token
    redeem_refresh_row first_missing select_first count update exists app_exists user_exists fields
redeems_r1 = refl

redeem_refresh_token_sound_example :
    (row : RefreshToken) × (get_refresh_token_by_hash directory "h:r1" ≡ ok row)
    × IsRotated crypto config 100 "h:r1" "web" "r2"
        ("openid" ∷ [])
        row
        (hand_out token_row ("openid" ∷ []) "r2")
        (redeem_refresh_token crypto config 100 "r1" "web" "r2" ("openid" ∷ []) directory).1
redeem_refresh_token_sound_example =
    redeem_refresh_token_sound crypto config 100 "r1" "web" "r2" ("openid" ∷ []) directory
      (hand_out token_row ("openid" ∷ []) "r2") redeems_r1

found : get_refresh_token_by_hash directory "h:r1" ≡ ok token_row
unfolding get_refresh_token_by_hash select_first
found = refl

is_new : exists (has_hash "h:r2") directory.refresh_tokens ≡ false
unfolding exists
is_new = refl

has_keys : (app_exists directory "web" && user_exists directory "alice") ≡ true
unfolding app_exists user_exists exists
has_keys = refl

in_grant : contains (fields "openid offline_access") "openid" ≡ true
unfolding fields
in_grant = refl

redeem_refresh_token_complete_example :
    (redeem_refresh_token crypto config 100 "r1" "web" "r2" ("openid" ∷ []) directory).0
    ≡ ok (hand_out token_row ("openid" ∷ []) "r2")
redeem_refresh_token_complete_example =
    redeem_refresh_token_complete crypto config 100 "r1" "web" "r2" ("openid" ∷ []) directory
      token_row (tt, tt) found
      record { live = refl; client = refl; in_time = ground arith; subset = (in_grant, tt) } is_new
      has_keys

revoke_refresh_token_family_lem_example :
    (seen : List String) × ((x : String)
      → (contains seen x ≡ true) ↔ Linked directory.refresh_tokens "h:r1" x)
    × (revoke_refresh_token_family "h:r1" directory
        ≡ record directory { refresh_tokens = map (revoke_if seen) directory.refresh_tokens })
revoke_refresh_token_family_lem_example = revoke_refresh_token_family_lem "h:r1" directory (tt, tt)

only : (t : RefreshToken) → In t directory.refresh_tokens → t ≡ token_row
only t (inl e) = sym e
only t (inr z) = absurd z

one_row-IsChained : IsChained directory.refresh_tokens
one_row-IsChained = record {
  unique = (tt, tt);
  lineage = λ t i full. elim i [
    | inl e ↦ absurd (full (ap (λ (u : RefreshToken). u.rotated_from) (sym e)))
    | inr z ↦ absurd z
  ];
  one_child =
      λ t u i j full same. ap (λ (v : RefreshToken). v.token_hash) (only t i ∙ sym (only u j));
}

rotates :
    Step crypto config directory
      (redeem_refresh_token crypto config 100 "r1" "web" "r2" ("openid" ∷ []) directory).1
rotates = redeems_refresh directory 100 "r1" "web" "r2" ("openid" ∷ [])

Step-IsChained_example :
    IsChained
      (redeem_refresh_token crypto config 100 "r1" "web" "r2"
        ("openid" ∷ [])
        directory).1.refresh_tokens
Step-IsChained_example = Step-IsChained rotates one_row-IsChained

abbrev next_token : RefreshToken
next_token = record token_row {
  token_hash = "h:r2";
  expires_at = 86500;
  rotated_from = "h:r1";
  created_at = 100;
}

is_stored :
    In next_token
      (redeem_refresh_token crypto config 100 "r1" "web" "r2"
        ("openid" ∷ [])
        directory).1.refresh_tokens
unfolding redeem_refresh_token get_refresh_token_by_hash insert_refresh_token rotate_refresh_token
    redeem_refresh_row first_missing select_first count update exists app_exists user_exists fields
is_stored = inr (inl refl)

Steps-one_live_example : next_token ≡ next_token
Steps-one_live_example =
    Steps-one_live crypto config directory
      (redeem_refresh_token crypto config 100 "r1" "web" "r2" ("openid" ∷ []) directory).1
      next_token next_token one_row-IsChained (more done rotates) is_stored is_stored refl refl here
