-- ===== src/Store/Family.antt =====
-- internal/store/grants.go, RevokeRefreshTokenFamily: the walk over a rotation chain.
pub mod Fuel
pub mod Links
pub mod Sound
pub mod Complete
pub mod Reach
use entra_emulator.Prelude.{
  ℕ, zero, suc, ◌*◌, String, not, ◌&&◌, ◌||◌, Option, none, some, List, [], ◌∷◌, ◌++◌, ◌==◌,
  if◌then◌else◌, length, contains, select_first, update,
}
use entra_emulator.Store.Types.{RefreshToken, Store, nullable_eq}
use entra_emulator.Store.Refresh.{has_hash, revoke}

-- The parent that is pushed: a rotated_from that is neither NULL nor seen.
abbrev pub parent_of : Option RefreshToken → List String → List String
parent_of none seen = []
parent_of (some t) seen =
    if t.rotated_from == "" || contains seen t.rotated_from then [] else t.rotated_from ∷ []

-- The children that are pushed, the last row on top of the stack.
unfoldable pub push_children : String → List String → List RefreshToken → List String → List String
push_children h seen [] frontier = frontier
push_children h seen (t ∷ rows) frontier = push_children h seen rows (
    if nullable_eq t.rotated_from h && not (contains seen t.token_hash)
    then t.token_hash ∷ frontier
    else frontier)

-- The loop over the frontier, a stack with its top at the head. `none`: the fuel ran out.
unfoldable pub family_loop :
    ℕ → List RefreshToken → List String → List String → Option (List String)
unfolding select_first push_children
family_loop zero rows seen frontier = none
family_loop (suc f) rows seen [] = some seen
family_loop (suc f) rows seen (h ∷ frontier) =
    let skip = family_loop f rows seen frontier in
    let visit = family_loop f rows (h ∷ seen) (
      push_children h (h ∷ seen) rows
        (parent_of (select_first (has_hash h) rows) (h ∷ seen) ++ frontier)) in
    if contains seen h then skip else visit

-- Enough for every visit of a row, by its own hash and by its parent's.
abbrev pub family_fuel : List RefreshToken → ℕ
family_fuel rows = suc (suc (2 * length rows))

unfoldable pub family : String → List RefreshToken → Option (List String)
unfolding family_loop
family hash rows = family_loop (family_fuel rows) rows [] (hash ∷ [])

-- UPDATE … SET revoked=1 WHERE token=? for each hash that was seen.
unfoldable pub revoke_all : List String → List RefreshToken → List RefreshToken
unfolding update
revoke_all [] rows = rows
revoke_all (h ∷ hs) rows = revoke_all hs (update (has_hash h) revoke rows)

abbrev revoke_seen : Option (List String) → Store → Store
revoke_seen none s = s
revoke_seen (some seen) s = record s { refresh_tokens = revoke_all seen s.refresh_tokens }

unfoldable pub revoke_refresh_token_family : String → Store → Store
unfolding family revoke_all
revoke_refresh_token_family hash s = revoke_seen (family hash s.refresh_tokens) s
