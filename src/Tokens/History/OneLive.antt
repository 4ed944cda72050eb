-- ===== src/Tokens/History/OneLive.antt =====
-- The refresh tokens of a family that are not revoked.
use entra_emulator.Prelude.{
  String, ◌≡◌, refl, sym, ap, subst, ◌∙◌, ◌≢◌, false, some, List, arith, In, select_first,
}
use entra_emulator.Store.Types.{RefreshToken, Store}
use entra_emulator.Store.Refresh.{has_hash}
use entra_emulator.Store.Family.Links.{Next, child, parent, Linked, here, next, select_first-Unique}
use entra_emulator.Tokens.Types.{Config, Crypto}
use entra_emulator.Tokens.History.{Steps}
use entra_emulator.Tokens.History.Chains.{IsChained}
use entra_emulator.Tokens.History.Rotations.{Steps-IsChained}

-- The hashes that a token was rotated from, in any number of steps.
data Above (rows : List RefreshToken) (a : String) : String → Type 0 where
  self : Above rows a a
  up :
      {b c : String}
      → Above rows a b
      → (t : RefreshToken) → In t rows
      → t.token_hash ≡ b
      → t.rotated_from ≡ c
      → c ≢ ""
      → Above rows a c

module _ (rows : List RefreshToken) (h : IsChained rows) where
  same_row : (t u : RefreshToken) → In t rows → In u rows → t.token_hash ≡ u.token_hash → t ≡ u
  same_row t u i j e =
      let first = select_first-Unique t rows h.unique i in
      let second = select_first-Unique u rows h.unique j in
      let both : some t ≡ some u =
        sym first ∙ (ap (λ k. select_first (has_hash k) rows) e ∙ second) in
      ground arith

  -- A live token has no successor.
  live_childless :
      (r t : RefreshToken)
      → In r rows
      → In t rows
      → r.revoked ≡ false
      → t.rotated_from ≢ ""
      → t.rotated_from ≢ r.token_hash
  live_childless r t i j live full e =
      let p = h.lineage t j full in
      let same = same_row p.row r p.listed i (p.token ∙ e) in ground (arith, p.used)

  Linked-Above :
      (r : RefreshToken) (x : String)
      → In r rows
      → r.revoked ≡ false
      → Linked rows r.token_hash x
      → Above rows r.token_hash x
  Linked-Above r x i live here = self
  Linked-Above r x i live (next {b} {c} l n) = at b c (Linked-Above r b i live l) n
    where
      at : (b c : String) → Above rows r.token_hash b → Next rows b c → Above rows r.token_hash c
      at b c above (parent t j from to full) = up above t j from to full
      at b c self (child t j from full to) =
          absurd (live_childless r t i j live (λ z. full (sym from ∙ z)) from)
      at b c (up before u k from' to' full') (child t j from full to) =
          subst (Above rows r.token_hash)
            (sym from' ∙ (h.one_child u t k j (λ z. full (sym to' ∙ z)) (to' ∙ sym from) ∙ to))
            before

  live_top :
      (r u : RefreshToken)
      → In r rows
      → In u rows
      → u.revoked ≡ false
      → Above rows r.token_hash u.token_hash
      → r.token_hash ≡ u.token_hash
  live_top r u i j live above = go u.token_hash refl above
    where
      go : (x : String) → u.token_hash ≡ x → Above rows r.token_hash x → r.token_hash ≡ u.token_hash
      go x e self = sym e
      go x e (up before t k from to full) =
          absurd (live_childless u t j k live (λ z. full (sym to ∙ z)) (to ∙ sym e))

-- After any calls of the service on a store whose refresh tokens are in chains (an empty table is),
-- two tokens of one family that are both not revoked are the same row: at most one token of a
-- family can be redeemed.
pub Steps-one_live :
    (c : Crypto) (cfg : Config) (s t : Store) (a b : RefreshToken)
    → IsChained s.refresh_tokens
    → Steps c cfg s t
    → In a t.refresh_tokens
    → In b t.refresh_tokens
    → a.revoked ≡ false
    → b.revoked ≡ false
    → Linked t.refresh_tokens a.token_hash b.token_hash
    → a ≡ b
Steps-one_live c cfg s t a b h steps i j live live' l =
    let k = Steps-IsChained h steps in
    same_row t.refresh_tokens k a b i j (
      live_top t.refresh_tokens k a b i j live'
        (Linked-Above t.refresh_tokens k a b.token_hash i live l))
