-- ===== src/Identity/Logout.antt =====
-- internal/identity/logout.go: the logout endpoint.
pub mod Out
use entra_emulator.Store.Logout.{forget_session_apps, session_logout_uris}
use entra_emulator.Identity.Sessions.{clear_session, tenant_segment}
use entra_emulator.Store.Directory.{has_redirect_uri}
use entra_emulator.Store.Types.{Store}
use entra_emulator.Tokens.Types.{Config}
use entra_emulator.Prelude.{
  String, not, ◌&&◌, Option, none, some, List, [], ◌∷◌, ◌==◌, if◌then◌else◌,
}

-- `cookie` is the value of ee_session, if the request has the cookie, and `hint_audience` the aud of
-- an id_token_hint that decodes, "" otherwise.
pub record LogoutRequest : Type 0 where
  pub tenant : String
  pub cookie : Option String
  pub query : String → String
  pub hint_audience : String

-- The page of the iframes has the logout URIs, where it goes on to ("" for nowhere) and the session.
pub data LogoutAnswer : Type 0 where
  unknown_tenant signed_out : LogoutAnswer
  frontchannel : (uris : List String) (target sid : String) → LogoutAnswer
  redirect : (target state : String) → LogoutAnswer

-- The client of the request: client_id, or what the hint says.
unfoldable pub logout_client : LogoutRequest → String
logout_client r =
    if r.query "client_id" == "" && not (r.query "id_token_hint" == "")
    then r.hint_audience
    else r.query "client_id"

unfoldable pub validated_post_logout_redirect : Store → LogoutRequest → String
validated_post_logout_redirect s r =
    if r.query "post_logout_redirect_uri" == ""
    then ""
    else if logout_client r == ""
    then ""
    else if not (has_redirect_uri s (logout_client r) (r.query "post_logout_redirect_uri"))
    then ""
    else r.query "post_logout_redirect_uri"

abbrev pub session_of : Option String → String
session_of none = ""
session_of (some id) = id

abbrev pub notified_of : Store → Option String → List String
notified_of s none = []
notified_of s (some id) = session_logout_uris s id

-- clearSession, and the session's list of applications.
unfoldable pub ended : (session_id : String) → Store → Store
ended session_id s =
    let t = clear_session session_id s in
    if not (session_id == "") then forget_session_apps session_id t else t

unfoldable pub post_logout : Store → LogoutRequest → LogoutAnswer
post_logout s r =
    if r.query "post_logout_redirect_uri" == ""
    then signed_out
    else if logout_client r == ""
    then signed_out
    else if not (has_redirect_uri s (logout_client r) (r.query "post_logout_redirect_uri"))
    then signed_out
    else redirect (r.query "post_logout_redirect_uri") (r.query "state")

abbrev pub logout_answer : Store → LogoutRequest → List String → LogoutAnswer
logout_answer s r [] = post_logout s r
logout_answer s r (uri ∷ uris) =
    frontchannel (uri ∷ uris) (validated_post_logout_redirect s r) (session_of r.cookie)

unfoldable pub handle_logout : Config → LogoutRequest → Store → LogoutAnswer × Store
handle_logout cfg r s =
    if not (tenant_segment cfg s r.tenant).1
    then (unknown_tenant, s)
    else let t = ended (session_of r.cookie) s in (logout_answer t r (notified_of s r.cookie), t)
