-- ===== src/Lib.antt =====
-- entra-emulator is a local stand-in for Microsoft Entra ID: a security token service with its
-- directory in one SQLite database. Its core is the issuing, redemption and revocation of grants:
-- authorization codes, rotating refresh tokens and device codes.
--
-- The program's parts and the files that model them:
--
--   - internal/store/types.go, directory.go, apps.go, grants.go: Store/Types has the rows, and the
--     database as a record of tables, a table being a list of rows in the order of their insertion.
--     Store/Directory, Codes, Refresh, Devices and Sessions have one function for each method, with
--     the WHERE clause as a test on a row, the primary, unique and foreign keys of the schema as
--     guards, and the rollback of a transaction. Store/Family is the traversal of
--     RevokeRefreshTokenFamily: Links says which rows are linked by a rotation, Fuel that the loop
--     ends, Sound, Complete and Reach what it reaches. Store/Keys has the signing keys, and
--     Store/Deleted the recycle bin for users (deleted.go), with Deleted/Restore on a user that is
--     deleted and restored.
--   - internal/tokens/service.go and keys.go: Tokens/Codes (IssueAuthCode, RedeemAuthCode, verifyPKCE)
--     and Tokens/Rotation (IssueRefreshToken, RedeemRefreshToken). Codes/Redemption and Rotation/Outcome
--     say when they succeed and what they leave, Rotation/Issued follows a refresh token from its issue
--     to its redemption. Tokens/History is a step relation of all four calls;
--     below it, SingleUse follows a code, Chains and Rotations the shape of the table of refresh
--     tokens, and OneLive the tokens of a family that can be redeemed. Tokens/Keys is the rotation of
--     the signing key.
--   - internal/identity: Identity/Resources (azure.go, fabric.go, databricks.go), Identity/Scopes
--     (scopes.go), Identity/Sessions (identity.go), Identity/Devices and Identity/Approval
--     (devicecode.go: the machine endpoints, and the pages for the user). Devices/History is the step
--     relation of the device flow, and Devices/Table what it keeps. Identity/Clients and
--     Identity/Grants (token.go) are authenticateClient and the code and refresh grants, over
--     Tokens/Minting (BuildDelegatedResponse). Identity/Delegation (obo.go, ropc.go) has the
--     on-behalf-of and the password grant, over Tokens/Validation (ValidateAccessToken).
--     Identity/AppOnly is the client credentials grant, over Store/Roles (apps.go, consent.go), with
--     AppOnly/Audience on the one resource that it takes, and
--     Identity/Token is handleToken, from the faults (internal/faults/faults.go, in Faults) to the grants.
--   - internal/identity/authorize.go: Identity/Authorize has the signed state, the answers and the
--     delivery to the client; Authorize/Checks the checks of a request, one function for each, with
--     Checks/Steps, FrontType, Method and Valid on which requests pass; Authorize/Deliver (issueCodeAndDeliver),
--     Authorize/Forms (the sign-in and the consent form) and Authorize/Endpoint (handleAuthorize, and
--     the request object's overlay from requestobject.go). Redirects and the files below it follow the
--     redirect URI through every call, Granted and SignIn say what a code rests on, Exchange follows a
--     code to its redemption, Silent, NoSession and LoginError are about prompt=none, FrontChannel
--     about id_tokens in a query.
--   - internal/identity/logout.go and internal/store/frontchannel.go: Identity/Logout over Store/Logout,
--     with Logout/Out on what a logout leaves.
--   - internal/store/tokenlifetime.go: Tokens/Lifetimes has the policies, their assignments and the
--     policy in force for an application, and Lifetimes/TimeSpan ParseTimeSpan over Text/Integers.
--     Lifetimes/Assigned is about the tables, TimeSpan/Spans about what a text is read as.
--   - internal/audit/audit.go: Audit has the ring buffer and its calls, Audit/Slots the arithmetic of
--     its positions, and Audit/Newest the log that it stands for.
--   - Text has the functions of package strings that these use, Prelude the shared lists and tests
--     and the SQL statements on a list of rows.
--
-- The identity endpoints call the token service, and both call the store. The database has one
-- connection, so statements and transactions run one after another: a history is a sequence of
-- calls, each a function from a store to a result and a store.
--
-- Conventions: a result is `ok` or `err`, and what a failed call wrote stays in the store that it
-- returns. A text column that is NULL in the database is "". Times are seconds as natural numbers,
-- and the clock's reading is an argument. What is random (opaque tokens, user codes) is an argument
-- too. SHA-256, base64 and scrypt are the fields of the record Crypto, the signed tokens those of
-- Minter, and nothing is assumed about either. What fetchRequestObject answers for a request_uri, what
-- MintIDToken answers and what verifyState accepts are arguments of the authorization endpoint. The only loop on fuel is the traversal of a family:
-- two turns for each row and two more are enough, since a hash is pushed at most once as a parent and
-- once as a child.
--
-- Not modelled: errors of the database other than its constraints, the HTTP requests and responses
-- but for their parameters and results, HTML, JSON, percent-encoding, signatures (that the
-- one of a delegated token fails, and the key that the first one for a tenant inserts) and the claims
-- of tokens, the admin and Graph endpoints, SAML, WS-Federation, SCIM, WebAuthn, and the
-- configuration's files.
-- The files below Examples run the theorems on a small directory.
pub mod Prelude
pub mod Text
pub mod Store
pub mod Tokens
pub mod Identity
pub mod Audit
pub mod Faults
pub mod Examples
