-- ===== src/Lib.antt =====
-- Verification of SecuMSG-Server, an end-to-end encrypted messenger: a Go library with the
-- cryptographic protocol (services/crypto-core) and the Go services around it.
--
-- Parts of the program and their modules:
-- - services/crypto-core/types.go, errors.go: CryptoCore/Types. A struct is a record with the
--   source's fields, a fixed array a list of bytes, a map an association list.
-- - services/crypto-core/core.go: CryptoCore/Random (readRandom, generateX25519KeyPair) and
--   CryptoCore/Device (GenerateIdentityKeypair, rotateSignedPrekey, PublishPrekeyBundle).
-- - services/crypto-core/session.go: CryptoCore/Session (InitSession, AcceptSession). Its input
--   is the bundle that another device publishes, its output the session that the ratchet works
--   on.
-- - services/crypto-core/ratchet.go: CryptoCore/Ratchet (Encrypt, Decrypt, the two rotations,
--   the key chains and the store of skipped keys).
-- - services/crypto-core/state.go: CryptoCore/State (Export, ImportDevice, ExportSession,
--   ImportSession).
-- - services/keys/internal (service/service.go, store, domain, dto): Keys/Types, Keys/Store and
--   Keys/Service (RegisterDevice, GetPreKeyBundle, RotateSignedPreKey). The Postgres tables are
--   lists of rows; gorm's statements and transactions are a record of parameters, Database. The
--   service hands out the bundles that InitSession of services/crypto-core takes.
-- - services/messages/internal (service/service.go, store/message.go): Messages/Store and
--   Messages/Service (Enqueue, Pending, MarkDelivered, History, Conversations, DeleteForDevice),
--   with the queries that gorm answers and what the jsonb and timestamptz columns keep as a
--   record of parameters; Messages/Sent is what Enqueue writes, Messages/Mailbox is the contract
--   of the service, a box of waiting messages, and Messages/Refinement relates the two.
-- - services/messages/internal/transport/http/router.go: Messages/Http (extractToken,
--   requireAuth, handleSend, handleHistory, handleConversations, handleDeleteMe), with the auth
--   service, base64, JSON and time as a record of parameters; its results in
--   Messages/Http/Guarded, Reading and Deletion.
-- - services/messages/internal/msgjson/json.go, the column for the headers of those messages:
--   Messages/Json; json.Valid is a parameter.
-- - services/auth/internal/service/impl/password_service_impl.go: Auth/Password (Hash, Verify),
--   with Argon2id, encoding/json and the random source as a record of parameters.
-- - services/auth/internal/netutil/netutil.go: Auth/UserAgent (TruncateUserAgent) and Auth/Ip
--   (NormalizeIP), with net/netip as a record of parameters.
-- - services/auth/internal/domain, internal/dto, internal/store: Auth/Types and Auth/Store
--   (Sessions, Devices, Users), the statements as actions on a record of tables, run by the
--   database of Database.antt; the text that the jsonb column params_json gives out is a
--   parameter, and the times of these tables and of those of services/keys are numbers that
--   their columns keep.
-- - services/auth/internal/service/impl/token_service_impl.go: Auth/Claims (the claims, and
--   golang-jwt as a record of parameters with its laws), Auth/Tokens (Issue, Refresh in its two
--   halves, RevokeSession) and Auth/Verify (VerifyAccess); Auth/Tokens/Steps is the relation of
--   the calls in any order, Reads, Revoked, Replay and Issued what they keep and write, and
--   Accepted, Lasting, Once and Race the results.
-- - services/auth/internal/service/impl/device_service_impl.go: Auth/Devices, its revocation in
--   Auth/Devices/Revocation.
-- - services/auth/internal/service/impl/auth_service_impl.go: Auth/Accounts (Register, Login),
--   with its results in Auth/Accounts/Login (and the end of Login in Admission) and FirstLogin.
--   What time.Now and uuid.New give in a call is an argument of the handlers (Draws,
--   AccountDraws).
-- - services/gateway/internal/authz/hmac.go: Gateway/Hmac, the middleware from the Authorization
--   header to the answer, with golang-jwt as a record of parameters.
-- - The tests for nil pointers at the head of each exported function: CryptoCore/Checked.
--
-- Stateful code is a function from a state to a result and the new state (Common/Actions); what
-- was written before an error stays written. A uint32 is a number with its wrap-around written
-- out (Bytes.inc32). The cryptography (X25519, Ed25519, SHA-512, HMAC, HKDF, ChaCha20-Poly1305)
-- and the order of a map's range are a record of parameters, CryptoCore/Primitives; its
-- documented laws are a second record, and CryptoCore/Sample has an instance that meets them, on
-- which the witnesses of that library run. Base64 is a parameter too. The loop of Decrypt runs
-- on fuel header.N - index, which is the number of its rounds; a theorem on the loop below
-- states that it ends there.
--
-- Not modelled: the HTTP layer of services/auth and its DeleteUserData, the proxy and the key
-- sets of services/gateway, the router of services/keys, the websocket and client handlers of
-- services/messages, the client library services/messages/pkg/msgclient, DeleteUserData of
-- services/keys; logging, metrics, start-up, the front end and the deployment files. JSON
-- encoding, and copies of byte slices that nothing else holds, have no part in the model.
pub mod Auth
pub mod Bytes
pub mod Common
pub mod CryptoCore
pub mod Database
pub mod Gateway
pub mod Keys
pub mod Messages
pub mod Text
pub mod Uuid
