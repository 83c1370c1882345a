-- ===== src/Lib.antt =====
-- nexus-control: the control plane of Nexus, which keeps the accounts, organizations, sessions,
-- execution nodes, agents and subscriptions of one deployment and tells its clients by a sequence of
-- events what has changed.
--
-- The program's parts. Package internal/storage/auth runs every operation as one SQL transaction on
-- the tables of db/migrations; package internal/service/auth normalizes the input, hashes secrets,
-- calls the operations and maps their errors; package internal/handler/auth serves HTTP;
-- internal/config, internal/infra/logx, internal/storage, internal/app/server and cmd/nexus-control
-- start the process. The transactions and the service are modelled.
--
-- State. `Db` (Schema.antt, its children one per group of migrations) is a record of the tables, each
-- the list of its rows; an INSERT appends. A text is the list of its code points, an instant is
-- the number of microseconds since 1970, the precision of the database, and the sets of texts that the
-- CHECK constraints allow are enumerations.
--
-- Transactions. `Tx` (Tx.antt) is a state monad whose `quit` is a Go `return` before the commit: what
-- was written is undone. `beginIdentityWrite` and `lockControlState` lock one row for the time of a
-- transaction, so transactions run one after the other and each is one step from a `Db` to a `Db`;
-- an interleaving of requests is a sequence of such steps. The few writers without that lock,
-- `CreateSession`, `TouchSession`, `SettlePasswordChange` and `UpsertOwnedAgent`, are one step as
-- well. The number of an event is taken back with its transaction; a sequence of PostgreSQL keeps it,
-- which leaves a gap in the numbers. Errors of the connection and the driver are not modelled. A statement that a key or
-- an index refuses is the error `constraint`, tested where the statement stands; foreign keys are
-- tested where the code has not checked the parent row before. `Post` is a Hoare logic for these transactions.
--
-- The files. Base.antt: helpers, texts, and the reads and writes of a table (find, any, select,
-- update, delete, sort_by) with their laws. Strings.antt: `strings.TrimSpace`, `len`,
-- `nullableString`. Under Store, by files of internal/storage/auth:
--   Events, identity_invalidation.go and the other appends; Principals, the permission checks;
--   Memberships, the statements on memberships; Organization, organization.go; Resolution and
--   Sessions, session.go; Accounts, DeploymentMembers, deployment_member.go; Members, member.go;
--   Invitations, invitation.go; Passwords, password.go; Nodes, node.go; Agents, agent.go; Plans and
--   Entitlements, entitlement.go; Registration, registration.go and parts of account.go; Setup,
--   `CreateOwner` of account.go; Listings, the sorted reads of members, nodes and invitations;
--   SubscriptionAccounts, the accounts with their plans.
-- Under Service, by files of internal/service/auth:
--   Validate, validate.go; Records, the types of model.go; PasswordHash with Base64, password.go;
--   Signing, signing.go; Sessions, service.go; Passwords, user.go;
--   Members, member.go and deployment_member.go; Invitations, invitation.go; Organizations,
--   organization.go; Agents, agent.go; Nodes, node.go; Entitlements, entitlement.go and
--   identity_invalidation.go.
-- Config/DotEnv.antt is the parser of .env files, internal/config/loadenv.go, over bytes; Config/Bytes
-- is what it uses of bytes, strings, unicode and regexp. Its loop runs on fuel, one more than the
-- bytes of the file, since a round reads at least one byte (Config/DotEnvBounds). PlainText,
-- PlainLines and DotEnvRoundTrip are about files of plain lines.
-- An operation has the Go function's name in snake_case, its transaction `_body`. Proofs stand in
-- Owners, Governance, Frames, Untouched and the files that end in Laws or Outcomes; Reachable is the
-- step relation of the operations of the store; Apart shows which of them leave the organizations
-- alone; Serving puts the requests to the service on top of it; Duties says which step
-- an administrative request is for, and Permissions is about that. Runs at concrete inputs stand in
-- Tests.
--
-- The service. `Act` (Service/Act.antt) is what a request does from its start to its reply: it reads
-- the clock, draws random texts, and asks and commands the store, in the order of the code. `Env` is
-- everything around a request: the clock, the random source, SHA-256 and argon2, and `others`, which
-- says what other requests do to the database each time before this one reaches it. A theorem for
-- every `Env`, or for every fair one, whose `others` are operations of the store too, is therefore
-- one for every interleaving. The JSON text of the claims and the Ed25519 signature are parameters of
-- the signer. `Ensures` is a Hoare logic for requests.
--
-- Loops of the code run over rows that were read before, so they are structural recursions; but
-- for the parser of .env files no definition needs fuel. Nodes keep the list of agents where the
-- table has its JSON text; a missing list and an empty one are the same. An ORDER BY compares texts
-- by code points, and rows that compare equal stay in the order of the table.
--
-- Not modelled: the import of another installation; the handlers; the rest of the configuration,
-- logging and the start of the process; the reading of key files for the signer; the driver
-- of the database.
pub mod Base
pub mod Schema
pub mod Tx
pub mod Strings
pub mod Store
pub mod Service
pub mod Config
mod Tests
