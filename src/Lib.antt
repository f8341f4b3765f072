-- ===== src/Lib.antt =====
-- The backend of pihole-cluster-admin: a server that administers several Pi-hole instances at
-- once.
--
-- Parts. A configuration is read and validated (Config). Browsers log in and get a session
-- (Auth, Sessions), and users change their names and passwords (Users); the setup creates the
-- first user and tracks the status of the first Pi-hole (Setup). A cluster (Pihole/Cluster)
-- holds one client for each Pi-hole (Pihole/Client) and runs an operation on all of them at
-- once; pages of query logs are tied together by snapshots under a cursor (Pihole/Cursor). The
-- nodes of the cluster are rows of the database with encrypted passwords (Nodes, Crypto), and
-- the handlers check the requests before they reach the services (Nodes/Handler, Api). Events go
-- to browsers through a broker (Realtime) and their streams (Api/Events), among them the health of
-- the nodes (Health). App puts the parts together: the start from a configuration, and the routes by
-- which the requests reach the handlers. All sources are under backend/internal, but for the command
-- in backend/cmd/pihole-cluster-admin/root.go:
--   Text             the parts of Go's `strings` that are used
--   Httpx            transport/httpx/error.go and json.go: errors with a kind, and replies
--   Domain           domain/*.go: the shared data
--   Durations        the arithmetic of time.Duration, which wraps around in an int64, and Time.Add
--   Pihole/Rule      pihole/rule.go, and parseDomainPath of handler/domainrulehandler/handler.go
--   Pihole/Types     pihole/pihole_types.go, pihole/cluster_types.go
--   Pihole/Cursor    pihole/cursor.go: CreateCursor, GetSearchState, Clear
--   Pihole/Client    pihole/client.go: Login, ensureSession, doRequest, Logout; Calls has the API
--                    calls, Params the parameters of a search as the API names them, and Port shows
--                    a client as the interface that the cluster uses
--   Pihole/Cluster   pihole/cluster.go: forEachClient as `for_each_client`, the membership, the
--                    operations on rules (Rules) and FetchQueryLogs (QueryLogs)
--   Sessions         sessions/session_manager.go over an interface `Storage`; Memory and Sqlite are
--                    its two implementations, with store/session.go; Purge is the purge loop
--                    between the requests
--   Auth             service/authservice/service.go, and ValidateUser of store/user.go
--   Realtime         realtime/broker.go: Subscribe, its cancel, Publish
--   Health           service/healthservice/service.go: sweepOnce, recomputeLocked; Loop is its
--                    loop, Sweep has a sweep between the cluster and the broker, and jitter
--   Crypto           crypto/crypto.go
--   Nodes/Store      store/pihole.go
--   Nodes/Service    service/piholeservice/service.go, and app/client.go, over the store and the
--                    cluster; Steps runs its operations, Start is a restart
--   Nodes/Handler    handler/piholehandler/handler.go
--   Users            store/user.go, service/userservice/service.go; Users/Handler is
--                    handler/userhandler/handler.go; Updates and Changes have the lemmas on a
--                    changed row, First has the setup's CreateUser over the store
--   Config           config/config.go: validate; newSessionStorage of app/app.go; Load has the
--                    loading of the configuration with its defaults, and the flags of root.go
--   Api              handler/domainrulehandler/handler.go, handler/queryloghandler/handler.go,
--                    handler/authhandler/handler.go, handler/setuphandler/handler.go (Logins),
--                    handler/eventshandler/handler.go (Events; Events/Stream is handleEvents with
--                    the goroutine of service/eventsservice/service.go), and the choices of
--                    handler/frontendhandler, middleware/requestlogger.go and the handlers of the
--                    health (Frontend)
--   App              app/app.go: the route table with the Register methods of the handlers
--                    (Routes), and New (Start); database/database.go (Database); server/server.go
--                    (Server); the command of root.go with Run of app/app.go (Command)
--   Fields           the tests on texts and numbers that Nodes/Handler and Config share
--   Setup            service/setupservice/service.go, domain/init_status.go; Stored is
--                    store/init_status.go over the SQL statements, with Scan and Value
--
-- Correspondence. A method that changes an object is a function from the object to a result and
-- the new object, with the source's name in snake case; `(value, error)` is `Result`, a nil
-- pointer is `none`, a map is an association list (Prelude/Maps), int and int64 are ℤ of
-- Prelude/Int, times are nanoseconds in ℕ, and a duration that is computed from the configuration is
-- an int64 of nanoseconds, with its wrap-around. A method that holds a mutex is one step.
-- A fan-out takes the order in which the goroutines finish as an argument, and its theorems hold
-- for every order. The broker's theorems hold for every sequence of steps of `Step`, that of the
-- loop of the health service for every list of `Event`, and those of a stream for every list of
-- `Action`; a stream beside the broker in use is a state of `Live`, and the sessions with the
-- purge between the requests are states of `Managed`. No definition needs fuel: all other loops
-- run over lists.
--
-- Parameters, with laws as named hypotheses where a theorem needs them: the network, the clock and
-- the JSON decoders (`Http`), the SQL statements (`SessionTable` and `PiholeTable` with a
-- `TableLaws` each, `ListLaws`, `UserTable` with `UserLaws` and `CountLaws`, `InitTable`, `RowTable`
-- with `RowLaws`), AES-GCM, base64 and bcrypt (`Cipher` with `CipherLaws`, `Bcrypt` with
-- `BcryptLaws`, which says that a hash agrees with the password it was made from), strings.ToLower
-- for the names of users (a field of `UserTable` and `AuthPort`; Text has its values where the
-- program compares them with ASCII words), the user store as the setup and the logins see it
-- (`SetupPort`, `AuthPort`), cobra's reading of the arguments (`Invocation`),
-- random ids and nonces, files (`Files`), the decoders of requests, the client as the cluster and
-- the services see it (`ClientPort` with `ClientLaws`), viper (`Viper` with `ViperLaws`), chi
-- (`Router` with `RouterLaws`), the drivers of the database (`Driver`), and json.Marshal of the
-- health (`Encoders`).
--
-- Not modelled: calls of one client that overlap, calls of the cluster's other methods during a
-- fan-out, requests on nodes that overlap, timeouts beyond the errors that they cause, and log
-- lines, which the theorems do not need; when the tickers of the health service, of the session
-- purge and of a stream fire, which is left open; what net/http, chi's other middlewares and the
-- migrations do, which is code of others; the logger, the adapters between interfaces and the
-- files of the frontend, which are input and output.
pub mod Prelude
pub mod Text
pub mod Users
pub mod Httpx
pub mod Domain
pub mod Durations
pub mod Pihole
pub mod Sessions
pub mod Realtime
pub mod Setup
pub mod Health
pub mod Api
pub mod App
pub mod Auth
pub mod Fields
pub mod Config
pub mod Crypto
pub mod Nodes
