-- ===== src/Lib.antt =====
-- A verification library for tui-box, a terminal client and a daemon for sing-box tunnels.
--
-- The program. `tuibox` is a terminal interface (internal/tui) and a command line (internal/cli)
-- over an application service (internal/app). It keeps subscriptions of endpoints
-- (internal/subscription, internal/domain), measures their latency (internal/latency) and asks
-- the daemon `tuiboxd` by RPC (internal/rpc) to connect one. The daemon (internal/daemon) starts
-- and stops the core process (internal/core). What comes from outside is validated
-- (internal/domain) and shown only as safe text (internal/terminaltext).
--
-- Prelude: tests on native numbers, lists, byte strings, a ℤ over native numbers, results of a value
-- or an error, and hexadecimal digits.
--
-- TerminalText (internal/terminaltext/text.go): IsSafeRune is `is_safe_rune`, Valid `valid`,
-- Sanitize `sanitize`. A Go string is a list of bytes. TerminalText.Utf8 writes out how Go decodes
-- (`scan`, on fuel: one unit for each byte, since every step takes at least one; `scan_fuel` shows
-- that more fuel changes nothing) and encodes. The tables of the category Cf and of the graphic
-- characters are the parameter `Tables`.
--
-- Domain (internal/domain/endpoint.go, protocol_options.go, connection.go): `validate` is
-- Endpoint.Validate, made of one function for each of the source's, joined by do blocks: nil is
-- `none`, an error is `some` with what failed. Types of strings that a switch tests are data types
-- with `other` for the rest; int is ℤ. net.ParseIP is a field of the parameter `Library`. Checks
-- has validateString, Names hosts and UUIDs, Tls the TLS and transport options, Options the options
-- of each protocol, Endpoint the rest. Profile and Accepted describe what is accepted as a table
-- and as records.
--
-- Daemon (internal/daemon/service.go): State has Service and session, Stop stopSessionUntil,
-- Install installSessionLocked, rollbackLocked and recordConnectFailureLocked, Connect the
-- function Connect in stages between its early returns, Operations Disconnect, Status, Health,
-- the monitor of a session (`exit`) and Close. The gate lets one operation run at a time, so an
-- operation is a function on the state. What it observes is an argument: the errors of its
-- context at each place where the code asks for it, the results of the runner, how the waits for
-- the process end (`ConnectTrace`, `StopTrace`, `RollbackTrace`, `CloseTrace`). Configurations and
-- processes go by numbers, and the field `log` records what is done to them. A session is known
-- by its number `ident`; rollbackPrevious, a pointer to a session whose mode, route and
-- configuration no longer change, is a copy of these. The generation wraps at 2 ^ 64. Trace has
-- the relation `Step` with one constructor for each operation and for each goroutine that acts
-- later, and `Reach`, its runs. Ownership counts the configurations that are open. Close of the
-- runner removes every configuration that is left, so the count is stated for a service that is
-- not closed.
--
-- Latency (internal/latency/checker.go): the bounds of NewChecker, checkOne given what the dialer
-- and the context return, Check and Best. Check is a state, Pool, with the job that each worker
-- has; `after` says what an event of one goroutine makes of it: a send on the channel of jobs, the
-- test of the context, the end of a checkOne, the return of a worker, the end of the sending loop
-- and the end of the context. Reach holds the runs, in any order of events. The text of an error
-- is represented by its cause.
--
-- Tui (internal/tui/model.go, update.go): Model is the state, Servers and Update the function
-- Update with its helpers; a command is the call of the backend that it makes, with the generation
-- that comes back with the result. The masked URL is a list of runes. The text of an error is
-- taken as it is after sanitizeError.
--
-- Store (internal/state/store.go): a Store is the file's content and whether it is closed. The file
-- lock lets one operation run at a time, so an operation is a function; what else it observes is an
-- argument, `Access`: the errors of the lock and of reading the file, and how the write ends. What
-- the strict decoder makes of the bytes is a constructor of `Content`, and `encode_error` says
-- which snapshots cannot be encoded. Update is given the callback as a function into `Edit`. Runs
-- has the operations of any process as the relation `Step` and their runs as `Reach`.
--
-- Subscription (internal/subscription/identity.go, parser.go): normalizeEndpoint and the identity
-- of an endpoint, and in Parser addEndpoint with the warnings: `Collects` is a run of the functions
-- that parse a format, of which only these calls are modelled. The digests, strings.ToLower,
-- netip.ParseAddr and json.Marshal are the parameter `Digests`.
--
-- Json (internal/strictjson/validate.go, internal/rpc/protocol.go): a text is the list of tokens that
-- json.Decoder returns. `walk` is both validateValue and consumeJSONValue, which differ in their
-- limits and in their tests of a key; its fuel is two turns for each token, one for the value and one
-- for the object or array around it. Tree has JSON values and their tokens. strings.ToLower and
-- unicode.SimpleFold are parameters; foldRune has as much fuel as there are runes, and its rune
-- grows with each turn.
--
-- Rpc (internal/rpc/protocol.go): errors and codes in Codes, requests and responses in Messages. An
-- error is `Cause`, which says what errors.Is finds in it.
--
-- Core (internal/core/config.go): the request of a connection and its validation in Request, the
-- outbound of an endpoint in Mapping, and GenerateConfig in Config, up to json.MarshalIndent. A
-- netip.Prefix is a record of what the code asks of it.
--
-- App (internal/app/service.go): World has the state store, the secret store and the latencies. The
-- callbacks of Update are in Edits; Refresh, Add and Remove have refreshSubscription,
-- AddSubscription and RemoveSubscription in stages between their early returns, Servers
-- loadEndpointSnapshot, CheckLatency and Connect, Batches UpdateSubscriptions, the telemetry setting
-- and Doctor. A trace says what an operation observes in order, and what others do to the world
-- between two calls (`Others`). Entries, Edited, Grown and Turns relate the snapshots before and
-- after a callback, by their lists.
--
-- Tests runs the models on concrete inputs.
--
-- Not modelled: of the application service the sorted views and the calls of the updater; the
-- functions that parse the formats of subscriptions, the server and the client of the RPC protocol,
-- the runner of the core's processes, and the stores of secrets, which are other parts of the
-- program's own logic; and files, processes, sockets, HTTP, updates, rendering and flags, which are
-- calls of the system or of libraries. Timers, and the waiting for the gate of the daemon and for
-- locks, appear only as what they end in.
pub mod Prelude
pub mod TerminalText
pub mod Domain
pub mod Daemon
pub mod Store
pub mod Subscription
pub mod Json
pub mod Rpc
pub mod Core
pub mod App
pub mod Latency
pub mod Tui
pub mod Tests
