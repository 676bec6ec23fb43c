-- ===== src/Lib.antt =====
-- Faultline puts faults into the traffic of a proxy. A configuration names proxies with rules; a rule has a
-- matcher, a selector and a fault. For each request the engine finds the first rule that matches and lets its
-- selector say whether this request gets the fault; the executor and the wrapped body then perform it, and the
-- recorder counts and writes the events.
--
-- Config models internal/config: Config/Model the structs of config.go, Config/Document its document,
-- Config/Errors the errors of parse.go with a result type for Go's error returns, Config/Names, Selector,
-- Faults, Pattern and Rules the validators of validate.go (`identifier` and `token`, `validateSelector`,
-- `validateFault`, `validPathPattern`, `validateRule`, `validateTCPRule`, `validateCommitRule`). A validator that
-- writes to its argument returns the value that it leaves. Config/Listener, Upstream and Validate are `validate`
-- itself, Config/Tls `validateTLS` of tls.go, Config/Load `finish` of load.go and Config/Fingerprint `newDocument`;
-- Config/Platform is the interface for the standard library and the files. The loop over PEM blocks runs on fuel,
-- a round for each byte of the file.
--
-- Control models internal/control/service.go: Control/Service `New`, `NewManaged`, `SetEnabled`, `Apply`,
-- `ApplyRevision`, `Reload` and the decisions of a snapshot. A snapshot points into the list of all revisions, so
-- that an old one still shares its engine; the function that persists is a parameter over what it has written.
--
-- Engine models internal/engine/engine.go: Engine/Match `matches` and `matchesPathPattern`, Engine/State `New`,
-- `Decide`, `selectAttempt` and `Counters`. The engine is an association list from proxy IDs to the states of
-- their rules; the random generator and SHA-256 are parameters. The loop over path segments runs on fuel, one
-- round more than the pattern has bytes, which is enough since each round cuts a byte off the pattern.
--
-- Fault models internal/fault: Fault/Builtin `Execute` of builtin.go over an interface `Flow` for the capabilities
-- of the adapter, its context and its clock; Fault/Body `WrapBody` and `Read` of body.go over an interface `Reader`.
--
-- Recorder models internal/recorder/recorder.go: `Record`, the writer goroutine and `Close` are steps on one state,
-- and a run is any sequence of them.
--
-- Remote models internal/control/remote: Remote/Store the state file of store.go, with one attempt of the file
-- system for each write, Remote/Accounts auth.go, and Remote/Server, Login, Handler and Draft the server of
-- server.go. A request comes with its decoded body, the clock, the accounts and the random texts; the answer is
-- the status and what kind of content it has. Remote/Kept and Requests carry a property through every branch of the handler.
--
-- Grpc models internal/proxy/grpc/protocol.go: Grpc/Timeout the timeout header, Grpc/Metadata `Metadata`, and
-- Grpc/RoundTrip follows a duration through both functions of the header. A number is printed on fuel for twenty
-- digits, which no number of 64 bits exceeds; Common/Digits relates what is printed to what is read.
--
-- Http models internal/proxy/http/handler.go: Http/Report `Report`, `event`, `errorKind` and `hasUpgrade`, Http/Flow
-- the methods of `flow` as an instance of the executor's interface, Http/Handler the closures of `ServeHTTP` with the
-- calls that `httputil.ReverseProxy` makes of them, and Http/Serve `ServeHTTP` with its deferred functions. The state
-- holds the variables that the closures share, with the recorder and the slots that all requests share; what other
-- requests do to these two meanwhile is left out. A `World` has what the clock, the client, the upstream and the
-- engine do: the context ends at some time of the handler's clock, which ticks before each reading of `ctx.Err()`
-- that waits for something.
-- A panic with `http.ErrAbortHandler` is an exit of the handler, behind which the deferred functions still run.
-- Http/Sound says what validation gives of a fault, and Http/Kept, Executed, Acted, Done, Copied, Relayed, Settled and
-- Admitted follow one request from the executor outwards. A word between spaces is found on fuel, a round for each byte.
--
-- Mysql models internal/proxy/mysql: Mysql/Wire the packets, numbers and statements of wire.go, Mysql/Greeting
-- `greeting` of auth.go, Mysql/Session `cycle` of session.go and Mysql/Exchange its `exchange` and `commit`. The
-- packets that each side sends are lists, and each side takes a number of packets before a write fails. The loop
-- over the rows of a result runs on fuel, one round more than the server has packets left, and each round takes one.
-- Mysql/Quiet is about the steps that record no event, Mysql/Confirmed and Asked about the events of a cycle and of a
-- round, and Mysql/Lost about a COMMIT from the client's packet on.
--
-- Postgresql models internal/proxy/postgresql: Postgresql/Wire the frames of wire.go, Postgresql/Startup
-- `validStartup`, Postgresql/Authentication `authenticate` and Postgresql/Exchange `exchange` of session.go. A round
-- of the authentication holds what the server and the client send, the random key and the failures of the writes;
-- a frame of the exchange holds whether its write fails and what the engine would decide.
--
-- Tcp models internal/proxy/tcp/server.go: Tcp/Fault `faultState` with its timers as steps, Tcp/Pump `pump`, and
-- Tcp/Connection `serve` and `waitBeforeDial`. What
-- is read, how much of each chunk is taken and what other goroutines do meanwhile are lists.
--
-- Common has what the parts share: tests on numbers, equality as a class, texts as lists of bytes, integers, and
-- floating point numbers as multiples of 2^-1074, which every finite number of the format is. Examples holds
-- concrete inputs.
--
-- A nil pointer or a division by zero that would panic is `none`, or `panicked` of an engine's outcome. A uint64
-- counter wraps at 2^64. A lock makes the operation that holds it one step.
--
-- Not modelled: YAML decoding and the inclusion of files, the formats of JSON, URLs and certificates, JSON output,
-- the texts of library errors in the answers of the remote server, the clock, the
-- length of the pauses of a throttled body, an unbuffered event queue (the program's queue holds 1024), the
-- transport and the deadlines of the HTTP proxy, the Content-Type that it guesses, the listeners, the socket of the
-- admin interface and the command line, which are calls of the system.
pub mod Common
pub mod Config
pub mod Control
pub mod Engine
pub mod Fault
pub mod Grpc
pub mod Http
pub mod Mysql
pub mod Postgresql
pub mod Recorder
pub mod Remote
pub mod Tcp
pub mod Examples
