-- ===== src/Lib.antt =====
-- A model of hosthalla, a server that keeps an inventory of hosts and of the agents on them.
--
-- The program's parts and the files that model them:
--   internal/host/service.go is the host service: hosts and tags are Host/Service/Hosts.antt,
--   management methods (SSH credentials with a sealed secret) Host/Service/Methods.antt, the ping
--   Host/Service/Ping.antt, metrics and system information Host/Service/Metrics.antt, ports
--   Host/Port.antt and the normal form of tags Text/Normalize.antt. internal/host/secret_cipher.go is
--   Host/Cipher.antt. internal/host/sqlite is Host/HostRepository.antt, Host/MethodRepository.antt,
--   Host/SnapshotRepository.antt and Host/SystemInfoRepository.antt, over the tables of Schema.antt.
--   internal/agent/service.go is Agent/Service.antt, and its cache of collected metrics, which the
--   agent's goroutines share, Agent/Collector.antt. internal/agent/sqlite is Agent/Repository.antt,
--   internal/agent/runtime.go Agent/Runtime.antt, internal/agent/file_config.go Config/AgentFile.antt.
--   internal/authentication is Auth/Service.antt over Auth/Repository.antt and Auth/Tokens.antt, with
--   its tables in Auth/Tables.antt; internal/api/middlewares/api_token.go is Auth/Middleware.antt.
--   internal/api/handlers is Api/Hosts.antt and Api/Agents.antt, which call the services above.
--   internal/events/in_memory.go is Bus.antt.
--   internal/web/handlers/hosts.go is Web/Forms.antt (lists in queries and forms), Web/HostsPage.antt
--   (filter and order of the page), Web/Hosts.antt, Web/Methods.antt and Web/Transfer.antt (handlers of
--   hosts, of their methods, and of export and import); the texts of the page's badges, from
--   ui/pages/hosts_page/model/host_metrics.go, are Web/Badges.antt. In internal/web/handlers,
--   administration.go is Web/Administration.antt, and dashboard.go Web/Dashboard.antt (updates and the
--   queues of clients), Web/Dashboard/Page.antt (the data of the page) and Web/Dashboard/Live.antt (what
--   an update renders); auth.go and internal/web/middlewares/auth.go are Web/Sessions.antt. Web/Request.antt is what a handler reads
--   of a request, and its answer as a value: refused, redirected, or rendered from some data.
--   internal/cli is Cli/Command.antt, Cli/Errors.antt, Cli/Resolve.antt and Cli/Execute.antt.
--   internal/config/app_config.go is Config/App.antt.
-- Base.antt and the modules under it hold what the parts share, Text.antt what they take from Go's
-- strings package, Model.antt the structs, and Tests.antt the data that the runs stand on.
--
-- A service or a repository is code in the monad of Base/Effects.antt, which passes a state on and
-- keeps it beside an error too. The state (Base/Sql.antt) is the tables, the events that were
-- published, and the world: which driver calls fail, which identifiers are drawn, what the clock and
-- the random source give are arbitrary streams. A statement changes the tables or fails by a
-- constraint; a transaction that fails puts them back.
--
-- What goroutines share is a state with a step relation (Agent/Runtime.antt, Agent/Collector.antt),
-- whose steps are the critical sections and the operations on channels, in any order. The channel of a
-- dashboard client is a list, which one goroutine at a time signals; how many updates the client takes
-- in between, and between the selects of one signal, is arbitrary.
--
-- Identifiers are numbers (texts in the authentication), a string is the list of its code points, and
-- an instant is a number. Loops are structural recursion over lists; the one on fuel is that of
-- formatBytes, whose fuel of 7 is above the six divisions by 1024 that an uint64 can take. The machine
-- integers that the code converts or multiplies keep their wrap-around: the uint16 of a port, the
-- divisor of formatBytes, and the nanoseconds of a token's lifetime.
--
-- Parameters: bcrypt, SHA-256, AES-GCM, the JSON of keys and of the import, uuid.Parse,
-- netip.ParseAddr, the flag package, YAML, base64, the ping command, the SSH check, the arithmetic of
-- float64 (the record Float64 of Web/Badges.antt), and lower case beyond ASCII (the instance Unicode
-- of Text.antt).
--
-- Not modelled: the PostgreSQL repositories, a second implementation of the same interfaces; the
-- commands' printing and prompting; the SSH check; the agent's worker and HTTP client; how the data
-- of the administration page is collected, the templates and the websocket; the opening and
-- migrating of databases; configuration files on disk; logging.
pub mod Base
pub mod Text
pub mod Web
pub mod Bus
pub mod Model
pub mod Schema
pub mod Host
pub mod Agent
pub mod Auth
pub mod Api
pub mod Cli
pub mod Config
pub mod Tests
