-- ===== src/Lib.antt =====
-- The browser controller of Veidemann: it takes pages from a frontier, fetches each with a
-- browser session, answers the harvester's proxy about every request that the browser makes,
-- and reports the page with its outlinks to the frontier.
--
-- main (Main: main.go) connects to the services with the options of Connections/Options
-- (serviceconnections/options.go; Connections: serviceconnections/connect.go) and runs the
-- controller, with the level of logging that Logger (logger/logger.go) sets. The controller
-- (Controller: controller/browsercontroller.go, with the options of Controller/Options:
-- controller/options.go) takes a session from the session registry (Registry:
-- session/registry.go), which makes it with Session/Create (New in session/session.go), and a
-- page from the frontier, starts a goroutine that fetches it, and reports through the frontier
-- client. Controller has what its branches do with the variables of the loop, and
-- Controller/Run is the whole of Run, with the registry of the sessions, the goroutines of the
-- pages, the API server, Shutdown, and CloseWait at the end. The frontier client reports a page
-- (Frontier: frontier/frontier.go, with the metrics that it counts in Frontier/Metrics:
-- metrics/metrics.go; Wire has the gRPC streams that the clients send on); Connections/Clients
-- has the making and connecting of the frontier's client, the robots evaluator's, the
-- screenshot writer's and the log writer's (frontier/frontier.go,
-- robotsevaluator/robotsevaluator.go, screenshotwriter/screenshotwriter.go,
-- logwriter/logwriter.go), and the frontier's next page.
--
-- A fetch (Session/Fetch, with the order of its steps in Session/Fetch/Sequence: Fetch in
-- session/session.go) keeps the requests of the page in a request registry (Requests:
-- requests/requests.go), waits with a wait group and two completion timers (Syncx:
-- syncx/waitgroup.go, syncx/completiontimer.go), and runs the scripts of each phase (Script:
-- script/script.go; Session/Scripts and Session/Phases: session/script.go), which come from the
-- database through a cache (Database: database/cache.go, database/dbadapter.go,
-- database/database.go, where Database/Session is the connection with its reconnecting;
-- Database/Codec: database/codec.go). Session/Events is the listener of the browser's events
-- (session/eventlisteners.go). The end of a fetch takes a screenshot (Session/Screenshot:
-- saveScreenshot; Screenshot: screenshotwriter/screenshotwriter.go), extracts the outlinks
-- (Session/Outlinks: extractOutlinks, with the cookies of Session/Cookies and the normalization
-- of Url: url/normalize.go) and writes the logs (Session/Harvest). Session/Steps has the
-- deferred calls and the recovery.
--
-- Meanwhile the server (Server: server/server.go) handles the messages of the proxy, which
-- change the sessions and their requests, with the time-outs of Server/Timeouts
-- (server/interruptablejob.go), and asks the robots evaluator (Connections/Robots:
-- robotsevaluator/robotsevaluator.go). Server/Lifecycle makes and starts this server and counts
-- its calls (server/server.go, server/statshandler.go). Errors (errors/error.go) has errors as
-- values, Config the messages of the API with the fields that are read, and Prelude the names
-- that all modules share.
--
-- How state is modelled:
-- A pointer to a request is its index in the registry, which only grows, and a pointer to a
-- session its address in a heap of all sessions; nil is none. A map is an association list. A
-- call that may fail or panic returns Go, or an Option in which none is the panic. The server's
-- cases are rows of calls over the variables of Do, which end early by a return or a panic. A
-- fetch is a row of steps that keeps the calls of the browser it made, in their order, whether
-- it goes on, returns or panics, and the deferred calls are added behind. main is the list of
-- what happens until the process ends. Time is a number that each call is given. The wait group
-- is also modelled by its atomic actions, with every interleaving of goroutines as a relation
-- on numbers of goroutines at each point of the code. Run of the controller is a relation: in
-- Controller/Run a step moves one goroutine, or the loop, from a point of the code to the next;
-- the registry goes with it.
--
-- Bounds and fuel:
-- The counter of the wait group is kept modulo 2^32. The counters of Fetch and of the RPCs are
-- kept by their 32 or 64 bits; the counters of the notifications and of the metrics are natural
-- numbers. execWithRetry runs on maxRetries + 1 turns, and a theorem shows that this is enough;
-- the reads of database/database.go (Database/Connection) stand on it. The chain of scripts
-- runs on fuel, since the source's loop has no bound: scripts may name one another for ever;
-- the theorems on its end, and on the end of the scripts of a phase, assume a measure that
-- falls. A fetch passes this fuel on.
--
-- Parameters, since their code is not in the repository:
-- the database's answers, the browser's answers, SHA-1, the text of a duration and of a gRPC
-- status, the dialling, sending and receiving of gRPC, regular expressions and the parser of
-- URLs, encoding/json and protojson, the parsing of dates and of a time given as a floating-
-- point number, HTTP requests, the listener and the gRPC server, the robots evaluator's answer.
--
-- Not modelled:
-- Close of the API server; tracing, the gauges of sessions and the server of the metrics; the
-- writes of the log service's library; execWrite of the database, which nothing calls; options
-- that hand over clients; the time stamps of outlinks; signals; the test doubles.
mod Prelude
pub mod Syncx
pub mod Errors
pub mod Url
pub mod Wire
pub mod Config
pub mod Database
pub mod Requests
pub mod Registry
pub mod Script
pub mod Screenshot
pub mod Session
pub mod Server
pub mod Frontier
pub mod Controller
pub mod Connections
pub mod Logger
pub mod Main
