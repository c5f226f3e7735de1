-- ===== src/Lib.antt =====
-- A model of percona-agent, the agent that collects metrics, query data and configuration of MySQL
-- and its host and sends them to an API, and theorems about it.
--
-- The program is a set of services. Each has a manager that obeys commands and goroutines that
-- work; goroutines meet in channels, tickers and the spool of data files. A goroutine is modelled
-- as a function on its state that takes one event: a tick, a message, an answer of the operating
-- system, of MySQL or of the API. A run is a fold of that function over a list of events, in
-- whatever order they come. Code that a mutex guards is one step.
--
-- - Prelude: tests on numbers, lists under native indices, Go maps as association lists, signed
--   integers, text as character codes, decimal numbers, and the lemmas that the other files share.
-- - Pct (pct): Backoff (pct/backoff.go) is the wait between attempts to connect; Status
--   (pct/status.go) the status of a service and how statuses are merged; Units (pct/sys.go) the
--   functions Bytes and Duration.
-- - Log (log): Relay (log/relay.go) takes the log entries of all services, keeps those that it
--   cannot send in two arrays of slots, and sends them when the client connects again; Manager
--   (log/manager.go) starts it and sets its level and file.
-- - Data (data): Sender (data/sender.go) sends the files of the spool in a run with a limit on
--   errors and time; Stats (data/stats.go) sums up the runs of a window of time; Spooler
--   (data/spooler.go) keeps the files, counts them, and purges those beyond its limits; Manager
--   (data/manager.go) starts spooler and sender and sets their configuration.
-- - Mm (mm): Float is what the statistics use of float64; Stats (mm/stats.go) the statistics of a
--   metric; Aggregator (mm/aggregator.go) the goroutine that gathers the collections of the
--   monitors and gives a report of each interval to the spool; System (mm/system/monitor.go) the
--   parsers of the files under /proc; Manager (mm/manager.go) starts and stops monitors and keeps an
--   aggregator for each report interval.
-- - Instance (instance): Repo (instance/repo.go) keeps the service instances in memory and in
--   files, and asks the API for those that it does not know.
-- - Mrms (mrms): Monitor (mrms/monitor/instance.go, subscribers.go and monitor.go) asks MySQL for
--   its uptime and tells subscribers of a restart.
-- - Qan (qan): SlowlogIter (qan/slowlog/iter.go) cuts the slow log into intervals at ticks;
--   Report (qan/report.go) ranks the query classes of an interval and joins the low ones;
--   PerfschemaWorker (qan/perfschema/worker.go) takes the difference of two snapshots of the
--   statement digests; Analyzer (qan/analyzer.go) configures MySQL and runs a worker for each
--   interval; Manager (qan/manager.go) starts and stops analyzers and registers their
--   channels with a clock that other managers use too.
-- - Ticker (ticker): the clock (ticker/manager.go) and the channels of its tickers.
-- - Agent (agent/agent.go): Loop is Run, which puts the commands of the API into queues; CmdHandler
--   the goroutine that runs a command at a time and waits for its reply; Services the commands on
--   the agent's own configuration and on the services; Routing the way of a command to them.
--
-- Names are those of the code in the spelling of the language: CheckIfMysqlRestarted is
-- check_if_mysql_restarted. A branch of a long function is a definition of its own, named for what
-- it follows: on_response is the switch on the response code in sendAllFiles.
--
-- Errors are values: an Option or a sum for a returned error, and the `none` of a function whose
-- comment says so for a panic. Numbers are natural numbers; a counter that wraps is reduced by
-- `% 2 ^ 64` where the code adds up totals or takes differences (Data.Stats, Qan.PerfschemaWorker), and
-- elsewhere it counts events and is taken not to wrap. Times are natural numbers after an origin that the
-- file names.
--
-- Fuel: the loop of send in Data.Sender has fuel for one round more than the errors that end it,
-- and get in Instance.Repo has 2, since it calls itself once at most; that this is enough is
-- proved. Every other loop is a recursion on its list.
--
-- Code outside the repository is a parameter: the package of the protocol in Instance.Repo, with
-- the assumption that JSON comes back as it was printed, and in Log.Manager, with the assumption that
-- its numbers of levels are levels and that it knows the default one; and the key-value store of the
-- spool, with the assumption, where a theorem needs it, that the disk is healthy. The managers of the
-- services and the connector of the API are interfaces of which nothing is assumed. float64 is an
-- interface whose order is total, so without NaN, and nothing is assumed of its arithmetic; that of
-- Mm.System has no laws at all. The files, the clock, MySQL, the websocket client and the API are
-- inputs, whose answers are unrestricted unless a theorem says so.
--
-- Not modelled: the texts of logs and statuses, the command line and the installer, the clients of
-- MySQL and of the API, the MySQL monitor, the goroutines of the tickers, and the managers of the
-- instances, the restart monitor, the configuration and the queries.
pub mod Prelude
pub mod Pct
pub mod Log
pub mod Data
pub mod Mm
pub mod Instance
pub mod Mrms
pub mod Qan
pub mod Agent
pub mod Ticker
