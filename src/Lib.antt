-- ===== src/Lib.antt =====
-- The watchdog and the chaos actions of the operations dashboard, and the setup of its services.
--
-- The program. Services run on Railway. A watchdog polls their deployments, probes their HTTP
-- endpoints and redeploys what has crashed or hangs; operators kill and restart services through the
-- dashboard's chaos routes. Both read environment variables through one function and talk to Railway
-- through one GraphQL client. A script sets the services of the project up: it creates and links
-- them, brings their settings to what is listed, redeploys them and sets their variables.
--
-- Which file models which part (paths from the repository's root):
--   Env          dashboard/src/lib/watchdog-core/server-runtime-env.ts: runtimeEnv, tokens, headers;
--                Snapshot: getRailwayEnvDebugSnapshot
--   Visibility   dashboard/src/lib/watchdog-core/railway-visibility.ts: Graphql (railwayGraphql), Status
--                (deploymentStatusToState, deploymentStatusToRailwayUi), Rows
--                (fetchRailwayVisibilityRows), Halt (the mutations)
--   Heartbeat    dashboard/src/lib/watchdog-core/service-heartbeat.ts: probe URLs and results
--   Lifecycle    dashboard/src/lib/watchdog-core/heartbeat-lifecycle.ts: the four maps of a
--                HeartbeatExitLifecycleState; History: sequences of changes by many services
--   Tick         dashboard/src/lib/watchdog-core/railway-watchdog-tick.ts: State (the persistent state
--                and the loop's variables), Settings, Status, and the parts of a round in their order:
--                Redeem, Probe with Misses, AutoRecover, Transitions; Run joins them (visit, visit_all,
--                finish, run_railway_watchdog_tick)
--   Policy       dashboard/src/lib/docker-chaos-policy.ts
--   Chaos        dashboard/src/app/api/visibility/docker/chaos: Guards (the checks of both routes), Kill,
--                Restart, Config
--   Views        dashboard/src/app/api/visibility/docker/route.ts (Table) and chaos/status/route.ts (State,
--                Inspect): GET, over the lifecycle state that railway-heartbeat-exit-state.ts shares
--   Proxy        chaos/watchdog/route.ts (Status, Normalize), chaos/watchdog/stream/route.ts,
--                dashboard/src/lib/watchdog-service-url.ts and railway-watchdog.ts: where the payload that
--                the dashboard shows comes from
--   Feeds        dashboard/src/app/api/visibility/alerts/route.ts (Alerts), and fetch-error-detail.ts and
--                compose-instance.ts of dashboard/src/lib (FetchError)
--   Setup        setup-railway.js: EnvFile (the optional file), Project (the services and the
--                comparisons), Client (requests, gql), Configure (the loop of main over the services),
--                Plugins, Wiring and Variables (syncInternalDatabaseVariables), IngestToken
--                (ensureLogIngestTokenForHttpIngest), Main (main, upsert, the redeployments); the other
--                files hold proofs, of which Ensures and Rules carry a property of requests through a run
--   Backend      dashboard/src/lib/dashboard-backend-url.ts (Url), and the routes of dashboard/src/app/api
--                that forward a request: logs and health (Guarded), errors, k6, prometheus and
--                visibility/instance-stats (Plain)
--   Worker       watchdog-service/src/server.ts: the process that owns the state, as a step relation
--   Base, Text   what JavaScript gives: Map (Store), arrays, strings, parseInt, template literals
--   Tests        the theorems at concrete inputs
--
-- How the code is read. A JavaScript Map is an association list in insertion order; an object that is
-- changed in place is a new record, and where an alias shows (the beat's state in its map) the write to
-- the map is explicit (Tick.Misses.touch). An asynchronous call is a function of its answer. What the
-- world answers while a tick handles a row (the replies to deploy calls, what fetch does with the probe,
-- readings of the clock, time stamps) is the record Answers, one for each round, and each theorem holds
-- for all of them. The deployments that are asked for are collected as a list of requests, and the
-- actions of a chaos route as a list of effects, also where the call then fails. An error that a handler
-- catches is Outcome or Checked. The environment does not change during a tick.
--
-- The setup script is a function of the requests so far: an action takes the history and returns a result or an
-- error with the longer history, and Railway's answers (Setup.Client.Remote) are functions of the history
-- alone. A value that the script sets is a list of texts and references, printed when it is sent. What an
-- update does to an instance at Railway is a parameter, with what is documented of it as named
-- hypotheses (Setup.Converges.UpdatesFields).
--
-- Bounds. Numbers are natural numbers, with subtraction only where the code's difference cannot be
-- negative or its sign is written out; settings beyond 2 ^ 53 are outside of the model, and Date.now()
-- and counters stay far below. The only fuel is that of decimal printing, which has one round for each
-- unit of the number and needs one for each digit. Letters have their case as in ASCII.
--
-- Not modelled: sockets, HTTP headers, console output, the texts of the queries of the setup script,
-- the timers' periods, dockerode, the metrics of the visibility rows and of the containers
-- (floating-point), and the React components.
pub mod Base
pub mod Text
pub mod Env
pub mod Visibility
pub mod Heartbeat
pub mod Lifecycle
pub mod Tick
pub mod Policy
pub mod Chaos
pub mod Worker
pub mod Backend
pub mod Tests
pub mod Views
pub mod Proxy
pub mod Feeds
pub mod Setup
