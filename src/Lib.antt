-- ===== src/Lib.antt =====
-- SentinelX, a multi-tenant SIEM: agents send log events to the ingestion service, whose workers
-- store them and look for attacks; alerts are stored, sent to the dashboards over WebSockets, and
-- listed by the HTTP API. The dashboard is one React component.
--
-- Agent (log-agent): Auth and Nginx are the parsers of parser/, over Regex, which matches the
-- patterns that they use; Nginx/RoundTrip reads printed lines back. Send is main.go with
-- sender/sender.go and kafka/producer.go, up to the queue of the ingestion service, whose consumer
-- takes the messages of the topic in its own time; Send/Twice follows lines into the queue,
-- Send/ThreeLines from there through a worker and its detector to the hub, Traffic and Traffic/Shown
-- through the analytics to the page.
--
-- Dashboard (frontend/src/App.jsx). State holds the React state of `App`, one field for each
-- `useState`; Console has `triggerToast` and `addConsoleLog`. Fetch is `fetchData`, a machine that
-- runs from one answer of the server to the next request (`begin_fetch`, `resume`); Fetch/Runs and
-- Fetch/Good prove how whole runs end. Feed has the handlers of the socket and the merge of a
-- packet into the list of alerts (`merge` is the updater that `onmessage` gives to `setAlerts`),
-- with its theorems in Feed/Merge. Counters has the three requests that end `onmessage`. Session
-- puts these together: a page, its runs of `fetchData` that wait, its socket, and a `step` for
-- every answer, packet, timer, button and field; Session/Tenants and Session/Switch prove whose
-- alerts the page shows, Session/Tidy is about its console and its toasts. Timeline is
-- `analyticsMap` and `analyticsData`, Filters is `filteredAlerts`, and Views has the panels: what
-- they show of the state and which step a button makes (Views/Frame the toast and the header,
-- Views/Cards the numbers and charts, Views/Controls the filters and settings). Views/Parts and
-- Views/Tabs put the panels into the six tabs, and Views/Page is what `App` returns: `none` is a
-- render that throws.
--
-- Detection (ingestion-service/internal/detection): BruteForce, WebScan and Suppressor are
-- DetectBruteForce, DetectWebScan and ShouldSuppressAlert, with their shared maps as states.
-- Streaks says what the two detectors count, and each Stream module proves that a detector does it
-- over streams of events of many tenants. Keys is about the keys of the maps, Pace about the time
-- that an alert takes. Model has the events (internal/events/event.go) and the alerts
-- (internal/model/alert.go), Store the maps.
--
-- Service (ingestion-service/internal): Hub is websocket/hub.go, Alerts is service/alert_service.go
-- with repository/alert_repository.go, Worker is service/worker.go with the batch insert of
-- repository/log_repository.go, and Json is an alert as it is sent. Hub/Unordered takes the hub
-- without the order of its clients, as a quotient that keeps the messages of each connection. Slack
-- is `sendSlackNotification`. Tables has the columns of db/db.go with their lengths, and the
-- transaction of `InsertLogsBatch` row by row, which Tables/Refused shows to be all or nothing.
-- Worker/Heard says which alerts a worker raises for the events that it takes (Worker/SixHits for
-- six login failures), Worker/System joins one worker, the alert service and the hub with the
-- clients; Pool has workers side by side, whose flushes are interleaved job by job, a job being what
-- the code does without another worker between. Pool/Served joins the pool with the hub and its
-- clients: Pool/Ledger has the accounts that every job balances, Pool/Accounts the accounts of what
-- is sent, notified and counted, Pool/Accounted what jobs are left. Pool/Alone and Pool/Refines show
-- that a worker that is not interrupted is one of the runs of the pool, and Pool/Completes follows a
-- flush to its end. Pipeline joins the producers, the queue and the pool.
--
-- Http (ingestion-service/internal): Alerts is GET /alerts, from auth/apikey.go and
-- middleware/auth.go over handler/alert_handler.go to the query; Alerts/Honest proves what it
-- answers, and Alerts/Served joins it with the page. Ingest is POST /logs with
-- validator/log_validator.go and the queue, and a message of kafka/consumer.go; RateLimit is
-- middleware/rate_limiter.go. Middleware has the rest of internal/middleware as functions from
-- handlers to handlers, and Server the routes and the chain of cmd/server/main.go, Server/Start its
-- `main` with `Init` of db/db.go. Groups is what the
-- queries of repository/analytics_repository.go use of SQL, Analytics the queries, and
-- Analytics/Endpoints their handlers (handler/analytics_handler.go).
--
-- Live joins the hub with the page: Live/Page says what the packets of a run do to the list of
-- alerts, Live/Shown follows alerts from the events to the page through one worker, Live/Pooled
-- through several, Live/Lines three lines of a log, Live/Stale an answer that is older than a
-- packet. Live/Typed and Live/Rendered are about the kind of the alerts that the page holds,
-- Live/Data and Live/Supplied about its other data, and Live/Panels and Live/Drawn about what is
-- then drawn.
--
-- Js has the values of JavaScript that JSON can give, with `===`, truth and text; Base has the names
-- and lemmas that all share; Examples has the theorems at concrete inputs.
--
-- Fuel and bounds. The only loop on fuel is `decimal`, which prints a number: it has one more unit
-- than the number, and decimal_from-enough_fuel shows that more changes nothing. A run of
-- `fetchData` needs at most five answers, since it has five requests.
--
-- Arguments. What is not code of the repository is an argument of the definitions that use it: the
-- clock, the answers and rows of the database, the answers of a socket's write, the answers that a
-- browser gets, how it prints times and numbers (Browser, Locale, `hour_of`) and its arithmetic of the
-- success rate, the id of a request, whether the networks of the agent work, and of the database the
-- order of groups of one count, the text of nested values and the cast (the record Database, whose
-- laws the theorems use), and which rows it takes (Transaction; that it refuses a text longer than its
-- column is a hypothesis).
--
-- Not modelled: styling that depends on no state and the drawing of the charts, React's second call of
-- an updater in strict mode, numbers of JSON other than natural numbers, case mapping beyond ASCII,
-- paths that the router would clean, what the WebSocket and Prometheus handlers answer, tailing of
-- files, the registration of metrics, the start of the agent, and of the tables their indexes, keys and
-- defaults: these are calls of third-party code.
pub mod Base
pub mod Js
pub mod Live
pub mod Dashboard
pub mod Detection
pub mod Service
pub mod Http
pub mod Agent
pub mod Examples
