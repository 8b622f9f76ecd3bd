-- ===== src/Lib.antt =====
-- A verification library for OmniMission Control, a dashboard server that orchestrates agents.
--
-- The server keeps its state in SQLite and answers requests through the routes under
-- src/app/api, with the shared code in src/lib. The library models the parts that decide who
-- may do what and how work moves on. A table is a list of rows in order of insertion; a handler
-- is a function from the request and the tables to the new tables and the response; the clock,
-- random tokens, the environment and child processes are arguments. Columns that hold JSON are
-- modelled by the value that the code stores in them. A request is handled to its end before
-- the next begins, unless a module says otherwise.
--
-- - Prelude: the shared library names, Boolean tests, lists measured by native numbers, and
--   what the code uses of JavaScript's strings.
-- - RateLimit: src/lib/rate-limit.ts. createRateLimiter is check_rate_limit over an explicit
--   store, the periodic timer is cleanup, extractClientIp is extract_client_ip.
-- - Auth: src/lib/auth.ts. createSession, validateSession, destroySession, getUserFromRequest
--   and requireRole are the functions of those names in snake case; Auth.Users has the user
--   management. Password hashing is an argument, since it rests on scrypt; parsing the cookie
--   header and the timing of comparisons are left out.
-- - Pipeline: src/app/api/pipelines/run/route.ts. startPipeline, advanceRun, cancelRun and the
--   POST handler (Pipeline.Start and Pipeline.Advance), with the agent command as an argument
--   that prints or fails at once. Pipeline.Overlap splits each handler at its await of the
--   agent, where other requests are served; Pipeline.InTurn shows that the handlers without the
--   split are the requests that do not overlap. Pipeline.Shape says what the steps of a run
--   look like in each status, Pipeline.Effect what one request may do to the table of runs.
-- - Tasks: src/app/api/tasks/route.ts, src/app/api/tasks/[id]/route.ts and
--   src/app/api/quality-review/route.ts, on the helpers of src/lib/db.ts. The tables and the
--   events broadcast are one state; the bulk PUT restores the tables, and not the events, when
--   its transaction throws. Which of two reviews of the same second is the newest is left to
--   the database by the interface Newest. Tasks.Comments is POST of
--   src/app/api/tasks/[id]/comments/route.ts. The bodies are those that the schemas of
--   src/lib/validation.ts accept.
-- - Webhooks: src/lib/webhooks.ts. deliverWebhook, processWebhookRetries and
--   initWebhookListener over an explicit network; Webhooks.World holds what comes from outside.
--   The deliveries that the source starts side by side are made one after the other.
-- - Provision: src/lib/super-admin.ts. buildBootstrapPlan and buildDecommissionPlan are
--   Provision.Plan, createTenantAndBootstrapJob is Provision.Bootstrap with its checks in
--   Provision.Fields, createTenantDecommissionJob is Provision.Decommission,
--   transitionProvisionJobStatus is Provision.Transition, executeProvisionJob is
--   Provision.Execute over the steps of Provision.Steps. A thrown error is a message; what is
--   handed to the daemon and to the host goes out in one place, which keeps it as a trace.
-- - Accounts: src/app/api/auth/users/route.ts (Accounts and Accounts.Change),
--   src/app/api/auth/login/route.ts (Accounts.Login) and src/app/api/auth/me/route.ts
--   (Accounts.Profile), over the functions of Auth. A handler answers a value of the type
--   Answer; a body is a record of its fields.
-- - Store: src/store/index.ts. addLog, setNotifications, addNotification, markNotificationRead
--   and markAllNotificationsRead as functions on the state; Store.Chat is the chat: set, add,
--   replace, update and remove a message, and markConversationRead.
-- - Scheduler: src/lib/scheduler.ts. initScheduler, tick, getSchedulerStatus, triggerTask and
--   stopScheduler on an explicit table; Scheduler.Overlap has ticks that interleave at their
--   awaits. What the tasks do is the interface Scheduler.Jobs; runBackup, runCleanup and
--   runHeartbeatCheck are Scheduler.Upkeep. A cutoff below 0 is 0, since no time in a table is.
-- - Gate: src/proxy.ts. proxy and its helpers; parsing the URL of an origin is an argument, and
--   letters are those of ASCII.
-- - Gateway: src/lib/websocket.ts. connect with its onopen, onclose and onerror, disconnect and
--   reconnect are Gateway.Connect, handleGatewayFrame and the heartbeat are Gateway.Frames; a
--   timer that is pending may fire at any time.
-- - Alerts: src/app/api/alerts/route.ts. The bodies of POST, PUT and DELETE are Alerts.Rules,
--   the conditions Alerts.Conditions, evaluateRules is Alerts.Evaluate; what SQLite and
--   floating-point numbers make of a text is the interface Alerts.Values.
--
-- No loop needs fuel: each recurs on a list.
--
-- The React panels, the read-only GET handlers, GitHub and Telegram bridges and the SQL
-- migrations are not modelled: they render, fetch or configure.
pub mod Prelude
pub mod RateLimit
pub mod Accounts
pub mod Auth
pub mod Pipeline
pub mod Tasks
pub mod Webhooks
pub mod Provision
pub mod Store
pub mod Scheduler
pub mod Gate
pub mod Gateway
pub mod Alerts
