-- ===== src/Lib.antt =====
-- CampusPilot, the services of a university campus: the Python backend under backend/app. Each
-- service works on PostgreSQL tables inside one transaction; a repeated request is recognised by its
-- idempotency key, and every change is written to the audit log. A table is here the list of its
-- rows, a service method an action on a record of tables (`Exec`), and a raised exception a value
-- beside the tables as they were when it was raised; `atomically` is `session.begin()`.
--
-- The files and what they model, with paths below backend/app:
--   Base, Base/*: lists as tables, Boolean tests, `str.strip`.
--   Errors: the subclasses of `AppError` (core/errors.py) that the services raise.
--   Exec, Exec/Keeps: actions on tables with errors and rollback, and invariants of actions.
--   Platform/Idempotency, Laws: `IdempotencyService` and its table (modules/platform/idempotency.py).
--   Platform/Idempotency/Endpoint, Endpoint/*: the shape that the services share: `begin`, answer
--     from the stored record or refuse while it is pending, do the work, `complete`. What the work
--     keeps, the endpoint keeps; a repeated request is answered from the record.
--   Platform/Audit: what the services append to the audit log (modules/platform/audit.py);
--     Redaction, Redaction/*: how its snapshots are redacted.
--   Platform/Users, Users/*: `update_user` and `replace_user_roles` (modules/platform/user_update.py,
--     user_roles.py); LastAdmin is about the last active super administrator.
--   Platform/Auth, Auth/*: `AuthService` (modules/platform/auth.py) with its queries and tokens:
--     Login, Refresh (and logout); Lockout, Rotation and Logout are about them.
--   Campus/WorkOrder, WorkOrder/*: `WorkOrderService` (modules/campus_service/work_orders.py), its
--     queries (Store, with the texts of order numbers in Digits) and its state machine (StateMachine,
--     work_order_state.py). Timeline says what
--     history an order has; Service/History, Creation, Ratings, Reach and Repeat are about the
--     three requests.
--   Community/Event, Registration, Registration/*: `EventRegistrationService`
--     (modules/community/registrations.py) and its queries.
--   Community/Moderated, Moderated/*: what the decision of a moderation case does to an event
--     (modules/community/moderation_handler.py).
--   Community/Post, Reaction, Reaction/*: the rows of posts and `ReactionService`
--     (modules/community/reactions.py); Counts and Repeated are about its counters.
--   Community/EventService, EventService/*: `EventService` (modules/community/events.py).
--   Community/Claim, Claim/*: `LostFoundClaimService` (modules/community/claims.py), its rows and
--     queries, and what it does to the claimed item; Decided and Completed are about a decision and a
--     confirmation that succeed, Confirmed and Kept about the completed claims.
--   Community/Reach: what requests on events and registrations, and decisions of the events'
--     moderation cases, can reach.
--   Platform/Moderation, Moderation/*: `SensitiveWordScanner.scan` (modules/platform/moderation_scan.py),
--     `combine_scan_results` (modules/community/posts.py) and `ModerationService.submit_case`
--     (modules/platform/moderation.py), which the event service uses.
--   Agents/Contracts, Registry, Router, Planner, with their children: routes, tasks and plans with their
--     validators (modules/agent_platform/domain/contracts.py), `AgentRegistry`, `RouterService` and
--     `SupervisorPlanner` (modules/agent_platform/orchestration).
--   Agents/RateLimit, RateLimit/*: the two limiters of modules/agent_platform/rate_limit.py; Commands
--     has the Redis commands that the Lua script calls and what is assumed of them.
--   Agents/Approval, Approval/*: the approvals of tool calls (modules/agent_platform/approvals.py).
--   Agents/Trace, Trace/*: the record of runs, steps and tool calls (modules/agent_platform/traces.py).
--   Agents/EventLog, Checkpoint, with their children: the events of a run and its recovery state
--     (modules/agent_platform/runtime_persistence.py, checkpointing.py, orchestration/runtime.py).
--   Agents/Outbox, Outbox/*: the table of runtime commands, its dispatcher and its worker
--     (modules/agent_platform/runtime_persistence.py, runtime_worker.py).
--   */Tests: concrete runs.
--
-- How the code corresponds: UUIDs and instants (microseconds) are numbers; what `uuid4`, the clock
-- and `token_urlsafe` give is part of the `Call`. A `SELECT` is a search, an `UPDATE … WHERE` rewrites
-- the rows that pass the test, and the flush of a changed object writes the row with its key. Columns
-- that no modelled operation reads or writes are left out (such as `ip_address`,
-- `user_agent` and the audit log's JSON), and so are the rows' check constraints but for two that
-- the decision of a claim can meet. Order numbers are lists of code points. Calls of code that is
-- not in the repository are parameters: Argon2, SHA-256, the JWT encoder, the comparison of CITEXT,
-- AES-GCM, Fernet, `json` and pydantic's dumps for a checkpoint, the Redis commands, the models behind the router,
-- `uuid5`, the text of a UUID, the hash of a request body, the calendar day in Shanghai, and Python's
-- `casefold`, `lower`, `replace`, `in` and regular expressions (`Texts`, `Strings`). No law of them is
-- assumed but where a theorem names it as a hypothesis.
--
-- Requests run one after another: the services take row locks (`FOR UPDATE`), which the model does not
-- have. The one race that the code itself settles, two inserts of the same idempotency scope, is
-- modelled: `begin` takes what other sessions commit between its read and its insert. No definition
-- needs fuel; every loop is a recursion on a list or on a JSON value.
--
-- Not modelled: HTTP routes and schemas, the read-only lists, the entry points that a tool call uses
-- inside a transaction of its own, the graph runtime, the tool gateway, the evaluation and training
-- workers of the agent platform, the knowledge base, the rest of the community module, the
-- creation of users, the administration of roles, and the frontend.
pub mod Base
pub mod Errors
pub mod Exec
pub mod Platform
pub mod Campus
pub mod Community
pub mod Agents
