-- ===== src/Lib.antt =====
-- The control plane of Eyot (eyot-backend/app): the harness that supervises agent loops, the queue
-- of injects to running instances, the topology of passages between memberships, the routing of
-- messages and directives to instances, the knowledge that an instance gets, and the checks of permissions, scopes
-- and request rates.
--
-- Parts and files. The Python files are in eyot-backend/app.
--
-- Harness (eyot-backend/app/core/harness_supervisor.py, harness_breakers.py, harness_handlers.py,
-- continuation.py; eyot-backend/app/models/loop_state.py). Harness/State.antt has the loop-state
-- rows, the metrics and the supervisor `Harness`: the table of rows, the registry of metrics and
-- the audit log. Harness/Breakers.antt is `load_breaker_config`, `check_breakers`, `trip_breaker`
-- and `_check_breakers`; Harness/Handlers.antt the handlers of the harness events and `emit`,
-- which runs them; Harness/Supervisor.antt `rehydrate`, pause, resume, interrupt and the snapshot;
-- Harness/IdleCheck.antt the periodic idle check. An event is appended to the log and handed to
-- the handler in the same step, as `emit` does.
--
-- Inject queue (eyot-backend/app/core/inject_queue.py, eyot-backend/app/schemas/internal.py,
-- eyot-backend/app/models/inject_queue.py). Inject/Rows.antt has the rows, Inject/Tldr.antt the
-- rules of the summary, Inject/Queue.antt the six operations on a store of rows and events.
--
-- Topology (eyot-backend/app/core/passages.py, eyot-backend/app/core/topology.py).
-- Topology/Passages.antt has the row `Passage` and the neighbour queries; Topology/Acyclic.antt
-- the breadth-first search of `check_acyclic`.
--
-- Access (eyot-backend/app/core/permissions.py, eyot-backend/app/core/org_scope.py,
-- eyot-backend/app/core/scope_guard.py). Access/Tables.antt has the rows of the tables that the
-- checks read, Access/Permissions.antt the grants and `require_permission`, Access/Scope.antt the
-- scope matrix, the visibility filter and the guards, Access/CurrentOrg.antt
-- `resolve_current_org_id`.
--
-- SafePoint (eyot-backend/app/agent_runtime/safe_point.py) is the guard that holds deliveries
-- while tool results are outstanding. Boulder (eyot-backend/app/core/todo_enforcer.py) is the
-- validation of todo snapshots; the supervisor's capture of a snapshot calls it.
--
-- Messaging (eyot-backend/app/core/message_router.py, eyot-backend/app/core/composer_turns.py,
-- eyot-backend/app/services/composer_transcript.py, eyot-backend/app/schemas/slash.py).
-- Messaging.antt has the tables that routing reads (`Directory`), what it writes (`World`, with the
-- harness, the inject rows, the transcript and the turns) and the outside of a call: the clock, the
-- ids of `uuid4` and the tunnel's answer. Messaging/Composer.antt has the transcript rows and
-- `schedule_user_turn`, Messaging/Parts.antt and Messaging/Sending.antt what is done for one
-- recipient, Messaging/Router.antt the loop and `route_message`, Messaging/Stream.antt the
-- frames of a reply that come through the tunnel. Each call runs to its end before the next one, and
-- a turn's queue is what was put into it, taken or not. A delivery calls the passage
-- search, the inject queue and the composer in turn. A query by `scalar_one_or_none` raises on
-- several rows, and an exception leaves the loop.
--
-- Directive (eyot-backend/app/core/directive_router.py, eyot-backend/app/core/activation.py,
-- eyot-backend/app/core/activation_consumer.py, eyot-backend/app/core/preset_registry.py,
-- eyot-backend/app/core/capabilities.py). Directive.antt has the state of a turn (`Site`: that of
-- messages, the market of capabilities and the runtimes that were started), Directive/Control.antt
-- the commands that the supervisor and the distiller answer, Directive/Distill.antt the capabilities
-- of memories and `upsert_capability`, Directive/Activation.antt the event of a mention with the
-- handler that resumes an idle instance, Directive/Route.antt the loop of `route_turn` over the
-- directives of the parsed turn. The handler's own session and the caller's see one database.
--
-- Knowledge (eyot-backend/app/core/knowledge.py) has the choice of the knowledge rows of an
-- instance: the conditions of the query, the groups by key and the winner of a group. Models.antt
-- has rows that several parts read.
--
-- RateLimit (eyot-backend/app/core/middleware/rate_limit.py) has the counters of the clients, the
-- check of a request and a sequence of checks. A request carries its time.
--
-- Slug (eyot-backend/app/core/slug.py) has `validate_slug`, with its pattern as a scan of the text, and
-- Slug/Grammar.antt the grammar of the texts that pass.
--
-- Pagination (eyot-backend/app/core/pagination.py) has the two pagination functions, over the rows
-- that the caller's query gives in its order, and a client that follows the cursors. The order of
-- the cursor field, its text and the caller's decoder are parameters.
--
-- Overlay (eyot-backend/app/core/overlay.py) has `deep_merge`, and in Overlay/Resolve.antt the
-- configuration that `resolve_entity_config` makes of an entity and the manifest of its base class.
-- Python's `list` and `dict` of a value, which can raise, are parameters there.
--
-- Conventions. A table is the list of its rows in the order of the database; a query is a Boolean
-- filter of it, an UPDATE an update of the rows that pass a test. A time is a number of
-- microseconds and a parameter of the operation that reads the clock. JSON documents are
-- Json.antt, audit events Audit.antt, Python's text functions Text.antt. Exceptions
-- are values. The class `OrganizationContract` and the class `NamespaceContract` have one record,
-- whose `owner` is the organization or the namespace, and so have their link rows.
--
-- Fuel. A client of the cursors has one round more than there are rows; each page but the last has
-- a row at least. `check_acyclic` runs on fuel: two more than twice the number of rows. Each
-- membership is queued at most once, and every queued membership but the first is an end of a row.
--
-- Not modelled: other tasks that run while an operation waits (the operations of a sequence run one
-- after another), failures of the database and of the event bus, the runtime task that the supervisor
-- cancels at shutdown, the task rows of `handle_checkpoint_writes`, the log messages
-- and the details of an error beside its kind. `int(x)` of a payload value is a parameter where
-- the code calls it. Of the composer the backend's own stream is left, of the knowledge the seeds
-- and the environment keys.
-- The parser of directives, the HTTP routers, the other capability and learning services, the agent
-- runtime, which hears the control events, the deployment services, the portal and the instance host
-- are not part of the development.
mod Prelude
pub mod Json
pub mod Audit
pub mod Text
pub mod Inject
pub mod Topology
pub mod Models
pub mod Access
pub mod Knowledge
pub mod Messaging
pub mod Directive
pub mod Pagination
pub mod Overlay
pub mod RateLimit
pub mod SafePoint
pub mod Slug
pub mod Boulder
pub mod Harness
