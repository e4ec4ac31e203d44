-- ===== src/Lib.antt =====
-- TaskTrack: the services behind the tasks, workflows, reviews and work sessions of
-- backend/app, over the tables of backend/app/models.
--
-- The program. A request comes in over HTTP or MCP with a user and a database session. A service
-- reads rows, checks access, state and versions, changes rows, writes an audit event, commits, and
-- tells the project's subscribers. Services call each other: tasks ask the workflows for the
-- process, the results for a review's verdict, and the project for access.
--
-- The files.
--   Prelude: tests on numbers, and rows of a table (first, select, modify, count).
--   Json: the documents of JSONB columns and of audit events.
--   Model: a record for each table of backend/app/models, and Tables for the database.
--   Query: exceptions, the request's Context, and checks that read the tables and may raise.
--   References: the foreign keys that ids of a request may break.
--   Exec: an action on a database session: writes, commit, events.
--   Bus: backend/app/core/events.py. Audit: services/audit_service.py.
--   Permissions: services/permissions.py, with get_project of services/project_service.py.
--   Projects: the operations of services/project_service.py. Members is about memberships, Opening
--   about a new project.
--   Notifications: the emitters of services/notification_service.py that the others call.
--   Workflow: services/workflow_service.py. Workflows creates, updates and deletes them, Transitions and
--   Statuses have those of a workflow, TypeConfigs the workflows set for task types, Boards the mapping
--   to board columns; the choice of a task's
--   workflow stands in the parent.
--   Tasks: services/task_service.py and services/meta_schema.py. Creation, Updates and Transitions
--   have the operations, Rules and Moves say when a change of status is allowed.
--   WorkProposals: the decisions of services/work_proposal_service.py. Decided and Standing are about
--   what they change.
--   Packages: services/work_package_service.py. Content has the normal form of an assignment, Keys and
--   Normal are about the keys of its criteria, Bases has pinned_bases of services/portfolio_service.py,
--   Equality compares contents, Issuing is about issued versions.
--   Results: services/result_service.py. Submission and Reviews have the operations, Derived,
--   States, Superseding and Requests the state that a task shows, Deliveries what is delivered and
--   accepted by its recipient. Reviewers has the reviewer profile.
--   Sessions: services/session_service.py; Histories is about requests in any order.
--   Idempotency: services/idempotency_service.py and api/idempotency.py around a command. Waiting is
--   about the loop of reserve, Replay about a repeated command.
--   Tests: examples on a small project.
--
-- How the code is modelled. A service function f is a definition f. Its reads and checks, in the
-- code's order, are a query checked_f or managed_f, which gives the rows it found or the exception;
-- f then performs its writes, audit events, commit and events in the code's order. An exception
-- is a value with its HTTP status and its code. What the session sees and what it has committed are
-- two fields, so what a failed request leaves behind can be told. A row that the code locks and
-- changes is written back whole by its primary key. New primary keys (random UUIDs) are arguments;
-- where a theorem needs a new key to be unused, or a primary key to be unique, it says so.
--
-- Parameters. jsonschema's errors, the SHA-256 digest of a content, the readiness of the portfolio, the
-- clock, the numbers of the transactions and the request's session and reason are fields of Context. A
-- request's hash is an argument. Numbers are natural: versions and counters of the code are
-- never negative, and positions are taken not to be.
--
-- Fuel. str has one more step than the number, and a number has fewer digits than that. The search for
-- a free criterion key has one round more than there are keys. The loop of reserve goes over a list
-- of rounds, each with what its insert and its select see of what other requests have stored.
--
-- Not modelled. Times of creation and change, row locks (requests that meet run one after the other),
-- the listings, pagination and search; views and columns, the
-- import of work proposals, the portfolio but for pinned bases, the external sources, Gantt, the control room, comments,
-- API keys; the HTTP and MCP layers but for the idempotency guard, and the frontend.
mod Prelude
pub mod Json
pub mod Model
pub mod Bus
pub mod Query
pub mod References
pub mod Exec
pub mod Audit
pub mod Permissions
pub mod Workflow
pub mod Notifications
pub mod Reviewers
pub mod Projects
pub mod Tasks
pub mod WorkProposals
pub mod Packages
pub mod Results
pub mod Sessions
pub mod Idempotency
mod Tests
