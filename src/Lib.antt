-- ===== src/Lib.antt =====
-- The parts of Tokyo Tester's web interface (ui-v2) that keep edits safe until the server has
-- them, check a scenario before it is run or brought in, show the services of a workflow, and
-- decide who may log in and use a project; and the worker of the example API (test-api) that
-- settles payments. Paths are from the repository's root; modules/ stands for
-- ui-v2/src/modules/.
--
-- + Queue: modules/sync/fast-queue.ts, the double-ended queue over a circular buffer. A queue is
--   its record of fields, and a method returns the new record. Queue/View says for which list a
--   buffer stands, Queue/Refines has a law for each method, and Queue/Runs for whole sequences
--   of calls.
-- + Json and Sync: the data of modules/sync/sync-types.ts. Sync/State, Sync/Repair, Sync/Service
--   and Sync/Order are the class of modules/sync/sync-service.ts: its fields are the record
--   SyncService, and each method takes the service to the service, with what it returns. The
--   browser and the server are the record Env, an argument: the server's answer to a batch may
--   depend on all batches before. Sync/Service/ has the proofs, by what they are about:
--   Queueing, Flushing, Draining, Matching, Storage. Sync/Timer is the timer and
--   modules/sync/sync-init.ts, Sync/Middleware is modules/sync/sync-middleware.ts.
-- + Names and Graph: of modules/utils/scenario-translator.ts, the names of services, the search
--   for cycles in their dependencies, and the services that a scenario requires. Graph/Walks
--   states what a cycle is, Graph/Dfs, Graph/Sound and Graph/Complete have the laws of the
--   search.
-- + Edges: modules/workflow/lib/edge-model.ts, and from scenario-translator.ts the graph that
--   buildServiceDependencies makes of the nodes and edges; Edges/Dependencies joins it to the
--   search of Graph.
-- + Status: of modules/workflow/lib/realtime-events.ts and workflow-run-events.ts beside it, the
--   statuses that a page shows. Status/Folds is about sequences of events, Status/Laws about
--   what is shown of an incomplete sequence.
-- + Scenario: from scenario-translator.ts, validateScenario against a description of what is
--   valid (Scenario/Validation), and the order and the dependencies in which
--   translateScenarioTests runs the tests (Scenario/Order).
-- + Scenario/Retry: modules/workflow/lib/test-retry-policy.ts, the policy of a test after a
--   sequence of edits.
-- + Sync/Metadata: addSyncMetadata and markAsDeleted of modules/sync/sync-middleware.ts.
-- + Projects: modules/projects/server/service.ts, who may leave a team or change a role.
--   Projects/Owners is about sequences of requests, with the statements to the database as an
--   argument (Table) and what they do as a hypothesis (IsTable).
-- + Sync/Overlap: the same service with calls that overlap. A call stops at the await of
--   sendBatch, as a Waiting, and a list of events says what happens before the answer: changes
--   that are queued, other flushes, answers in any order, a page that is hidden.
--   Sync/Overlap/Sequence is about commitBatch with nothing in between. Sync/Overlap/Counts
--   counts the changes of an entity, Sync/Overlap/Kept, Sends, Hides and Steps follow them.
-- + Bundle: modules/workflow/lib/workflow-bundle.ts: the name of a workflow that is brought in
--   (Bundle/Named; the loop has fuel for one round more than there are names, which is enough
--   since all names that it tries differ), which scenarios a bundle may hold (Bundle/Accepted),
--   the order in which such a scenario runs (Bundle/Ordered, with Scenario), and the copy of a
--   scenario (Bundle/Renaming, Bundle/Cloned). What generateId returns the n-th time is an
--   argument; two theorems suppose that it returns no text twice and none that is empty.
-- + Agent, Agent/Request: modules/agent/server/auth.ts and internal-assertion.ts, over the rows
--   of the database, with getUserById and getUserByEmail of modules/auth/server/repository.ts.
--   The calls of node:crypto, Buffer and JSON are an argument (Calls). An authentication returns
--   the database, with the time of the last use, and the identity. Agent/Identified follows the
--   identity of a request to its user, Agent/Authorized joins it with the permissions,
--   Agent/Assertions is about signed assertions and Agent/Revoked about rows of tokens.
-- + Projects/Membership: modules/projects/server/service.ts, the projects of a user and
--   getProjectMembership, userHasProjectPermission and userHasProjectAccess, over the rows of
--   the database. Projects/Permissions relates them to these rows.
-- + Payments: settle and handleSettlement of test-api/src/payment-service.ts, the worker of the
--   example API. The rows of its tables, the documents and the events are the fields of Infra,
--   and each delivery says which call throws. Payments/Settling is about the ledger after any
--   deliveries, Payments/Publishing about the events.
-- + Projects/Workspaces: createProject, ensurePersonalProject and addUsersToProject of the same
--   file; what an insert does that meets a row is that of the unique indexes in
--   ui-v2/src/db/migrations. The foreign key of a member to its user is that of the same files,
--   with the ids of the users as an argument of addUsersToProject. Projects/Joining is about
--   added members and Projects/Personal about personal workspaces.
-- + Status/Merging: eventKey and mergeWorkflowRunEvents of modules/workflow/lib/workflow-run-
--   events.ts; the Map is the list of its values in their order, and Status/Merged has its laws.
-- + Stores, Stores/Scenarios, Stores/Actions, Stores/Workflows:
--   modules/workflow/stores/scenario.store.sync.ts and workflow.store.sync.ts, behind
--   syncMiddleware. A store is a Wrapped: its state, the tracked operations and the entities of
--   the microtasks that wait; a task is a list of Actions, and drain runs the microtasks behind
--   it. Stores/Draining says what the microtasks queue, Stores/Edits follows the edits of a
--   task, Stores/Newest the copies from the server, Stores/Ordering the order of the tests,
--   Stores/Running the order in which translateScenarioTests runs them, and Stores/Lingering an
--   operation that stays tracked.
-- + Architecture: modules/workflow/lib/architecture-view.ts: the roles of services, the layout
--   by role, which is the one where the library ELK fails (Architecture/Layout), and what the
--   view says of a node (Architecture/Statements, against the dependency graph of Edges).
--   Coordinates are whole numbers from 0, which those of this layout are; the middle of a route
--   is exact, since columns and widths are even.
-- + Accounts: modules/auth/server/password.ts, service.ts and repository.ts, over the rows of
--   users, with Projects/Workspaces for the personal project. The calls of node:crypto and
--   Buffer are an argument (Crypto) with what is documented of them as a hypothesis (IsCrypto).
--   Accounts/Passwords is about a hash and its check, Accounts/Logins about a user through any
--   requests.
-- + Registry, Registry/Forms: modules/workflow/lib/registry-config.ts; its regular expressions
--   are scanners by recursion. Registry/Hosts has the laws of these scanners, Registry/Normal is
--   about a host that is normalised, Registry/Images about the host of an image that is
--   resolved.
-- The store tracks operations by the middleware, whose microtask calls queueChange; the timer
-- and the methods before a run and on leaving a page take batches from the queue. The queue is
-- used through Queue/View only.
--
-- Numbers are natural. The array of the buffer is a list of options, where none is undefined.
-- The two searches of Graph recur on fuel, one more than the number of nodes that have
-- dependencies, which is enough: a node is entered only while it is not marked. The loop for the
-- name of a workflow has fuel too. All other loops are structural; attempts are counted down as
-- in the source.
--
-- Not modelled: the clock and the texts of log messages, the calls getStatus, pull and clear of
-- the service, the user interface, the other stores of the canvas and the Go runner. JSON
-- numbers are natural numbers.
pub mod Base
pub mod Queue
pub mod Json
pub mod Sync
pub mod Names
pub mod Graph
pub mod Edges
pub mod Status
pub mod Scenario
pub mod Projects
pub mod Bundle
pub mod Agent
pub mod Payments
pub mod Stores
pub mod Architecture
pub mod Accounts
pub mod Registry
