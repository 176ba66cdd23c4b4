-- ===== src/Lib.antt =====
-- A verification library of the workbench's backend: the decisions on what an agent may do, and
-- the tables that drive its background work.
--
-- The parts and how they interact. An agent proposes an action; the policy engine decides whether
-- it is allowed, denied or needs an approval. An approval is created from that decision, granted
-- by its approver with a signed token, and consumed once with this token. Agents' tools ask for
-- runtime permissions, which the user of the session decides. Background work, a command or a
-- subagent, leaves an obligation in the agent's inbox, which its result turns into a notification
-- that wakes the agent; user messages arrive in the same inbox. A classifier tells utterances like
-- "ok" from topics. What an agent sees of a conversation is projected from the stored items; when
-- it grows too long, a summary takes the place of its older part, and each call of the model is
-- cut to its budget. The events of a turn are streamed to clients, through a projection that a
-- client which connects later gets a snapshot of; a notification interrupts the stream between
-- calls of tools.
--
-- The files, and the code that they model (paths from the repository's root):
--   Prelude        shared names; Prelude/Tests, /Equality, /Lists, /Tables and /Rows have the
--                  Boolean tests, Python's `==` and `in`, lists, and the SQL statements on lists
--                  of rows, with their lemmas
--   Json           values of JSON and the reads of dicts that the code makes
--   Policy         core/policy_engine.py, schema/action.py, schema/incident.py: `evaluate_action`;
--                  Policy/Decision and Policy/Widening have its proofs
--   Approval       core/approval_gate.py (Token), service/approval.py (Service);
--                  Approval/Platform has the parameters: the HMAC, base64 and JSON of Python
--   Notifications  service/agent/notifications.py, schema/agent/notifications.py and
--                  model/agent/notifications.py: the rows here, the transactions in
--                  Notifications/Inbox and /Claims, sequences of them in Notifications/Steps
--   AsyncJobs      service/sandbox/async_jobs.py, schema/sandbox/async_jobs.py and
--                  model/sandbox/async_jobs.py: jobs, over the same inbox
--   Subagents      service/agent/subordinates.py, schema/agent/subordinates.py and
--                  model/agent/subordinates.py: delegated tasks, over the same inbox;
--                  Notifications/Tracked has what the proofs of both share
--   Registry       core/action_registry.py: the specifications of actions
--   Executor       core/task_runtime/executor.py: the loop that drains an agent's inbox
--   Permissions    service/runtime_permissions.py, schema/runtime_permissions.py
--   Guard          core/execution_guard.py: what tools ask before they act, over the policy and
--                  the permissions
--   Conversation   core/__init__.py, core/conversation: formats.py, projection.py,
--                  context_budget.py (Budget), compaction.py (Tokens, Compaction and its Storage,
--                  with model/agent/context_compactions.py); the other children have the proofs
--   Streaming      schema/agent/events.py, core/runtime/live_projection.py (Live),
--                  core/runtime/partial_context.py (Buffers), the events of a turn in
--                  core/runtime/session.py and core/delegation/subagents.py (Turns),
--                  core/task_runtime/interrupt.py (Interrupt), and core/runtime/timeline.py with
--                  `_stamp_event` of core/runtime/session.py (Timeline)
--   Utterances     core/conversation/utterances.py; the phrases are in Utterances/Keys
--
-- State and operations. A handler has the name of its function and takes the state that it
-- changes, and the clock's readings, as arguments; it returns its result with the new state. A
-- file or a table is a list of rows or a function from ids. One call is one transaction, or the
-- run of an asyncio task between two waits, and the sequences of calls that the theorems speak of
-- are arbitrary: `require_permission` is therefore split at its wait. An exception is a value of
-- the result. The service of approvals takes no lock: that its calls come one after the other is an
-- assumption of the model, as that of the tables is that transactions do. Identifiers are numbers where the source has UUIDs, strings otherwise; instants are
-- numbers. Numbers of Python have no bound, so no arithmetic here wraps.
--
-- Loops are structural recursion on the list that the source walks, or on that of what the
-- environment does in each round: the turns of the executor, the rounds of `asyncio.wait`. The
-- classifier's loop over positions has one round for each position of its key, the bound of the
-- source's `range`, so that it never runs out.
--
-- Parameters stand for what the repository does not have: SQL's LIKE, Python's `str`, `strip`,
-- `splitlines`, `casefold`, `urlsplit`, `uuid5`, Unicode categories and normalization, HMAC,
-- base64 and JSON, the tokens that a model counts for a JSON value, and its answer to the request
-- for a summary. The products of the context window with the ratios of the configuration, which
-- are floats, are arguments too. Laws on them are hypotheses of the theorems that need them, and
-- the tests have instances of them.
--
-- Not modelled: the routers and handlers, which call services; the remaining services and tables
-- (work projects, knowledge, hosts, sandboxes, egress proxies), the storage and the semantic
-- retrieval of conversations, the agent runtime, which drives the OpenAI agents SDK; and the web
-- and desktop programs, in other languages.
--
pub mod Prelude
pub mod Json
pub mod Policy
pub mod Approval
pub mod Streaming
pub mod Subagents
pub mod Executor
pub mod Registry
pub mod Utterances
pub mod Notifications
pub mod AsyncJobs
pub mod Permissions
pub mod Guard
pub mod Conversation
