-- ===== src/Lib.antt =====
-- finmars-workflow: the execution engine and the views around it.
--
-- A workflow is a graph of nodes with connections (a template) or a fixed list of Celery tasks. The
-- engine keeps a row per workflow and a row per task, and moves on by messages on Celery's queue: a
-- finished task (`Task.handle_task_success`) hands over to the next nodes by `process_next_node`
-- messages, each of which creates the task of its node once the node's inputs are ready, and runs it.
-- A workflow whose task has no successor ends, and the task of a parent workflow that waits for it
-- goes on. The views cancel, delete, pause and resume workflows.
--
-- Files, with the code that they are about:
--   Common, Common/*   shared names: lists, dictionaries, and `Exec`, code that changes a state and may
--                      raise (what was written before a raise stays written)
--   Json, Json/Codec   JSON values; the `json` module is a parameter (`dumps`, `loads`)
--   Graph, Graph/*     the template's graph: the adjacency list, the start nodes (workflow/tasks/
--                      workflows.py, workflow/models.py) and `get_next_node_by_condition` of
--                      workflow/utils.py
--   Models, Models/*   workflow/models.py: the rows, their JSON columns, the queries, `Workflow.save`
--                      and `Workflow.cancel`
--   Tenancy, Tenancy/*  the database's search path: `set_schema_from_context` (workflow/utils.py),
--                      `workflow_prerun` and `cleanup` (workflow/tasks/base.py), and
--                      `RealmAndSpaceMiddleware` (workflow/middleware.py), around a whole request
--   Engine, Engine/*   `start`, `end`, `mark_as_canceled_init_tasks`, `execute_workflow_v2` (workflow/
--                      tasks/workflows.py) and `are_inputs_ready` (workflow/utils.py)
--   Success, Success/* `Task.handle_task_success` (workflow/models.py)
--   NextNode, NextNode/*  `process_next_node` (workflow/tasks/workflows.py)
--   Views, Views/*     the actions of `WorkflowViewSet` (workflow/views.py)
--   Callbacks, Callbacks/*  what Celery calls around a task: `before_start`, `on_success`, `on_failure`
--                      and the other methods of `BaseTask` (workflow/tasks/base.py), `send_alert`
--                      (workflow/utils.py)
--   System, System/*   `SystemWorkflowManager` (workflow/system.py): the registry of configurations,
--                      their loading and copying, the import of scripts, and the canceling of a dead
--                      worker's tasks
--   Builder, Builder/* `WorkflowBuilder` (workflow/builder.py): the canvas of a workflow of version 1
--   Launch, Launch/*   `execute_workflow` (workflow/workflows.py), `run_new_workflow` (workflow/
--                      models.py), `run_workflow` and `relaunch` (workflow/views.py)
--   Step, Step/*       `execute_workflow_step` (workflow/tasks/workflows.py)
--   Runs, Runs/*       the execution of one workflow as an abstract machine, and the operations of the
--                      engine (NextNode, Success, Callbacks, Models/Cancel, Engine, Step) as its steps
--   Client, Client/*   workflow/finmars.py: the calls of the platform's API, the loops that wait, the files
--                      of the space, dates, secrets and the conversion of texts to ASCII
--   Storage, Storage/* workflow/storage.py: encrypted files, the choice and the listings of the
--                      backends, and downloads as an archive
--   Authentication, Authentication/*  workflow/authentication.py: who a request is from
--   Hooks, Hooks/*     `failure_hooks_launcher` and `execute` (workflow/tasks/workflows.py)
--   Sessions, Sessions/*  workflow/user_sessions.py: the code that users run in the editor
--   Monitoring, Monitoring/*  workflow/monitoring.py: what the workers do, and the broker's queues
--   Schedules, Schedules/*  `build_celery_schedule` (workflow/utils.py), workflow/schedulers.py, the rows
--                      of `Schedule` (workflow/models.py), `init_periodic_tasks` (workflow/system.py) and
--                      `run_manual` (workflow/views.py); what they send is a call of `execute` in Hooks
--   Errors, Errors/*   `flatten_errors` of finmars_standardized_errors/formatter.py, and
--                      finmars_standardized_errors/handler.py
--   Health, Health/*   healthcheck/handlers.py and healthcheck/views.py: the checks and the view's status
--   Fixtures, */Tests  concrete data, runs and instances of the theorems
--
-- State. `Models.Store` is one tenant's schema: the tables, newest row first, with the ids that are
-- drawn next; the schemas of the database and the search path; the clock; and what was sent (messages,
-- revoked Celery ids, calls of the platform), oldest first. Operations are functions from a store to a
-- result and a store. An instance that a query returns is a copy of its row, as in Django: `save`
-- writes all its columns back. Operations run one at a time: an interleaving is a sequence of them.
--
-- Bounds. The only recursion that is not on a list is that of `handle_task_success` and of `on_failure`,
-- which go up the chain of parent workflows; they take a bound, and the workflow's id plus one is proved
-- enough, since a nested workflow gets a larger id than its parent; and that of the loops that wait for a
-- task or a procedure, for which one more than the number of retries is proved enough.
--
-- Parameters: the `json` module, the ids that `celery.utils.uuid` returns, `signature.apply()`,
-- which runs a task in the Celery worker, `apply_async` of a canvas, the configurations that storage
-- holds, Python's `exec`, what a step imports or executes, HTTP requests and their answers, JWT,
-- Keycloak, AES-GCM, the backends of the storage, django_celery_beat's PeriodicTask and Entry, the
-- framework's exceptions, the calls of os and open, and Python's `int`, `strptime`, `float`, `split`
-- and path functions.
--
-- Not modelled: the log, the web framework's routing, serialization and permissions, what
-- manage.py's commands and the admin do, the OpenAPI schemas, and the delivery of Celery messages.
pub mod Common
pub mod Json
pub mod Graph
pub mod Fixtures
pub mod Callbacks
pub mod System
pub mod Builder
pub mod Launch
pub mod Step
pub mod Schedules
pub mod Errors
pub mod Runs
pub mod Client
pub mod Storage
pub mod Authentication
pub mod Health
pub mod Hooks
pub mod Sessions
pub mod Monitoring
pub mod Models
pub mod Tenancy
pub mod Engine
pub mod Success
pub mod NextNode
pub mod Views
