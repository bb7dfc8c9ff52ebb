-- ===== src/Models.antt =====
-- workflow/models.py: the rows of the tables and the state that the program keeps beside them.
--
-- `Store` is one tenant's schema. A table lists its rows newest first, which is the default order
-- (`ordering = ["-created_at"]`) of `Workflow` and `Task`. An instance that a query returns is a
-- copy of its row, and `save` writes the whole copy back. A schema has one `Space`, so that the
-- filters by `space` select every row. Columns that no operation reads are left out.
pub mod Payload
pub mod Tables
pub mod Save
pub mod Cancel
pub mod Tests
use finmars_workflow.Common.{ℕ, String, Bool, true, false, Option, List}
use finmars_workflow.Common.Dict.{Dict}
use finmars_workflow.Json.{Json}
use finmars_workflow.Json.Codec.{Codec}
use finmars_workflow.Graph.{Node, Connection}

pub data WorkflowStatus : Type 0 where
  init progress wait success error timeout canceled : WorkflowStatus

pub data TaskStatus : Type 0 where
  init progress nested_progress success error timeout canceled : TaskStatus

pub record Space : Type 0 where
  pub realm_code : Option String
  pub space_code : String

-- `nodes` and `connections` are those of data["workflow"].
pub record WorkflowTemplate : Type 0 where
  pub id : ℕ
  pub user_code : Option String
  pub nodes : List Node
  pub connections : List Connection

pub record Workflow : Type 0 where
  pub id : ℕ
  pub workflow_template : Option ℕ
  pub current_node_id : Option String
  pub last_task_output : Option Json
  pub node_id : Option String
  pub user_code : Option String
  pub status : WorkflowStatus
  pub payload_data : Option String
  pub periodic : Bool
  pub is_manager : Bool
  pub platform_task_id : Option ℕ
  pub owner : ℕ
  pub crontab : Option ℕ
  pub finished_at : Option ℕ
  pub parent : Option ℕ

pub record Task : Type 0 where
  pub id : ℕ
  pub workflow : ℕ
  pub node_id : Option String
  pub celery_task_id : Option String
  pub name : Option String
  pub source_code : Option String
  pub status : TaskStatus
  pub worker_name : Option String
  pub payload_data : Option String
  pub result_data : Option String
  pub progress_data : Option String
  pub previous_data : Option String
  pub log : Option String
  pub error_message : Option String
  pub is_hook : Bool
  pub finished_at : Option ℕ

-- kwargs["context"]
pub record Context : Type 0 where
  pub realm_code : Option String
  pub space_code : Option String

-- What `apply_async` puts on the queue: the current node, the workflow, the nodes, the adjacency list,
-- the connections and the context; or the workflow and the context.
pub data Message : Type 0 where
  process_next_node :
      String → ℕ → Dict Node → Dict (List String) → List Connection → Option Context → Message
  execute_workflow_v2 mark_as_canceled_init_tasks : ℕ → Option Context → Message

-- A call of `update_task_status`: the platform's task, the status, and the result or the error.
pub record StatusUpdate : Type 0 where
  pub platform_task_id : ℕ
  pub status : WorkflowStatus
  pub result : Option Json
  pub error : Option (Option String)

pub record User : Type 0 where
  pub id : ℕ
  pub username : String

-- A message that `send_alert` posts to the platform: the workflow that it names, and the path under
-- the platform's host.
pub record Alert : Type 0 where
  pub user_code : Option String
  pub workflow : ℕ
  pub path : String

-- `outbox`, `revoked`, `updates` and `alerts` hold what was sent, oldest first; `drawn` counts the calls of
-- `uuid()`; `clock` is what `now()` returns.
pub record Store : Type 0 where
  pub space : Space
  pub templates : List WorkflowTemplate
  pub workflows : List Workflow
  pub tasks : List Task
  pub next_workflow : ℕ
  pub next_task : ℕ
  pub schemas : List String
  pub search_path : String
  pub clock : ℕ
  pub drawn : ℕ
  pub outbox : List Message
  pub revoked : List (Option String)
  pub updates : List StatusUpdate
  pub users : List User
  pub alerts : List Alert

-- What the engine only calls: the `json` module, and the ids that `celery.utils.uuid` returns.
pub record Env : Type 0 where
  pub codec : Codec
  pub uuid : ℕ → String

-- status in (SUCCESS, ERROR, TIMEOUT, CANCELED)
abbrev pub is_final : WorkflowStatus → Bool
is_final WorkflowStatus.success = true
is_final WorkflowStatus.error = true
is_final WorkflowStatus.timeout = true
is_final WorkflowStatus.canceled = true
is_final _ = false

-- status == Workflow.STATUS_WAIT, Workflow.STATUS_PROGRESS, Workflow.STATUS_ERROR
abbrev pub is_wait : WorkflowStatus → Bool
is_wait WorkflowStatus.wait = true
is_wait _ = false

abbrev pub is_in_progress : WorkflowStatus → Bool
is_in_progress WorkflowStatus.progress = true
is_in_progress _ = false

abbrev pub is_failed : WorkflowStatus → Bool
is_failed WorkflowStatus.error = true
is_failed _ = false

-- status in [PROGRESS, INIT, NESTED_PROGRESS]
abbrev pub is_active : TaskStatus → Bool
is_active TaskStatus.progress = true
is_active TaskStatus.init = true
is_active TaskStatus.nested_progress = true
is_active _ = false

-- status in [PROGRESS, INIT]
abbrev pub is_running : TaskStatus → Bool
is_running TaskStatus.progress = true
is_running TaskStatus.init = true
is_running _ = false

-- status == Task.STATUS_SUCCESS, Task.STATUS_ERROR, Task.STATUS_INIT, Task.STATUS_NESTED_PROGRESS
abbrev pub is_success : TaskStatus → Bool
is_success TaskStatus.success = true
is_success _ = false

abbrev pub is_error : TaskStatus → Bool
is_error TaskStatus.error = true
is_error _ = false

abbrev pub is_init : TaskStatus → Bool
is_init TaskStatus.init = true
is_init _ = false

abbrev pub is_nested : TaskStatus → Bool
is_nested TaskStatus.nested_progress = true
is_nested _ = false
