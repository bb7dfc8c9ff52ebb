-- ===== src/Views.antt =====
-- `WorkflowViewSet` of workflow/views.py: canceling, deleting, pausing and resuming workflows.
pub mod Resume
pub mod Paused
pub mod Stranded
pub mod Early
pub mod Bulk
pub mod Tests
use finmars_workflow.Common.{
  ℕ, String, Bool, true, false, not, ◌&&◌, Option, none, some, List, [], ◌∷◌, ◌==◌, str_eq, select,
  any, find, truthy_str, if◌then◌else◌, map, holds_id,
}
use finmars_workflow.Common.Exec.{
  Exec, Result, ok, err, key_error, http404, attribute_error, pure, raise, lift, gets, need, modify,
  for_each, ◌>>=◌, ◌>>◌,
}
use finmars_workflow.Json.{Json, truthy_json}
use finmars_workflow.Graph.{nodes_by_id, adjacency_list}
use finmars_workflow.Models.{
  Env, Workflow, WorkflowTemplate, WorkflowStatus, Task, Store, process_next_node, is_wait,
  is_in_progress, is_running,
}
use finmars_workflow.Models.Payload.{set_payload}
use finmars_workflow.Models.Tables.{get_workflow}
use finmars_workflow.Models.Save.{save_workflow}
use finmars_workflow.Models.Cancel.{cancel}
use finmars_workflow.Engine.{send, template_of}
use finmars_workflow.Success.{space_context}

-- The body of a response: a message, a message f"Workflow {id} ...", the status "ok", or `to_dict` of
-- a workflow.
pub data Body : Type 0 where
  message : String → Body
  about : ℕ → String → Body
  status_ok : Body
  workflow_dict : Workflow → Body

pub record Response : Type 0 where
  pub code : ℕ
  pub body : Body

abbrev pub reply : ℕ → Body → Response
reply code body = record { code = code; body = body }

-- status in [INIT, PROGRESS, WAIT]
abbrev pub is_cancelable : WorkflowStatus → Bool
is_cancelable WorkflowStatus.init = true
is_cancelable WorkflowStatus.progress = true
is_cancelable WorkflowStatus.wait = true
is_cancelable _ = false

abbrev canceled_copy : Workflow → Workflow
canceled_copy w = record w { status = WorkflowStatus.canceled }

unfoldable pub cancel_view : Env → ℕ → Exec Store Response
cancel_view env k = do
  w ← get_workflow k
  if is_cancelable w.status
      then (do modify (cancel env w); pure (reply 200 (workflow_dict (canceled_copy w))))
      else pure (reply 200 (message "Could not Cancel finished task"))

abbrev pub is_listed : List ℕ → ℕ → Bool
is_listed ids k = any (λ j. j == k) ids

-- Invalid data leaves `validated_data` empty, so that "ids" is a KeyError.
unfoldable pub bulk_cancel : Env → Option (List ℕ) → Exec Store Response
bulk_cancel env none = raise key_error
bulk_cancel env (some ids) = do
  ws ← gets (λ s. select (λ w. is_listed ids w.id && is_cancelable w.status) s.workflows)
  for_each (λ w. modify (cancel env w)) ws
  pure (reply 200 status_ok)

-- workflow.delete(): the tasks go with it, and its children lose their parent
abbrev pub without_parent : ℕ → Workflow → Workflow
without_parent k w = if holds_id w.parent k then record w { parent = none } else w

abbrev pub delete_workflow : Workflow → Store → Store
delete_workflow w s = record s {
  workflows = map (without_parent w.id) (select (λ v. not (v.id == w.id)) s.workflows);
  tasks = select (λ t. not (t.workflow == w.id)) s.tasks;
}

unfoldable pub bulk_delete : Env → List ℕ → Exec Store Response
bulk_delete env ids = do
  ws ← gets (λ s. select (λ w. is_listed ids w.id) s.workflows)
  for_each (λ w. modify (λ s. delete_workflow w (cancel env w s))) ws
  pure (reply 200 status_ok)

-- self.get_object()
unfoldable pub get_object : ℕ → Exec Store Workflow
get_object k s = need http404 (find (λ w. w.id == k) s.workflows) s

unfoldable pub pause_workflow : Env → ℕ → Exec Store Response
pause_workflow env k = do
  w ← get_object k
  if is_in_progress w.status
      then (do
        modify (save_workflow env (record w { status = WorkflowStatus.wait }))
        pure (reply 200 (about w.id "paused successfully.")))
      else pure (reply 400 (message "Cannot pause workflow that is not in progress."))

abbrev pub has_running_tasks : ℕ → List Task → Bool
has_running_tasks k ts = any (λ t. t.workflow == k && is_running t.status) ts

-- workflow.payload = new_payload, if it is true
abbrev pub new_payload : Env → Option Json → Workflow → Workflow
new_payload env none w = w
new_payload env (some v) w = if truthy_json (some v) then set_payload env.codec v w else w

-- The end of `resume_workflow`, by the stored node.
unfoldable pub resume_from : Workflow → Option String → Exec Store Response
resume_from w none = pure (reply 400 (message "No node to resume from."))
resume_from w (some n) =
    if str_eq n "" then pure (reply 400 (message "No node to resume from.")) else do
      template ← template_of w
      let nodes = nodes_by_id template.nodes
      let cs = template.connections
      adj ← lift (adjacency_list nodes cs)
      modify (λ s. send (process_next_node n w.id nodes adj cs (space_context s.space)) s)
      pure (reply 200 (about w.id "resumed successfully."))

-- The validated data holds a payload or none.
unfoldable pub resume_workflow : Env → ℕ → Option Json → Exec Store Response
resume_workflow env k payload = do
  w ← get_object k
  running ← gets (λ s. has_running_tasks w.id s.tasks)
  if not (is_wait w.status)
      then pure (reply 400 (message "Cannot resume workflow that is not paused."))
      else if running
      then pure (reply 400 (message "Cannot resume workflow while there are active tasks running."))
      else do
        let w' = record (new_payload env payload w) { status = WorkflowStatus.progress }
        modify (save_workflow env w')
        resume_from w' w'.current_node_id
