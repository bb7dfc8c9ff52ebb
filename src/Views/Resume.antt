-- ===== src/Views/Resume.antt =====
-- What `resume_workflow` does with a workflow that it finds.
use finmars_workflow.Common.{
  ℕ, String, ◌≡◌, refl, true, false, Option, none, some, List, arith, ap, ◌∙◌, find, ◌==◌, str_eq,
  ◌⊎◌, inl, inr, Bool-cases,
}
use finmars_workflow.Common.Dict.{Dict}
use finmars_workflow.Common.Exec.{ok}
use finmars_workflow.Json.{Json}
use finmars_workflow.Graph.{nodes_by_id, adjacency_list}
use finmars_workflow.Models.{
  Env, Workflow, WorkflowTemplate, WorkflowStatus, Store, process_next_node, is_wait,
}
use finmars_workflow.Models.Payload.{set_payload}
use finmars_workflow.Models.Save.{save_workflow}
use finmars_workflow.Engine.{send, template_of}
use finmars_workflow.Engine.Launch.{template_of_ok, templates-save_workflow}
use finmars_workflow.Success.{space_context}
use finmars_workflow.Views.{
  Response, reply, message, about, get_object, has_running_tasks, new_payload, resume_from,
  resume_workflow,
}

pub get_object_ok :
    (k : ℕ) (s : Store) (w : Workflow)
    → find (λ v. v.id == k) s.workflows ≡ some w
    → get_object k s ≡ (ok w, s)
unfolding get_object
get_object_ok k s w h = ground arith

-- A new payload changes no other column.
new_payload-node :
    (env : Env) (payload : Option Json) (w : Workflow)
    → (new_payload env payload w).current_node_id ≡ w.current_node_id
unfolding set_payload
new_payload-node env payload w = ground arith

new_payload-template :
    (env : Env) (payload : Option Json) (w : Workflow)
    → (new_payload env payload w).workflow_template ≡ w.workflow_template
unfolding set_payload
new_payload-template env payload w = ground arith

pub new_payload-id :
    (env : Env) (payload : Option Json) (w : Workflow) → (new_payload env payload w).id ≡ w.id
unfolding set_payload
new_payload-id env payload w = ground arith

-- The row that a resumed workflow gets.
abbrev pub resumed : Env → Option Json → Workflow → Workflow
resumed env payload w = record (new_payload env payload w) { status = WorkflowStatus.progress }

-- A workflow that is not paused, or that has a task not yet run or in progress, is not resumed: the
-- answer is 400, and nothing changes.
pub resume_workflow_rejects :
    (env : Env) (k : ℕ) (payload : Option Json) (s : Store) (w : Workflow)
    → find (λ v. v.id == k) s.workflows ≡ some w
    → (is_wait w.status ≡ false) ⊎ (has_running_tasks w.id s.tasks ≡ true)
    → (r : Response) × (resume_workflow env k payload s ≡ (ok r, s)) × (r.code ≡ 400)
unfolding resume_workflow
resume_workflow_rejects env k payload s w hw why = elim (Bool-cases (is_wait w.status)) [
  | inr other ↦ (
    reply 400 (message "Cannot resume workflow that is not paused."),
    rw (get_object_ok k s w hw, other) refl,
    refl,
  )
  | inl wait ↦
      let running : has_running_tasks w.id s.tasks ≡ true = ground arith in
      (
        reply 400 (message "Cannot resume workflow while there are active tasks running."),
        rw (get_object_ok k s w hw, wait, running) refl,
        refl,
      )
]

-- A paused workflow with no task running that has no stored node is put in progress and saved, though
-- the answer is 400, "No node to resume from.", and nothing is sent that would go on with it.
pub resume_workflow_without_node :
    (env : Env) (k : ℕ) (payload : Option Json) (s : Store) (w : Workflow)
    → find (λ v. v.id == k) s.workflows ≡ some w
    → is_wait w.status ≡ true
    → has_running_tasks w.id s.tasks ≡ false
    → w.current_node_id ≡ none
    → resume_workflow env k payload s ≡ (
      ok (reply 400 (message "No node to resume from.")),
      save_workflow env (resumed env payload w) s,
    )
unfolding resume_workflow resume_from
resume_workflow_without_node env k payload s w hw wait idle node =
    rw (get_object_ok k s w hw, wait, idle)
      (ap (λ o. resume_from (resumed env payload w) o (save_workflow env (resumed env payload w) s))
        (new_payload-node env payload w ∙ node))

-- A paused workflow with no task running whose stored node and template are there is put in progress,
-- and exactly one message is sent, for the stored node.
pub resume_workflow_sends :
    (env : Env) (k j : ℕ) (payload : Option Json) (s : Store) (w : Workflow) (n : String)
    (t : WorkflowTemplate) (adj : Dict (List String))
    → find (λ v. v.id == k) s.workflows ≡ some w
    → is_wait w.status ≡ true
    → has_running_tasks w.id s.tasks ≡ false
    → w.current_node_id ≡ some n
    → str_eq n "" ≡ false
    → w.workflow_template ≡ some j
    → find (λ u. u.id == j) s.templates ≡ some t
    → adjacency_list (nodes_by_id t.nodes) t.connections ≡ ok adj
    → resume_workflow env k payload s ≡ (
      ok (reply 200 (about w.id "resumed successfully.")),
      send
          (process_next_node n w.id
            (nodes_by_id t.nodes)
            adj
            t.connections
            (space_context (save_workflow env (resumed env payload w) s).space))
          (save_workflow env (resumed env payload w) s),
    )
unfolding resume_workflow resume_from
resume_workflow_sends env k j payload s w n t adj hw wait idle node full hj ht ha =
    let w' = resumed env payload w in
    let s' = save_workflow env w' s in
    let opened : template_of w' s' ≡ (ok t, s') =
      template_of_ok w' s' j t (new_payload-template env payload w ∙ hj)
        (rw (templates-save_workflow env w' s) ht) in
    rw (get_object_ok k s w hw, wait, idle)
      (ap (λ o. resume_from w' o s') (new_payload-node env payload w ∙ node)
        ∙ rw (full, opened, ha)
            (ap
              (λ (i : ℕ). (
                ok (reply 200 (about i "resumed successfully.")),
                send
                    (process_next_node n i (nodes_by_id t.nodes) adj t.connections
                      (space_context s'.space))
                    s',
              ))
              (new_payload-id env payload w)))
