-- ===== src/Success/Next.antt =====
-- What a finished task leads to, where nothing is missing in the store.
use mathlib.Core.List.{append-nil, append_assoc}
use finmars_workflow.Common.{
  ℕ, suc, String, ◌≡◌, refl, false, none, some, List, [], ◌∷◌, ◌++◌, map, arith, ap, find, select,
  ◌==◌, sym, ◌∙◌, Option-cases, inl, inr,
}
use finmars_workflow.Common.Dict.{Dict, lookup, has}
use finmars_workflow.Common.Exec.{Exec, ok, for_each}
use finmars_workflow.Json.{Json}
use finmars_workflow.Graph.{Node, Connection, nodes_by_id, adjacency_list}
use finmars_workflow.Models.{
  Env, Workflow, WorkflowTemplate, WorkflowStatus, Task, Store, process_next_node, is_nested,
}
use finmars_workflow.Models.Tables.{get_workflow, get_template, put_task}
use finmars_workflow.Models.Save.{save_workflow}
use finmars_workflow.Engine.{send}
use finmars_workflow.Success.{
  succeeded_task, space_context, next_node_ids, send_next, resume_parent, finish_workflow, go_on,
  with_template, after_success, success_step, handle_task_success,
}

pub get_workflow_ok :
    (k : ℕ) (s : Store) (w : Workflow)
    → find (λ v. v.id == k) s.workflows ≡ some w
    → get_workflow k s ≡ (ok w, s)
unfolding get_workflow
get_workflow_ok k s w h = ground arith

pub get_template_ok :
    (k : ℕ) (s : Store) (t : WorkflowTemplate)
    → find (λ v. v.id == k) s.templates ≡ some t
    → get_template k s ≡ (ok t, s)
unfolding get_template
get_template_ok k s t h = ground arith

pub for_each-send_next :
    (k : ℕ) (nodes : Dict Node) (adj : Dict (List String)) (cs : List Connection) (ns : List String)
    (s : Store)
    → for_each (send_next k nodes adj cs) ns s ≡ (
      ok tt,
      record s {
        outbox =
            s.outbox
            ++ map
                (λ n. process_next_node n k nodes adj cs (space_context s.space))
                (select (λ n. has n nodes) ns);
      },
    )
unfolding send_next has
for_each-send_next k nodes adj cs [] s =
    ap (λ o. (ok tt, record s { outbox = o })) (sym (append-nil s.outbox))
for_each-send_next k nodes adj cs (n ∷ ns) s = elim (Option-cases (lookup n nodes)) [
  | inl missing ↦ rw (missing, send_next, has) (for_each-send_next k nodes adj cs ns s)
  | inr (node, found) ↦
      let m = process_next_node n k nodes adj cs (space_context s.space) in
      rw (found, send_next, has)
        (for_each-send_next k nodes adj cs ns (send m s)
          ∙ ap (λ o. (ok tt, record s { outbox = o })) (append_assoc s.outbox (m ∷ []) _))
]

-- The steps, one function at a time.
pub success_step_lem :
    (env : Env) (rec : Task → Json → Exec Store Unit) (t : Task) (retval : Json) (s : Store)
    (w : Workflow)
    → is_nested t.status ≡ false
    → find (λ v. v.id == t.workflow) s.workflows ≡ some w
    → success_step env rec t retval s
      ≡ after_success env rec t w retval (put_task (succeeded_task env s.clock retval t) s)
unfolding success_step
success_step_lem env rec t retval s w hn hw =
    let s' = put_task (succeeded_task env s.clock retval t) s in
    rw (hn, get_workflow_ok t.workflow s' w hw) refl

pub after_success_lem :
    (env : Env) (rec : Task → Json → Exec Store Unit) (t : Task) (w : Workflow) (retval : Json)
    (s : Store) (j : ℕ) (template : WorkflowTemplate) (current : String)
    → w.workflow_template ≡ some j
    → find (λ v. v.id == j) s.templates ≡ some template
    → t.node_id ≡ some current
    → after_success env rec t w retval s ≡ go_on env rec w template current retval s
unfolding after_success
after_success_lem env rec t w retval s j template current hj ht hc =
    ap (λ o. with_template env rec w retval t.node_id o s) hj
    ∙ ap (λ o. with_template env rec w retval o (some j) s) hc
    ∙ rw (get_template_ok j s template ht) refl

go_on_sends :
    (env : Env) (rec : Task → Json → Exec Store Unit) (w : Workflow) (template : WorkflowTemplate)
    (current : String) (retval : Json) (s : Store) (adj : Dict (List String)) (node : Node)
    (n : String) (ns : List String)
    → adjacency_list (nodes_by_id template.nodes) template.connections ≡ ok adj
    → lookup current (nodes_by_id template.nodes) ≡ some node
    → next_node_ids node current retval adj template.connections ≡ ok (n ∷ ns)
    → go_on env rec w template current retval s ≡ (
      ok tt,
      record s {
        outbox =
            s.outbox
            ++ map
                (λ m.
                  process_next_node m w.id
                    (nodes_by_id template.nodes)
                    adj
                    template.connections
                    (space_context s.space))
                (select (λ m. has m (nodes_by_id template.nodes)) (n ∷ ns));
      },
    )
unfolding go_on
go_on_sends env rec w template current retval s adj node n ns ha hl hx =
    rw (ha, hl, hx)
      (for_each-send_next w.id (nodes_by_id template.nodes) adj template.connections (n ∷ ns) s)

go_on_ends :
    (env : Env) (rec : Task → Json → Exec Store Unit) (w : Workflow) (template : WorkflowTemplate)
    (current : String) (retval : Json) (s : Store) (adj : Dict (List String)) (node : Node)
    → adjacency_list (nodes_by_id template.nodes) template.connections ≡ ok adj
    → lookup current (nodes_by_id template.nodes) ≡ some node
    → next_node_ids node current retval adj template.connections ≡ ok []
    → go_on env rec w template current retval s
      ≡ finish_workflow env rec
          (record w { last_task_output = some retval; current_node_id = some current })
          retval
          s
unfolding go_on
go_on_ends env rec w template current retval s adj node ha hl hx = rw (ha, hl, hx) refl

-- A task of a workflow of version 2 that has successors is marked as a success, and one message is
-- sent for each successor that is a node, in the order of the successors. Nothing else changes: the
-- row of the workflow keeps its old `current_node_id` and `last_task_output`, since the copy that
-- holds the new ones is not saved.
pub handle_task_success_sends :
    (fuel j : ℕ) (env : Env) (t : Task) (retval : Json) (s : Store) (w : Workflow)
    (template : WorkflowTemplate) (adj : Dict (List String)) (current n : String) (node : Node)
    (ns : List String)
    → is_nested t.status ≡ false
    → find (λ v. v.id == t.workflow) s.workflows ≡ some w
    → w.workflow_template ≡ some j
    → find (λ v. v.id == j) s.templates ≡ some template
    → t.node_id ≡ some current
    → adjacency_list (nodes_by_id template.nodes) template.connections ≡ ok adj
    → lookup current (nodes_by_id template.nodes) ≡ some node
    → next_node_ids node current retval adj template.connections ≡ ok (n ∷ ns)
    → handle_task_success (suc fuel) env t retval s ≡ (
      ok tt,
      record (put_task (succeeded_task env s.clock retval t) s) {
        outbox =
            s.outbox
            ++ map
                (λ m.
                  process_next_node m w.id
                    (nodes_by_id template.nodes)
                    adj
                    template.connections
                    (space_context s.space))
                (select (λ m. has m (nodes_by_id template.nodes)) (n ∷ ns));
      },
    )
unfolding handle_task_success
handle_task_success_sends fuel j env t retval s w template adj current n node ns hn hw hj ht hc ha
      hl hx =
    let s' = put_task (succeeded_task env s.clock retval t) s in
    let rec = handle_task_success fuel env in
    success_step_lem env rec t retval s w hn hw
    ∙ after_success_lem env rec t w retval s' j template current hj ht hc
    ∙ go_on_sends env rec w template current retval s' adj node n ns ha hl hx

-- The row that an ended workflow gets.
abbrev pub ended_workflow : ℕ → String → Json → Workflow → Workflow
ended_workflow now current retval w = record w {
  last_task_output = some retval;
  current_node_id = some current;
  status = WorkflowStatus.success;
  finished_at = some now;
}

-- A task that has no successor ends its workflow, whatever the workflow's other tasks are doing: with
-- no parent the task and the workflow are marked as successes and finished now, the output and the
-- node are kept in the workflow's row, and no message is sent.
pub handle_task_success_ends :
    (fuel j : ℕ) (env : Env) (t : Task) (retval : Json) (s : Store) (w : Workflow)
    (template : WorkflowTemplate) (adj : Dict (List String)) (current : String) (node : Node)
    → is_nested t.status ≡ false
    → find (λ v. v.id == t.workflow) s.workflows ≡ some w
    → w.workflow_template ≡ some j
    → find (λ v. v.id == j) s.templates ≡ some template
    → t.node_id ≡ some current
    → adjacency_list (nodes_by_id template.nodes) template.connections ≡ ok adj
    → lookup current (nodes_by_id template.nodes) ≡ some node
    → next_node_ids node current retval adj template.connections ≡ ok []
    → w.parent ≡ none
    → handle_task_success (suc fuel) env t retval s ≡ (
      ok tt,
      save_workflow env
          (ended_workflow s.clock current retval w)
          (put_task (succeeded_task env s.clock retval t) s),
    )
unfolding handle_task_success finish_workflow
handle_task_success_ends fuel j env t retval s w template adj current node hn hw hj ht hc ha hl hx
      hp =
    let s' = put_task (succeeded_task env s.clock retval t) s in
    let rec = handle_task_success fuel env in
    success_step_lem env rec t retval s w hn hw
    ∙ after_success_lem env rec t w retval s' j template current hj ht hc
    ∙ go_on_ends env rec w template current retval s' adj node ha hl hx
    ∙ ap
        (λ o.
          resume_parent rec w.node_id retval o
            (save_workflow env (ended_workflow s.clock current retval w) s'))
        hp
