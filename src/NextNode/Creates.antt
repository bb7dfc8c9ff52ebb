-- ===== src/NextNode/Creates.antt =====
-- What `process_next_node` does for a node whose inputs are ready, and what happens when it does so
-- twice for one node.
use mathlib.Core.List.{Memᴰ}
use finmars_workflow.Common.{
  ℕ, ◌+◌, ◌≤◌, String, ◌≡◌, refl, true, false, Option, some, List, arith, ap, ◌∙◌, select, All,
  length, ==-refl, eq_refl, Bool-cases, inl, inr,
}
use finmars_workflow.Common.Dict.{Dict, lookup}
use finmars_workflow.Common.Exec.{Exec, Result, ok, err, pure, attempt, caught}
use finmars_workflow.Json.{Json, null}
use finmars_workflow.Graph.{Node, Connection}
use finmars_workflow.Models.{Env, Workflow, Task, Store, Context, is_wait}
use finmars_workflow.Models.Payload.{get_payload, write_column}
use finmars_workflow.Models.Tables.{get_workflow, is_of_node, add_task}
use finmars_workflow.Tenancy.{set_schema_from_context}
use finmars_workflow.Engine.{are_inputs_ready}
use finmars_workflow.Engine.Ready.{HasSucceeded, are_inputs_ready_iff}
use finmars_workflow.Success.{space_context}
use finmars_workflow.NextNode.{
  Signature, task_name, task_source, input_value, draw, new_task, run_node, guarded_node,
  process_next_node,
}
use finmars_workflow.NextNode.Guards.{process_next_node_lem}

-- The store that the new task is run in, and the signature that it is run with.
abbrev pub created : Env → Workflow → String → String → Option String → Json → Store → Store
created env w current name source payload s =
    add_task
      (new_task w.id (some current) (env.uuid s.drawn) name source (write_column env.codec payload))
      (record s { drawn = s.drawn + 1 })

abbrev pub signature_of : Env → Workflow → Json → Json → Store → Signature
signature_of env w payload previous s = record {
  task_id = env.uuid s.drawn;
  workflow_id = w.id;
  payload = payload;
  context = space_context s.space;
  previous_output = previous;
}

module _ (env : Env) (apply : Signature → Exec Store Unit) where
  -- A node whose inputs are ready, in a workflow that is not paused, gets one new task, with the id
  -- that the Celery task has, the payload that it is given and the status of a task not yet run; then
  -- the step is run once, with the payload and the output of the node before it, in the context of
  -- the workflow's space, and what it raises is swallowed.
  pub process_next_node_creates :
      (current : String) (k : ℕ) (nodes : Dict Node) (cs : List Connection)
      (context : Option Context) (s s' : Store) (w : Workflow) (node : Node) (name : String)
      (source : Option String) (previous payload : Json)
      → set_schema_from_context context s ≡ (ok tt, s')
      → get_workflow k s' ≡ (ok w, s')
      → lookup current nodes ≡ some node
      → is_wait w.status ≡ false
      → are_inputs_ready w.id current cs s'.tasks ≡ true
      → task_name node node.kind ≡ ok name
      → task_source node node.kind ≡ ok source
      → input_value env w.id node current "in" cs null s' ≡ (ok previous, s')
      → input_value env w.id node current "payload_input" cs (get_payload env.codec w) s'
        ≡ (ok payload, s')
      → process_next_node env apply current k nodes cs context s
        ≡ attempt
            (apply (signature_of env w payload previous s'))
            (λ _. pure tt)
            (created env w current name source payload s')
  unfolding guarded_node run_node draw
  process_next_node_creates current k nodes cs context s s' w node name source previous payload hs
        hw hl wait ready hn hc hp hq =
      process_next_node_lem env apply current k nodes cs context s s' w node hs hw hl
      ∙ rw (wait, ready, hn, hp, hq, hc) refl

-- A source that has been run twice or more.
abbrev pub RanTwice : ℕ → String → List Task → Type 0
RanTwice w n ts = 2 ≤ length (select (is_of_node w (some n)) ts)

pub All-at : {A : Type 0} (P : A → Type 0) {x : A} {xs : List A} → Memᴰ x xs → All P xs → P x
All-at P (Memᴰ.head e) a = rw e (a.0)
All-at P (Memᴰ.tail m) a = All-at P m a.1

-- No successor of such a node is ever ready.
RanTwice-blocks :
    (w : ℕ) (c : Connection) (cs : List Connection) (ts : List Task)
    → Memᴰ c cs
    → RanTwice w c.source ts
    → are_inputs_ready w c.target cs ts ≡ false
RanTwice-blocks w c cs ts m twice = elim (Bool-cases (are_inputs_ready w c.target cs ts)) [
  | inr no_more ↦ no_more
  | inl ready ↦
      let (t, one, _) =
        All-at (λ d. d.target ≡ c.target → HasSucceeded w ts d.source) m
          ((are_inputs_ready_iff w c.target cs ts).0 ready) refl in
      let at_most : length (select (is_of_node w (some c.source)) ts) ≡ 1 = ap length one in
      absurd (omega arith)
]

created-adds :
    (env : Env) (w : Workflow) (current name : String) (source : Option String) (payload : Json)
    (s : Store)
    → 1 ≤ length (select (is_of_node w.id (some current)) s.tasks)
    → RanTwice w.id current (created env w current name source payload s).tasks
created-adds env w current name source payload s h =
    rw (==-refl w.id, eq_refl current) (omega arith)

caught-state : (r : Result Unit × Store) → (caught (λ _. pure tt) r).1 ≡ r.1
caught-state (ok tt, s) = refl
caught-state (err e, s) = refl

-- If a node that already has a task in its workflow is run again, which happens when two of its
-- predecessors hand over to it after both have succeeded, then none of its successors is ready
-- afterwards, whatever the two tasks returned: `are_inputs_ready` takes several tasks for none. The
-- step is assumed to delete no task of the node.
pub process_next_node_twice_blocks :
    (env : Env) (apply : Signature → Exec Store Unit) (current : String) (k : ℕ) (nodes : Dict Node)
    (cs : List Connection) (context : Option Context) (s s' : Store) (w : Workflow) (node : Node)
    (name : String) (source : Option String) (previous payload : Json) (c : Connection)
    → ((sig : Signature) (r : Store)
        → RanTwice w.id current r.tasks
        → RanTwice w.id current (apply sig r).1.tasks)
    → set_schema_from_context context s ≡ (ok tt, s')
    → get_workflow k s' ≡ (ok w, s')
    → lookup current nodes ≡ some node
    → is_wait w.status ≡ false
    → are_inputs_ready w.id current cs s'.tasks ≡ true
    → task_name node node.kind ≡ ok name
    → task_source node node.kind ≡ ok source
    → input_value env w.id node current "in" cs null s' ≡ (ok previous, s')
    → input_value env w.id node current "payload_input" cs (get_payload env.codec w) s'
      ≡ (ok payload, s')
    → 1 ≤ length (select (is_of_node w.id (some current)) s'.tasks)
    → Memᴰ c cs
    → c.source ≡ current
    → are_inputs_ready w.id c.target cs
        (process_next_node env apply current k nodes cs context s).1.tasks
      ≡ false
process_next_node_twice_blocks env apply current k nodes cs context s s' w node name source previous
      payload c keeps hs hw hl wait ready hn hc hp hq one m from =
    let sig = signature_of env w payload previous s' in
    let s1 = created env w current name source payload s' in
    let ran =
      process_next_node_creates env apply current k nodes cs context s s' w node name source
        previous payload hs hw hl wait ready hn hc hp hq in
    let twice = keeps sig s1 (created-adds env w current name source payload s' one) in
    let after : (process_next_node env apply current k nodes cs context s).1 ≡ (apply sig s1).1 =
      ap (λ (r : Result Unit × Store). r.1) ran ∙ caught-state (apply sig s1) in
    rw after (RanTwice-blocks w.id c cs (apply sig s1).1.tasks m (rw from twice))
