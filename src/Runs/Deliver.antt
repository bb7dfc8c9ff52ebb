-- ===== src/Runs/Deliver.antt =====
-- A delivered node: when `process_next_node` starts a task, the inputs of its node are done.
use finmars_workflow.Common.{
  elem, ℕ, ◌+◌, ◌<◌, String, ◌≡◌, refl, sym, ap, ◌∙◌, true, Option, none, some, List, [], ◌∷◌,
  arith, map, select, All, ◌==◌, ==_iff, Bool-cases, inl, inr,
}
use finmars_workflow.Common.Dict.{Dict, lookup}
use finmars_workflow.Common.Exec.{Exec, Result, ok, err, key_error, need, lift, caught, pure, after}
use finmars_workflow.Json.{Json, null}
use finmars_workflow.Graph.{Node, Connection}
use finmars_workflow.Models.{Env, Workflow, Task, Store, Context, is_wait}
use finmars_workflow.Models.Payload.{get_payload, write_column}
use finmars_workflow.Models.Tables.{get_workflow, add_task, is_of_node, same_node}
use finmars_workflow.Tenancy.{set_schema_from_context}
use finmars_workflow.Engine.{are_inputs_ready}
use finmars_workflow.Engine.Ready.{HasSucceeded, are_inputs_ready_iff}
use finmars_workflow.Success.{space_context}
use finmars_workflow.Success.Found.{find_sound}
use finmars_workflow.NextNode.{
  Signature, task_name, task_source, source_of, result_of_node, input_value, draw, new_task,
  run_node, guarded_node, process_next_node,
}
use finmars_workflow.Runs.{entry_of, view, IsDone, starts, Moves, stays, goes}
use finmars_workflow.Runs.Keys.{
  Leads, Leads-refl, Leads-trans, Leads-same, Leads-after, Stands, Key, key_of, keys_of, IsSound,
}
use finmars_workflow.Runs.Updates.{save_workflow-Leads, get_workflow-Leads, set_schema-Leads}

-- The tasks of a node, in the table and in the view.
select-view :
    (w : ℕ) (n : Option String) (ts : List Task)
    → select (λ d. same_node d.node n) (view w ts) ≡ map entry_of (select (is_of_node w n) ts)
select-view w n [] = refl
select-view w n (t ∷ ts) = elim (Bool-cases (t.workflow == w)) [
  | inl e ↦ elim (Bool-cases (same_node t.node_id n)) [
    | inl f ↦ rw (e, f, select-view w n ts) refl
    | inr f ↦ rw (e, f, select-view w n ts) refl
  ]
  | inr e ↦ rw (e, select-view w n ts) refl
]

HasSucceeded-IsDone :
    (w : ℕ) (ts : List Task) (n : String) → HasSucceeded w ts n → IsDone (view w ts) n
HasSucceeded-IsDone w ts n (t, one, done) =
    (entry_of t, select-view w (some n) ts ∙ ap (map entry_of) one, done)

All-map-to :
    {A : Type 0} {P Q : A → Type 0} (xs : List A) → ((x : A) → P x → Q x) → All P xs → All Q xs
All-map-to [] f h = tt
All-map-to (x ∷ xs) f h = (f x h.0, All-map-to xs f h.1)

-- A new row has an id that no row has.
Stands-below : (k : Key) (ks : List Key) → All (λ j. j.id < k.id) ks → Stands k ks
Stands-below k [] h = tt
Stands-below k (j ∷ ks) h = ((λ same. absurd (omega arith)), Stands-below k ks h.1)

keys_stand :
    (k : Key) (ks : List Key) (all : List Key)
    → All (λ j. j.id < k.id) ks
    → All (λ j. Stands j all) ks
    → All (λ j. Stands j (k ∷ all)) ks
keys_stand k [] all below h = tt
keys_stand k (j ∷ ks) all below h =
    (((λ same. absurd (omega arith)), h.0), keys_stand k ks all below.1 h.1)

below_next : (n : ℕ) (ks : List Key) → All (λ k. k.id < n) ks → All (λ k. k.id < n + 1) ks
below_next n ks h = All-map-to ks (λ k lt. omega arith) h

module _ (w : ℕ) (cs : List Connection) (env : Env) (apply : Signature → Exec Store Unit)
    (apply-Leads : (sig : Signature) (s : Store) → Leads w cs s (apply sig s).1) where
  module _ (u : ℕ) (ds : List Connection) (ours : u ≡ w → ds ≡ cs) (current : String)
      (task_id name : String) (source payload : Option String) where
    abbrev added : Store → Store
    added s = add_task (new_task u (some current) task_id name source payload) s

    added-IsSound : (s : Store) → IsSound s → IsSound (added s)
    added-IsSound s (apart, below) =
        let k = key_of (new_task u (some current) task_id name source payload s.next_task) in
        (
          (
            ((λ _. refl), Stands-below k (keys_of s.tasks) below),
            keys_stand k (keys_of s.tasks) (keys_of s.tasks) below apart,
          ),
          (omega arith, below_next s.next_task (keys_of s.tasks) below),
        )

    added_moves :
        (s : Store)
        → are_inputs_ready u current ds s.tasks ≡ true
        → Moves cs (view w s.tasks) (view w (added s).tasks)
    added_moves s ready = elim (Bool-cases (u == w)) [
      | inl e ↦
          let same : u ≡ w = (==_iff u w).0 e in
          let fine : are_inputs_ready w current cs s.tasks ≡ true =
            rw (sym same, sym (ours same)) ready in
          goes stays (
            starts current
              (All-map-to cs (λ c h to. HasSucceeded-IsDone w s.tasks c.source (h to))
                ((are_inputs_ready_iff w current cs s.tasks).0 fine))
              (rw e refl))
      | inr e ↦ rw e stays
    ]

    added-Leads :
        (s : Store) → are_inputs_ready u current ds s.tasks ≡ true → Leads w cs s (added s)
    added-Leads s ready = record { run = λ _. added_moves s ready; sound = added-IsSound s }

  result_of_node_same :
      (k : ℕ) (d : Json) (o : Option String) (s : Store) → (result_of_node env k d o s).1 ≡ s
  unfolding result_of_node
  result_of_node_same k d none s = refl
  result_of_node_same k d (some n) s = ground arith

  input_value_same :
      (k : ℕ) (node : Node) (current input : String) (ds : List Connection) (d : Json) (s : Store)
      → (input_value env k node current input ds d s).1 ≡ s
  unfolding input_value
  input_value_same k node current input ds d s = elim (Bool-cases (elem input node.inputs)) [
    | inl e ↦ rw e (result_of_node_same k d (source_of current input ds) s)
    | inr e ↦ rw e refl
  ]

  -- From a store with the same tasks and the same next id.
  abbrev Same : Store → Store → Type 0
  Same s r = (r.tasks ≡ s.tasks) × (r.next_task ≡ s.next_task)

  Same-Leads : (s r : Store) → Same s r → Leads w cs s r
  Same-Leads s r h = Leads-same w cs s r h.0 h.1

  input_value-Same :
      (k : ℕ) (node : Node) (current input : String) (ds : List Connection) (d : Json) (s : Store)
      → Same s (input_value env k node current input ds d s).1
  input_value-Same k node current input ds d s =
      let same = input_value_same k node current input ds d s in
      (ap (λ (r : Store). r.tasks) same, ap (λ (r : Store). r.next_task) same)

  draw-Same : (s : Store) → Same s (draw env s).1
  unfolding draw
  draw-Same s = (refl, refl)

  module _ (u : Workflow) (ds : List Connection) (ours : u.id ≡ w → ds ≡ cs)
      (current : String) where
    abbrev IsReady : Store → Type 0
    IsReady s = are_inputs_ready u.id current ds s.tasks ≡ true

    -- A step that keeps the tasks keeps the node ready.
    still_ready :
        {A : Type 0} (f : A → Exec Store Unit) (s : Store) (r : Result A × Store)
        → IsReady s
        → Same s r.1
        → ((a : A) (s1 : Store) → IsReady s1 → Leads w cs s1 (f a s1).1)
        → Leads w cs s (after f r).1
    still_ready f s (ok a, s1) ready same k =
        Leads-trans (Same-Leads s s1 same) (k a s1 (rw same.0 ready))
    still_ready f s (err e, s1) ready same k = Same-Leads s s1 same

    run_node-Leads :
        (node : Node) (s : Store)
        → IsReady s
        → Leads w cs s (run_node env apply u node current ds s).1
    unfolding run_node
    run_node-Leads node s ready =
        still_ready _ s (lift (task_name node node.kind) s) ready (refl, refl)
          λ name s1 ready1.
            still_ready _ s1 (input_value env u.id node current "in" ds null s1) ready1
              (input_value-Same u.id node current "in" ds null s1)
              λ previous s2 ready2.
                still_ready _ s2
                  (input_value env u.id node current "payload_input" ds (get_payload env.codec u)
                    s2)
                  ready2
                  (input_value-Same u.id node current "payload_input" ds (get_payload env.codec u)
                    s2)
                  λ payload s3 ready3.
                    still_ready _ s3 (draw env s3) ready3 (draw-Same s3) λ task_id s4 ready4.
                      still_ready _ s4 (lift (task_source node node.kind) s4) ready4 (refl, refl)
                        λ source s5 ready5.
                          let column = write_column env.codec payload in
                          Leads-trans
                            (added-Leads u.id ds ours current task_id name source column s5 ready5)
                            (apply-Leads
                              (record {
                                task_id = task_id;
                                workflow_id = u.id;
                                payload = payload;
                                context = space_context s5.space;
                                previous_output = previous;
                              })
                              (add_task (new_task u.id (some current) task_id name source column)
                                s5))

    guarded_node-Leads :
        (node : Node) (s : Store) → Leads w cs s (guarded_node env apply u node current ds s).1
    unfolding guarded_node
    guarded_node-Leads node s = elim (Bool-cases (is_wait u.status)) [
      | inl e ↦ rw e (save_workflow-Leads w cs env (record u { current_node_id = some current }) s)
      | inr e ↦ elim (Bool-cases (are_inputs_ready u.id current ds s.tasks)) [
        | inl f ↦ rw (e, f) (run_node-Leads node s f)
        | inr f ↦ rw (e, f) Leads-refl
      ]
    ]

  found_id : (k : ℕ) (s s' : Store) (u : Workflow) → get_workflow k s ≡ (ok u, s') → u.id ≡ k
  unfolding get_workflow
  found_id k s s' u e = (==_iff u.id k).0 (find_sound (λ v. v.id == k) s.workflows u (ground arith))

  caught-Leads :
      (s : Store) (r : Result Unit × Store)
      → Leads w cs s r.1
      → Leads w cs s (caught (λ _. pure tt) r).1
  caught-Leads s (ok a, s1) h = h
  caught-Leads s (err e, s1) h = h

  pub process_next_node-Leads :
      (current : String) (k : ℕ) (nodes : Dict Node) (ds : List Connection)
      (context : Option Context) (s : Store)
      → (k ≡ w → ds ≡ cs)
      → Leads w cs s (process_next_node env apply current k nodes ds context s).1
  unfolding process_next_node
  process_next_node-Leads current k nodes ds context s ours =
      Leads-after w cs _ s (set_schema_from_context context s) (set_schema-Leads w cs context s)
        λ _ s1 _. caught-Leads s1 _ (
          Leads-after w cs _ s1 (get_workflow k s1) (get_workflow-Leads w cs k s1) λ u s2 got.
            Leads-after w cs _ s2 (need key_error (lookup current nodes) s2)
              (Leads-same w cs s2 _ (ground arith) (ground arith))
              λ node s3 _.
                guarded_node-Leads u ds (λ e. ours (sym (found_id k s1 s2 u got) ∙ e)) current node
                  s3)
