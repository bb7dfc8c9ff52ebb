-- ===== src/System/Imports.antt =====
-- The import of the users' scripts, `import_user_tasks` of workflow/system.py. The files that the pattern
-- matches, what makes a module of one, and the execution of a module are parameters.
use mathlib.Core.List.{append_assoc, append-nil}
use finmars_workflow.Common.{
  String, ◌≡◌, refl, sym, ◌∙◌, ap, Bool, false, List, [], ◌∷◌, ◌++◌, str_eq, if◌then◌else◌,
  Bool-cases, inl, inr,
}
use finmars_workflow.Common.Exec.{
  Exec, Result, ok, err, pure, raise, lift, modify, attempt, for_each, caught, after, ◌>>◌,
}

-- A script: its path's stem, the name of its module, and whether a module can be made of it.
pub record Script : Type 0 where
  pub stem : String
  pub module_name : String
  pub spec : Result {0} Unit

-- The names in sys.modules, oldest first, and all that a script's code may change.
pub record Interpreter (S : Type 0) : Type 0 where
  pub modules : List String
  pub world : S

module _ {S : Type 0} (exec_module : String → Exec S Unit) (raise_exception : Bool) where
  abbrev pub at_world : Exec S Unit → Exec (Interpreter S) Unit
  at_world m i = let (r, w) = m i.world in (r, record i { world = w })

  abbrev pub add_module : String → Interpreter S → Interpreter S
  add_module name i = record i { modules = i.modules ++ name ∷ [] }

  -- The module is in sys.modules before its code runs, and stays there whatever the code raises.
  abbrev pub load : Script → Exec (Interpreter S) Unit
  load t = do lift t.spec; modify (add_module t.module_name); at_world (exec_module t.module_name)

  abbrev pub import_task : Script → Exec (Interpreter S) Unit
  import_task t =
      if str_eq t.stem "__init__"
      then pure tt
      else attempt (load t) (λ e. if raise_exception then raise e else pure tt)

  unfoldable pub import_user_tasks : List Script → Exec (Interpreter S) Unit
  import_user_tasks tasks = for_each import_task tasks

abbrev made : Result {0} Unit → String → List String
made (ok _) name = name ∷ []
made (err _) name = []

-- The names that a script adds.
abbrev pub added : Script → List String
added t = if str_eq t.stem "__init__" then [] else made t.spec t.module_name

abbrev pub all_added : List Script → List String
all_added [] = []
all_added (t ∷ ts) = added t ++ all_added ts

module _ {S : Type 0} (exec_module : String → Exec S Unit) where
  -- Nothing is raised, and the names are added.
  abbrev pub Adds : List String → Interpreter S → Result {0} Unit × Interpreter S → Type 0
  Adds names i q = (q.0 ≡ ok tt) × (q.1.modules ≡ i.modules ++ names)

  caught-Adds :
      (r : Result {0} Unit) (names : List String) (i j : Interpreter S)
      → j.modules ≡ i.modules ++ names
      → Adds names i (caught (λ e. if false then raise e else pure tt) (r, j))
  caught-Adds (ok tt) names i j h = (refl, h)
  caught-Adds (err e) names i j h = (refl, h)

  load-Adds :
      (r : Result {0} Unit) (name : String) (i : Interpreter S)
      → Adds (made r name) i (
          caught
            (λ e. if false then raise e else pure tt)
            (after
              (λ _.
                modify (add_module exec_module false name)
                >> at_world exec_module false (exec_module name))
              (r, i)))
  load-Adds (err e) name i = (refl, sym (append-nil i.modules))
  load-Adds (ok tt) name i =
      caught-Adds (exec_module name i.world).0 (name ∷ []) i
        (record { modules = i.modules ++ name ∷ []; world = (exec_module name i.world).1 }) refl

  import_task-Adds :
      (t : Script) (i : Interpreter S) → Adds (added t) i (import_task exec_module false t i)
  import_task-Adds t i = elim (Bool-cases (str_eq t.stem "__init__")) [
    | inl e ↦ rw e (refl, sym (append-nil i.modules))
    | inr e ↦ rw e (load-Adds t.spec t.module_name i)
  ]

  after-Adds :
      (a b : List String) (i : Interpreter S) (q : Result {0} Unit × Interpreter S)
      (g : Exec (Interpreter S) Unit)
      → Adds a i q
      → ((j : Interpreter S) → Adds b j (g j))
      → Adds (a ++ b) i (after (λ _. g) q)
  after-Adds a b i (ok tt, j) g h k =
      ((k j).0, (k j).1 ∙ ap (λ xs. xs ++ b) h.1 ∙ append_assoc i.modules a b)
  after-Adds a b i (err e, j) g h k = cc

  -- Without `raise_exception` the call returns, whatever the scripts' code does and raises, and adds the
  -- module of every script but those named __init__ and those of which no module can be made, in
  -- their order.
  pub import_user_tasks-Adds :
      (tasks : List Script) (i : Interpreter S)
      → Adds (all_added tasks) i (import_user_tasks exec_module false tasks i)
  unfolding import_user_tasks
  import_user_tasks-Adds [] i = (refl, sym (append-nil i.modules))
  import_user_tasks-Adds (t ∷ ts) i =
      after-Adds (added t) (all_added ts) i (import_task exec_module false t i)
        (for_each (import_task exec_module false) ts) (import_task-Adds t i)
        (λ j. import_user_tasks-Adds ts j)
