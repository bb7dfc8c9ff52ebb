-- ===== src/Runs.antt =====
-- The execution of one workflow, as an abstract machine, and the engine's operations as its steps: what
-- the tasks of a workflow may do, whatever messages, callbacks and requests come in which order.
pub mod Keys
pub mod Updates
pub mod Deliver
pub mod Engine
pub mod Order
pub mod Tests
use finmars_workflow.Common.{
  ℕ, String, ◌≡◌, Bool, true, Option, none, some, List, [], ◌∷◌, ◌==◌, map, select, All,
}
use finmars_workflow.Graph.{Connection}
use finmars_workflow.Models.{Task, TaskStatus, is_success}
use finmars_workflow.Models.Tables.{same_node}

-- What the machine keeps of a task.
pub record Entry : Type 0 where
  pub node : Option String
  pub status : TaskStatus

abbrev pub entry_of : Task → Entry
entry_of t = record { node = t.node_id; status = t.status }

-- The tasks of a workflow, newest first.
abbrev pub view : ℕ → List Task → List Entry
view w ts = map entry_of (select (λ t. t.workflow == w) ts)

abbrev pub nodes_of : List Entry → List (Option String)
nodes_of v = map (λ e. e.node) v

-- The node has exactly one task, and that one has succeeded.
abbrev pub IsDone : List Entry → String → Type 0
IsDone v n =
    (e : Entry) × (select (λ d. same_node d.node (some n)) v ≡ e ∷ [])
    × (is_success e.status ≡ true)

-- A task is started for a node whose inputs are done, or tasks that are there change their status.
pub data Move (cs : List Connection) (v u : List Entry) : Type 0 where
  starts :
      (n : String)
      → All (λ c. c.target ≡ n → IsDone v c.source) cs
      → u ≡ record { node = some n; status = TaskStatus.init } ∷ v
      → Move cs v u
  changes : nodes_of u ≡ nodes_of v → Move cs v u

pub data Moves (cs : List Connection) (v : List Entry) : List Entry → Type 0 where
  stays : Moves cs v v
  goes : {u t : List Entry} → Moves cs v u → Move cs u t → Moves cs v t

pub Moves-trans :
    {cs : List Connection} {v u t : List Entry} → Moves cs v u → Moves cs u t → Moves cs v t
Moves-trans a stays = a
Moves-trans a (goes b m) = goes (Moves-trans a b) m
