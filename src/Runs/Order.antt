-- ===== src/Runs/Order.antt =====
-- The order of the tasks of a workflow, and nodes that have been run twice: what every execution of the
-- machine keeps.
use mathlib.Core.List.{Memᴰ}
use finmars_workflow.Common.{
  ℕ, ◌≤◌, String, ◌≡◌, refl, sym, ap, ◌∙◌, true, Option, none, some, List, [], ◌∷◌, arith, select,
  All, length, eq_iff, Bool-cases, inl, inr, str_eq,
}
use finmars_workflow.Graph.{Connection}
use finmars_workflow.Models.Tables.{same_node}
use finmars_workflow.NextNode.Creates.{All-at}
use finmars_workflow.Runs.{Entry, nodes_of, IsDone, Move, starts, changes, Moves, stays, goes}

-- Each task is newer than a task of every predecessor of its node.
abbrev pub IsOrdered : List Connection → List (Option String) → Type 0
IsOrdered cs [] = Unit
IsOrdered cs (e ∷ es) = All (λ c. e ≡ some c.target → Memᴰ (some c.source) es) cs × IsOrdered cs es

same_node_sound : (a : Option String) (n : String) → same_node a (some n) ≡ true → a ≡ some n
same_node_sound none n h = ground arith
same_node_sound (some a) n h = ap some ((eq_iff a n).0 h)

selected-Memᴰ :
    (n : String) (v : List Entry) (e : Entry) (es : List Entry)
    → select (λ d. same_node d.node (some n)) v ≡ e ∷ es
    → Memᴰ (some n) (nodes_of v)
selected-Memᴰ n [] e es h = ground arith
selected-Memᴰ n (d ∷ v) e es h = elim (Bool-cases (same_node d.node (some n))) [
  | inl is ↦ Memᴰ.head (sym (same_node_sound d.node n is))
  | inr isnt ↦ Memᴰ.tail (selected-Memᴰ n v e es (ground arith))
]

IsDone-Memᴰ : (n : String) (v : List Entry) → IsDone v n → Memᴰ (some n) (nodes_of v)
IsDone-Memᴰ n v (e, one, _) = selected-Memᴰ n v e [] one

All-map :
    {A : Type 0} {P Q : A → Type 0} (xs : List A) → ((x : A) → P x → Q x) → All P xs → All Q xs
All-map [] f h = tt
All-map (x ∷ xs) f h = (f x h.0, All-map xs f h.1)

Move-IsOrdered :
    (cs : List Connection) (v u : List Entry)
    → Move cs v u
    → IsOrdered cs (nodes_of v)
    → IsOrdered cs (nodes_of u)
Move-IsOrdered cs v u (starts n done same) h =
    rw same (All-map cs (λ c d e. IsDone-Memᴰ c.source v (d cc)) done, h)
Move-IsOrdered cs v u (changes same) h = rw same h

pub Moves-IsOrdered :
    (cs : List Connection) (v u : List Entry)
    → Moves cs v u
    → IsOrdered cs (nodes_of v)
    → IsOrdered cs (nodes_of u)
Moves-IsOrdered cs v u stays h = h
Moves-IsOrdered cs v u (goes {u = t} a m) h = Move-IsOrdered cs t u m (Moves-IsOrdered cs v t a h)

-- How many tasks a node has.
abbrev pub count : String → List (Option String) → ℕ
count n es = length (select (λ e. same_node e (some n)) es)

count-nodes :
    (n : String) (v : List Entry)
    → count n (nodes_of v) ≡ length (select (λ d. same_node d.node (some n)) v)
count-nodes n [] = refl
count-nodes n (d ∷ v) = elim (Bool-cases (same_node d.node (some n))) [
  | inl is ↦ rw (is, count-nodes n v) refl
  | inr isnt ↦ rw (isnt, count-nodes n v) refl
]

count-grows :
    (n : String) (e : Option String) (es : List (Option String)) → count n es ≤ count n (e ∷ es)
count-grows n e es = elim (Bool-cases (same_node e (some n))) [
  | inl is ↦ rw is (omega arith)
  | inr isnt ↦ rw isnt (omega arith)
]

start-blocked :
    (cs : List Connection) (v : List Entry) (c : Connection) (n : String)
    → Memᴰ c cs
    → All (λ d. d.target ≡ n → IsDone v d.source) cs
    → 2 ≤ count c.source (nodes_of v)
    → (2 ≤ count c.source (some n ∷ nodes_of v))
      × (count c.target (some n ∷ nodes_of v) ≡ count c.target (nodes_of v))
start-blocked cs v c n m done h =
    let more = count-grows c.source (some n) (nodes_of v) in
    elim (Bool-cases (str_eq n c.target)) [
      | inl is ↦
          let (e, one, _) =
            All-at (λ d. d.target ≡ n → IsDone v d.source) m done
              (sym ((eq_iff n c.target).0 is)) in
          let single = count-nodes c.source v ∙ ap length one in absurd (omega arith)
      | inr isnt ↦ rw isnt (omega arith, refl)
    ]

-- A successor of a node with two tasks is not started.
Move-blocked :
    (cs : List Connection) (v u : List Entry) (c : Connection)
    → Memᴰ c cs
    → Move cs v u
    → 2 ≤ count c.source (nodes_of v)
    → (2 ≤ count c.source (nodes_of u))
      × (count c.target (nodes_of u) ≡ count c.target (nodes_of v))
Move-blocked cs v u c m (starts n done same) h =
    let (two, kept) = start-blocked cs v c n m done h in (rw same two, rw same kept)
Move-blocked cs v u c m (changes same) h = rw same (h, refl)

pub Moves-blocked :
    (cs : List Connection) (v u : List Entry) (c : Connection)
    → Memᴰ c cs
    → Moves cs v u
    → 2 ≤ count c.source (nodes_of v)
    → (2 ≤ count c.source (nodes_of u))
      × (count c.target (nodes_of u) ≡ count c.target (nodes_of v))
Moves-blocked cs v u c m stays h = (h, refl)
Moves-blocked cs v u c m (goes {u = t} a b) h =
    let (two, same) = Moves-blocked cs v t c m a h in
    let (two', same') = Move-blocked cs t u c m b two in (two', same' ∙ same)
