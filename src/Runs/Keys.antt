-- ===== src/Runs/Keys.antt =====
-- The columns of the task table that no update changes: the id, the workflow and the node of each row.
use mathlib.Core.Path.{subst}
use finmars_workflow.Common.{
  ℕ, ◌<◌, String, ◌≡◌, refl, sym, ap, ◌∙◌, Bool, Option, some, List, [], ◌∷◌, arith, map, select,
  find, All, ◌==◌, ==_iff, Bool-cases, inl, inr,
}
use finmars_workflow.Common.Exec.{Exec, Result, ok, err, after}
use finmars_workflow.Graph.{Connection}
use finmars_workflow.Models.{Task, Store}
use finmars_workflow.Models.Tables.{get_one, put_task, replace_task}
use finmars_workflow.Success.Found.{find-All}
use finmars_workflow.Runs.{view, nodes_of, changes, Moves, stays, goes, Moves-trans}

pub record Key : Type 0 where
  pub id : ℕ
  pub workflow : ℕ
  pub node : Option String

abbrev pub key_of : Task → Key
key_of t = record { id = t.id; workflow = t.workflow; node = t.node_id }

abbrev pub keys_of : List Task → List Key
keys_of ts = map key_of ts

-- The rows with the id of `k` have its workflow and node too.
abbrev pub Stands : Key → List Key → Type 0
Stands k ks = All (λ j. j.id ≡ k.id → j ≡ k) ks

-- An id names one row, and the next id of the sequence none.
abbrev pub IsSound : Store → Type 0
IsSound s =
    All (λ k. Stands k (keys_of s.tasks)) (keys_of s.tasks)
    × All (λ k. k.id < s.next_task) (keys_of s.tasks)

-- From a sound store the machine reaches the view of the other store, which is sound too.
pub record Leads (w : ℕ) (cs : List Connection) (s r : Store) : Type 0 where
  pub run : IsSound s → Moves cs (view w s.tasks) (view w r.tasks)
  pub sound : IsSound s → IsSound r

module _ {w : ℕ} {cs : List Connection} where
  pub Leads-refl : {s : Store} → Leads w cs s s
  Leads-refl = record { run = λ _. stays; sound = λ h. h }

  pub Leads-trans : {s r q : Store} → Leads w cs s r → Leads w cs r q → Leads w cs s q
  Leads-trans a b = record {
    run = λ h. Moves-trans (a.run h) (b.run (a.sound h));
    sound = λ h. b.sound (a.sound h);
  }

-- The nodes of a view are read off the keys.
abbrev nodes_in : ℕ → List Key → List (Option String)
nodes_in w ks = map (λ k. k.node) (select (λ k. k.workflow == w) ks)

nodes_of-view : (w : ℕ) (ts : List Task) → nodes_of (view w ts) ≡ nodes_in w (keys_of ts)
nodes_of-view w [] = refl
nodes_of-view w (t ∷ ts) = elim (Bool-cases (t.workflow == w)) [
  | inl e ↦ rw (e, nodes_of-view w ts) refl
  | inr e ↦ rw (e, nodes_of-view w ts) refl
]

-- A change that keeps the keys and the next id is a change of statuses.
pub Leads-keys :
    (w : ℕ) (cs : List Connection) (s r : Store)
    → keys_of r.tasks ≡ keys_of s.tasks
    → r.next_task ≡ s.next_task
    → Leads w cs s r
Leads-keys w cs s r hk hn = record {
  run = λ _.
      goes stays
        (changes (nodes_of-view w r.tasks ∙ ap (nodes_in w) hk ∙ sym (nodes_of-view w s.tasks)));
  sound = λ h. rw (hk, hn) h;
}

pub Leads-same :
    (w : ℕ) (cs : List Connection) (s r : Store)
    → r.tasks ≡ s.tasks
    → r.next_task ≡ s.next_task
    → Leads w cs s r
Leads-same w cs s r ht hn = Leads-keys w cs s r (ap keys_of ht) hn

-- Writing a row back under its own key.
pub replace-keys :
    (t : Task) (ts : List Task)
    → Stands (key_of t) (keys_of ts)
    → keys_of (replace_task t ts) ≡ keys_of ts
replace-keys t [] h = refl
replace-keys t (u ∷ ts) h = elim (Bool-cases (u.id == t.id)) [
  | inl e ↦ rw (e, replace-keys t ts h.1, h.0 ((==_iff u.id t.id).0 e)) refl
  | inr e ↦ rw (e, replace-keys t ts h.1) refl
]

pub Leads-put :
    (w : ℕ) (cs : List Connection) (t : Task) (s : Store)
    → Stands (key_of t) (keys_of s.tasks)
    → Leads w cs s (put_task t s)
Leads-put w cs t s h = Leads-keys w cs s (put_task t s) (replace-keys t s.tasks h) refl

-- Every row stands.
All-map : (P : Key → Type 0) (ts : List Task) → All P (keys_of ts) → All (λ t. P (key_of t)) ts
All-map P [] h = tt
All-map P (t ∷ ts) h = (h.0, All-map P ts h.1)

pub rows_stand : (s : Store) → IsSound s → All (λ t. Stands (key_of t) (keys_of s.tasks)) s.tasks
rows_stand s h = All-map (λ k. Stands k (keys_of s.tasks)) s.tasks h.0

pub find-Stands :
    (test : Task → Bool) (s : Store) (t : Task)
    → IsSound s
    → find test s.tasks ≡ some t
    → Stands (key_of t) (keys_of s.tasks)
find-Stands test s t h e =
    find-All (λ u. Stands (key_of u) (keys_of s.tasks)) test s.tasks t (rows_stand s h) e

pub All-select :
    {A : Type 0} (P : A → Type 0) (test : A → Bool) (xs : List A)
    → All P xs
    → All P (select test xs)
All-select P test [] h = tt
All-select P test (x ∷ xs) h = elim (Bool-cases (test x)) [
  | inl e ↦ rw e (h.0, All-select P test xs h.1)
  | inr e ↦ rw e (All-select P test xs h.1)
]

pub get_one-Stands :
    (test : Task → Bool) (s : Store) (t : Task)
    → IsSound s
    → get_one test s.tasks ≡ ok t
    → Stands (key_of t) (keys_of s.tasks)
unfolding get_one
get_one-Stands test s t h e =
    go (select test s.tasks)
      (All-select (λ u. Stands (key_of u) (keys_of s.tasks)) test s.tasks (rows_stand s h)) refl
  where
    go :
        (found : List Task)
        → All (λ u. Stands (key_of u) (keys_of s.tasks)) found
        → select test s.tasks ≡ found
        → Stands (key_of t) (keys_of s.tasks)
    go [] a p = ground arith
    go (u ∷ []) a p =
        let same : u ≡ t = ground arith in subst (λ x. Stands (key_of x) (keys_of s.tasks)) same a.0
    go (u ∷ v ∷ r) a p = ground arith

-- The state that a chain of operations leaves.
pub Leads-after :
    {A B : Type 0} (w : ℕ) (cs : List Connection) (f : A → Exec Store B) (s : Store)
    (r : Result A × Store)
    → Leads w cs s r.1
    → ((a : A) (s1 : Store) → r ≡ (ok a, s1) → Leads w cs s1 (f a s1).1)
    → Leads w cs s (after f r).1
Leads-after w cs f s (ok a, s1) l k = Leads-trans l (k a s1 refl)
Leads-after w cs f s (err e, s1) l k = l

pub Leads-given :
    {w : ℕ} {cs : List Connection} {s r : Store} → (IsSound s → Leads w cs s r) → Leads w cs s r
Leads-given f = record { run = λ h. (f h).run h; sound = λ h. (f h).sound h }
