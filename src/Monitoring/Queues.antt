-- ===== src/Monitoring/Queues.antt =====
-- The queues of the broker: `RabbitMQMonitoring` of workflow/monitoring.py. What RabbitMQ's API answers, and
-- Python's `in` and `startswith` on texts, are parameters. The API's list holds dictionaries whose name,
-- where there is one, is a text.
use finmars_workflow.Common.{
  ℕ, String, ◌≡◌, refl, ◌∙◌, Bool, false, ◌&&◌, ◌||◌, Option, none, some, List, [], ◌∷◌,
  if◌then◌else◌, any, str_eq, ◌==◌, holds_str, arith, eq_iff, Bool-cases, inl, inr,
}
use finmars_workflow.Common.Dict.{Dict, lookup, insert, has, lookup-insert}
use finmars_workflow.Common.Exec.{Result, ok}
use finmars_workflow.Json.{Json, num, Fields, get}

-- An element of the list, and what is kept of it.
pub data Queue : Type 0 where
  queue : Option String → Fields → Queue
  no_queue : Queue

pub record QueueInfo : Type 0 where
  pub name : String
  pub messages : Json
  pub messages_ready : Json
  pub messages_unacknowledged : Json
  pub consumers : Json
  pub consumer_utilisation : Json

-- An answer: its status and its body.
unfoldable pub make_request : {A : Type 0} → Result (ℕ × Result A) → Option A
make_request (ok (status, ok body)) = if status == 200 then some body else none
make_request _ = none

abbrev pub or_zero : Option Json → Json
or_zero none = num 0
or_zero (some v) = v

abbrev pub name_or_empty : Option String → String
name_or_empty none = ""
name_or_empty (some n) = n

abbrev pub info_of : String → Fields → QueueInfo
info_of name fs = record {
  name = name;
  messages = or_zero (get "messages" fs);
  messages_ready = or_zero (get "messages_ready" fs);
  messages_unacknowledged = or_zero (get "messages_unacknowledged" fs);
  consumers = or_zero (get "consumers" fs);
  consumer_utilisation = or_zero (get "consumer_utilisation" fs);
}

-- The queues of a group that may be missing.
abbrev pub queues_in : Option (Dict QueueInfo) → Dict QueueInfo
queues_in none = []
queues_in (some d) = d

module _ (contains starts_with : String → String → Bool) where
  -- The group of a queue's name; none where the queue is passed over.
  unfoldable pub group_of : String → Option String
  group_of name =
      if contains name ".celery.pidbox" || contains name "celeryev."
      then none
      else if starts_with name "backend-"
      then some "backend"
      else if str_eq name "workflow"
      then some "workflow"
      else none

  abbrev pub put_queue :
      Option String → String → Fields → Dict (Dict QueueInfo) → Dict (Dict QueueInfo)
  put_queue none name fs d = d
  put_queue (some group) name fs d =
      insert group (insert name (info_of name fs) (queues_in (lookup group d))) d

  abbrev pub add_queue : Queue → Dict (Dict QueueInfo) → Dict (Dict QueueInfo)
  add_queue (queue name fs) d = put_queue (group_of (name_or_empty name)) (name_or_empty name) fs d
  add_queue no_queue d = d

  unfoldable pub add_queues : List Queue → Dict (Dict QueueInfo) → Dict (Dict QueueInfo)
  add_queues [] d = d
  add_queues (q ∷ qs) d = add_queues qs (add_queue q d)

  unfoldable pub get_main_queues_info : Option (List Queue) → Dict (Dict QueueInfo)
  unfolding add_queues
  get_main_queues_info none = []
  get_main_queues_info (some qs) = add_queues qs []

  -- A queue of the name stands in the group.
  abbrev pub stands : String → String → Dict (Dict QueueInfo) → Bool
  stands group name d = has name (queues_in (lookup group d))

  -- A dictionary of the name, which is a name of the group.
  abbrev pub is_named : String → String → Queue → Bool
  is_named group name (queue n _) =
      holds_str (group_of (name_or_empty n)) group && str_eq (name_or_empty n) name
  is_named group name no_queue = false

  has-insert_any :
      (k j : String) (v : QueueInfo) (d : Dict QueueInfo)
      → has j (insert k v d) ≡ (has j d || str_eq k j)
  unfolding has
  has-insert_any k j v d = ground (arith, lookup-insert k j v d, eq_iff k j)

  insert-stands :
      (g group name : String) (x : Dict QueueInfo) (d : Dict (Dict QueueInfo))
      → stands group name (insert g x d)
        ≡ (if str_eq g group then has name x else stands group name d)
  insert-stands g group name x d = elim (Bool-cases (str_eq g group)) [
    | inl e ↦ rw (lookup-insert g group x d, e) refl
    | inr e ↦ rw (lookup-insert g group x d, e) refl
  ]

  put_queue-stands :
      (o : Option String) (n : String) (fs : Fields) (group name : String)
      (d : Dict (Dict QueueInfo))
      → stands group name (put_queue o n fs d)
        ≡ (stands group name d || (holds_str o group && str_eq n name))
  unfolding has
  put_queue-stands none n fs group name d = ground arith
  put_queue-stands (some g) n fs group name d = elim (Bool-cases (str_eq g group)) [
    | inl e ↦
        insert-stands g group name (insert n (info_of n fs) (queues_in (lookup g d))) d
        ∙ rw e (
            has-insert_any n name (info_of n fs) (queues_in (lookup g d))
            ∙ rw ((eq_iff g group).0 e) refl)
    | inr e ↦
        insert-stands g group name (insert n (info_of n fs) (queues_in (lookup g d))) d
        ∙ rw e (ground arith)
  ]

  add_queues-stands :
      (qs : List Queue) (group name : String) (d : Dict (Dict QueueInfo))
      → stands group name (add_queues qs d) ≡ (stands group name d || any (is_named group name) qs)
  unfolding add_queues
  add_queues-stands [] group name d = ground arith
  add_queues-stands (queue n fs ∷ qs) group name d =
      add_queues-stands qs group name (add_queue (queue n fs) d)
      ∙ ground
          (arith, put_queue-stands (group_of (name_or_empty n)) (name_or_empty n) fs group name d)
  add_queues-stands (no_queue ∷ qs) group name d = add_queues-stands qs group name d ∙ ground arith

  -- From a list of queues, a name stands in a group of the answer exactly when the list has a dictionary of
  -- that name which is a name of that group.
  pub get_main_queues_info-stands :
      (qs : List Queue) (group name : String)
      → stands group name (get_main_queues_info (some qs)) ≡ any (is_named group name) qs
  unfolding get_main_queues_info has
  get_main_queues_info-stands qs group name = add_queues-stands qs group name []
