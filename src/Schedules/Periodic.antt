-- ===== src/Schedules/Periodic.antt =====
-- `init_periodic_tasks` of workflow/system.py: the entries that Celery's `beat_schedule` gets from the
-- registered configurations, and what the task `execute` does with them. A configuration is what it holds
-- under "workflow".
use finmars_workflow.Common.{
  ℕ, String, ◌≡◌, refl, Bool-cases, inl, inr, str_eq, false, Option, none, some, List, [], ◌∷◌, All,
  str_append,
}
use finmars_workflow.Common.Dict.{Dict, insert}
use finmars_workflow.Common.Exec.{
  Exec, Result, ok, err, attribute_error, type_error, value_error, key_error, does_not_exist, Error,
  pure, need, lift, modify, caught, after, for_each, ◌>>=◌,
}
use finmars_workflow.Json.{Json, bool, str, arr, obj, nil, cons, Fields, end, field, get}
use finmars_workflow.Json.Codec.{Codec}
use finmars_workflow.Models.{Env, Context}
use finmars_workflow.Tenancy.{set_schema_from_context}
use finmars_workflow.System.{Config}
use finmars_workflow.Builder.{Canvas}
use finmars_workflow.Launch.{at_store}
use finmars_workflow.Hooks.{Beat, at_world, execute}
use finmars_workflow.Schedules.{Timing, Clockwork, build_celery_schedule}
use finmars_workflow.Schedules.Calls.{Call, call_with, not_null, as_text}

pub record BeatEntry (Seconds Cron : Type 0) : Type 0 where
  pub task : String
  pub schedule : Timing Seconds Cron
  pub args : Json
  pub kwargs : Json
  pub queue : String

abbrev pub or_else : Json → Option Json → Json
or_else v none = v
or_else v (some w) = w

abbrev pub fields_of : Json → Result Fields
fields_of (obj fs) = ok fs
fields_of _ = err attribute_error

-- json.loads(...)
abbrev pub read : Option Json → Result Json
read none = err value_error
read (some v) = ok v

abbrev pub loaded : Codec → Json → Result Json
loaded codec (str s) = read (codec.loads s)
loaded codec _ = err type_error

module _ {Seconds Cron : Type 0} (codec : Codec) (c : Clockwork Seconds Cron) where
  abbrev pub entry_for :
      String → Json → Json → Json → Json → Timing Seconds Cron → BeatEntry Seconds Cron
  entry_for user_code payload is_manager realm_code space_code timing = record {
    task = "workflow.tasks.workflows.execute";
    schedule = timing;
    args = arr (cons (str user_code) (cons payload (cons is_manager nil)));
    kwargs = obj (
        field "context" (obj (field "realm_code" realm_code (field "space_code" space_code end)))
          end);
    queue = "workflow";
  }

  unfoldable pub init_conf :
      String → Fields → Option Json → Exec (Dict (BeatEntry Seconds Cron)) Unit
  init_conf user_code workflow none = pure tt
  init_conf user_code workflow (some periodic) = do
    conf ← lift (fields_of periodic)
    built ← lift (build_celery_schedule c conf)
    payload ← lift (loaded codec (or_else (str "{}") (get "payload" conf)))
    realm_code ← need key_error (get "realm_code" workflow)
    space_code ← need key_error (get "space_code" workflow)
    modify (
        insert (str_append "periodic-" (str_append user_code (str_append "-" built.0))) (
          entry_for user_code payload (or_else (bool false) (get "is_manager" workflow)) realm_code
            space_code built.1))

  abbrev pub init_one : String × Fields → Exec (Dict (BeatEntry Seconds Cron)) Unit
  init_one (user_code, workflow) = init_conf user_code workflow (get "periodic" workflow)

  unfoldable pub init_periodic_tasks : Dict Fields → Exec (Dict (BeatEntry Seconds Cron)) Unit
  init_periodic_tasks workflows = for_each init_one workflows

module _ {ℓ} {V : Type ℓ} (P : V → Type 0) where
  -- Values that all have a property.
  abbrev pub Values : Dict V → Type 0
  Values d = All (λ kv. P kv.1) d

  insert-Values : (k : String) (v : V) (d : Dict V) → P v → Values d → Values (insert k v d)
  unfolding insert
  insert-Values k v [] p h = (p, tt)
  insert-Values k v ((j, w) ∷ d) p h = elim (Bool-cases (str_eq j k)) [
    | inl e ↦ rw e (p, h.1)
    | inr e ↦ rw e (h.0, insert-Values k v d p h.1)
  ]

after-Keeps :
    {S : Type 0} (P : S → Type 0) (q : Result Unit × S) (g : Unit → Exec S Unit)
    → P q.1
    → ((t : S) → P t → P (g tt t).1)
    → P (after g q).1
after-Keeps P (ok tt, t) g h k = k t h
after-Keeps P (err e, t) g h k = h

module _ {S A : Type 0} (P : S → Type 0) where
  lift-Keeps :
      (r : Result A) (f : A → Exec S Unit) (s : S)
      → P s
      → ((a : A) → P (f a s).1)
      → P ((lift r >>= f) s).1
  lift-Keeps (ok a) f s h k = k a
  lift-Keeps (err e) f s h k = h

  need-Keeps :
      (e : Error) (o : Option A) (f : A → Exec S Unit) (s : S)
      → P s
      → ((a : A) → P (f a s).1)
      → P ((need e o >>= f) s).1
  need-Keeps e (some a) f s h k = k a
  need-Keeps e none f s h k = h

  for_each-Keeps :
      (f : A → Exec S Unit) (xs : List A) (s : S)
      → ((a : A) (t : S) → P t → P (f a t).1)
      → P s
      → P (for_each f xs s).1
  for_each-Keeps f [] s k h = h
  for_each-Keeps f (x ∷ xs) s k h =
      after-Keeps P (f x s) (λ _. for_each f xs) (k x s h) (λ t p. for_each-Keeps f xs t k p)

swallowed :
    {A : Type 0} (r : Result Unit × Beat) (f : Unit → Exec Beat (Option A))
    → ((b : Beat) → f tt b ≡ (err does_not_exist, b))
    → caught (λ _. pure none) (after f r) ≡ (ok none, r.1)
swallowed (ok tt, b) f h = rw (h b) refl
swallowed (err e, b) f h = refl

module _ (env : Env) (reload : String → Result (Dict Config))
    (apply_async : Canvas → Result {0} Unit) where
  execute_nothing :
      (code : String) (payload : Option Json) (context : Option Context) (crontab : Option ℕ)
      (b : Beat)
      → execute env reload apply_async code payload context none crontab b
        ≡ (ok none, (at_world (at_store (set_schema_from_context context)) b).1)
  unfolding execute
  execute_nothing code payload context crontab b =
      swallowed (at_world (at_store (set_schema_from_context context)) b) _ (λ b. refl)

  module _ {Seconds Cron : Type 0} (codec : Codec) (c : Clockwork Seconds Cron) where
    -- A call that returns None and changes nothing but the search path.
    abbrev pub IsMute : BeatEntry Seconds Cron → Type 0
    IsMute e =
        (k : Call) × (call_with e.args e.kwargs ≡ some k)
        × ((b : Beat)
            → execute env reload apply_async k.user_code k.payload k.context k.schedule_id
                k.crontab_id b
              ≡ (ok none, (at_world (at_store (set_schema_from_context k.context)) b).1))

    entry_for-IsMute :
        (code : String) (payload is_manager realm_code space_code : Json)
        (timing : Timing Seconds Cron)
        → IsMute (entry_for codec c code payload is_manager realm_code space_code timing)
    unfolding call_with
    entry_for-IsMute code payload is_manager realm_code space_code timing = (
      _,
      refl,
      execute_nothing code (not_null payload)
          (some (record {
            realm_code = as_text (some realm_code);
            space_code = as_text (some space_code);
          }))
          none,
    )

    init_conf-Keeps :
        (code : String) (wf : Fields) (conf : Option Json) (d : Dict (BeatEntry Seconds Cron))
        → Values IsMute d
        → Values IsMute (init_conf codec c code wf conf d).1
    unfolding init_conf
    init_conf-Keeps code wf none d h = h
    init_conf-Keeps code wf (some periodic) d h =
        lift-Keeps (Values IsMute) (fields_of periodic) _ d h (λ conf.
          lift-Keeps (Values IsMute) (build_celery_schedule c conf) _ d h (λ built.
            lift-Keeps (Values IsMute) (loaded codec (or_else (str "{}") (get "payload" conf))) _ d
              h
              (λ payload.
                need-Keeps (Values IsMute) key_error (get "realm_code" wf) _ d h (λ realm_code.
                  need-Keeps (Values IsMute) key_error (get "space_code" wf) _ d h (λ space_code.
                    insert-Values IsMute _ _ d
                      (entry_for-IsMute code payload (or_else (bool false) (get "is_manager" wf))
                        realm_code space_code built.1)
                      h)))))

    -- Whatever the configurations hold and whatever is raised on the way, each entry that is added to an empty
    -- table calls `execute` without a schedule, and that call returns None and does no more than select the
    -- schema of its context: it never launches a workflow.
    pub init_periodic_tasks-IsMute :
        (workflows : Dict Fields) → Values IsMute (init_periodic_tasks codec c workflows []).1
    unfolding init_periodic_tasks
    init_periodic_tasks-IsMute workflows =
        for_each-Keeps (Values IsMute) (init_one codec c) workflows []
          (λ w. init_conf-Keeps w.0 w.1 (get "periodic" w.1)) tt
