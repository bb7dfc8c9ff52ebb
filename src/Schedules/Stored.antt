-- ===== src/Schedules/Stored.antt =====
-- What `store_self` stores of a schedule: one row of its id, with its arguments and keywords.
use finmars_workflow.Common.{
  ℕ, String, ◌≡◌, ◌≢◌, refl, ap, ◌∙◌, ◌⊎◌, inl, inr, true, Option, none, some, List, [], ◌∷◌, All,
  any, find, map, if◌then◌else◌, arith, ==-refl, Bool-cases, holds_id,
}
use finmars_workflow.Common.Exec.{ok}
use finmars_workflow.Json.Codec.{Codec}
use finmars_workflow.Schedules.Rows.{
  PeriodicTask, Schedule, Crontab, Saving, has_id, kwargs_of, store_self, super_save, store_row,
  store_kwargs, store_at, store_kwargs_at, unless_refused, set_kwargs,
}

-- What PeriodicTask.save leaves as it is.
pub record Keeps (p : PeriodicTask) : Type 0 where
  pub id : (r : Schedule) → (p.tidy r).id ≡ r.id
  pub name : (r : Schedule) → (p.tidy r).name ≡ r.name
  pub args : (r : Schedule) → (p.tidy r).args ≡ r.args
  pub kwargs : (r : Schedule) → (p.tidy r).kwargs ≡ r.kwargs
  pub space : (r : Schedule) → (p.tidy r).space ≡ r.space
  pub crontab : (r : Schedule) → (p.tidy r).crontab ≡ r.crontab
  pub owner : (r : Schedule) → (p.tidy r).owner ≡ r.owner

-- PeriodicTask refuses a row without a schedule.
abbrev pub IsTimed : Option Crontab → Type 0
IsTimed o = (a : Crontab) × (o ≡ some a)

-- A name that no other row has: none at all where the row is new.
abbrev pub IsFree : List Schedule → Option ℕ → String → Type 0
IsFree rows id name = All (λ o. (o.name ≢ name) ⊎ ((k : ℕ) × (o.id ≡ some k) × (id ≡ some k))) rows

find-replaced :
    (k : ℕ) (r : Schedule) (rows : List Schedule)
    → has_id k r ≡ true
    → any (has_id k) rows ≡ true
    → find (has_id k) (map (λ o. if has_id k o then r else o) rows) ≡ some r
find-replaced k r [] h there = ground arith
find-replaced k r (o ∷ rows) h there = elim (Bool-cases (has_id k o)) [
  | inl e ↦ rw (e, h) refl
  | inr e ↦ ground (arith, e, h, there, find-replaced k r rows h)
]

find-updated :
    (k : ℕ) (f : Schedule → Schedule) (o : Schedule) (rows : List Schedule)
    → has_id k o ≡ true
    → has_id k (f o) ≡ true
    → find (has_id k) (map (λ r. if has_id k r then f r else r) (o ∷ rows)) ≡ some (f o)
find-updated k f o rows h h' = rw (h, h') refl

find-store_at :
    (k : ℕ) (t : Saving)
    → has_id k t.self ≡ true
    → find (has_id k) (store_at (some k) t).schedules ≡ some t.self
find-store_at k t h = elim (Bool-cases (any (has_id k) t.schedules)) [
  | inl e ↦ rw e (find-replaced k t.self t.schedules h e)
  | inr e ↦ rw (e, h) refl
]

-- A row of the id holds the arguments of the instance, and the keywords for the id.
abbrev pub Stored : Codec → ℕ → Crontab → Saving → Saving → Type 0
Stored c k a s s' =
    (r : Schedule) × (find (has_id k) s'.schedules ≡ some r)
    × (r.owner ≡ s.self.owner)
    × (r.args ≡ s.self.args)
    × (r.kwargs ≡ c.dumps (kwargs_of s.self.space a.id (some k)))

module _ (c : Codec) (p : PeriodicTask) (keeps : Keeps p)
    (accepts : (rows : List Schedule) (r : Schedule)
      → IsFree rows r.id r.name
      → IsTimed r.crontab
      → p.refuse rows r ≡ none) where
  super_save_ok :
      (store : Saving → Saving) (s : Saving)
      → IsTimed s.self.crontab
      → IsFree s.schedules s.self.id s.self.name
      → super_save p store s ≡ (ok tt, store (record s { self = p.tidy s.self }))
  unfolding super_save
  super_save_ok store s timed h =
      ap (λ e. unless_refused e (λ t. store (record t { self = p.tidy t.self })) s)
        (accepts s.schedules s.self h timed)

  unnamed-IsFree :
      (rows : List Schedule) (k : ℕ) (name : String)
      → IsFree rows none name
      → IsFree rows (some k) name
  unnamed-IsFree [] k name h = tt
  unnamed-IsFree (o ∷ rows) k name h =
      (elim h.0 [ inl e ↦ inl e | inr e ↦ cc ], unnamed-IsFree rows k name h.1)

  renamed-IsFree :
      (rows : List Schedule) (id : Option ℕ) (a b : String)
      → a ≡ b
      → IsFree rows id b
      → IsFree rows id a
  renamed-IsFree rows id a b e h = rw e h

  pub store_self-none :
      (a : Crontab) (s : Saving)
      → s.self.id ≡ none
      → IsTimed s.self.crontab
      → IsFree s.schedules none s.self.name
      → (s' : Saving) × (store_self c p a none s ≡ (ok tt, s')) × Stored c s.next_schedule a s s'
  unfolding store_self
  store_self-none a s new (times, timed) free =
      let row : Schedule = record (p.tidy s.self) { id = some s.next_schedule } in
      let s1 : Saving = store_at none (record s { self = p.tidy s.self }) in
      let s2 : Saving = set_kwargs c a s1 in
      let s3 : Saving =
        store_kwargs_at (some s.next_schedule) (record s2 { self = p.tidy s2.self }) in
      let free1 : IsFree s.schedules s.self.id s.self.name = rw new free in
      let first : super_save p store_row s ≡ (ok tt, s1) =
        super_save_ok store_row s (times, timed) free1
        ∙ ap (λ i. (ok tt, store_at i (record s { self = p.tidy s.self })))
            (keeps.id s.self ∙ new) in
      let free2 : IsFree s2.schedules s2.self.id s2.self.name = (
        inr (s.next_schedule, refl, refl),
        renamed-IsFree s.schedules (some s.next_schedule) (p.tidy s.self).name s.self.name
            (keeps.name s.self) (unnamed-IsFree s.schedules s.next_schedule s.self.name free),
      ) in
      let second : super_save p store_kwargs s2 ≡ (ok tt, s3) =
        super_save_ok store_kwargs s2 (times, keeps.crontab s.self ∙ timed) free2
        ∙ ap (λ i. (ok tt, store_kwargs_at i (record s2 { self = p.tidy s2.self })))
            (keeps.id s2.self) in
      (
        s3,
        rw (first, second) refl,
        (
          record row { kwargs = (p.tidy s2.self).kwargs },
          find-updated s.next_schedule (λ o. record o { kwargs = (p.tidy s2.self).kwargs }) row
              s.schedules (==-refl s.next_schedule) (==-refl s.next_schedule),
          keeps.owner s.self,
          keeps.args s.self,
          keeps.kwargs s2.self
              ∙ ap (λ q. c.dumps (kwargs_of q a.id (some s.next_schedule))) (keeps.space s.self),
        ),
      )

  pub store_self-some :
      (a : Crontab) (s : Saving) (k : ℕ)
      → s.self.id ≡ some k
      → IsTimed s.self.crontab
      → IsFree s.schedules (some k) s.self.name
      → (s' : Saving) × (store_self c p a (some k) s ≡ (ok tt, s')) × Stored c k a s s'
  unfolding store_self
  store_self-some a s k old timed free =
      let s1 : Saving = set_kwargs c a s in
      let t : Saving = record s1 { self = p.tidy s1.self } in
      let free1 : IsFree s1.schedules s1.self.id s1.self.name = rw old free in
      let ran : super_save p store_row s1 ≡ (ok tt, store_at (some k) t) =
        super_save_ok store_row s1 timed free1
        ∙ ap (λ i. (ok tt, store_at i t)) (keeps.id s1.self ∙ old) in
      (
        store_at (some k) t,
        ran,
        (
          p.tidy s1.self,
          find-store_at k t (ap (λ i. holds_id i k) (keeps.id s1.self ∙ old) ∙ ==-refl k),
          keeps.owner s1.self,
          keeps.args s1.self,
          keeps.kwargs s1.self ∙ ap (λ i. c.dumps (kwargs_of s.self.space a.id i)) old,
        ),
      )
