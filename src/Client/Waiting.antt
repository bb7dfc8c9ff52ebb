-- ===== src/Client/Waiting.antt =====
-- What the loops that wait do: how many requests they make, when they return, and that they end.
use finmars_workflow.Common.{
  ℕ, zero, suc, ◌+◌, ◌*◌, ◌≤◌, ◌<◌, String, ◌≡◌, refl, true, false, Option, none, some, ◌==◌,
  if◌then◌else◌, arith, length, Bool-cases, inl, inr, ==_iff,
}
use finmars_workflow.Common.Exec.{
  Exec, Result, ok, err, pure, raise, modify, after, caught, ◌>>=◌, ◌>>◌,
}
use finmars_workflow.Json.{Json}
use finmars_workflow.Client.{Platform, Caller, get_task}
use finmars_workflow.Client.Asking.{Asked, silent, asks, try_task-Asked}
use finmars_workflow.Client.Polling.{
  sleep, status_of, is_going_on, ended, try_task, exceeded, wait_recursive, wait_task_to_complete,
}

-- At most so many rounds, each but the last followed by a pause.
unfoldable pub within : Exec Caller (Option Json) → ℕ → ℕ → Exec Caller Json
within round interval zero = raise exceeded
within round interval (suc n) = do
  found ← round
  elim found [ some v ↦ pure v | none ↦ modify (sleep interval) >> within round interval n ]

-- After a round that ended nothing.
abbrev pub or_pause : ℕ → Exec Caller Json → Option Json → Exec Caller Json
or_pause interval rest found = elim found [
  | some v ↦ pure v
  | none ↦ modify (sleep interval) >> rest
]

or_pause_cong :
    (interval : ℕ) (f g : Exec Caller Json)
    → ((s : Caller) → f s ≡ g s)
    → (r : Result (Option Json) × Caller)
    → after (or_pause interval f) r ≡ after (or_pause interval g) r
or_pause_cong interval f g same (ok (some v), s) = refl
or_pause_cong interval f g same (ok none, s) = same (sleep interval s)
or_pause_cong interval f g same (err e, s) = refl

module _ (round : Exec Caller (Option Json)) (retries interval : ℕ) where
  pub wait_recursive-within :
      (fuel counter left : ℕ) (s : Caller)
      → counter + left ≡ retries
      → left < fuel
      → wait_recursive round fuel retries interval counter s ≡ within round interval left s
  unfolding wait_recursive within
  wait_recursive-within zero counter left s total enough = absurd (omega arith)
  wait_recursive-within (suc n) counter zero s total enough =
      let same : (counter == retries) ≡ true = (==_iff counter retries).1 (omega arith) in
      rw same refl
  wait_recursive-within (suc n) counter (suc left) s total enough =
      elim (Bool-cases (counter == retries)) [
        | inl e ↦ let same = (==_iff counter retries).0 e in absurd (omega arith)
        | inr e ↦ rw e (
            or_pause_cong interval (wait_recursive round n retries interval (suc counter))
              (within round interval left)
              (λ s1. wait_recursive-within n (suc counter) left s1 (omega arith) (omega arith))
              (round s))
      ]

-- At most `n` more requests than before, and at most `n` pauses later.
abbrev pub IsWithin : ℕ → ℕ → Caller → Caller → Type 0
IsWithin interval n s r = (length r.sent ≤ n + length s.sent) × (r.now ≤ s.now + n * interval)

module _ (round : Exec Caller (Option Json)) (asked : (s : Caller) → Asked s (round s).1)
    (interval : ℕ) where
  Asked-IsWithin :
      (s r : Caller) → Asked s r → (length r.sent ≤ suc (length s.sent)) × (r.now ≡ s.now)
  Asked-IsWithin s _ silent = (omega arith, refl)
  Asked-IsWithin s _ (asks r) = (omega arith, refl)

  within-IsWithin : (n : ℕ) (s : Caller) → IsWithin interval n s (within round interval n s).1
  unfolding within
  within-IsWithin zero s = (omega arith, omega arith)
  within-IsWithin (suc n) s =
      go (round s) (Asked-IsWithin s (round s).1 (asked s)) (within-IsWithin n)
    where
      go :
          (r : Result (Option Json) × Caller)
          → (length r.1.sent ≤ suc (length s.sent)) × (r.1.now ≡ s.now)
          → ((t : Caller) → IsWithin interval n t (within round interval n t).1)
          → IsWithin interval (suc n) s (after (or_pause interval (within round interval n)) r).1
      go (ok (some v), s1) h rest = (omega arith, omega arith)
      go (ok none, s1) h rest = let (a, b) = rest (sleep interval s1) in (omega arith, omega arith)
      go (err e, s1) h rest = (omega arith, omega arith)

-- The platform's answer says that the task has ended.
abbrev pub IsEnded : Json → Type 0
IsEnded v = (status : Json) × (status_of v ≡ ok status) × (is_going_on status ≡ false)

-- What a round may come back with.
abbrev pub IsRound : Result (Option Json) → Type 0
IsRound (ok (some v)) = IsEnded v
IsRound (ok none) = Unit
IsRound (err e) = ⊥

-- What the waiting may come back with.
abbrev pub IsAnswer : Result Json → Type 0
IsAnswer (ok v) = IsEnded v
IsAnswer (err e) = e ≡ exceeded

module _ (p : Platform) (id : String) where
  caught-ended : (r : Result Json × Caller) → IsRound (caught (λ _. pure none) (after ended r)).0
  unfolding ended
  caught-ended (ok v, s) = go (status_of v) refl
    where
      go :
          (x : Result Json)
          → status_of v ≡ x
          → IsRound
              (caught
                (λ _. pure none)
                (after
                  (λ status. if is_going_on status then pure none else pure (some v))
                  (x, s))).0
      go (ok status) h = elim (Bool-cases (is_going_on status)) [
        | inl e ↦ rw e tt
        | inr e ↦ rw e (status, h, e)
      ]
      go (err e) h = tt
  caught-ended (err e, s) = tt

  pub try_task-IsRound : (s : Caller) → IsRound (try_task p id s).0
  unfolding try_task
  try_task-IsRound s = caught-ended (get_task p id s)

  module _ (interval : ℕ) where
    within-IsAnswer : (n : ℕ) (s : Caller) → IsAnswer (within (try_task p id) interval n s).0
    unfolding within
    within-IsAnswer zero s = refl
    within-IsAnswer (suc n) s = go (try_task p id s) (try_task-IsRound s) (within-IsAnswer n)
      where
        go :
            (r : Result (Option Json) × Caller)
            → IsRound r.0
            → ((t : Caller) → IsAnswer (within (try_task p id) interval n t).0)
            → IsAnswer (after (or_pause interval (within (try_task p id) interval n)) r).0
        go (ok (some v), s1) h rest = h
        go (ok none, s1) h rest = rest (sleep interval s1)
        go (err e, s1) h rest = absurd h

    -- Waiting for a task ends: given more fuel than `retries` it makes at most `retries` requests and as
    -- many pauses, and comes back with an answer of the platform that says that the task has ended, or
    -- with the exception that the retries are exceeded. No other exception leaves it.
    pub wait_task_to_complete_ends :
        (fuel retries : ℕ) (s : Caller)
        → retries < fuel
        → (let r = wait_task_to_complete fuel p id retries interval s in
            IsWithin interval retries s r.1 × IsAnswer r.0)
    unfolding wait_task_to_complete
    wait_task_to_complete_ends fuel retries s enough =
        rw
          (wait_recursive-within (try_task p id) retries interval fuel 0 retries s (omega arith)
            enough)
          (
            within-IsWithin (try_task p id) (try_task-Asked p id) interval retries s,
            within-IsAnswer retries s,
          )
