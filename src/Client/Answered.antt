-- ===== src/Client/Answered.antt =====
-- When a loop that waits for a task does find that it has ended.
use finmars_workflow.Common.{
  str_append, ℕ, zero, suc, ◌+◌, ◌≤◌, ◌<◌, String, ◌≡◌, refl, ap, ◌∙◌, Option, none, some, List,
  ◌∷◌, str_eq, arith, length, leb, Bool-cases, inl, inr,
}
use finmars_workflow.Common.Exec.{Exec, Result, ok, err, after}
use finmars_workflow.Json.{Json}
use finmars_workflow.Models.{User, Space}
use finmars_workflow.Models.Tables.{get_one}
use finmars_workflow.Client.{Platform, Caller, Request, Response, get_task, as_get, call_api}
use finmars_workflow.Client.Polling.{sleep, ended, try_task, wait_task_to_complete}
use finmars_workflow.Client.Asking.{request_of, call_api_lem, checked-same, after-ended, swallowed}
use finmars_workflow.Client.Waiting.{
  within, or_pause, IsRound, IsEnded, try_task-IsRound, wait_recursive-within,
}

module _ (p : Platform) (id : String) (interval : ℕ) where
  module _ (bot : User) (space : Space) (final : Response) (v : Json) where
    -- The tenant has the bot and the space, and after so many requests the platform answers that the
    -- task has ended.
    abbrev IsReady : Caller → Type 0
    IsReady s =
        (get_one (λ u. str_eq u.username "finmars_bot") s.users ≡ ok bot) × (s.space ≡ some space)

    abbrev EndsAfter : ℕ → Type 0
    EndsAfter n = (h : List Request) → n < length h → p.answer h ≡ ok final

    round_done :
        (n : ℕ) (s : Caller)
        → IsReady s
        → final.status_code ≡ 200
        → final.content ≡ ok v
        → IsEnded v
        → EndsAfter n
        → n ≤ length s.sent
        → (try_task p id s).0 ≡ ok (some v)
    unfolding try_task get_task ended
    round_done n s (hb, hs) h200 hv (status, hst, going) ends past =
        let path = str_append "/api/v1/tasks/task/" (str_append id "/") in
        let r = request_of p as_get path none s bot space in
        rw
          (
            call_api_lem p as_get path none s bot space hb hs,
            ends (r ∷ s.sent) (omega arith),
            h200,
            hv,
            hst,
            going,
          )
          refl

    -- The state after a round.
    round_state :
        (s : Caller)
        → IsReady s
        → (r : Request) × ((try_task p id s).1 ≡ record s { sent = r ∷ s.sent })
    unfolding try_task get_task
    round_state s (hb, hs) =
        let path = str_append "/api/v1/tasks/task/" (str_append id "/") in
        let r = request_of p as_get path none s bot space in
        (
          r,
          swallowed p (after ended (call_api p as_get path none s))
              ∙ after-ended p (call_api p as_get path none s)
              ∙ ap (λ (x : Result Json × Caller). x.1)
                  (call_api_lem p as_get path none s bot space hb hs)
              ∙ checked-same p (record s { sent = r ∷ s.sent }) (p.answer (r ∷ s.sent)),
        )

    -- It comes back with an answer of the platform that says that the task has ended.
    abbrev pub Finds : Result Json → Type 0
    Finds r = (x : Json) × (r ≡ ok x) × IsEnded x

    or_pause-Finds :
        (rest : Exec Caller Json) (r : Result (Option Json) × Caller)
        → IsRound r.0
        → (r.0 ≡ ok none → Finds (rest (sleep interval r.1)).0)
        → Finds (after (or_pause interval rest) r).0
    or_pause-Finds rest (ok (some x), s) h k = (x, refl, h)
    or_pause-Finds rest (ok none, s) h k = k refl
    or_pause-Finds rest (err e, s) h k = absurd h

    module _ (n : ℕ) (h200 : final.status_code ≡ 200) (hv : final.content ≡ ok v) (done : IsEnded v)
        (ends : EndsAfter n) where
      not_none : (s : Caller) → IsReady s → n ≤ length s.sent → (try_task p id s).0 ≡ ok none → ⊥
      not_none s ready past same = let found = round_done n s ready h200 hv done ends past in cc

      within-Finds :
          (k : ℕ) (s : Caller)
          → IsReady s
          → n ≤ length s.sent + k
          → Finds (within (try_task p id) interval (suc k) s).0
      unfolding within
      within-Finds zero s ready bound =
          or_pause-Finds (within (try_task p id) interval zero) (try_task p id s)
            (try_task-IsRound p id s) λ same. absurd (not_none s ready (omega arith) same)
      within-Finds (suc k) s ready bound =
          or_pause-Finds (within (try_task p id) interval (suc k)) (try_task p id s)
            (try_task-IsRound p id s)
            λ same. elim (Bool-cases (leb n (length s.sent))) [
              | inl e ↦ absurd (not_none s ready (ground arith) same)
              | inr e ↦
                  let (r, state) = round_state s ready in
                  within-Finds k (sleep interval (try_task p id s).1) (rw state ready)
                    (rw state (ground arith))
            ]

      -- The platform ends the task at some time, that is, from the request after the first `n` it answers
      -- each request for it with a status that says so: then waiting, with retries that reach that far,
      -- comes back with an answer that says that the task has ended.
      pub wait_task_to_complete-Finds :
          (fuel retries : ℕ) (s : Caller)
          → IsReady s
          → n < length s.sent + retries
          → 0 < retries
          → retries < fuel
          → Finds (wait_task_to_complete fuel p id retries interval s).0
      unfolding wait_task_to_complete
      wait_task_to_complete-Finds fuel zero s ready bound some_left enough = absurd (omega arith)
      wait_task_to_complete-Finds fuel (suc k) s ready bound some_left enough =
          rw
            (wait_recursive-within (try_task p id) (suc k) interval fuel 0 (suc k) s (omega arith)
              enough)
            (within-Finds k s ready (omega arith))
