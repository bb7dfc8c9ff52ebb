-- ===== src/Errors/Handled.antt =====
-- How every exception is handled: `run` of `ExceptionHandler` of finmars_standardized_errors/handler.py.
use finmars_workflow.Common.{
  ℕ, String, ◌≡◌, ◌⊎◌, leb, Bool, true, false, not, ◌&&◌, Option, none, some, [], ◌∷◌, ◌++◌,
  if◌then◌else◌,
}
use finmars_workflow.Common.Exec.{Result, ok, err, key_error}
use finmars_workflow.Errors.Handler.{
  ApiException, Raised, not_found, permission_denied, api, other, Framework, Settings, Request,
  Response, Log,
}

-- The status that each kind of exception is to be answered with.
abbrev pub status_for : Raised → ℕ
status_for not_found = 404
status_for permission_denied = 403
status_for (api e) = e.status_code
status_for (other _) = 500

module _ (f : Framework) (settings : Settings) (now : String) where
  -- An exception that the debugger is to see.
  abbrev pub is_left : Raised → Bool
  is_left (other _) = settings.debug && (not settings.enable_in_debug && true)
  is_left _ = false

  -- What an answer with a status, and the log after it, hold.
  pub record Answers (r : Request) (n : ℕ) (before after : Log) (resp : Response) : Type 0 where
    pub status : resp.status ≡ n
    pub recorded_status : resp.data_record.status_code ≡ n
    pub asked_uri : resp.data_record.url ≡ r.uri
    pub asked_by : resp.data_record.username ≡ r.username
    pub kept : after.records ≡ before.records ++ resp.data_record ∷ []
    pub undone : after.rolled_back ≡ true
    pub reported :
        after.reported
        ≡ (if leb 500 n && leb n 599 then before.reported ++ n ∷ [] else before.reported)

  -- The answer has the status.
  abbrev pub IsAnswered : Request → ℕ → Log → Result (Option Response) × Log → Type 0
  IsAnswered r n s o =
      (resp : Response) × (s' : Log) × (o ≡ (ok (some resp), s')) × Answers r n s s' resp

  -- HTTPStatus has not the status of an exception of the framework.
  abbrev pub IsUnknown : Raised → Log → Result (Option Response) × Log → Type 0
  IsUnknown exc s o =
      (e : ApiException) × (exc ≡ api e)
      × (f.description e.status_code ≡ none)
      × (o ≡ (err key_error, s))

  abbrev pub IsHandled : Request → Raised → Log → Result (Option Response) × Log → Type 0
  IsHandled r exc s o =
      ((is_left exc ≡ true) × (o ≡ (ok none, s)))
      ⊎ ((is_left exc ≡ false) × (IsAnswered r (status_for exc) s o ⊎ IsUnknown exc s o))
