-- ===== src/Client/Asking.antt =====
-- What one call of the platform's API, and one round for a task, do to the caller's state.
use mathlib.Core.Path.{subst}
use finmars_workflow.Common.{
  str_append, ◌+◌, ◌*◌, String, ◌≡◌, refl, sym, ◌∙◌, Option, none, some, ◌∷◌, ◌==◌, str_eq,
  if◌then◌else◌, Bool-cases, inl, inr,
}
use finmars_workflow.Common.Exec.{Result, ok, err, pure, after, caught}
use finmars_workflow.Json.{Json}
use finmars_workflow.Models.{User, Space}
use finmars_workflow.Models.Tables.{get_one}
use finmars_workflow.Client.{
  Platform, Caller, Request, Response, Verb, get_refresh_token, request, checked, call_api,
  get_task, url_of, as_get,
}
use finmars_workflow.Client.Polling.{status_of, is_going_on, ended, try_task}

-- What a call of the API does to the caller's state: at most one request, and no time passes.
pub data Asked (s : Caller) : Caller → Type 0 where
  silent : Asked s s
  asks : (r : Request) → Asked s (record s { sent = r ∷ s.sent })

-- The request of a call.
abbrev pub request_of : Platform → Verb → String → Option Json → Caller → User → Space → Request
request_of p verb path body s bot space = record {
  verb = verb;
  url = url_of p space path;
  body = body;
  bearer = p.encode (record {
    username = bot.username;
    realm_code = space.realm_code;
    space_code = space.realm_code;
    exp = s.now + 60 * (60 * 8);
    iat = s.now;
  });
}

module _ (p : Platform) where
  checked-Asked :
      (s s1 : Caller) (r : Result Response) → Asked s s1 → Asked s (after checked (r, s1)).1
  checked-Asked s s1 (ok r) h = elim (Bool-cases (r.status_code == 200)) [
    | inl e ↦ rw e h
    | inr e ↦ rw e h
  ]
  checked-Asked s s1 (err e) h = h

  pub checked-same : (s : Caller) (r : Result Response) → (after checked (r, s)).1 ≡ s
  checked-same s (ok r) = elim (Bool-cases (r.status_code == 200)) [
    | inl e ↦ rw e refl
    | inr e ↦ rw e refl
  ]
  checked-same s (err e) = refl

  -- One call, in a tenant with the bot and the space.
  pub call_api_lem :
      (verb : Verb) (path : String) (body : Option Json) (s : Caller) (bot : User) (space : Space)
      → get_one (λ u. str_eq u.username "finmars_bot") s.users ≡ ok bot
      → s.space ≡ some space
      → call_api p verb path body s ≡ (
          let r = request_of p verb path body s bot space in
          after checked (p.answer (r ∷ s.sent), record s { sent = r ∷ s.sent }))
  unfolding call_api get_refresh_token request
  call_api_lem verb path body s bot space hb hs = rw (hb, hs) refl

  call_api-Asked :
      (verb : Verb) (path : String) (body : Option Json) (s : Caller)
      → Asked s (call_api p verb path body s).1
  unfolding call_api get_refresh_token
  call_api-Asked verb path body s =
      go (get_one (λ u. str_eq u.username "finmars_bot") s.users) s.space refl refl
    where
      go :
          (b : Result User) (o : Option Space)
          → get_one (λ u. str_eq u.username "finmars_bot") s.users ≡ b
          → s.space ≡ o
          → Asked s (call_api p verb path body s).1
      go (err e) o hb hs = rw hb silent
      go (ok bot) none hb hs = rw (hb, hs) silent
      go (ok bot) (some space) hb hs =
          let r = request_of p verb path body s bot space in
          rw (call_api_lem verb path body s bot space hb hs)
            (checked-Asked s (record s { sent = r ∷ s.sent }) (p.answer (r ∷ s.sent)) (asks r))

  pub after-ended : (r : Result Json × Caller) → (after ended r).1 ≡ r.1
  unfolding ended
  after-ended (ok v, s) = go (status_of v)
    where
      go :
          (x : Result Json)
          → (after (λ status. if is_going_on status then pure none else pure (some v)) (x, s)).1 ≡ s
      go (ok status) = elim (Bool-cases (is_going_on status)) [
        | inl e ↦ rw e refl
        | inr e ↦ rw e refl
      ]
      go (err e) = refl
  after-ended (err e, s) = refl

  pub swallowed : (r : Result (Option Json) × Caller) → (caught (λ _. pure none) r).1 ≡ r.1
  swallowed (ok v, s) = refl
  swallowed (err e, s) = refl

  pub try_task-Asked : (id : String) (s : Caller) → Asked s (try_task p id s).1
  unfolding try_task get_task
  try_task-Asked id s =
      let asked =
        call_api-Asked as_get (str_append "/api/v1/tasks/task/" (str_append id "/")) none s in
      subst (Asked s)
        (sym (after-ended (get_task p id s)) ∙ sym (swallowed (after ended (get_task p id s))))
        asked
