-- ===== src/Errors/Handler.antt =====
-- Answering an exception: `ExceptionHandler` of finmars_standardized_errors/handler.py with `run` of
-- `ExceptionFormatter`. The framework's own exceptions and tests of a status, HTTPStatus, and what sends
-- a signal are parameters; the exceptions themselves are told apart by their classes.
use finmars_workflow.Common.{
  ℕ, String, ◌≡◌, leb, Bool, true, false, not, ◌&&◌, Option, none, some, List, [], ◌∷◌, ◌++◌,
  if◌then◌else◌, truthy_str, ◌==◌,
}
use finmars_workflow.Common.Exec.{Exec, key_error, pure, need, modify, ◌>>=◌, ◌>>◌}
use finmars_workflow.Errors.{Detail, ErrorEntry, ErrorType, get_error_type, flatten_errors}

pub record ApiException : Type 0 where
  pub is_validation : Bool
  pub status_code : ℕ
  pub detail : Detail
  pub auth_header : Option String
  pub wait : Option ℕ

-- An exception that is no APIException is its text.
pub data Raised : Type 0 where
  not_found permission_denied : Raised
  api : ApiException → Raised
  other : String → Raised

pub record Framework : Type 0 where
  pub not_found_exception : ApiException
  pub permission_denied_exception : ApiException
  pub api_exception : String → ApiException
  pub is_client_error : ℕ → Bool
  pub is_server_error : ℕ → Bool
  pub description : ℕ → Option String
  pub separator : String
  pub show : ℕ → String

pub record Settings : Type 0 where
  pub debug : Bool
  pub enable_in_debug : Bool

-- What the context's request says of itself.
pub record Request : Type 0 where
  pub uri : String
  pub username : String

pub record ErrorRecord : Type 0 where
  pub url : String
  pub username : String
  pub status_code : ℕ
  pub message : String
  pub error_type : ErrorType
  pub errors : List ErrorEntry

-- The data of an answer is that of the record, with the time.
pub record Response : Type 0 where
  pub status : ℕ
  pub data_record : ErrorRecord
  pub datetime : String
  pub www_authenticate : Option String
  pub retry_after : Option String

-- The records, oldest first, whether the framework was asked to roll the transaction back, and the
-- statuses of the answers that were reported.
pub record Log : Type 0 where
  pub records : List ErrorRecord
  pub rolled_back : Bool
  pub reported : List ℕ

-- What Django REST framework and HTTPStatus document.
pub record IsFramework (f : Framework) : Type 0 where
  pub not_found-status : f.not_found_exception.status_code ≡ 404
  pub permission_denied-status : f.permission_denied_exception.status_code ≡ 403
  pub api_exception-status : (text : String) → (f.api_exception text).status_code ≡ 500
  pub is_server_error-range : (n : ℕ) → f.is_server_error n ≡ leb 500 n && leb n 599
  pub description-404 : (message : String) × (f.description 404 ≡ some message)
  pub description-403 : (message : String) × (f.description 403 ≡ some message)
  pub description-500 : (message : String) × (f.description 500 ≡ some message)

module _ (f : Framework) (settings : Settings) (now : String) where
  unfoldable pub convert_known_exceptions : Raised → Raised
  convert_known_exceptions not_found = api f.not_found_exception
  convert_known_exceptions permission_denied = api f.permission_denied_exception
  convert_known_exceptions e = e

  abbrev pub is_api : Raised → Bool
  is_api (api _) = true
  is_api _ = false

  unfoldable pub should_not_handle : Raised → Bool
  should_not_handle e = settings.debug && (not settings.enable_in_debug && not (is_api e))

  -- APIException(detail=str(exc))
  unfoldable pub convert_unhandled_exceptions : Raised → ApiException
  convert_unhandled_exceptions (api e) = e
  convert_unhandled_exceptions (other text) = f.api_exception text
  convert_unhandled_exceptions not_found = f.api_exception ""
  convert_unhandled_exceptions permission_denied = f.api_exception ""

  abbrev pub record_of : Request → ApiException → String → ErrorRecord
  record_of r e message = record {
    url = r.uri;
    username = r.username;
    status_code = e.status_code;
    message = message;
    error_type = get_error_type e.is_validation (f.is_client_error e.status_code);
    errors = flatten_errors f.separator f.show e.detail none none;
  }

  -- A status that HTTPStatus has not is a KeyError.
  unfoldable pub format_exception : Request → ApiException → Exec Log ErrorRecord
  format_exception r e = do
    message ← need key_error (f.description e.status_code)
    modify (λ s. record s { records = s.records ++ record_of r e message ∷ [] })
    pure (record_of r e message)

  -- A wait of 0, like an absent one, is no header.
  abbrev pub retry_after_of : Option ℕ → Option String
  retry_after_of none = none
  retry_after_of (some n) = if n == 0 then none else some (f.show n)

  abbrev pub auth_of : Option String → Option String
  auth_of h = if truthy_str h then h else none

  unfoldable pub get_response : ApiException → ErrorRecord → Response
  get_response e row = record {
    status = e.status_code;
    data_record = row;
    datetime = now;
    www_authenticate = auth_of e.auth_header;
    retry_after = retry_after_of e.wait;
  }

  abbrev pub report_exception : ApiException → Log → Log
  report_exception e s =
      if f.is_server_error e.status_code
      then record s { reported = s.reported ++ e.status_code ∷ [] }
      else s

  unfoldable pub answer : Request → ApiException → Exec Log (Option Response)
  unfolding format_exception get_response
  answer r e = do
    row ← format_exception r e
    modify (λ s. record s { rolled_back = true })
    modify (report_exception e)
    pure (some (get_response e row))

  unfoldable pub run : Request → Raised → Exec Log (Option Response)
  unfolding convert_known_exceptions should_not_handle convert_unhandled_exceptions answer
  run r exc =
      if should_not_handle (convert_known_exceptions exc)
      then pure none
      else answer r (convert_unhandled_exceptions (convert_known_exceptions exc))
