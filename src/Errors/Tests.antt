-- ===== src/Errors/Tests.antt =====
-- The flattening of small details.
use finmars_workflow.Common.{
  ℕ, zero, suc, String, ◌≡◌, refl, ltb, leb, ◌&&◌, false, none, some, [], ◌∷◌, map,
}
use finmars_workflow.Errors.{Detail, leaf, list, dict, nil, cons, end, field, flatten_errors}
use finmars_workflow.Errors.Handler.{ApiException, Framework, Settings, Request, Log}
use finmars_workflow.Errors.Codes.{text_of, texts_of, flatten_errors-texts_of}

abbrev show_digit : ℕ → String
show_digit zero = "0"
show_digit (suc zero) = "1"
show_digit _ = "2"

abbrev emails : Detail
emails = dict (field "email" (list (cons (leaf "invalid" "Enter a valid email address.") nil)) end)

-- The nested account of the documentation: the empty dictionary counts, and has no error.
accounts_test :
    flatten_errors "." show_digit
      (dict (field "linked_accounts" (list (cons (dict end) (cons emails nil))) end))
      none
      none
    ≡ record {
      code = "invalid";
      detail = "Enter a valid email address.";
      attr = some "linked_accounts.1.email";
    }
      ∷ []
unfolding flatten_errors
accounts_test = refl

-- A list in a list is counted from the place of the outer one: its first element is numbered 1.
list_in_list_test :
    flatten_errors "." show_digit (list (cons (list (cons emails nil)) nil)) none none
    ≡ record { code = "invalid"; detail = "Enter a valid email address."; attr = some "0.1.email" }
      ∷ []
unfolding flatten_errors
list_in_list_test = refl

flatten_errors-texts_of_example :
    map text_of (flatten_errors "." show_digit emails none none) ≡ texts_of emails
flatten_errors-texts_of_example = flatten_errors-texts_of "." show_digit emails none none

abbrev missing : ApiException
missing = record {
  is_validation = false;
  status_code = 404;
  detail = leaf "not_found" "Not found.";
  auth_header = none;
  wait = none;
}

abbrev framework : Framework
framework = record {
  not_found_exception = missing;
  permission_denied_exception = record missing { status_code = 403 };
  api_exception = λ text. record missing { status_code = 500; detail = leaf "error" text };
  is_client_error = λ n. ltb n 500;
  is_server_error = λ n. leb 500 n && leb n 599;
  description = λ _. some "message";
  separator = ".";
  show = show_digit;
}

abbrev production : Settings
production = record { debug = false; enable_in_debug = false }

abbrev no_errors : Log
no_errors = record { records = []; rolled_back = false; reported = [] }

abbrev asked : Request
asked = record { uri = "/"; username = "finmars_bot" }
