-- ===== src/Sessions/Tests.antt =====
-- Runs of the view at a user who has run code for one file; the code "exit()" exits, any other text prints
-- "done".
use finmars_workflow.Common.{◌≡◌, refl, some, [], ◌∷◌, str_eq}
use finmars_workflow.Common.Exec.{ok, err, system_exit}
use finmars_workflow.Json.{num}
use finmars_workflow.Sessions.{Sessions, Python, code_execution_view, execute_code, session_of}

abbrev printer : Python
printer = record {
  exec_code =
      λ code u path ss. record { sessions = ss; output = "done"; exits = str_eq code "exit()" };
}

abbrev one_user : Sessions
one_user = (7, record { files = ("a.py", ("x", num 5) ∷ []) ∷ [] }) ∷ []

printed_test : (code_execution_view printer 7 "a.py" "y = 1" one_user).0 ≡ ok (200, some "done")
unfolding code_execution_view execute_code session_of
printed_test = refl

exit_test : (code_execution_view printer 7 "a.py" "exit()" one_user).0 ≡ err system_exit
unfolding code_execution_view execute_code session_of
exit_test = refl
