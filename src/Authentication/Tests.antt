-- ===== src/Authentication/Tests.antt =====
-- The theorem on credentials at a token of a user who is created meanwhile by another request.
use finmars_workflow.Common.{String, false, some, [], ◌∷◌}
use finmars_workflow.Common.Exec.{ok}
use finmars_workflow.Authentication.{
  Account, Accounts, Services, keycloak_credentials, jwt_credentials,
}
use finmars_workflow.Authentication.Users.{LetIn, UpToNormal, Exactly, credentials-LetIn}

abbrev services : Services
services = record {
  lower = λ s. s;
  decode = λ s. some s;
  userinfo = λ _. ok (some "ada");
  decode_jwt = λ _. ok (some "bob");
  admin_username = "admin";
  admin_password = "secret";
  random_string = λ _. "random";
  normalize_username = λ s. s;
}

abbrev account : String → Account
account name = record {
  id = 1;
  username = name;
  password = "p";
  is_staff = false;
  is_superuser = false;
}

abbrev empty_table : Accounts
empty_table = record { rows = []; next_id = 1 }

abbrev joined_by_ada : Accounts → Accounts
joined_by_ada s = record s { rows = account "ada" ∷ s.rows }

credentials-LetIn_example :
    LetIn
      (UpToNormal services.normalize_username)
      (ok (some "ada"))
      (keycloak_credentials services joined_by_ada "token" empty_table)
    × LetIn Exactly (ok (some "bob")) (jwt_credentials services "token" empty_table)
credentials-LetIn_example = credentials-LetIn services joined_by_ada "token" empty_table
