-- ===== src/Authentication.antt =====
-- Who a request is from: `KeycloakAuthentication` and `JWTAuthentication` of workflow/authentication.py.
-- Keycloak's userinfo, the decoding of a JWT with the secret key, `bytes.lower`, `bytes.decode` and
-- `normalize_username` of Django are parameters.
pub mod Users
pub mod Tests
use finmars_workflow.Common.{
  ℕ, suc, ◌+◌, String, Bool, true, false, Option, none, some, List, [], ◌∷◌, ◌++◌, str_eq,
  if◌then◌else◌, any,
}
use finmars_workflow.Common.Dict.{Dict}
use finmars_workflow.Common.Exec.{
  Exec, Result, ok, err, Error, key_error, value_error, integrity_error, authentication_failed,
  pure, raise, lift, need, modify, gets, attempt, ◌>>=◌, ◌>>◌,
}
use finmars_workflow.Models.Tables.{get_one}

pub record Account : Type 0 where
  pub id : ℕ
  pub username : String
  pub password : String
  pub is_staff : Bool
  pub is_superuser : Bool

-- The table of users, the newest first, and the next id of the sequence.
pub record Accounts : Type 0 where
  pub rows : List Account
  pub next_id : ℕ

-- The words of the header "Authorization", and the cookies.
pub record Request : Type 0 where
  pub is_options : Bool
  pub authorization : List String
  pub cookies : Dict String

-- `userinfo` gives what it holds under "preferred_username", if anything, and `decode_jwt` what the token
-- holds under "username"; both may raise.
pub record Services : Type 0 where
  pub lower : String → String
  pub decode : String → Option String
  pub userinfo : String → Result (Option String)
  pub decode_jwt : String → Result (Option String)
  pub admin_username : String
  pub admin_password : String
  pub random_string : ℕ → String
  pub normalize_username : String → String

-- User.objects.get(username=...)
abbrev pub get_user : String → Exec Accounts Account
get_user name s = (get_one (λ a. str_eq a.username name) s.rows, s)

-- User.objects.create_user(...): a name that is empty is a ValueError, and usernames, which are
-- normalized, are unique.
unfoldable pub create_user : (String → String) → String → String → Bool → Exec Accounts Account
create_user normalize name password is_admin s =
    let row : Account = record {
      id = s.next_id;
      username = normalize name;
      password = password;
      is_staff = is_admin;
      is_superuser = is_admin;
    } in
    if str_eq name ""
    then (err value_error, s)
    else if any (λ a. str_eq a.username (normalize name)) s.rows
    then (err integrity_error, s)
    else (ok row, record { rows = row ∷ s.rows; next_id = s.next_id + 1 })

-- The last cookie "access_token", as the header ["Token", value].
unfoldable pub from_cookies : Dict String → List String → List String
from_cookies [] auth = auth
from_cookies ((k, v) ∷ cookies) auth =
    from_cookies cookies (if str_eq k "access_token" then "Token" ∷ v ∷ [] else auth)

-- The token of a header of two words, the first of which is the keyword.
unfoldable pub token_of : Services → String → List String → Result (Option String)
token_of v keyword [] = ok none
token_of v keyword (word ∷ rest) =
    if str_eq (v.lower word) (v.lower keyword) then only rest else ok none
  where
    only : List String → Result (Option String)
    only [] = err authentication_failed
    only (token ∷ []) = elim (v.decode token) [
      | none ↦ err authentication_failed
      | some t ↦ ok (some t)
    ]
    only (_ ∷ _ ∷ _) = err authentication_failed

abbrev pub header_or_cookies : Request → List String
header_or_cookies r = elim r.authorization [ [] ↦ from_cookies r.cookies [] | w ∷ ws ↦ w ∷ ws ]

-- `authenticate`, by what reads the token and what checks it: None is no answer, and the next class is
-- asked.
unfoldable pub authenticate :
    (String → Exec Accounts Account)
    → Request
    → Result (Option String)
    → Exec Accounts (Option (Account × Option String))
authenticate credentials r token =
    if r.is_options then (do bot ← get_user "finmars_bot"; pure (some (bot, none))) else do
      found ← lift token
      elim found [
        | none ↦ pure none
        | some t ↦ (do user ← credentials t; pure (some (user, some t)))
      ]

module _ (v : Services) where
  -- The two classes' `authenticate_credentials`. `meanwhile` is what other requests do to the table between
  -- the two looks at it.
  unfoldable pub create_on_a_fly : (Accounts → Accounts) → Option String → Exec Accounts Account
  create_on_a_fly meanwhile preferred = do
    modify meanwhile
    attempt
        (do
          name ← need key_error preferred
          number ← gets (λ s. s.next_id)
          let is_admin = str_eq name v.admin_username
          create_user v.normalize_username name
              (if is_admin then v.admin_password else v.random_string number) is_admin)
        (λ _.
          attempt (do name ← need key_error preferred; get_user name)
            (λ _. raise authentication_failed))

  -- By what userinfo(key) gives.
  unfoldable pub user_of_info :
      (Accounts → Accounts) → Result (Option String) → Exec Accounts Account
  user_of_info meanwhile (err e) = raise authentication_failed
  user_of_info meanwhile (ok preferred) =
      attempt (do name ← need key_error preferred; get_user name)
        (λ _. create_on_a_fly meanwhile preferred)

  unfoldable pub keycloak_credentials : (Accounts → Accounts) → String → Exec Accounts Account
  keycloak_credentials meanwhile key = user_of_info meanwhile (v.userinfo key)

  unfoldable pub user_of_payload : Result (Option String) → Exec Accounts Account
  user_of_payload (err e) = raise authentication_failed
  user_of_payload (ok payload) =
      attempt (do name ← need key_error payload; get_user name) (λ _. raise authentication_failed)

  unfoldable pub jwt_credentials : String → Exec Accounts Account
  jwt_credentials key = user_of_payload (v.decode_jwt key)

  unfoldable pub keycloak_authenticate :
      (Accounts → Accounts) → Request → Exec Accounts (Option (Account × Option String))
  keycloak_authenticate meanwhile r =
      authenticate (keycloak_credentials meanwhile) r (token_of v "Token" (header_or_cookies r))

  unfoldable pub jwt_authenticate : Request → Exec Accounts (Option (Account × Option String))
  jwt_authenticate r = authenticate jwt_credentials r (token_of v "Bearer" r.authorization)
