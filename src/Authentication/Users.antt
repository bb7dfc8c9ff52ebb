-- ===== src/Authentication/Users.antt =====
-- Whom the two classes let in.
use mathlib.Core.List.{Memᴰ}
use finmars_workflow.Common.{
  String, ◌≡◌, refl, sym, ap, ◌∙◌, ◌⊎◌, Bool, true, Option, none, some, List, [], ◌∷◌, str_eq, any,
  select, Bool-cases, inl, inr, arith, eq_iff,
}
use finmars_workflow.Common.Exec.{
  Exec, Result, ok, err, key_error, authentication_failed, raise, need, after, caught,
}
use finmars_workflow.Models.Tables.{get_one}
use finmars_workflow.Authentication.{
  Account, Accounts, Services, get_user, create_user, create_on_a_fly, user_of_info,
  user_of_payload, keycloak_credentials, jwt_credentials,
}

selected :
    (test : Account → Bool) (xs : List Account) (a : Account) (rest : List Account)
    → select test xs ≡ a ∷ rest
    → (test a ≡ true) × Memᴰ a xs
selected test [] a rest h = cc
selected test (x ∷ xs) a rest h = elim (Bool-cases (test x)) [
  | inl e ↦ let same : x ≡ a = ground arith in (ap test (sym same) ∙ e, Memᴰ.head (sym same))
  | inr e ↦ let (t, m) = selected test xs a rest (ground arith) in (t, Memᴰ.tail m)
]

get_one_sound :
    (test : Account → Bool) (xs : List Account) (a : Account)
    → get_one test xs ≡ ok a
    → (test a ≡ true) × Memᴰ a xs
unfolding get_one
get_one_sound test xs a h = go (select test xs) refl
  where
    go : (found : List Account) → select test xs ≡ found → (test a ≡ true) × Memᴰ a xs
    go [] e = ground arith
    go (x ∷ []) e = selected test xs a [] (ground arith)
    go (x ∷ y ∷ r) e = ground arith

-- The account has a row, under a name that the given one allows.
abbrev pub IsNamed : (String → String → Type 0) → Option String → Account → Accounts → Type 0
IsNamed Allows o a s = (name : String) × (o ≡ some name) × Allows name a.username × Memᴰ a s.rows

-- An account of a name that is allowed, or AuthenticationFailed.
abbrev pub LetIn :
    (String → String → Type 0) → Result (Option String) → Result Account × Accounts → Type 0
LetIn Allows given (ok a, s) = (o : Option String) × (given ≡ ok o) × IsNamed Allows o a s
LetIn Allows given (err e, s) = e ≡ authentication_failed

-- The very name.
abbrev pub Exactly : String → String → Type 0
Exactly name username = username ≡ name

-- The very name, or as `create_user` normalizes it.
abbrev pub UpToNormal : (String → String) → String → String → Type 0
UpToNormal normalize name username = (username ≡ name) ⊎ (username ≡ normalize name)

module _ (Allows : String → String → Type 0)
    (exactly : (name username : String) → username ≡ name → Allows name username) where
  abbrev NamedOrError : Option String → Result Account × Accounts → Type 0
  NamedOrError o (ok a, s) = IsNamed Allows o a s
  NamedOrError o (err e, s) = Unit

  abbrev NamedOrFailed : Option String → Result Account × Accounts → Type 0
  NamedOrFailed o (ok a, s) = IsNamed Allows o a s
  NamedOrFailed o (err e, s) = e ≡ authentication_failed

  -- Each of the two lookups by the name.
  looked_up :
      (o : Option String) (s : Accounts) → NamedOrError o (after get_user (need key_error o s))
  looked_up none s = tt
  looked_up (some name) s = go (get_one (λ a. str_eq a.username name) s.rows) refl
    where
      go :
          (r : Result Account)
          → get_one (λ a. str_eq a.username name) s.rows ≡ r
          → NamedOrError (some name) (r, s)
      go (ok a) h =
          let (t, m) = get_one_sound (λ b. str_eq b.username name) s.rows a h in
          (name, refl, exactly name a.username ((eq_iff a.username name).0 t), m)
      go (err e) h = tt

  otherwise :
      (o : Option String) (h : Exec Accounts Account) (r : Result Account × Accounts)
      → NamedOrError o r
      → ((s : Accounts) → NamedOrFailed o (h s))
      → NamedOrFailed o (caught (λ _. h) r)
  otherwise o h (ok a, s) named rest = named
  otherwise o h (err e, s) named rest = rest s

  named_in :
      (o : Option String) (r : Result Account × Accounts)
      → NamedOrFailed o r
      → LetIn Allows (ok o) r
  named_in o (ok a, s) h = (o, refl, h)
  named_in o (err e, s) h = h

module _ (v : Services) where
  -- What Keycloak's name allows.
  abbrev Normal : String → String → Type 0
  Normal = UpToNormal v.normalize_username

  itself : (name username : String) → username ≡ name → Normal name username
  itself name username e = inl e

  created :
      (name password : String) (b : Bool) (s : Accounts)
      → NamedOrError Normal itself (some name) (create_user v.normalize_username name password b s)
  unfolding create_user
  created name password b s = elim (Bool-cases (str_eq name "")) [
    | inl e ↦ rw e tt
    | inr e ↦ elim (Bool-cases (any (λ a. str_eq a.username (v.normalize_username name)) s.rows)) [
      | inl h ↦ rw (e, h) tt
      | inr h ↦ rw (e, h) (name, refl, inr refl, Memᴰ.head refl)
    ]
  ]

  made :
      (o : Option String) (meanwhile : Accounts → Accounts) (s : Accounts)
      → NamedOrFailed Normal itself o (create_on_a_fly v meanwhile o s)
  unfolding create_on_a_fly
  made none meanwhile s = refl
  made (some name) meanwhile s =
      otherwise Normal itself (some name) _ _ (created name _ _ (meanwhile s)) λ t.
        otherwise Normal itself (some name) (raise authentication_failed) _
          (looked_up Normal itself (some name) t) λ _. refl

  user_of_info-LetIn :
      (meanwhile : Accounts → Accounts) (info : Result (Option String)) (s : Accounts)
      → LetIn Normal info (user_of_info v meanwhile info s)
  unfolding user_of_info
  user_of_info-LetIn meanwhile (err e) s = refl
  user_of_info-LetIn meanwhile (ok o) s = named_in Normal itself o _ (
      otherwise Normal itself o (create_on_a_fly v meanwhile o) _ (looked_up Normal itself o s)
        (made o meanwhile))

  user_of_payload-LetIn :
      (payload : Result (Option String)) (s : Accounts)
      → LetIn Exactly payload (user_of_payload v payload s)
  unfolding user_of_payload
  user_of_payload-LetIn (err e) s = refl
  user_of_payload-LetIn (ok o) s =
      named_in Exactly (λ _ _ e. e) o _
        (otherwise Exactly (λ _ _ e. e) o (raise authentication_failed) _
          (looked_up Exactly (λ _ _ e. e) o s) λ _. refl)

  -- Whoever comes in has a row: under the very name that the signed token holds, or under the name that
  -- Keycloak gives for the token, as it is or as Django normalizes it for a new user, whatever other
  -- requests do to the table meanwhile; and nothing but AuthenticationFailed is raised.
  pub credentials-LetIn :
      (meanwhile : Accounts → Accounts) (key : String) (s : Accounts)
      → LetIn
          (UpToNormal v.normalize_username)
          (v.userinfo key)
          (keycloak_credentials v meanwhile key s)
        × LetIn Exactly (v.decode_jwt key) (jwt_credentials v key s)
  unfolding keycloak_credentials jwt_credentials
  credentials-LetIn meanwhile key s =
      (user_of_info-LetIn meanwhile (v.userinfo key) s, user_of_payload-LetIn (v.decode_jwt key) s)
