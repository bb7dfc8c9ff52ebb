-- ===== src/Client/Vault.antt =====
-- The class `Vault` of workflow/finmars.py: a secret of the platform's own vault, or of HashiCorp's.
use Prim.Native.String.{len}
use text.Mathlib.Text.{find?, get?}
use finmars_workflow.Common.{
  suc, ◌*◌, String, ◌≡◌, refl, sym, ap, ◌∙◌, ◌⊎◌, inl, inr, Bool, true, false, none, some, str_eq,
  str_append, if◌then◌else◌, arith, Bool-cases, eq_iff,
}
use finmars_workflow.Common.Exec.{
  Exec, Result, ok, err, Error, key_error, type_error, index_error, exception, raise, lift, need,
  ◌>>=◌, ◌>>◌,
}
use finmars_workflow.Json.{Json, null, str, arr, obj, Items, nil, cons, get, truthy}
use finmars_workflow.Client.{
  Platform, Caller, get_space, get_refresh_token, request, checked, url_of, as_get,
}

-- value[key]
abbrev pub at_key : String → Json → Result Json
at_key k (obj fs) = elim (get k fs) [ none ↦ err key_error | some v ↦ ok v ]
at_key k _ = err type_error

abbrev pub is_text : String → Json → Bool
is_text path (str s) = str_eq path s
is_text path _ = false

-- One record: its data, where the code is the path.
abbrev pub picked : String → Json → Json → Result Json → Result Json
picked path secret_data item (err e) = err e
picked path secret_data item (ok code) =
    if is_text path code then at_key "data" item else ok secret_data

abbrev pub pick : String → Json → Json → Result Json
pick path secret_data item = picked path secret_data item (at_key "user_code" item)

-- for item in data["results"]
unfoldable pub pick_all : String → Json → Items → Result Json
pick_all path secret_data nil = ok secret_data
pick_all path secret_data (cons item items) = elim (pick path secret_data item) [
  | err e ↦ err e
  | ok v ↦ pick_all path v items
]

abbrev pub records_of : Json → Result Items
records_of (arr items) = ok items
records_of _ = err type_error

abbrev pub no_secret : Error
no_secret = exception "Secret is not found"

-- if not secret_data: raise
abbrev pub chosen : Result Json → Result Json
chosen (err e) = err e
chosen (ok v) = if truthy v then ok v else err no_secret

abbrev pub in_records : String → Result Items → Result Json
in_records path (err e) = err e
in_records path (ok items) = chosen (pick_all path null items)

abbrev pub in_results : String → Result Json → Result Json
in_results path (err e) = err e
in_results path (ok results) = in_records path (records_of results)

unfoldable pub secret_of : String → Json → Result Json
secret_of path content = in_results path (at_key "results" content)

-- The realm is not optional here.
unfoldable pub get_secret_of_finmars : Platform → String → Exec Caller Json
get_secret_of_finmars p path = do
  token ← get_refresh_token p (60 * 8)
  space ← get_space
  realm ← need type_error space.realm_code
  let below = str_append space.space_code (str_append "/api/v1/vault/vault-record/?user_code=" path)
  r ← request p (record {
    verb = as_get;
    url =
        str_append "https://"
          (str_append p.domain (str_append "/" (str_append realm (str_append "/" below))));
    body = none;
    bearer = token;
  })
  content ← checked r
  lift (secret_of path content)

-- path.split("/"): what is before the first "/", and what is between it and the next
unfoldable pub two_pieces : String → Result (String × String)
two_pieces path = elim (find? path "/") [
  | none ↦ err index_error
  | some i ↦ elim (get? path (suc i) (len path)) [
    | none ↦ err index_error
    | some rest ↦ elim (get? path 0 i) [
      | none ↦ err index_error
      | some engine ↦ elim (find? rest "/") [
        | none ↦ ok (engine, rest)
        | some j ↦ elim (get? rest 0 j) [
          | none ↦ err index_error
          | some secret ↦ ok (engine, secret)
        ]
      ]
    ]
  ]
]

unfoldable pub get_secret_of_hashicorp : Platform → String → Exec Caller Json
get_secret_of_hashicorp p path = do
  token ← get_refresh_token p (60 * 8)
  pieces ← lift (two_pieces path)
  space ← get_space
  let query =
      str_append "/api/v1/vault/vault-secret/get/?engine_name="
        (str_append pieces.0 (str_append "&path=" pieces.1))
  r ← request p (record { verb = as_get; url = url_of p space query; body = none; bearer = token })
  content ← checked r
  found ← lift (at_key "data" content)
  lift (at_key "data" found)

unfoldable pub get_secret : Platform → String → String → Exec Caller Json
get_secret p path provider =
    if str_eq provider "finmars"
    then get_secret_of_finmars p path
    else if str_eq provider "hashicorp"
    then get_secret_of_hashicorp p path
    else get_refresh_token p (60 * 8) >> raise (exception "Unknown provider %s")

abbrev pub IsRecord : String → Json → Json → Type 0
IsRecord path v item = (at_key "user_code" item ≡ ok (str path)) × (at_key "data" item ≡ ok v)

-- One of the items is a record of the path with that secret.
abbrev pub HoldsRecord : String → Json → Items → Type 0
HoldsRecord path v nil = ⊥
HoldsRecord path v (cons item items) = IsRecord path v item ⊎ HoldsRecord path v items

is_text_sound : (path : String) (v : Json) → is_text path v ≡ true → v ≡ str path
is_text_sound path (str s) h = ap str (sym ((eq_iff path s).0 h))
is_text_sound path null h = cc
is_text_sound path (Json.bool b) h = cc
is_text_sound path (Json.num n) h = cc
is_text_sound path (Json.minus n) h = cc
is_text_sound path (arr xs) h = cc
is_text_sound path (obj fs) h = cc

picked_sound :
    (path : String) (w v item : Json) (r : Result Json)
    → at_key "user_code" item ≡ r
    → picked path w item r ≡ ok v
    → (v ≡ w) ⊎ IsRecord path v item
picked_sound path w v item (err e) hr h = cc
picked_sound path w v item (ok code) hr h = elim (Bool-cases (is_text path code)) [
  | inl e ↦ inr (hr ∙ ap ok (is_text_sound path code e), ground arith)
  | inr e ↦ inl (ground arith)
]

after_pick :
    (path : String) (v x w item : Json) (items : Items)
    → (v ≡ x) ⊎ HoldsRecord path v items
    → (x ≡ w) ⊎ IsRecord path x item
    → (v ≡ w) ⊎ HoldsRecord path v (cons item items)
after_pick path v x w item items (inr m) _ = inr (inr m)
after_pick path v x w item items (inl e) (inl f) = inl (e ∙ f)
after_pick path v x w item items (inl e) (inr r) = inr (inl (rw e r))

pick_all_sound :
    (path : String) (w v : Json) (items : Items)
    → pick_all path w items ≡ ok v
    → (v ≡ w) ⊎ HoldsRecord path v items
unfolding pick_all
pick_all_sound path w v nil h = inl (ground arith)
pick_all_sound path w v (cons item items) h =
    go (pick path w item) refl (λ x. pick_all_sound path x v items) h
  where
    go :
        (r : Result Json)
        → pick path w item ≡ r
        → ((x : Json) → pick_all path x items ≡ ok v → (v ≡ x) ⊎ HoldsRecord path v items)
        → elim r as (λ _. Result Json) [ err e ↦ err e | ok x ↦ pick_all path x items ] ≡ ok v
        → (v ≡ w) ⊎ HoldsRecord path v (cons item items)
    go (err e) hr rest h = cc
    go (ok x) hr rest h =
        after_pick path v x w item items (rest x h)
          (picked_sound path w x item (at_key "user_code" item) refl hr)

chosen_sound : (r : Result Json) (v : Json) → chosen r ≡ ok v → (r ≡ ok v) × (truthy v ≡ true)
chosen_sound (err e) v h = cc
chosen_sound (ok x) v h = elim (Bool-cases (truthy x)) [
  | inl e ↦ let same : ok x ≡ ok v = rw e at h in (same, kept same e)
  | inr e ↦ let bad : err no_secret ≡ ok v = rw e at h in cc
]
  where
    kept : ok x ≡ ok v → truthy x ≡ true → truthy v ≡ true
    kept same e = let eq : x ≡ v = cc in sym (ap truthy eq) ∙ e

not_null : (v : Json) → truthy v ≡ true → v ≡ null → ⊥
not_null v h e = let no_truth : truthy null ≡ true = sym (ap truthy e) ∙ h in cc

-- A secret that is returned is not empty, and is the data of a record of the answer whose code is the
-- path itself: no other record's data is returned.
pub secret_of_sound :
    (path : String) (content v : Json) (items : Items)
    → at_key "results" content ≡ ok (arr items)
    → secret_of path content ≡ ok v
    → (truthy v ≡ true) × HoldsRecord path v items
unfolding secret_of
secret_of_sound path content v items hr h =
    let (found, true_) =
      chosen_sound (pick_all path null items) v (sym (ap (in_results path) hr) ∙ h) in
    elim (pick_all_sound path null v items found) [
      | inl e ↦ absurd (not_null v true_ e)
      | inr m ↦ (true_, m)
    ]
