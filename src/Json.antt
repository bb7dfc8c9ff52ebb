-- ===== src/Json.antt =====
-- JSON values as Python holds them after `json.loads`: payloads, results and outputs of tasks.
-- Numbers are integers; floating-point numbers do not occur in the model.
pub mod Codec
use finmars_workflow.Common.{
  ℕ, zero, suc, String, ◌≡◌, refl, Bool, true, false, Option, none, some, List, [], ◌∷◌, str_eq,
  if◌then◌else◌,
}

-- `minus n` is -(n + 1).
mutual
  pub data Json : Type 0 where
    null : Json
    bool : Bool → Json
    num minus : ℕ → Json
    str : String → Json
    arr : Items → Json
    obj : Fields → Json

  pub data Items : Type 0 where
    nil : Items
    cons : Json → Items → Items

  pub data Fields : Type 0 where
    end : Fields
    field : String → Json → Fields → Fields

-- Python's truth value.
abbrev pub truthy : Json → Bool
truthy null = false
truthy (bool b) = b
truthy (num zero) = false
truthy (num (suc n)) = true
truthy (minus n) = true
truthy (str s) = if str_eq s "" then false else true
truthy (arr nil) = false
truthy (arr (cons _ _)) = true
truthy (obj end) = false
truthy (obj (field _ _ _)) = true

-- o.get(k) on the fields of an object
abbrev pub get : String → Fields → Option Json
get k end = none
get k (field j v fs) = if str_eq j k then some v else get k fs

-- None where Python passes the absent value on as null
abbrev pub or_null : Option Json → Json
or_null none = null
or_null (some v) = v

abbrev pub truthy_json : Option Json → Bool
truthy_json none = false
truthy_json (some v) = truthy v

-- {k: v}
abbrev pub single : String → Json → Json
single k v = obj (field k v end)
