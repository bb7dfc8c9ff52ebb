-- ===== src/Models/Payload.antt =====
-- The properties of `User`, `Workflow` and `Task` in workflow/models.py that keep a JSON value in a
-- text column.
use finmars_workflow.Common.{
  String, ◌≡◌, refl, Option, none, some, arith, str_eq, eq_iff, if◌then◌else◌,
}
use finmars_workflow.Common.Exec.{Result, ok, err, value_error}
use finmars_workflow.Json.{Json, null, obj, end, truthy}
use finmars_workflow.Json.Codec.{Codec, WritesAs}
use finmars_workflow.Models.{Workflow}

-- A text that is no JSON: the getters of `User` and `Workflow` catch the ValueError.
abbrev or_else : Json → Option Json → Json
or_else d none = d
or_else d (some v) = v

abbrev read_text : Codec → Json → Option String → Json
read_text c d none = d
read_text c d (some t) = if str_eq t "" then d else or_else d (c.loads t)

-- User.data, where `null` is None
unfoldable pub get_data : Codec → Option String → Json
get_data c json_data = read_text c null json_data

unfoldable pub set_data : Codec → Json → Option String
set_data c val = if truthy val then some (c.dumps val) else none

-- Workflow.payload
unfoldable pub get_payload : Codec → Workflow → Json
get_payload c w = read_text c (obj end) w.payload_data

unfoldable pub set_payload : Codec → Json → Workflow → Workflow
set_payload c val w = record w { payload_data = if truthy val then some (c.dumps val) else none }

-- Task.payload, Task.result, Task.progress and Task.previous: None is the only value that is not
-- written, and a text that is no JSON raises.
abbrev or_raise : Option Json → Result Json
or_raise none = err value_error
or_raise (some v) = ok v

unfoldable pub read_column : Codec → Option String → Result Json
read_column c none = ok null
read_column c (some t) = or_raise (c.loads t)

unfoldable pub write_column : Codec → Json → Option String
write_column c null = none
write_column c v = some (c.dumps v)

-- What the payload of a workflow reads as after it was set: the value, with its keys in order, if
-- it is true, and the empty object for every value that is false.
pub get_payload-set_payload :
    (c : Codec) (v sorted : Json) (w : Workflow)
    → WritesAs c v sorted
    → get_payload c (set_payload c v w) ≡ (if truthy v then sorted else obj end)
unfolding get_payload set_payload
get_payload-set_payload c v sorted w h =
    ground (arith, h.read_back, eq_iff (c.dumps v) "", h.not_empty)

-- A value written to a column of a task is read back, with its keys in order, without an exception;
-- unlike a workflow's payload, a false value other than None is kept.
pub read_column-write_column :
    (c : Codec) (v sorted : Json)
    → WritesAs c v sorted
    → read_column c (write_column c v) ≡ ok (elim v [ null ↦ null | _ ↦ sorted ])
unfolding read_column write_column
read_column-write_column c null sorted h = refl
read_column-write_column c _ sorted h = rw (h.read_back)
