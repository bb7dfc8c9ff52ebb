-- ===== src/Json/Codec.antt =====
-- The `json` module, which the program only calls: `dumps` with sorted keys and `loads`, where
-- `none` is the ValueError of a text that is no JSON.
use finmars_workflow.Common.{String, ◌≡◌, ◌≢◌, Option, some}
use finmars_workflow.Json.{Json}

pub record Codec : Type 0 where
  pub dumps : Json → String
  pub loads : String → Option Json

-- What the documentation of `json` says of one value: its text is not empty, and is read back as
-- the value with its keys in order.
pub record WritesAs (c : Codec) (v sorted : Json) : Type 0 where
  pub read_back : c.loads (c.dumps v) ≡ some sorted
  pub not_empty : c.dumps v ≢ ""
