-- ===== src/Errors.antt =====
-- Error responses: `flatten_errors` and `get_error_type` of finmars_standardized_errors/formatter.py.
-- The separator of nested fields is a setting, and `show` is `str` of an index.
pub mod Codes
pub mod Handler
pub mod Handled
pub mod Tests
use finmars_workflow.Common.{
  ℕ, zero, suc, ◌+◌, String, Bool, true, false, ◌&&◌, Option, none, some, List, [], ◌∷◌, ◌++◌,
  str_eq, str_append, leb, ltb, if◌then◌else◌, truthy_str,
}

-- The detail of an exception: an `ErrorDetail`, which is a text with a code, a list or a dictionary.
mutual
  pub data Detail : Type 0 where
    leaf : String → String → Detail
    list : Details → Detail
    dict : NamedDetails → Detail

  pub data Details : Type 0 where
    nil : Details
    cons : Detail → Details → Details

  pub data NamedDetails : Type 0 where
    end : NamedDetails
    field : String → Detail → NamedDetails → NamedDetails

pub record ErrorEntry : Type 0 where
  pub code : String
  pub detail : String
  pub attr : Option String

pub data ErrorType : Type 0 where
  validation_error client_error server_error : ErrorType

-- isinstance(exc, ValidationError), and the framework's is_client_error(exc.status_code)
abbrev pub get_error_type : Bool → Bool → ErrorType
get_error_type is_validation is_client =
    if is_validation then validation_error else if is_client then client_error else server_error

-- f"{attr}{separator}{key}" if attr else key
abbrev pub join : String → Option String → String → String
join separator none key = key
join separator (some attr) key =
    if str_eq attr "" then key else str_append attr (str_append separator key)

-- 0 if index is None else index + 1
abbrev pub next_index : Option ℕ → ℕ
next_index none = 0
next_index (some i) = i + 1

-- An empty text is a false detail.
abbrev pub entry_of : String → String → Option String → List ErrorEntry
entry_of code text attr =
    if str_eq text "" then [] else record { code = code; detail = text; attr = attr } ∷ []

module _ (separator : String) (show : ℕ → String) where
  unfoldable mutual
    pub flatten_errors : Detail → Option String → Option ℕ → List ErrorEntry
    flatten_errors (leaf code text) attr index = entry_of code text attr
    flatten_errors (list ds) attr index = flatten_list ds attr index
    flatten_errors (dict fs) attr index = flatten_dict fs attr

    pub flatten_list : Details → Option String → Option ℕ → List ErrorEntry
    flatten_list nil attr index = []
    flatten_list (cons (leaf code text) ds) attr index =
        entry_of code text attr ++ flatten_list ds attr index
    flatten_list (cons (list es) ds) attr index =
        flatten_list es (some (join separator attr (show (next_index index))))
          (some (next_index index))
        ++ flatten_list ds attr (some (next_index index))
    flatten_list (cons (dict fs) ds) attr index =
        flatten_dict fs (some (join separator attr (show (next_index index))))
        ++ flatten_list ds attr (some (next_index index))

    pub flatten_dict : NamedDetails → Option String → List ErrorEntry
    flatten_dict end attr = []
    flatten_dict (field key d fs) attr =
        flatten_errors d (some (join separator attr key)) none ++ flatten_dict fs attr
