-- ===== src/Client/Files.antt =====
-- The class `Storage` of workflow/finmars.py: the files of the space, below its code. The backend that
-- `get_storage` returns is a parameter; texts stand for their UTF-8 bytes.
use finmars_workflow.Common.{
  String, ◌≡◌, ◌≢◌, refl, Bool, true, false, Option, none, some, List, str_append, if◌then◌else◌,
}
use finmars_workflow.Common.Exec.{
  Exec, Result, ok, err, attribute_error, value_error, pure, lift, gets, modify, need, ◌>>=◌,
}
use finmars_workflow.Json.{Json}
use finmars_workflow.Models.{Space}
use finmars_workflow.Storage.Backends.{starts_slash}

pub record Backend (F : Type 0) : Type 0 where
  pub listdir : String → F → Result (List String × List String)
  pub read : String → F → Result String
  pub save : String → String → F → F
  pub delete : String → F → F
  pub exists_ : String → F → Bool

-- A file that is saved replaces the one of its name, and is read as it was written.
pub record IsBackend {F : Type 0} (b : Backend F) : Type 0 where
  pub read-save : (n text : String) (f : F) → b.read n (b.save n text f) ≡ ok text
  pub read-save-other :
      (n m text : String) (f : F) → m ≢ n → b.read m (b.save n text f) ≡ b.read m f

pub record Files (F : Type 0) : Type 0 where
  pub space : Option Space
  pub files : F

module _ {F : Type 0} (b : Backend F) where
  unfoldable pub get_base_path : Exec (Files F) String
  get_base_path s = elim s.space [ none ↦ (err attribute_error, s) | some p ↦ (ok p.space_code, s) ]

  unfoldable pub listdir : String → Exec (Files F) (List String × List String)
  listdir path = do
    base ← get_base_path
    (λ s. (b.listdir (str_append "/" (str_append base path)) s.files, s))

  -- The lines at the start of each method.
  unfoldable pub full_name : String → Exec (Files F) String
  full_name name = do
    slash ← lift (starts_slash name)
    base ← get_base_path
    pure (if slash then str_append base name else str_append base (str_append "/" name))

  -- self.open(filepath, mode).read()
  unfoldable pub read : String → Exec (Files F) String
  read filepath = do name ← full_name filepath; (λ s. (b.read name s.files, s))

  -- json.loads raises a ValueError.
  unfoldable pub read_json : (String → Option Json) → String → Exec (Files F) Json
  read_json loads filepath = do text ← read filepath; need value_error (loads text)

  unfoldable pub delete : String → Exec (Files F) Unit
  delete filepath = do
    name ← full_name filepath
    modify (λ s. record s { files = b.delete name s.files })

  unfoldable pub exists_ : String → Exec (Files F) Bool
  exists_ filepath = do name ← full_name filepath; gets (λ s. b.exists_ name s.files)

  unfoldable pub save_text : String → String → Exec (Files F) Unit
  save_text filepath text = do
    name ← full_name filepath
    modify (λ s. record s { files = b.save name text s.files })

  -- The old text is read into the variable of the new one; the first and the last line take the name
  -- as it is.
  unfoldable pub append_text : String → String → Exec (Files F) Unit
  append_text name content = do
    there ← gets (λ s. b.exists_ name s.files)
    text ←
        (if there
          then (do content ← read name; pure (str_append (str_append content content) "\n"))
          else pure content)
    modify (λ s. record s { files = b.save name text s.files })

  -- A log that is there forgets what is appended: whatever the message, the same text is saved or the same
  -- exception raised.
  pub append_text_forgets :
      (name message other : String) (s : Files F)
      → b.exists_ name s.files ≡ true
      → append_text name message s ≡ append_text name other s
  unfolding append_text
  append_text_forgets name message other s there = rw there refl

  -- The name that the backend is given.
  abbrev full_of : Result Bool → Option Space → String → Result String
  full_of (err e) o name = err e
  full_of (ok b) none name = err attribute_error
  full_of (ok true) (some p) name = ok (str_append p.space_code name)
  full_of (ok false) (some p) name = ok (str_append p.space_code (str_append "/" name))
