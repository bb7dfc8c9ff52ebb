-- ===== src/Storage/Backends.antt =====
-- The backends of workflow/storage.py: which one is used, the paths and listings of the local one, and
-- the question whether a folder has files. os.scandir is a parameter.
use Prim.Native.String.{len}
use text.Mathlib.Text.{get?}
use finmars_workflow.Common.{
  ◌-◌, String, ◌≡◌, refl, ap, ◌∙◌, Bool, true, false, not, Option, none, some, List, [], ◌∷◌, map,
  select, any, str_eq, str_append, if◌then◌else◌, holds_str, Bool-cases, inl, inr,
}
use finmars_workflow.Common.Exec.{Result, ok, err, index_error, attribute_error}

pub data Chosen : Type 0 where
  sftp s3 azure filesystem : Chosen

-- Whether the settings that `get_storage` asks for are true.
pub record Configured : Type 0 where
  pub has_sftp_host : Bool
  pub has_s3_key : Bool
  pub has_azure_key : Bool
  pub has_filesystem : Bool

abbrev replace_by : Bool → Chosen → Option Chosen → Option Chosen
replace_by b c o = if b then some c else o

-- Each configured backend replaces the one before; without any, None has no method get_symmetric_key.
unfoldable pub get_storage : Configured → Result Chosen
get_storage c =
    let storage = replace_by c.has_filesystem filesystem (
      replace_by c.has_azure_key azure
        (replace_by c.has_s3_key s3 (replace_by c.has_sftp_host sftp none))) in
    found storage
  where
    found : Option Chosen → Result Chosen
    found none = err attribute_error
    found (some s) = ok s

-- What os.scandir yields: a name, and whether it is a directory.
pub record DirEntry : Type 0 where
  pub name : String
  pub is_dir : Bool

-- name[0] == "/"
abbrev pub starts_slash : String → Result Bool
starts_slash name = if str_eq name "" then err index_error else ok (holds_str (get? name 0 1) "/")

-- bool(files)
abbrev not_empty : List String → Bool
not_empty [] = false
not_empty (_ ∷ _) = true

-- files, folders = self.listdir(folder_path); an exception is False
abbrev has_first : Result (List String × List String) → Bool
has_first (err e) = false
has_first (ok (files, folders)) = not_empty files

not_empty-select :
    (es : List DirEntry)
    → not_empty (map (λ e. e.name) (select (λ e. e.is_dir) es)) ≡ any (λ e. e.is_dir) es
not_empty-select [] = refl
not_empty-select (e ∷ es) = elim (Bool-cases e.is_dir) [
  | inl h ↦ rw h refl
  | inr h ↦ rw h (not_empty-select es)
]

-- The entries, parted into directories and files.
abbrev parted : Result (List DirEntry) → Result (List String × List String)
parted (err e) = err e
parted (ok es) = ok (
  map (λ e. e.name) (select (λ e. e.is_dir) es),
  map (λ e. e.name) (select (λ e. not e.is_dir) es),
)

module _ (media_root : String) (scandir : String → Result (List DirEntry)) where
  unfoldable pub path : String → Result String
  path name = elim (starts_slash name) [
    | err e ↦ err e
    | ok b ↦
        ok (if b then str_append media_root name else str_append media_root (str_append "/" name))
  ]

  abbrev scanned : Result String → Result (List String × List String)
  scanned (err e) = err e
  scanned (ok p) = parted (scandir p)

  unfoldable pub listdir : String → Result (List String × List String)
  listdir name = scanned (path name)

  -- folder_path.endswith("/")
  abbrev pub with_slash : String → String
  with_slash p = if holds_str (get? p (len p - 1) (len p)) "/" then p else str_append p "/"

  unfoldable pub folder_exists_and_has_files : String → Bool
  folder_exists_and_has_files folder_path = has_first (listdir (with_slash folder_path))

  listdir_lem :
      (name full : String) (entries : List DirEntry)
      → path name ≡ ok full
      → scandir full ≡ ok entries
      → listdir name
        ≡ ok (
          map (λ e. e.name) (select (λ e. e.is_dir) entries),
          map (λ e. e.name) (select (λ e. not e.is_dir) entries),
        )
  unfolding listdir
  listdir_lem name full entries hp hs = ap scanned hp ∙ ap parted hs

  -- A folder that can be listed is said to have files exactly when it has a directory in it: the files
  -- in it do not matter, since the two lists of the listing are taken for each other.
  pub folder_exists_and_has_files-directories :
      (folder_path full : String) (entries : List DirEntry)
      → path (with_slash folder_path) ≡ ok full
      → scandir full ≡ ok entries
      → folder_exists_and_has_files folder_path ≡ any (λ e. e.is_dir) entries
  unfolding folder_exists_and_has_files
  folder_exists_and_has_files-directories folder_path full entries hp hs =
      ap has_first (listdir_lem (with_slash folder_path) full entries hp hs)
      ∙ not_empty-select entries

-- The keys below a prefix are deleted (Azure and S3).
unfoldable pub delete_directory : (String → String → Bool) → String → List String → List String
delete_directory startswith directory_path keys =
    select (λ k. not (startswith k directory_path)) keys
