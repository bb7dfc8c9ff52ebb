-- ===== src/Storage/Tests.antt =====
-- The theorems on the storage at concrete inputs: files in a list, and a cipher that leaves them plain.
use finmars_workflow.Common.{
  String, ◌≡◌, refl, true, false, Bool, not, none, some, Option, List, [], ◌∷◌, str_eq, select, leb,
  length, arith, if◌then◌else◌,
}
use finmars_workflow.Common.Dict.{Dict, lookup, insert, lookup-insert}
use finmars_workflow.Common.Exec.{Result, ok, err, does_not_exist, value_error}
use finmars_workflow.Storage.{Bytes, Backend, Cipher, Server, Disk, save}
use finmars_workflow.Storage.Backends.{
  DirEntry, folder_exists_and_has_files, folder_exists_and_has_files-directories, path,
}
use finmars_workflow.Storage.Archive.{
  Remote, Folder, IsFolder, download_paths_as_zip, download_paths_as_zip-latest,
}

abbrev read_dict : Option Bytes → Result Bytes
read_dict none = err does_not_exist
read_dict (some t) = ok t

abbrev is_there : Option Bytes → Bool
is_there none = false
is_there (some _) = true

abbrev is_file : Option String → Bool
is_file none = false
is_file (some _) = true

abbrev without : String → Dict Bytes → Dict Bytes
without n f = select (λ p. not (str_eq p.0 n)) f

abbrev listed : Backend (Dict Bytes)
listed = record {
  has = λ n f. is_there (lookup n f);
  open_raw = λ n f. read_dict (lookup n f);
  save_raw = λ n t f. (n, t) ∷ f;
  remove = λ n f. without n f;
  available = λ n _. n;
}

abbrev plain : Cipher
plain = record {
  encrypt = λ key _ content. if leb 16 (length key) then ok content else err value_error;
  decrypt = λ _ _ content. ok content;
  urandom = λ _. 0 ∷ 0 ∷ 0 ∷ 0 ∷ 0 ∷ 0 ∷ 0 ∷ 0 ∷ 0 ∷ 0 ∷ 0 ∷ 0 ∷ [];
}

-- A key of sixteen bytes.
abbrev long_key : Bytes
long_key = 1 ∷ 2 ∷ 3 ∷ 4 ∷ 5 ∷ 6 ∷ 7 ∷ 8 ∷ 9 ∷ 10 ∷ 11 ∷ 12 ∷ 13 ∷ 14 ∷ 15 ∷ 16 ∷ []

abbrev remote : Server
remote = record { is_local = false; symmetric_key = some long_key }

abbrev disk : Disk (Dict Bytes)
disk = record { files = ("a", 5 ∷ []) ∷ []; drawn = 0 }

abbrev saved : Result String × Disk (Dict Bytes)
saved = save listed plain remote "a" (7 ∷ 8 ∷ []) disk

abbrev one_file : String → Result (List DirEntry)
one_file _ = ok (record { name = "a.py"; is_dir = false } ∷ [])

folder_exists_and_has_files-directories_example :
    folder_exists_and_has_files "/root" one_file "space" ≡ false
unfolding path
folder_exists_and_has_files-directories_example =
    folder_exists_and_has_files-directories "/root" one_file "space" "/root/space/"
      (record { name = "a.py"; is_dir = false } ∷ []) refl refl

-- Every space has a file of each name, which holds the space's name before it.
abbrev two_spaces : Remote String
two_spaces = record {
  read = λ p. ok p;
  files_in = λ _. ok [];
  ends_slash = λ _. false;
  local_name = λ p. p;
  name_in = λ p f. f;
}

-- What a request of another space left.
abbrev used_folder : Dict String
used_folder = ("prices.csv", "other/prices.csv") ∷ []

-- What stands above the name in the folder: "data" above "data/x.csv".
abbrev above : String → String
above name = if str_eq name "data/x.csv" then "data" else ""

-- Files in a list, where no directory can be made in the place of a file.
abbrev listed_folder : Folder String (Dict String)
listed_folder = record {
  make_folder = λ s. (ok tt, s);
  make_directory_of =
      λ n s. if is_file (lookup (above n) s) then (err value_error, s) else (ok tt, s);
  write = λ n t s. (ok tt, insert n t s);
  walk = λ s. s;
}

listed_folder-IsFolder : IsFolder listed_folder
listed_folder-IsFolder = record {
  is_free = λ n s. not (is_file (lookup (above n) s));
  are_apart = λ n m. not (str_eq n (above m));
  store_file-free = λ n t s free. (
    insert n t s,
    ground arith,
    λ m. refl,
    λ m apart free_m. ground (arith, lookup-insert n (above m) t s),
  );
}

-- A file that an earlier request left in the place of a directory.
in_the_way_test :
    (download_paths_as_zip two_spaces listed_folder "space"
      ("data/x.csv" ∷ [])
      (("data", "other/data") ∷ [])).0
    ≡ err value_error
unfolding download_paths_as_zip finmars_workflow.Storage.Archive.download_path lookup
in_the_way_test = refl

download_paths_as_zip-latest_example :
    (archive : Dict String) × (after : Dict String) × (download_paths_as_zip two_spaces
        listed_folder "space"
        ("data/x.csv" ∷ [])
        used_folder
      ≡ (ok archive, after))
    × (lookup "prices.csv" archive ≡ some "other/prices.csv")
unfolding lookup listed_folder-IsFolder
download_paths_as_zip-latest_example =
    download_paths_as_zip-latest two_spaces listed_folder "space" listed_folder-IsFolder
      "prices.csv" (("data/x.csv", "space/data/x.csv") ∷ []) used_folder refl
      ((false, refl, refl, refl), tt) (refl, tt, tt)
