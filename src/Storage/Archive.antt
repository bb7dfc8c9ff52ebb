-- ===== src/Storage/Archive.antt =====
-- `download_paths_as_zip` of `FinmarsStorage` in workflow/storage.py, with `zip_directory`,
-- `download_file_and_save_locally` and the `download_directory` of `FinmarsS3Storage`. The state is that of
-- the server's own files, of which "tmp/temp_download" is a folder that every request shares; a file in it
-- goes by its name below the folder. The calls of os and open, the remote storage's reading of a file and
-- listing of a directory, and the joining of paths are parameters.
use finmars_workflow.Common.{
  String, ◌≡◌, refl, Bool, true, false, Option, some, List, [], ◌∷◌, map, All, str_eq, str_append,
  if◌then◌else◌, ap, ◌∙◌,
}
use finmars_workflow.Common.Dict.{Dict, lookup, insert, lookup-insert}
use finmars_workflow.Common.Exec.{Exec, Result, ok, lift, gets, for_each, ◌>>=◌, ◌>>◌}
use finmars_workflow.Storage.Backends.{starts_slash}

-- `local_name` is the name below the folder of a requested path, `name_in` that of a file of a requested
-- directory.
pub record Remote (Bytes : Type 0) : Type 0 where
  pub read : String → Result Bytes
  pub files_in : String → Result (List (String × Result Bytes))
  pub ends_slash : String → Bool
  pub local_name : String → String
  pub name_in : String → String → String

-- os.makedirs of the folder itself and, for a name in it, of the directory of the name; open(name, "wb")
-- with the write; and the files of the folder, as os.walk finds them. The first three may raise, as when a
-- file stands where a directory is asked for, or a directory where a file is.
pub record Folder (Bytes L : Type 0) : Type 0 where
  pub make_folder : Exec L Unit
  pub make_directory_of : String → Exec L Unit
  pub write : String → Bytes → Exec L Unit
  pub walk : L → Dict Bytes

abbrev pub remote_name : String → String → Bool → String
remote_name space_code path slash =
    if slash then str_append space_code path else str_append space_code (str_append "/" path)

abbrev pub store_file : {Bytes L : Type 0} → Folder Bytes L → String → Bytes → Exec L Unit
store_file l name content = do l.make_directory_of name; l.write name content

-- A name is free where a file can be made or rewritten: no file stands above it and no directory at it.
-- Two names are apart when neither is below the other. To store a file under a free name succeeds, changes
-- no other file, and leaves the names that are apart from it free.
pub record IsFolder {Bytes L : Type 0} (l : Folder Bytes L) : Type 0 where
  pub is_free : String → L → Bool
  pub are_apart : String → String → Bool
  pub store_file-free :
      (name : String) (content : Bytes) (s : L)
      → is_free name s ≡ true
      → (s' : L) × (store_file l name content s ≡ (ok tt, s'))
        × ((m : String) → lookup m (l.walk s') ≡ lookup m (insert name content (l.walk s)))
        × ((m : String) → are_apart name m ≡ true → is_free m s ≡ true → is_free m s' ≡ true)

module _ {Bytes L : Type 0} (r : Remote Bytes) (l : Folder Bytes L) (space_code : String) where
  abbrev pub save_locally : String → Result Bytes → Exec L Unit
  save_locally name content = do t ← lift content; store_file l name t

  -- `name` is that of the directory below the folder; the file is read when its directory is made.
  abbrev pub download_directory : String → Bool → Exec L Unit
  download_directory path slash = do
    l.make_directory_of (r.name_in path "")
    files ← lift (r.files_in (remote_name space_code path slash))
    for_each
        (λ f. (do
          l.make_directory_of (r.name_in path f.0)
          t ← lift f.1
          l.write (r.name_in path f.0) t))
        files

  unfoldable pub download_path : String → Exec L Unit
  download_path path = do
    slash ← lift (starts_slash path)
    if r.ends_slash path
        then download_directory path slash
        else save_locally (r.local_name path) (r.read (remote_name space_code path slash))

  -- The archive holds every file of the folder, which is not removed.
  unfoldable pub download_paths_as_zip : List String → Exec L (Dict Bytes)
  unfolding download_path
  download_paths_as_zip paths = do l.make_folder; for_each download_path paths; gets l.walk

  -- A path of a file, with its content.
  abbrev pub Reads : String × Bytes → Type 0
  Reads f =
      (slash : Bool) × (starts_slash f.0 ≡ ok slash)
      × (r.ends_slash f.0 ≡ false)
      × (r.read (remote_name space_code f.0 slash) ≡ ok f.1)

  -- The content of the last of the paths that has the name, or else the one before.
  abbrev pub latest : String → List (String × Bytes) → Option Bytes → Option Bytes
  latest name [] old = old
  latest name (f ∷ fs) old =
      latest name fs (if str_eq (r.local_name f.0) name then some f.1 else old)

  module _ (lawful : IsFolder l) where
    -- The names of the paths are free, and apart from one another.
    abbrev pub HaveRoom : List (String × Bytes) → L → Type 0
    HaveRoom [] s = Unit
    HaveRoom (f ∷ fs) s =
        (lawful.is_free (r.local_name f.0) s ≡ true)
        × All (λ g. lawful.are_apart (r.local_name f.0) (r.local_name g.0) ≡ true) fs
        × HaveRoom fs s

    HaveRoom-kept :
        (f : String × Bytes) (fs : List (String × Bytes)) (s s' : L)
        → ((m : String)
            → lawful.are_apart (r.local_name f.0) m ≡ true
            → lawful.is_free m s ≡ true
            → lawful.is_free m s' ≡ true)
        → All (λ g. lawful.are_apart (r.local_name f.0) (r.local_name g.0) ≡ true) fs
        → HaveRoom fs s
        → HaveRoom fs s'
    HaveRoom-kept f [] s s' stays apart room = tt
    HaveRoom-kept f (g ∷ gs) s s' stays apart (free, others, rest) =
        (stays (r.local_name g.0) apart.0 free, others, HaveRoom-kept f gs s s' stays apart.1 rest)

    download_path_file :
        (f : String × Bytes) (s s' : L)
        → Reads f
        → store_file l (r.local_name f.0) f.1 s ≡ (ok tt, s')
        → download_path f.0 s ≡ (ok tt, s')
    unfolding download_path
    download_path_file f s s' (slash, begins, plain, there) stored =
        rw (begins, plain, there) stored

    download_files :
        (name : String) (files : List (String × Bytes)) (s : L)
        → All Reads files
        → HaveRoom files s
        → (after : L) × (for_each download_path (map (λ f. f.0) files) s ≡ (ok tt, after))
          × (lookup name (l.walk after) ≡ latest name files (lookup name (l.walk s)))
    download_files name [] s h room = (s, refl, refl)
    download_files name (f ∷ fs) s h (free, apart, room) =
        let (s', stored, changed, stays) = lawful.store_file-free (r.local_name f.0) f.1 s free in
        let (after, ran, found) =
          download_files name fs s' h.1 (HaveRoom-kept f fs s s' stays apart room) in
        (
          after,
          rw (download_path_file f s s' h.0 stored) ran,
          found
              ∙ ap (latest name fs)
                  (changed name ∙ lookup-insert (r.local_name f.0) name f.1 (l.walk s)),
        )

    -- Where the folder is there, a request for files that can be read and have room in it returns an
    -- archive that holds, under each name, the content of the last of its paths with that name, and
    -- otherwise what the folder held before the request: the files that earlier requests left, of
    -- whatever space.
    pub download_paths_as_zip-latest :
        (name : String) (files : List (String × Bytes)) (s : L)
        → l.make_folder s ≡ (ok tt, s)
        → All Reads files
        → HaveRoom files s
        → (archive : Dict Bytes) × (after : L) × (download_paths_as_zip (map (λ f. f.0) files) s
            ≡ (ok archive, after))
          × (lookup name archive ≡ latest name files (lookup name (l.walk s)))
    unfolding download_paths_as_zip
    download_paths_as_zip-latest name files s there h room =
        let (after, ran, found) = download_files name files s h room in
        (l.walk after, after, rw (there, ran) refl, found)
