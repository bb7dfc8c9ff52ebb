-- ===== src/System/Sync.antt =====
-- The copying of a space's workflow files from the remote storage to the local one:
-- `sync_remote_storage_to_local_storage_for_schema` of workflow/system.py. A path is the list of its
-- components, which `construct_path` and os.path.join put together; the remote storage, the match of
-- a file name against patterns and the removal of a directory are parameters. The names that a listing
-- gives are plain ones; the components of a module path may be "..", or begin at the root.
pub mod Isolated
pub mod Everywhere
use mathlib.Core.Path.{subst}
use finmars_workflow.Common.{
  ℕ, zero, suc, String, ◌≡◌, refl, sym, ap, ◌∙◌, Bool, true, false, not, ◌&&◌, Option, none, some,
  List, [], ◌∷◌, ◌++◌, All, select, str_eq, if◌then◌else◌, Bool-cases, inl, inr, arith, eq_iff,
  eq_refl,
}
use finmars_workflow.Common.Exec.{
  Exec, Result, ok, err, Error, pure, raise, lift, modify, gets, attempt, for_each, after, caught,
  ◌>>=◌, ◌>>◌,
}

abbrev pub Dir : Type 0
Dir = List String

-- storage.listdir and storage.open(...).read(), and fnmatch of a name against any of the patterns.
-- `removes` tells which local files are gone after os.path.join of a folder and the components of a module
-- path was given to shutil.rmtree, which follows "..", and which may fail.
pub record Remote : Type 0 where
  pub listdir : Dir → Result (List String × List String)
  pub read : Dir → Result String
  pub matches : String → List String → Bool
  pub removes : Dir → Dir → Dir → Bool

-- The files below the local root, by path.
pub record Local : Type 0 where
  pub files : List (Dir × String)

unfoldable pub starts_with : Dir → Dir → Bool
starts_with [] p = true
starts_with (c ∷ cs) [] = false
starts_with (c ∷ cs) (d ∷ p) = let rest = starts_with cs p in str_eq c d && rest

unfoldable pub same_path : Dir → Dir → Bool
same_path [] [] = true
same_path (c ∷ cs) (d ∷ p) = let rest = same_path cs p in str_eq c d && rest
same_path _ _ = false

-- A component that names an entry of the directory before it.
abbrev pub is_plain : String → Bool
is_plain c = not (str_eq c "") && (not (str_eq c ".") && not (str_eq c ".."))

abbrev pub ArePlain : Dir → Type 0
ArePlain cs = All (λ c. is_plain c ≡ true) cs

-- What is documented of rmtree: on plain components, it removes nothing but what is below the path.
abbrev pub RemovesBelow : Remote → Type 0
RemovesBelow r =
    (folder components p : Dir)
    → ArePlain components
    → r.removes folder components p ≡ true
    → starts_with (folder ++ components) p ≡ true

-- What the local file of a path holds: the last one written.
unfoldable pub content_at : Dir → List (Dir × String) → Option String
unfolding same_path
content_at p [] = none
content_at p ((q, t) ∷ fs) = let rest = content_at p fs in if same_path q p then some t else rest

abbrev pub rmtree : Remote → Dir → Dir → Local → Local
rmtree r folder components l = record l {
  files = select (λ f. not (r.removes folder components f.0)) l.files;
}

abbrev pub write_file : Dir → String → Local → Local
write_file p t l = record l { files = (p, t) ∷ l.files }

-- The condition of `continue`: the component, where the module path has one at this level, is another.
abbrev pub is_skipped : Option String → String → Bool
is_skipped none directory = false
is_skipped (some c) directory = not (str_eq directory c)

module _ (r : Remote) (patterns : List String) where
  -- The body of the innermost loop: what goes wrong is logged.
  unfoldable pub copy_file : Dir → String → Exec Local Unit
  copy_file folder filename =
      attempt
        (if r.matches filename patterns
          then (do
            content ← lift (r.read (folder ++ filename ∷ []))
            modify (write_file (folder ++ filename ∷ []) content))
          else pure tt)
        (λ _. pure tt)

  -- The loops over the directories of a folder, one for each filter, and that over the files of the last.
  unfoldable pub copy_tree : List (Option String) → Dir → Exec Local Unit
  unfolding copy_file
  copy_tree [] folder = do listing ← lift (r.listdir folder); for_each (copy_file folder) listing.1
  copy_tree (f ∷ fs) folder = do
    listing ← lift (r.listdir folder)
    for_each (λ d. if is_skipped f d then pure tt else copy_tree fs (folder ++ d ∷ [])) listing.0

-- What each level of the loops compares with: the components of the module path that there are.
unfoldable pub filters_of : ℕ → Dir → List (Option String)
filters_of zero components = []
filters_of (suc n) [] = none ∷ filters_of n []
filters_of (suc n) (c ∷ cs) = some c ∷ filters_of n cs

abbrev pub workflows_folder : String → Dir
workflows_folder space_code = space_code ∷ "workflows" ∷ []

unfoldable pub sync_for_schema : Remote → List String → String → Dir → Exec Local Unit
unfolding filters_of
sync_for_schema r patterns space_code module_path = do
  modify (rmtree r (workflows_folder space_code) module_path)
  copy_tree r patterns (filters_of 4 module_path) (workflows_folder space_code)

-- The first components, at most so many.
unfoldable pub first_of : ℕ → Dir → Dir
first_of zero cs = []
first_of (suc n) [] = []
first_of (suc n) (c ∷ cs) = c ∷ first_of n cs
