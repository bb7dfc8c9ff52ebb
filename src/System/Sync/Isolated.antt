-- ===== src/System/Sync/Isolated.antt =====
-- Which local files the copying of a space's workflow files leaves alone.
use mathlib.Core.List.{append_assoc, append-nil}
use mathlib.Core.Bool.{false≢true}
use finmars_workflow.Common.{
  ℕ, zero, suc, String, ◌≡◌, refl, sym, ap, ◌∙◌, true, false, not, List, [], ◌∷◌, ◌++◌, select,
  str_eq, Bool-cases, inl, inr, arith, eq_iff, eq_refl,
}
use finmars_workflow.Common.Exec.{Exec, Result, ok, err, pure, for_each, after, caught}
use finmars_workflow.System.Sync.{
  Dir, Remote, Local, RemovesBelow, ArePlain, starts_with, same_path, content_at, rmtree,
  write_file, copy_file, copy_tree, filters_of, workflows_folder, sync_for_schema, first_of,
}

same_path_sound : (q p : Dir) → same_path q p ≡ true → q ≡ p
unfolding same_path
same_path_sound [] [] h = refl
same_path_sound [] (d ∷ p) h = ground arith
same_path_sound (c ∷ q) [] h = ground arith
same_path_sound (c ∷ q) (d ∷ p) h =
    let rest : same_path q p ≡ true = ground arith in
    let here : str_eq c d ≡ true = ground arith in
    rw ((eq_iff c d).0 here, same_path_sound q p rest) refl

starts_with-append : (a b p : Dir) → starts_with (a ++ b) p ≡ true → starts_with a p ≡ true
unfolding starts_with
starts_with-append [] b p h = refl
starts_with-append (c ∷ a) b [] h = ground arith
starts_with-append (c ∷ a) b (d ∷ p) h =
    let rest : starts_with (a ++ b) p ≡ true = ground arith in
    let here : str_eq c d ≡ true = ground arith in rw (here, starts_with-append a b p rest) refl

starts_with_refl : (a : Dir) → starts_with a a ≡ true
unfolding starts_with
starts_with_refl [] = refl
starts_with_refl (c ∷ a) = rw (eq_refl c, starts_with_refl a) refl

-- The local file of the path is what it was.
abbrev pub Keeps : Dir → Local → Local → Type 0
Keeps p s t = content_at p t.files ≡ content_at p s.files

not_starting : (root p : Dir) → starts_with root p ≡ true → starts_with root p ≡ false → ⊥
not_starting root p a b = false≢true (sym b ∙ a)

-- A file in the folder is not the one of a path outside.
write-Keeps :
    (folder p : Dir) (name text : String) (l : Local)
    → starts_with folder p ≡ false
    → Keeps p l (write_file (folder ++ name ∷ []) text l)
unfolding content_at
write-Keeps folder p name text l out = elim (Bool-cases (same_path (folder ++ name ∷ []) p)) [
  | inl e ↦
      let same = same_path_sound (folder ++ name ∷ []) p e in
      let inside = starts_with-append folder (name ∷ []) p (rw same (starts_with_refl p)) in
      absurd (not_starting folder p inside out)
  | inr e ↦ rw e refl
]

rmtree-Keeps :
    (r : Remote) (folder components p : Dir) (l : Local)
    → RemovesBelow r
    → ArePlain components
    → starts_with (folder ++ components) p ≡ false
    → Keeps p l (rmtree r folder components l)
unfolding content_at
rmtree-Keeps r folder cs p l below plain out = go l.files
  where
    spared : (q : Dir) → r.removes folder cs q ≡ true → same_path q p ≡ true → ⊥
    spared q e h =
        not_starting (folder ++ cs) p
          (ap (starts_with (folder ++ cs)) (sym (same_path_sound q p h))
            ∙ below folder cs q plain e)
          out

    go :
        (fs : List (Dir × String))
        → content_at p (select (λ f. not (r.removes folder cs f.0)) fs) ≡ content_at p fs
    go [] = refl
    go ((q, t) ∷ fs) = elim (Bool-cases (r.removes folder cs q)) [
      | inl e ↦ elim (Bool-cases (same_path q p)) [
        | inl h ↦ absurd (spared q e h)
        | inr h ↦ rw (e, h) (go fs)
      ]
      | inr e ↦ elim (Bool-cases (same_path q p)) [
        | inl h ↦ rw (e, h) refl
        | inr h ↦ rw (e, h) (go fs)
      ]
    ]

for_each-Keeps :
    {A : Type 0} (p : Dir) (body : A → Exec Local Unit) (xs : List A)
    → ((x : A) (l : Local) → Keeps p l (body x l).1)
    → (l : Local) → Keeps p l (for_each body xs l).1
for_each-Keeps p body [] keeps l = refl
for_each-Keeps p body (x ∷ xs) keeps l = go (body x l) (keeps x l) (for_each-Keeps p body xs keeps)
  where
    go :
        (r : Result Unit × Local)
        → Keeps p l r.1
        → ((t : Local) → Keeps p t (for_each body xs t).1)
        → Keeps p l (after (λ _. for_each body xs) r).1
    go (ok a, t) h rest = rest t ∙ h
    go (err e, t) h rest = h

listed-Keeps :
    {A : Type 0} (p : Dir) (l : Local) (o : Result A) (f : A → Exec Local Unit)
    → ((a : A) → Keeps p l (f a l).1)
    → Keeps p l (after f (o, l)).1
listed-Keeps p l (ok a) f keeps = keeps a
listed-Keeps p l (err e) f keeps = refl

module _ (r : Remote) (patterns : List String) (p : Dir) where
  caught-Keeps :
      (l : Local) (x : Result Unit × Local) → Keeps p l x.1 → Keeps p l (caught (λ _. pure tt) x).1
  caught-Keeps l (ok a, t) h = h
  caught-Keeps l (err e, t) h = h

  copy_file-Keeps :
      (folder : Dir)
      → starts_with folder p ≡ false
      → (name : String) (l : Local) → Keeps p l (copy_file r patterns folder name l).1
  unfolding copy_file
  copy_file-Keeps folder out name l = elim (Bool-cases (r.matches name patterns)) [
    | inl e ↦ rw e (
        caught-Keeps l _ (
          listed-Keeps p l (r.read (folder ++ name ∷ [])) _
            λ text. write-Keeps folder p name text l out))
    | inr e ↦ rw e refl
  ]

  below :
      (folder rest : Dir) (d : String)
      → starts_with (folder ++ d ∷ rest) p ≡ false
      → starts_with ((folder ++ d ∷ []) ++ rest) p ≡ false
  below folder rest d out = rw (append_assoc folder (d ∷ []) rest) out

  -- What is outside of a folder is outside of the folders in it.
  deeper :
      (folder : Dir) (d : String) (rest : Dir)
      → starts_with folder p ≡ false
      → starts_with ((folder ++ d ∷ []) ++ rest) p ≡ false
  deeper folder d rest out = elim (Bool-cases (starts_with ((folder ++ d ∷ []) ++ rest) p)) [
    | inl e ↦
        let inside =
          starts_with-append folder (d ∷ []) p (starts_with-append (folder ++ d ∷ []) rest p e) in
        absurd (not_starting folder p inside out)
    | inr e ↦ e
  ]

  copy_tree-Keeps :
      (n : ℕ) (components folder : Dir)
      → starts_with (folder ++ first_of n components) p ≡ false
      → (l : Local) → Keeps p l (copy_tree r patterns (filters_of n components) folder l).1
  unfolding copy_tree filters_of first_of
  copy_tree-Keeps zero components folder out l = listed-Keeps p l (r.listdir folder) _ λ listing.
      for_each-Keeps p (copy_file r patterns folder) listing.1
        (copy_file-Keeps folder (rw⁻¹ (append-nil folder) out)) l
  copy_tree-Keeps (suc n) [] folder out l = listed-Keeps p l (r.listdir folder) _ λ listing.
      for_each-Keeps p _ listing.0
        (λ d.
          copy_tree-Keeps n [] (folder ++ d ∷ [])
            (deeper folder d (first_of n []) (rw⁻¹ (append-nil folder) out)))
        l
  copy_tree-Keeps (suc n) (c ∷ cs) folder out l = listed-Keeps p l (r.listdir folder) _ λ listing.
      for_each-Keeps p _ listing.0
        (λ d t. elim (Bool-cases (str_eq d c)) [
          | inl e ↦
              let same = (eq_iff d c).0 e in
              rw e (
                copy_tree-Keeps n cs (folder ++ d ∷ [])
                  (below folder (first_of n cs) d (rw same out)) t)
          | inr e ↦ rw e refl
        ])
        l

-- What is outside of the folder of the first components is outside of that of all.
first_of-append : (n : ℕ) (cs : Dir) → (rest : Dir) × (cs ≡ first_of n cs ++ rest)
unfolding first_of
first_of-append zero cs = (cs, refl)
first_of-append (suc n) [] = ([], refl)
first_of-append (suc n) (c ∷ cs) =
    let (rest, same) = first_of-append n cs in (rest, ap (λ xs. c ∷ xs) same)

longer :
    (root cs p : Dir) (n : ℕ)
    → starts_with (root ++ first_of n cs) p ≡ false
    → starts_with (root ++ cs) p ≡ false
longer root cs p n out = elim (Bool-cases (starts_with (root ++ cs) p)) [
  | inl e ↦
      let (rest, same) = first_of-append n cs in
      let split : starts_with ((root ++ first_of n cs) ++ rest) p ≡ true =
        ap (λ xs. starts_with xs p)
          (append_assoc root (first_of n cs) rest ∙ ap (λ xs. root ++ xs) (sym same))
        ∙ e in
      absurd (
        not_starting (root ++ first_of n cs) p
          (starts_with-append (root ++ first_of n cs) rest p split) out)
  | inr e ↦ e
]

-- Copying the files of a module of a space, or of all modules, changes only local files below the space's
-- workflows and, of these, only those whose path agrees with the first four components of the module's
-- path: the files of every other space and module are what they were, whatever goes wrong. The components
-- of the module's path are plain names, not "..", "." or empty.
pub sync_for_schema-Keeps :
    (r : Remote) (patterns : List String) (space_code : String) (module_path p : Dir) (l : Local)
    → RemovesBelow r
    → ArePlain module_path
    → starts_with (workflows_folder space_code ++ first_of 4 module_path) p ≡ false
    → Keeps p l (sync_for_schema r patterns space_code module_path l).1
unfolding sync_for_schema
sync_for_schema-Keeps r patterns space_code module_path p l below plain out =
    let root = workflows_folder space_code in
    let cleared = rmtree r root module_path l in
    copy_tree-Keeps r patterns p 4 module_path root out cleared
    ∙ rmtree-Keeps r root module_path p l below plain (longer root module_path p 4 out)
