-- ===== src/Errors/Codes.antt =====
-- No error is lost, repeated or moved by the flattening.
use finmars_workflow.Common.{
  ℕ, String, ◌≡◌, refl, ◌∙◌, Option, none, some, List, [], ◌∷◌, ◌++◌, map, str_eq, if◌then◌else◌,
  Bool-cases, inl, inr,
}
use mathlib.Core.List.{map-append}
use finmars_workflow.Errors.{
  Detail, leaf, list, dict, Details, nil, cons, NamedDetails, end, field, ErrorEntry, entry_of,
  join, next_index, flatten_errors, flatten_list, flatten_dict,
}

-- The codes and texts of a detail, read from left to right; an empty text is no error.
abbrev pub one_text : String → String → List (String × String)
one_text code text = if str_eq text "" then [] else (code, text) ∷ []

unfoldable mutual
  pub texts_of : Detail → List (String × String)
  texts_of (leaf code text) = one_text code text
  texts_of (list ds) = list_texts ds
  texts_of (dict fs) = dict_texts fs

  pub list_texts : Details → List (String × String)
  list_texts nil = []
  list_texts (cons d ds) = texts_of d ++ list_texts ds

  pub dict_texts : NamedDetails → List (String × String)
  dict_texts end = []
  dict_texts (field _ d fs) = texts_of d ++ dict_texts fs

abbrev pub text_of : ErrorEntry → String × String
text_of e = (e.code, e.detail)

entry_of-text :
    (code text : String) (attr : Option String)
    → map text_of (entry_of code text attr) ≡ one_text code text
entry_of-text code text attr = elim (Bool-cases (str_eq text "")) [
  | inl e ↦ rw e refl
  | inr e ↦ rw e refl
]

both :
    (xs ys : List ErrorEntry) (us vs : List (String × String))
    → map text_of xs ≡ us
    → map text_of ys ≡ vs
    → map text_of (xs ++ ys) ≡ us ++ vs
both xs ys us vs p q = map-append text_of xs ys ∙ rw (p, q) refl

module _ (separator : String) (show : ℕ → String) where
  mutual
    unfolding flatten_errors texts_of

    detail_kept :
        (d : Detail) (attr : Option String) (index : Option ℕ)
        → map text_of (flatten_errors separator show d attr index) ≡ texts_of d
    detail_kept (leaf code text) attr index = entry_of-text code text attr
    detail_kept (list ds) attr index = list_kept ds attr index
    detail_kept (dict fs) attr index = dict_kept fs attr

    list_kept :
        (ds : Details) (attr : Option String) (index : Option ℕ)
        → map text_of (flatten_list separator show ds attr index) ≡ list_texts ds
    list_kept nil attr index = refl
    list_kept (cons (leaf code text) ds) attr index =
        both _ _ _ _ (entry_of-text code text attr) (list_kept ds attr index)
    list_kept (cons (list es) ds) attr index =
        both _ _ _ _
          (list_kept es (some (join separator attr (show (next_index index))))
            (some (next_index index)))
          (list_kept ds attr (some (next_index index)))
    list_kept (cons (dict fs) ds) attr index =
        both _ _ _ _ (dict_kept fs (some (join separator attr (show (next_index index)))))
          (list_kept ds attr (some (next_index index)))

    dict_kept :
        (fs : NamedDetails) (attr : Option String)
        → map text_of (flatten_dict separator show fs attr) ≡ dict_texts fs
    dict_kept end attr = refl
    dict_kept (field key d fs) attr =
        both _ _ _ _ (detail_kept d (some (join separator attr key)) none) (dict_kept fs attr)

  -- The errors of a response are the texts of the detail with their codes, in its order, whatever the
  -- nesting: none is lost or repeated.
  pub flatten_errors-texts_of :
      (d : Detail) (attr : Option String) (index : Option ℕ)
      → map text_of (flatten_errors separator show d attr index) ≡ texts_of d
  flatten_errors-texts_of d attr index = detail_kept d attr index
