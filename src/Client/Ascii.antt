-- ===== src/Client/Ascii.antt =====
-- `convert_to_ascii` of `Utils` in workflow/finmars.py. A text is the list of its code points; `lower` and
-- the decimal digits of a number are parameters.
use finmars_workflow.Common.{
  ℕ, ◌<◌, ◌≢◌, List, [], ◌∷◌, ◌++◌, map, All, ltb, ◌==◌, if◌then◌else◌, arith, Bool-cases, inl, inr,
}

abbrev pub Text : Type 0
Text = List ℕ

-- s.replace(" ", "_").replace(".", "_"), at one character
abbrev pub underscored : ℕ → ℕ
underscored c = if c == 32 then 95 else if c == 46 then 95 else c

module _ (lower : Text → Text) (digits : ℕ → Text) where
  unfoldable pub to_ascii_or_unicode : ℕ → Text
  to_ascii_or_unicode c = if ltb c 128 then c ∷ [] else 85 ∷ digits c

  unfoldable pub convert_all : Text → Text
  convert_all [] = []
  convert_all (c ∷ cs) = to_ascii_or_unicode c ++ convert_all cs

  unfoldable pub convert_to_ascii : Text → Text
  unfolding convert_all
  convert_to_ascii s = convert_all (map underscored (lower s))

  -- A character that may stand in the result.
  abbrev pub IsPlain : ℕ → Type 0
  IsPlain c = (c < 128) × (c ≢ 32) × (c ≢ 46)

  append-All : (P : ℕ → Type 0) (xs ys : Text) → All P xs → All P ys → All P (xs ++ ys)
  append-All P [] ys h k = k
  append-All P (x ∷ xs) ys h k = (h.0, append-All P xs ys h.1 k)

  underscored-differs : (c : ℕ) → (underscored c ≢ 32) × (underscored c ≢ 46)
  underscored-differs c = (λ e. ground arith, λ e. ground arith)

  one-IsPlain :
      ((n : ℕ) → All IsPlain (digits n))
      → (c : ℕ) → c ≢ 32
      → c ≢ 46
      → All IsPlain (to_ascii_or_unicode c)
  unfolding to_ascii_or_unicode
  one-IsPlain plain c h k = elim (Bool-cases (ltb c 128)) [
    | inl e ↦ rw e ((ground (arith, e), h, k), tt)
    | inr e ↦ rw e ((omega arith, λ q. omega arith, λ q. omega arith), plain c)
  ]

  convert_all-IsPlain :
      ((n : ℕ) → All IsPlain (digits n))
      → (cs : Text) → All IsPlain (convert_all (map underscored cs))
  unfolding convert_all
  convert_all-IsPlain plain [] = tt
  convert_all-IsPlain plain (c ∷ cs) =
      append-All IsPlain (to_ascii_or_unicode (underscored c)) (convert_all (map underscored cs))
        (one-IsPlain plain (underscored c) (underscored-differs c).0 (underscored-differs c).1)
        (convert_all-IsPlain plain cs)

  -- Whatever the text, every character of the result is an ASCII character and neither a blank nor a full
  -- stop, where the digits of numbers are such characters.
  pub convert_to_ascii-IsPlain :
      ((n : ℕ) → All IsPlain (digits n)) → (s : Text) → All IsPlain (convert_to_ascii s)
  unfolding convert_to_ascii
  convert_to_ascii-IsPlain plain s = convert_all-IsPlain plain (lower s)
