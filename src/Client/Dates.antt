-- ===== src/Client/Dates.antt =====
-- The dates between two dates, of the class `Utils` of workflow/finmars.py. A date is its ordinal;
-- strptime, str of a date and pandas' bdate_range are parameters.
use mathlib.Core.List.{Memᴰ}
use finmars_workflow.Common.{
  ℕ, zero, suc, ◌+◌, ◌-◌, ◌≤◌, String, ◌≡◌, ap, ◌∙◌, ◌↔◌, ◌<◌, inl, inr, Bool-cases, ==_iff, ◌==◌,
  Bool, true, false, List, [], ◌∷◌, map, select, if◌then◌else◌, arith,
}
use finmars_workflow.Common.Exec.{Result, ok, err}

-- A date as the caller gives it: a date, or a text in the format %Y-%m-%d.
pub data DateArg : Type 0 where
  date : ℕ → DateArg
  text : String → DateArg

abbrev pub as_date : (String → Result ℕ) → DateArg → Result ℕ
as_date strptime (date d) = ok d
as_date strptime (text t) = strptime t

-- date_from + timedelta(days=i) for i in range(n), from the day `d` on
unfoldable pub days_from : ℕ → ℕ → List ℕ
days_from d zero = []
days_from d (suc n) = d ∷ days_from (suc d) n

-- The days of the loop, which is empty where date_to is before date_from; a day is kept that passes.
unfoldable pub days_between : (ℕ → Bool) → ℕ → ℕ → List ℕ
unfolding days_from
days_between keeps date_from date_to = select keeps (days_from date_from (suc date_to - date_from))

-- str(day), if to_string
abbrev pub shown : (ℕ → String) → Bool → ℕ → DateArg
shown show to_string d = if to_string then text (show d) else date d

module _ (strptime : String → Result ℕ) (show : ℕ → String) where
  dates : (ℕ → Bool) → DateArg → DateArg → Bool → Result (List DateArg)
  dates keeps a b to_string = elim (as_date strptime a) [
    | err e ↦ err e
    | ok date_from ↦ elim (as_date strptime b) [
      | err e ↦ err e
      | ok date_to ↦ ok (map (shown show to_string) (days_between keeps date_from date_to))
    ]
  ]

  unfoldable pub get_list_of_dates_between_two_dates :
      DateArg → DateArg → Bool → Result (List DateArg)
  unfolding dates
  get_list_of_dates_between_two_dates a b to_string = dates (λ _. true) a b to_string

  -- bool(len(pd.bdate_range(date, date))) of a day is the parameter.
  unfoldable pub get_list_of_business_days_between_two_dates :
      (ℕ → Bool) → DateArg → DateArg → Bool → Result (List DateArg)
  unfolding dates
  get_list_of_business_days_between_two_dates is_business_day a b to_string =
      dates is_business_day a b to_string

days_from_iff : (d n k : ℕ) → Memᴰ k (days_from d n) ↔ ((d ≤ k) × (k < d + n))
unfolding days_from
days_from_iff d zero k = ((λ m. elim m [ ]), λ h. absurd (omega (arith, h.0, h.1)))
days_from_iff d (suc n) k =
    let (to, from) = days_from_iff (suc d) n k in (to_range to, from_range from)
  where
    to_range :
        (Memᴰ k (days_from (suc d) n) → (suc d ≤ k) × (k < suc d + n))
        → Memᴰ k (d ∷ days_from (suc d) n)
        → (d ≤ k) × (k < d + suc n)
    to_range to (Memᴰ.head e) = (omega (arith, e), omega (arith, e))
    to_range to (Memᴰ.tail m) = let (a, b) = to m in (omega arith, omega arith)

    from_range :
        ((suc d ≤ k) × (k < suc d + n) → Memᴰ k (days_from (suc d) n))
        → (d ≤ k) × (k < d + suc n)
        → Memᴰ k (d ∷ days_from (suc d) n)
    from_range from (a, b) = elim (Bool-cases (k == d)) [
      | inl e ↦ Memᴰ.head ((==_iff k d).0 e)
      | inr e ↦ Memᴰ.tail (from (ground arith))
    ]

select_iff :
    (keeps : ℕ → Bool) (k : ℕ) (xs : List ℕ)
    → Memᴰ k (select keeps xs) ↔ (Memᴰ k xs × (keeps k ≡ true))
select_iff keeps k [] = ((λ m. elim m [ ]), λ h. elim h.0 [ ])
select_iff keeps k (x ∷ xs) =
    let (to, from) = select_iff keeps k xs in
    elim (Bool-cases (keeps x)) [
      | inl e ↦ rw e (kept to e, kept_back from)
      | inr e ↦ rw e ((λ m. let (a, b) = to m in (Memᴰ.tail a, b)), dropped from e)
    ]
  where
    kept :
        (Memᴰ k (select keeps xs) → Memᴰ k xs × (keeps k ≡ true))
        → keeps x ≡ true
        → Memᴰ k (x ∷ select keeps xs)
        → Memᴰ k (x ∷ xs) × (keeps k ≡ true)
    kept to e (Memᴰ.head h) = (Memᴰ.head h, ap keeps h ∙ e)
    kept to e (Memᴰ.tail m) = let (a, b) = to m in (Memᴰ.tail a, b)

    kept_back :
        (Memᴰ k xs × (keeps k ≡ true) → Memᴰ k (select keeps xs))
        → Memᴰ k (x ∷ xs) × (keeps k ≡ true)
        → Memᴰ k (x ∷ select keeps xs)
    kept_back from (Memᴰ.head h, y) = Memᴰ.head h
    kept_back from (Memᴰ.tail m, y) = Memᴰ.tail (from (m, y))

    dropped :
        (Memᴰ k xs × (keeps k ≡ true) → Memᴰ k (select keeps xs))
        → keeps x ≡ false
        → Memᴰ k (x ∷ xs) × (keeps k ≡ true)
        → Memᴰ k (select keeps xs)
    dropped from e (Memᴰ.head h, y) = let same = ap keeps h in cc
    dropped from e (Memᴰ.tail m, y) = from (m, y)

-- The days are those from the first to the last, both included, that pass: none is lost, and there is
-- none where the last is before the first.
pub days_between_iff :
    (keeps : ℕ → Bool) (date_from date_to k : ℕ)
    → Memᴰ k (days_between keeps date_from date_to)
      ↔ ((date_from ≤ k) × (k ≤ date_to) × (keeps k ≡ true))
unfolding days_between
days_between_iff keeps date_from date_to k =
    let (to, from) = select_iff keeps k (days_from date_from (suc date_to - date_from)) in
    let (to', from') = days_from_iff date_from (suc date_to - date_from) k in
    (
      λ m. let (a, y) = to m in let (low, high) = to' a in (low, omega arith, y),
      λ h. from (from' (h.0, omega (arith, h.0, h.1)), h.2),
    )
