-- ===== src/Health/Checked.antt =====
-- When the health check answers well, and what it leaves in the database.
use finmars_workflow.Common.{
  ℕ, ◌+◌, ◌*◌, ◌<◌, not, ◌&&◌, ltb, ◌≡◌, refl, ap, Bool, true, false, Option, none, some, List, [],
  ◌∷◌, All, arith, ◌==◌, ==-refl, if◌then◌else◌, String,
}
use finmars_workflow.Health.{
  Trouble, value_error, other, unexpected_result, unavailable, translated, extended, status_of,
  integrity_error, database_error, service_warning, raised, Recorded, errors, recorded, run_check,
  check_database, passed, Limits, reads, Writes, TestTable, check_disk, check_memory, all_errors,
  health_view, without, rename,
}

-- The ids of a table are below its next one.
abbrev pub IsNumbered : TestTable → Type 0
IsNumbered t = All (λ r. r.0 < t.next) t.rows

-- No failure, or one that is translated to a HealthCheckException.
abbrev pub is_translated : Trouble → Bool
is_translated integrity_error = true
is_translated database_error = true
is_translated _ = false

abbrev pub IsTranslated : Option Trouble → Type 0
IsTranslated none = Unit
IsTranslated (some e) = is_translated e ≡ true

-- Errors are recorded, and nothing is broken.
abbrev IsRecorded : Recorded → Type 0
IsRecorded r = (es : List Trouble) × (r ≡ errors es)

warned-IsRecorded :
    (b : Bool) → IsRecorded (recorded (if b then raised service_warning else passed))
warned-IsRecorded true = (service_warning ∷ [], refl)
warned-IsRecorded false = ([], refl)

memory-IsRecorded :
    (l : Limits) (available : ℕ) → IsRecorded (recorded (check_memory l (reads available)))
memory-IsRecorded l available =
    warned-IsRecorded (not (l.memory_min == 0) && ltb available (l.memory_min * 1024 * 1024))

translated-IsRecorded :
    (e : Trouble) → is_translated e ≡ true → IsRecorded (run_check (raised (translated e)))
translated-IsRecorded integrity_error h = (unexpected_result ∷ [], refl)
translated-IsRecorded database_error h = (unavailable ∷ [], refl)
translated-IsRecorded service_warning h = (service_warning ∷ [], refl)
translated-IsRecorded unexpected_result h = (unexpected_result ∷ [], refl)
translated-IsRecorded unavailable h = (unavailable ∷ [], refl)
translated-IsRecorded value_error h = cc
translated-IsRecorded other h = cc

database-IsRecorded :
    (a b c : Option Trouble) (t : TestTable)
    → IsTranslated a
    → IsTranslated b
    → IsTranslated c
    → IsRecorded (run_check (check_database a b c t).0)
database-IsRecorded (some e) b c t x y z = translated-IsRecorded e x
database-IsRecorded none (some e) c t x y z = translated-IsRecorded e y
database-IsRecorded none none (some e) t x y z = translated-IsRecorded e z
database-IsRecorded none none none t x y z = ([], refl)

warned_status :
    (m d : Recorded)
    → IsRecorded m
    → IsRecorded d
    → status_of (extended (errors (service_warning ∷ [])) (extended m (extended d (errors []))))
      ≡ some 500
warned_status m d (es, e) (fs, f) = rw (e, f) refl

without-rename :
    (n : ℕ) (name : String) (rows : List (ℕ × String))
    → All (λ r. r.0 < n) rows
    → without n (rename n name rows) ≡ rows
without-rename n name [] h = refl
without-rename n name ((k, x) ∷ rows) h =
    let other : (k == n) ≡ false = ground (arith, h.0) in
    rw (other, other) (ap (λ rs. (k, x) ∷ rs) (without-rename n name rows h.1))

without-rename_new :
    (n : ℕ) (first second : String) (rows : List (ℕ × String))
    → All (λ r. r.0 < n) rows
    → without n (rename n second ((n, first) ∷ rows)) ≡ rows
without-rename_new n first second rows h =
    rw (==-refl n, ==-refl n) (without-rename n second rows h)

-- If the disk and the memory can be read and are within their limits, and no write of the database fails,
-- then the answer is 200, and the test's table holds the rows that it held, with the next id drawn.
pub health_view_passes :
    (l : Limits) (percent available : ℕ) (w : Writes) (t : TestTable)
    → check_disk l (reads percent) ≡ passed
    → check_memory l (reads available) ≡ passed
    → w.on_create ≡ none
    → w.on_save ≡ none
    → w.on_delete ≡ none
    → IsNumbered t
    → health_view l (reads percent) (reads available) w t
      ≡ (some 200, record { rows = t.rows; next = t.next + 1 })
unfolding health_view all_errors
health_view_passes l percent available w t disk memory made saved gone numbered =
    rw (made, saved, gone, disk, memory)
      (ap (λ rows. (some 200, record { rows = rows; next = t.next + 1 }))
        (without-rename_new t.next "First" "Second" t.rows numbered))

-- If the disk is beyond its limit, the memory can be read, and the database is within the failures that
-- the check translates, then the answer is 500 and the view does not raise.
pub health_view_disk :
    (l : Limits) (percent available : ℕ) (w : Writes) (t : TestTable)
    → check_disk l (reads percent) ≡ raised service_warning
    → IsTranslated w.on_create
    → IsTranslated w.on_save
    → IsTranslated w.on_delete
    → (health_view l (reads percent) (reads available) w t).0 ≡ some 500
unfolding health_view all_errors
health_view_disk l percent available w t disk a b c = rw disk (
    warned_status (recorded (check_memory l (reads available)))
      (run_check (check_database w.on_create w.on_save w.on_delete t).0)
      (memory-IsRecorded l available)
      (database-IsRecorded w.on_create w.on_save w.on_delete t a b c))
