-- ===== src/Schedules/Crontab.antt =====
-- The two orders of a crontab's parts, and a line that is set and read back.
use finmars_workflow.Common.{String, ◌≡◌, refl, ap, some, [], ◌∷◌}
use finmars_workflow.Common.Exec.{ok, err, value_error}
use finmars_workflow.Json.{str, end, field}
use finmars_workflow.Schedules.{Clockwork, cron, build_celery_schedule}
use finmars_workflow.Schedules.Rows.{
  Crontab, Saving, Times, line_of, crontab_line, set_crontab, set_crontab_line,
}

-- The legacy key "schedule" reads the day of the week third, and "crontab" reads it last: texts with
-- the parts so ordered give the same crontab, where the legacy one is no number and the crontab is
-- accepted.
pub build_celery_schedule_orders :
    {Seconds Cron : Type 0} (c : Clockwork Seconds Cron) (old new m h dm my dw : String) (v : Cron)
    → c.float (str old) ≡ err value_error
    → c.split old ≡ m ∷ h ∷ dw ∷ dm ∷ my ∷ []
    → c.split new ≡ m ∷ h ∷ dm ∷ my ∷ dw ∷ []
    → c.crontab m h dm my dw ≡ ok v
    → (build_celery_schedule c (field "schedule" (str old) end) ≡ ok (c.text (str old), cron v))
      × (build_celery_schedule c (field "crontab" (str new) end) ≡ ok (c.text (str new), cron v))
unfolding build_celery_schedule
build_celery_schedule_orders c old new m h dm my dw v hf ho hn hc =
    (rw (hf, ho, hc) refl, rw (hn, hc) refl)

-- `from_schedule` takes the parts over as they were written.
pub record Written (a : Crontab) (m h d mo w : String) : Type 0 where
  pub minute : a.minute ≡ m
  pub hour : a.hour ≡ h
  pub day_of_month : a.day_of_month ≡ d
  pub month_of_year : a.month_of_year ≡ mo
  pub day_of_week : a.day_of_week ≡ w

-- A line that splits into five parts, is these parts with a blank between, and whose crontab is accepted
-- and taken over as it was written, is the schedule's `crontab_line` after it was set, with the tables as
-- they were.
pub crontab_line-set_crontab_line :
    {Cron : Type 0} (t : Times Cron) (line m h d mo w : String) (v : Cron) (s : Saving)
    → t.split line ≡ m ∷ h ∷ d ∷ mo ∷ w ∷ []
    → line_of m h d mo w ≡ line
    → t.crontab m h d mo w ≡ ok v
    → Written (t.from_schedule v) m h d mo w
    → (s' : Saving) × (set_crontab_line t line s ≡ (ok tt, s'))
      × (crontab_line s'.self.crontab ≡ some line)
      × (s'.schedules ≡ s.schedules)
      × (s'.crontabs ≡ s.crontabs)
unfolding set_crontab_line
crontab_line-set_crontab_line t line m h d mo w v s parts joined accepted x = (
  set_crontab (t.from_schedule v) s,
  rw (parts, accepted) refl,
  rw (x.minute, x.hour, x.day_of_month, x.month_of_year, x.day_of_week) (ap some joined),
  refl,
  refl,
)
