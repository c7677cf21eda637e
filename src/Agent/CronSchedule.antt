-- ===== src/Agent/CronSchedule.antt =====
-- crates/jiji-agent/src/cron_schedule.rs: the next time of a cron schedule. What the crates jiff and
-- jiff_cron do is a parameter, and so is the text of their errors.
use Prim.Native.String.{◌++◌}
use jiji.Common.{
  ℕ, Option, none, some, String, Result, ok, err, inl, inr, ◌>>=◌, map_err, ◌≡◌, ◌<◌, arith,
  Result-cases, Option-cases,
}
use jiji.Network.Planner.{show_decimal}

-- `TimeZone::get`; `Schedule::from_str`; `Timestamp::from_second` of a `u64` cast to `i64`, then
-- `to_zoned`; and the first of `Schedule::after`, as its `timestamp().as_second()` cast to `u64`.
pub record Calendar (TimeZone Schedule Zoned : Type 0) : Type 0 where
  pub timezone : String → Result String TimeZone
  pub schedule : String → Result String Schedule
  pub zoned : TimeZone → ℕ → Result String Zoned
  pub next : Schedule → Zoned → Option ℕ

module _ {TimeZone Schedule Zoned : Type 0} (calendar : Calendar TimeZone Schedule Zoned) where
  abbrev or_no_occurrence : Option ℕ → Result String ℕ
  or_no_occurrence none = err "schedule has no future occurrence"
  or_no_occurrence (some next) = ok next

  unfoldable pub next_due_at : String → String → ℕ → Result String ℕ
  next_due_at schedule timezone after_unix = do
    tz ←
        map_err (λ error. "invalid timezone '" ++ (timezone ++ ("': " ++ error)))
          (calendar.timezone timezone)
    parsed ←
        map_err (λ error. "invalid schedule '" ++ (schedule ++ ("': " ++ error)))
          (calendar.schedule ("0 " ++ schedule))
    after ←
        map_err
          (λ error. "timestamp " ++ (show_decimal 19 after_unix ++ (" is out of range: " ++ error)))
          (calendar.zoned tz after_unix)
    or_no_occurrence (calendar.next parsed after)

  -- A calendar whose occurrences after a time are later than it gives a next time that is later.
  pub next_due_at-later :
      (from : ℕ)
      → ((parsed : Schedule) (tz : TimeZone) (after : Zoned) (next : ℕ)
          → calendar.zoned tz from ≡ ok after
          → calendar.next parsed after ≡ some next
          → from < next)
      → (schedule timezone : String) (next : ℕ) → next_due_at schedule timezone from ≡ ok next
      → from < next
  unfolding next_due_at
  next_due_at-later from strictly schedule timezone next h =
      elim (Result-cases (calendar.timezone timezone)) [
        | inl e ↦ absurd (ground (arith, e.1))
        | inr tz ↦ elim (Result-cases (calendar.schedule ("0 " ++ schedule))) [
          | inl e ↦ absurd (ground (arith, tz.1, e.1))
          | inr parsed ↦ elim (Result-cases (calendar.zoned tz.0 from)) [
            | inl e ↦ absurd (ground (arith, tz.1, parsed.1, e.1))
            | inr after ↦ elim (Option-cases (calendar.next parsed.0 after.0)) [
              | inl n ↦ absurd (ground (arith, tz.1, parsed.1, after.1, n))
              | inr some_next ↦
                  strictly parsed.0 tz.0 after.0 next after.1
                    (ground (arith, tz.1, parsed.1, after.1, some_next.1))
            ]
          ]
        ]
      ]
