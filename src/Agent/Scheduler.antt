-- ===== src/Agent/Scheduler.antt =====
-- crates/jiji-agent/src/scheduler.rs, `tick` and `set_next_due`, over the tables of Agent.Cron and the
-- next times of Agent.CronSchedule. The id of a run (SHA-256) and the start of a run by
-- cron_exec.rs, which drives the container engine, are parameters. The lock of the store is not
-- poisoned, and a logged warning is left out.
pub mod Rows
pub mod Advances
use jiji.Common.{ℕ, Option, none, some, List, [], ◌∷◌, String, Result, ok, err, ltb, if◌then◌else◌}
use jiji.Agent.Cron.{
  CronTables, CronRun, CronClaimOutcome, claimed_run, duplicate_scheduled_claim, overlap_forbidden,
  CronSchedulerState, CronError, scheduled, claim_cron_run, cron_scheduler_state,
  set_cron_scheduler_state,
}
use jiji.Agent.CronSpecs.{CronJobSpec}
use jiji.Agent.CronSchedule.{Calendar, next_due_at}

-- What the scheduler calls: the calendar, the id of a run, and what a claimed run does to the store.
pub record Runtime (TimeZone Schedule Zoned : Type 0) : Type 0 where
  pub calendar : Calendar TimeZone Schedule Zoned
  pub generate_scheduled_run_id : String → String → String → ℕ → String
  pub lease_and_spawn : CronJobSpec → CronRun → ℕ → CronTables → CronTables

unfoldable pub due_of : List CronSchedulerState → String → String → Option ℕ
unfolding cron_scheduler_state
due_of states service cron_name = elim (cron_scheduler_state states service cron_name) [
  | none ↦ none
  | some state ↦ state.next_due_at
]

abbrev pub set_next_due : CronTables → String → String → ℕ → ℕ → CronTables
set_next_due t service cron_name now next =
    set_cron_scheduler_state t service cron_name (some now) (some next)

module _ {TimeZone Schedule Zoned : Type 0} (runtime : Runtime TimeZone Schedule Zoned) where
  -- The claim of a due run, and its start.
  unfoldable pub claim_due : String → ℕ → CronJobSpec → ℕ → CronTables → CronTables
  unfolding claim_cron_run
  claim_due project now spec due_at t =
      let run_id = runtime.generate_scheduled_run_id project spec.service spec.cron_name due_at in
      elim (claim_cron_run t project spec.service spec.cron_name scheduled (some due_at) run_id
        now) [
          | err e ↦ t
          | ok claim ↦ elim claim.1 [
            | claimed_run run ↦ runtime.lease_and_spawn spec run now claim.0
            | duplicate_scheduled_claim run ↦ claim.0
            | overlap_forbidden run_id ↦ claim.0
          ]
        ]

  -- `missed_runs: skip`
  unfoldable pub next_after : ℕ → CronJobSpec → ℕ → Result String ℕ
  unfolding next_due_at
  next_after now spec due_at =
      elim (next_due_at runtime.calendar spec.schedule spec.timezone due_at) [
        | err e ↦ err e
        | ok next ↦
            if ltb now next
            then ok next
            else next_due_at runtime.calendar spec.schedule spec.timezone now
      ]

  -- The body of the loop.
  unfoldable pub evaluate : String → ℕ → CronJobSpec → CronTables → CronTables
  unfolding due_of claim_due next_after set_cron_scheduler_state next_due_at
  evaluate project now spec t = elim (due_of t.scheduler spec.service spec.cron_name) [
    | none ↦ elim (next_due_at runtime.calendar spec.schedule spec.timezone now) [
      | err e ↦ t
      | ok next ↦ set_next_due t spec.service spec.cron_name now next
    ]
    | some due_at ↦ if ltb now due_at then t else elim (next_after now spec due_at) [
      | err e ↦ claim_due project now spec due_at t
      | ok next ↦
          set_next_due (claim_due project now spec due_at t) spec.service spec.cron_name now next
    ]
  ]

  unfoldable pub tick : List CronJobSpec → String → ℕ → CronTables → CronTables
  unfolding evaluate
  tick [] project now t = t
  tick (spec ∷ specs) project now t = tick specs project now (evaluate project now spec t)
