-- ===== src/Agent/Scheduler/Rows.antt =====
-- The due times in the rows of the scheduler: crates/jiji-agent/src/store.rs, `set_cron_scheduler_state`
-- and the count of skips, as crates/jiji-agent/src/scheduler.rs reads them.
use jiji.Common.{
  ℕ, suc, ◌⊎◌, ◌<◌, ◌≡◌, refl, inl, inr, ◌&&◌, Option, none, some, List, String, str_eq,
  if◌then◌else◌, arith, eq_iff, Bool-cases,
}
use jiji.Agent.Cron.{
  CronTables, CronSchedulerState, cron_scheduler_state, set_cron_scheduler_state, count_skip,
}
use jiji.Agent.Cron.Rows.{upsert-find}
use jiji.Agent.Scheduler.{set_next_due, due_of}

pub count_skip-due_of :
    (service cron_name s c : String) (xs : List CronSchedulerState)
    → due_of (count_skip service cron_name xs) s c ≡ due_of xs s c
unfolding due_of cron_scheduler_state
count_skip-due_of service cron_name s c xs = ground (
  arith,
  upsert-find
      (record {
        service = service;
        cron_name = cron_name;
        last_evaluated_at = none;
        next_due_at = none;
        skipped_overlap_count = 1;
      })
      (λ x. record x { skipped_overlap_count = suc x.skipped_overlap_count }) s c xs (λ x. refl),
)

set-due_of :
    (t : CronTables) (service cron_name s c : String) (last next : Option ℕ)
    → due_of (set_cron_scheduler_state t service cron_name last next).scheduler s c
      ≡ (if str_eq service s && str_eq cron_name c then next else due_of t.scheduler s c)
unfolding set_cron_scheduler_state due_of cron_scheduler_state
set-due_of t service cron_name s c last next = ground (
  arith,
  upsert-find
      (record {
        service = service;
        cron_name = cron_name;
        last_evaluated_at = last;
        next_due_at = next;
        skipped_overlap_count = 0;
      })
      (λ x. record x { last_evaluated_at = last; next_due_at = next }) s c t.scheduler (λ x. refl),
)

-- The job has a next time, which is later than `now`.
abbrev pub IsNotDue : ℕ → CronTables → String → String → Type 0
IsNotDue now t service cron_name =
    (next : ℕ) × ((due_of t.scheduler service cron_name ≡ some next) × (now < next))

pub set_next_due-either :
    (t t' : CronTables) (service cron_name s c : String) (now next : ℕ)
    → due_of t'.scheduler s c ≡ due_of t.scheduler s c
    → now < next
    → (due_of (set_next_due t' service cron_name now next).scheduler s c ≡ due_of t.scheduler s c)
      ⊎ IsNotDue now (set_next_due t' service cron_name now next) s c
set_next_due-either t t' service cron_name s c now next h l =
    elim (Bool-cases (str_eq service s && str_eq cron_name c)) [
      | inl k ↦
          inr (
            next,
            (ground (arith, k, set-due_of t' service cron_name s c (some now) (some next)), l),
          )
      | inr k ↦
          inl (ground (arith, k, h, set-due_of t' service cron_name s c (some now) (some next)))
    ]

pub set_next_due-IsNotDue :
    (t : CronTables) (service cron_name : String) (now next : ℕ)
    → now < next
    → IsNotDue now (set_next_due t service cron_name now next) service cron_name
set_next_due-IsNotDue t service cron_name now next l = (
  next,
  (
    ground (
      arith,
      eq_iff service service,
      eq_iff cron_name cron_name,
      set-due_of t service cron_name service cron_name (some now) (some next),
    ),
    l,
  ),
)
