-- ===== src/Agent/Scheduler/Advances.antt =====
-- A tick leaves nothing due: crates/jiji-agent/src/scheduler.rs.
use jiji.Common.{
  ℕ, ◌⊎◌, ◌++◌, ◌<◌, ◌≤◌, ◌≡◌, refl, ap, ◌∙◌, subst, inl, inr, some, List, [], ◌∷◌, String, ok, ltb,
  ltb→lt, arith, Bool-cases, Option-cases, Result-cases, In, any,
}
use jiji.Agent.Cron.{
  CronTables, CronRun, scheduled, new_run, claim_cron_run, same_claim, active_cron_run, of_run,
}
use jiji.Agent.CronSpecs.{CronJobSpec}
use jiji.Agent.CronSchedule.{next_due_at, next_due_at-later}
use jiji.Agent.Scheduler.{Runtime, set_next_due, due_of, claim_due, next_after, evaluate, tick}
use jiji.Agent.Scheduler.Rows.{
  IsNotDue, count_skip-due_of, set_next_due-either, set_next_due-IsNotDue,
}

-- What the parameters do: the occurrences of a schedule after now are later than now, and a start leaves
-- the scheduler's rows.
module _ {TimeZone Schedule Zoned : Type 0} (runtime : Runtime TimeZone Schedule Zoned) (now : ℕ)
    (strictly : (schedule : Schedule) (tz : TimeZone) (after : Zoned) (next : ℕ)
      → runtime.calendar.zoned tz now ≡ ok after
      → runtime.calendar.next schedule after ≡ some next
      → now < next)
    (starts : (spec : CronJobSpec) (run : CronRun) (t : CronTables)
      → (runtime.lease_and_spawn spec run now t).scheduler ≡ t.scheduler) where
  later :
      (schedule timezone : String) (next : ℕ)
      → next_due_at runtime.calendar schedule timezone now ≡ ok next
      → now < next
  later = next_due_at-later runtime.calendar now strictly

  claim_due-due_of :
      (project : String) (spec : CronJobSpec) (due_at : ℕ) (t : CronTables) (s c : String)
      → due_of (claim_due runtime project now spec due_at t).scheduler s c ≡ due_of t.scheduler s c
  unfolding claim_due claim_cron_run
  claim_due-due_of project spec due_at t s c =
      elim (Option-cases (same_claim t.runs spec.service spec.cron_name (some due_at))) [
        | inr r ↦ ground (arith, r.1)
        | inl n ↦ elim (Option-cases (active_cron_run t.runs spec.service spec.cron_name)) [
          | inr r ↦
              ground (arith, n, r.1, count_skip-due_of spec.service spec.cron_name s c t.scheduler)
          | inl m ↦
              elim (Bool-cases (
                any
                  (of_run
                    (runtime.generate_scheduled_run_id project spec.service spec.cron_name due_at))
                  t.runs)) [
                    | inl b ↦ ground (arith, n, m, b)
                    | inr b ↦
                        let run =
                          new_run project spec.service spec.cron_name scheduled (some due_at)
                            (runtime.generate_scheduled_run_id project spec.service spec.cron_name
                              due_at)
                            now in
                        ground (
                          arith,
                          n,
                          m,
                          b,
                          ap (λ xs. due_of xs s c)
                              (starts spec run (record t { runs = t.runs ++ (run ∷ []) })),
                        )
                  ]
        ]
      ]

  next_after-later :
      (spec : CronJobSpec) (due_at next : ℕ)
      → next_after runtime now spec due_at ≡ ok next
      → now < next
  unfolding next_after
  next_after-later spec due_at next h =
      elim (Result-cases (next_due_at runtime.calendar spec.schedule spec.timezone due_at)) [
        | inl n ↦ absurd (ground (arith, n.1))
        | inr n ↦ elim (Bool-cases (ltb now n.0)) [
          | inl b ↦
              let same : n.0 ≡ next = ground (arith, n.1, b) in
              subst (λ m. now < m) same (ltb→lt now n.0 b)
          | inr b ↦ later spec.schedule spec.timezone next (ground (arith, n.1, b))
        ]
      ]

  -- A step leaves the due time of a job, or sets one after now.
  evaluate-either :
      (project : String) (spec : CronJobSpec) (t : CronTables) (s c : String)
      → (due_of (evaluate runtime project now spec t).scheduler s c ≡ due_of t.scheduler s c)
        ⊎ IsNotDue now (evaluate runtime project now spec t) s c
  unfolding evaluate
  evaluate-either project spec t s c =
      elim (Option-cases (due_of t.scheduler spec.service spec.cron_name)) [
        | inl n ↦
            elim (Result-cases (next_due_at runtime.calendar spec.schedule spec.timezone now)) [
              | inl e ↦ inl (ground (arith, n, e.1))
              | inr r ↦
                  let same : set_next_due t spec.service spec.cron_name now r.0
                      ≡ evaluate runtime project now spec t =
                    ground (arith, n, r.1) in
                  subst
                    (λ u. (due_of u.scheduler s c ≡ due_of t.scheduler s c) ⊎ IsNotDue now u s c)
                    same
                    (set_next_due-either t t spec.service spec.cron_name s c now r.0 refl
                      (later spec.schedule spec.timezone r.0 r.1))
            ]
        | inr d ↦ elim (Bool-cases (ltb now d.0)) [
          | inl b ↦ inl (ground (arith, d.1, b))
          | inr b ↦ elim (Result-cases (next_after runtime now spec d.0)) [
            | inl e ↦ inl (ground (arith, d.1, b, e.1, claim_due-due_of project spec d.0 t s c))
            | inr r ↦
                let t' = claim_due runtime project now spec d.0 t in
                let same : set_next_due t' spec.service spec.cron_name now r.0
                    ≡ evaluate runtime project now spec t =
                  ground (arith, d.1, b, r.1) in
                subst (λ u. (due_of u.scheduler s c ≡ due_of t.scheduler s c) ⊎ IsNotDue now u s c)
                  same
                  (set_next_due-either t t' spec.service spec.cron_name s c now r.0
                    (claim_due-due_of project spec d.0 t s c) (next_after-later spec d.0 r.0 r.1))
          ]
        ]
      ]

  evaluate-keeps :
      (project : String) (spec : CronJobSpec) (t : CronTables) (s c : String)
      → IsNotDue now t s c
      → IsNotDue now (evaluate runtime project now spec t) s c
  evaluate-keeps project spec t s c h = elim (evaluate-either project spec t s c) [
    | inl same ↦ (h.0, (same ∙ h.1.0, h.1.1))
    | inr done ↦ done
  ]

  next_after-ok :
      (spec : CronJobSpec) (due_at : ℕ)
      → due_at ≤ now
      → ((from : ℕ)
          → from ≤ now
          → (next : ℕ) × (next_due_at runtime.calendar spec.schedule spec.timezone from ≡ ok next))
      → (next : ℕ) × (next_after runtime now spec due_at ≡ ok next)
  unfolding next_after
  next_after-ok spec due_at past runs = elim (Bool-cases (ltb now (runs due_at past).0)) [
    | inl b ↦ ((runs due_at past).0, ground (arith, b, (runs due_at past).1))
    | inr b ↦ (
      (runs now (ground arith)).0,
      ground (arith, b, (runs due_at past).1, (runs now (ground arith)).1),
    )
  ]

  evaluate-IsNotDue :
      (project : String) (spec : CronJobSpec) (t : CronTables)
      → ((from : ℕ)
          → from ≤ now
          → (next : ℕ) × (next_due_at runtime.calendar spec.schedule spec.timezone from ≡ ok next))
      → IsNotDue now (evaluate runtime project now spec t) spec.service spec.cron_name
  unfolding evaluate
  evaluate-IsNotDue project spec t runs =
      elim (Option-cases (due_of t.scheduler spec.service spec.cron_name)) [
        | inl n ↦
            subst (λ u. IsNotDue now u spec.service spec.cron_name)
              (let same : set_next_due t spec.service spec.cron_name now (runs now (ground arith)).0
                    ≡ evaluate runtime project now spec t =
                  ground (arith, n, (runs now (ground arith)).1) in
                same)
              (set_next_due-IsNotDue t spec.service spec.cron_name now (runs now (ground arith)).0 (
                later spec.schedule spec.timezone (runs now (ground arith)).0
                  (runs now (ground arith)).1))
        | inr d ↦ elim (Bool-cases (ltb now d.0)) [
          | inl b ↦ (d.0, (ground (arith, d.1, b), ltb→lt now d.0 b))
          | inr b ↦
              let r =
                next_after-ok spec d.0 (let past : d.0 ≤ now = ground (arith, b) in past) runs in
              let t' = claim_due runtime project now spec d.0 t in
              subst (λ u. IsNotDue now u spec.service spec.cron_name)
                (let same : set_next_due t' spec.service spec.cron_name now r.0
                      ≡ evaluate runtime project now spec t =
                    ground (arith, d.1, b, r.1) in
                  same)
                (set_next_due-IsNotDue t' spec.service spec.cron_name now r.0
                  (next_after-later spec d.0 r.0 r.1))
        ]
      ]

  tick-keeps :
      (specs : List CronJobSpec) (project : String) (t : CronTables) (s c : String)
      → IsNotDue now t s c
      → IsNotDue now (tick runtime specs project now t) s c
  unfolding tick
  tick-keeps [] project t s c h = h
  tick-keeps (spec ∷ specs) project t s c h =
      tick-keeps specs project (evaluate runtime project now spec t) s c
        (evaluate-keeps project spec t s c h)

  -- If every occurrence of a schedule after now is later than now, and a start leaves the rows of the
  -- scheduler, then after a tick every listed job whose schedule has a next time after now and after
  -- each earlier time has one recorded that is later than now, however many runs were missed and
  -- whatever the claims answered.
  pub tick-IsNotDue :
      (specs : List CronJobSpec) (project : String) (t : CronTables) (spec : CronJobSpec)
      → In spec specs
      → ((from : ℕ)
          → from ≤ now
          → (next : ℕ) × (next_due_at runtime.calendar spec.schedule spec.timezone from ≡ ok next))
      → IsNotDue now (tick runtime specs project now t) spec.service spec.cron_name
  unfolding tick
  tick-IsNotDue [] project t spec i runs = elim i [ ]
  tick-IsNotDue (x ∷ specs) project t spec (inl e) runs =
      subst (λ y. IsNotDue now (tick runtime (y ∷ specs) project now t) spec.service spec.cron_name)
        e
        (tick-keeps specs project (evaluate runtime project now spec t) spec.service spec.cron_name
          (evaluate-IsNotDue project spec t runs))
  tick-IsNotDue (x ∷ specs) project t spec (inr i) runs =
      tick-IsNotDue specs project (evaluate runtime project now x t) spec i runs
