-- ===== src/Agent/Cron/Claims.antt =====
-- The outcomes of a claim, and the counter of skipped runs.
-- crates/jiji-agent/src/store.rs, `claim_cron_run`, `set_cron_scheduler_state`.
use jiji.Common.{
  ℕ, suc, ◌≡◌, refl, ap, ◌∙◌, inl, inr, Bool, true, ◌&&◌, Option, none, some, List, [], ◌∷◌, ◌++◌,
  String, str_eq, ok, arith, eq_iff, Bool-cases, Option-cases, subst, if◌then◌else◌, find, any,
}
use jiji.Agent.Cron.Rows.{upsert-find}
use jiji.Agent.Cron.{
  CronRun, CronTables, CronRunCause, CronClaimOutcome, claimed_run, duplicate_scheduled_claim,
  overlap_forbidden, CronSchedulerState, is_active, of_job, of_run, is_due_at, upsert, count_skip,
  same_claim, active_cron_run, new_run, claim_cron_run, cron_scheduler_state,
  set_cron_scheduler_state,
}

find-append :
    (p : CronRun → Bool) (xs : List CronRun) (y : CronRun)
    → find p xs ≡ none
    → p y ≡ true
    → find p (xs ++ (y ∷ [])) ≡ some y
unfolding find
find-append p [] y h t = rw t refl
find-append p (x ∷ xs) y h t = ground (arith, find-append p xs y)

abbrev pub skips : Option CronSchedulerState → ℕ
skips none = 0
skips (some x) = x.skipped_overlap_count

-- The row of a job after one more skip: its times stay, and a new row has none.
abbrev pub counted : String → String → Option CronSchedulerState → CronSchedulerState
counted service cron_name none = record {
  service = service;
  cron_name = cron_name;
  last_evaluated_at = none;
  next_due_at = none;
  skipped_overlap_count = 1;
}
counted service cron_name (some x) = record x {
  skipped_overlap_count = suc x.skipped_overlap_count;
}

-- What a claim has done, by its outcome.
pub data Claimed (t t' : CronTables) (service cron_name : String) (at : Option ℕ) (new : CronRun)
    : CronClaimOutcome → Type 0 where
  begun :
      same_claim t.runs service cron_name at ≡ none
      → active_cron_run t.runs service cron_name ≡ none
      → t' ≡ record t { runs = t.runs ++ (new ∷ []) }
      → active_cron_run t'.runs service cron_name ≡ some new
      → Claimed t t' service cron_name at new (claimed_run new)
  repeated :
      (run : CronRun)
      → same_claim t.runs service cron_name at ≡ some run
      → t' ≡ t
      → Claimed t t' service cron_name at new (duplicate_scheduled_claim run)
  skipped :
      (run : CronRun)
      → same_claim t.runs service cron_name at ≡ none
      → active_cron_run t.runs service cron_name ≡ some run
      → t'.runs ≡ t.runs
      → ((s c : String)
          → cron_scheduler_state t'.scheduler s c ≡ (
              if str_eq service s && str_eq cron_name c
              then some (counted service cron_name (cron_scheduler_state t.scheduler s c))
              else cron_scheduler_state t.scheduler s c))
      → Claimed t t' service cron_name at new (overlap_forbidden run.run_id)

count_skip-counted :
    (service cron_name s c : String) (xs : List CronSchedulerState)
    → cron_scheduler_state (count_skip service cron_name xs) s c ≡ (
        if str_eq service s && str_eq cron_name c
        then some (counted service cron_name (cron_scheduler_state xs s c))
        else cron_scheduler_state xs s c)
unfolding cron_scheduler_state
count_skip-counted service cron_name s c xs = ground (
  arith,
  upsert-find (counted service cron_name none)
      (λ x. record x { skipped_overlap_count = suc x.skipped_overlap_count }) s c xs (λ x. refl),
)

active-append :
    (xs : List CronRun) (service cron_name : String) (y : CronRun)
    → active_cron_run xs service cron_name ≡ none
    → (of_job service cron_name y && is_active y.state) ≡ true
    → active_cron_run (xs ++ (y ∷ [])) service cron_name ≡ some y
unfolding active_cron_run
active-append xs service cron_name y h t = find-append _ xs y h t

module _ (t : CronTables) (project service cron_name : String) (cause : CronRunCause)
    (at : Option ℕ) (run_id : String) (now : ℕ) where
  abbrev pub claimant : CronRun
  claimant = new_run project service cron_name cause at run_id now

  -- A successful claim begins a run of a job that has no active one, and that run is then the active one
  -- of the job; or it repeats the claim of a scheduled time, and changes nothing; or it is skipped for the
  -- active run of the job, and then the runs, the rows of other jobs and the two times in the job's row
  -- stay as they are, and its count of skips grows by one, from none if it had no row.
  pub claim_cron_run-Claimed :
      (t' : CronTables) (o : CronClaimOutcome)
      → claim_cron_run t project service cron_name cause at run_id now ≡ ok (t', o)
      → Claimed t t' service cron_name at claimant o
  unfolding claim_cron_run
  claim_cron_run-Claimed t' o h = elim (Option-cases (same_claim t.runs service cron_name at)) [
    | inr r ↦
        subst (Claimed t t' service cron_name at claimant) (ground (arith, r.1))
          (repeated r.0 r.1 (ground (arith, r.1)))
    | inl n ↦ elim (Option-cases (active_cron_run t.runs service cron_name)) [
      | inr r ↦
          subst (Claimed t t' service cron_name at claimant) (ground (arith, n, r.1))
            (skipped r.0 n r.1 (ground (arith, n, r.1)) (more (ground (arith, n, r.1))))
      | inl m ↦ elim (Bool-cases (any (of_run run_id) t.runs)) [
        | inl b ↦ absurd (ground (arith, n, m, b))
        | inr b ↦
            subst (Claimed t t' service cron_name at claimant) (ground (arith, n, m, b))
              (begun n m (ground (arith, n, m, b)) (alone m (ground (arith, n, m, b))))
      ]
    ]
  ]
    where
      more :
          t'.scheduler ≡ count_skip service cron_name t.scheduler
          → (s c : String)
          → cron_scheduler_state t'.scheduler s c ≡ (
              if str_eq service s && str_eq cron_name c
              then some (counted service cron_name (cron_scheduler_state t.scheduler s c))
              else cron_scheduler_state t.scheduler s c)
      more e s c = rw e (count_skip-counted service cron_name s c t.scheduler)

      alone :
          active_cron_run t.runs service cron_name ≡ none
          → t'.runs ≡ t.runs ++ (claimant ∷ [])
          → active_cron_run t'.runs service cron_name ≡ some claimant
      alone m e = rw e (
          active-append t.runs service cron_name claimant m
            (ground (arith, eq_iff service service, eq_iff cron_name cron_name)))

same_claim-append :
    (xs : List CronRun) (service cron_name : String) (time : ℕ) (y : CronRun)
    → same_claim xs service cron_name (some time) ≡ none
    → (of_job service cron_name y && is_due_at time y) ≡ true
    → same_claim (xs ++ (y ∷ [])) service cron_name (some time) ≡ some y
unfolding same_claim
same_claim-append xs service cron_name time y h t = find-append _ xs y h t

claim-repeats :
    (t : CronTables) (project service cron_name : String) (cause : CronRunCause) (time : ℕ)
    (run_id : String) (now : ℕ) (run : CronRun)
    → same_claim t.runs service cron_name (some time) ≡ some run
    → claim_cron_run t project service cron_name cause (some time) run_id now
      ≡ ok (t, duplicate_scheduled_claim run)
unfolding claim_cron_run
claim-repeats t project service cron_name cause time run_id now run h = ground (arith, h)

-- A scheduled time is claimed once: after a claim that begins a run, any further claim of the same
-- time of the job, under whatever run id, returns that run and changes nothing.
pub claim_cron_run-once :
    (t t' : CronTables) (project service cron_name : String) (cause : CronRunCause) (time : ℕ)
    (run_id : String) (now : ℕ) (run : CronRun) (project' : String) (cause' : CronRunCause)
    (run_id' : String) (now' : ℕ)
    → claim_cron_run t project service cron_name cause (some time) run_id now
      ≡ ok (t', claimed_run run)
    → claim_cron_run t' project' service cron_name cause' (some time) run_id' now'
      ≡ ok (t', duplicate_scheduled_claim run)
claim_cron_run-once t t' project service cron_name cause time run_id now run project' cause' run_id'
      now' h =
    claim-repeats t' project' service cron_name cause' time run_id' now' run (
      kept (claimed_run run)
        (claim_cron_run-Claimed t project service cron_name cause (some time) run_id now t'
          (claimed_run run) h)
        refl)
  where
    due :
        (of_job service cron_name (new_run project service cron_name cause (some time) run_id now)
          && is_due_at time (new_run project service cron_name cause (some time) run_id now))
        ≡ true
    due = ground (arith, eq_iff service service, eq_iff cron_name cron_name)

    kept :
        (o : CronClaimOutcome)
        → Claimed t t' service cron_name
            (some time)
            (new_run project service cron_name cause (some time) run_id now)
            o
        → o ≡ claimed_run run
        → same_claim t'.runs service cron_name (some time) ≡ some run
    kept _ (begun n m e alone) p =
        let new = new_run project service cron_name cause (some time) run_id now in
        let mine : new ≡ run = (let q = p in ground arith) in
        rw (e) (same_claim-append t.runs service cron_name time new n due) ∙ ap some mine
    kept _ (repeated r n e) p = cc
    kept _ (skipped r n m e s) p = cc

module _ (service cron_name : String) (last next : Option ℕ) where
  abbrev fresh : CronSchedulerState
  fresh = record {
    service = service;
    cron_name = cron_name;
    last_evaluated_at = last;
    next_due_at = next;
    skipped_overlap_count = 0;
  }

  upsert-skips :
      (s c : String) (xs : List CronSchedulerState)
      → skips (
          cron_scheduler_state
            (upsert fresh (λ x. record x { last_evaluated_at = last; next_due_at = next }) xs)
            s
            c)
        ≡ skips (cron_scheduler_state xs s c)
  unfolding upsert cron_scheduler_state find
  upsert-skips s c [] = ground (arith, eq_iff service s, eq_iff cron_name c)
  upsert-skips s c (x ∷ xs) = ground (
    arith,
    upsert-skips s c xs,
    eq_iff x.service s,
    eq_iff x.cron_name c,
    eq_iff x.service service,
    eq_iff x.cron_name cron_name,
  )

-- The scheduler's bookkeeping leaves every job's count of skips as it is.
pub set_cron_scheduler_state-skips :
    (t : CronTables) (service cron_name : String) (last next : Option ℕ) (s c : String)
    → skips (
        cron_scheduler_state (set_cron_scheduler_state t service cron_name last next).scheduler s c)
      ≡ skips (cron_scheduler_state t.scheduler s c)
unfolding set_cron_scheduler_state
set_cron_scheduler_state-skips t service cron_name last next s c =
    upsert-skips service cron_name last next s c t.scheduler
