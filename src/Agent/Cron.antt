-- ===== src/Agent/Cron.antt =====
-- crates/jiji-agent/src/cron.rs and the tables of cron runs of crates/jiji-agent/src/store.rs. The
-- columns of a row of `cron_runs` repeat fields of its `run_json`, and every statement writes both
-- alike, so that a row is its decoded run. A time beyond the 63 bits of an SQLite integer is left
-- out, as is a count of skips beyond them.
pub mod Overlap
pub mod Rows
pub mod Claims
use jiji.Common.{
  ℕ, suc, ◌+◌, Bool, true, false, ◌&&◌, ◌||◌, not, Option, none, some, List, [], ◌∷◌, ◌++◌, String,
  str_eq, ◌==◌, Result, ok, err, if◌then◌else◌, find, any,
}

pub data CronRunCause : Type 0 where
  scheduled manual : CronRunCause

pub data CronRunState : Type 0 where
  claimed running succeeded failed timed_out skipped : CronRunState

abbrev pub is_active : CronRunState → Bool
is_active claimed = true
is_active running = true
is_active _ = false

-- An `i32`.
pub data ExitCode : Type 0 where
  pos negsuc : ℕ → ExitCode

pub record CronRun : Type 0 where
  pub run_id : String
  pub project : String
  pub service : String
  pub cron_name : String
  pub cause : CronRunCause
  pub scheduled_at : Option ℕ
  pub claimed_at : ℕ
  pub started_at : Option ℕ
  pub finished_at : Option ℕ
  pub state : CronRunState
  pub deployment_id : Option String
  pub container_name : Option String
  pub address : Option String
  pub exit_code : Option ExitCode
  pub error : Option String

pub data CronClaimOutcome : Type 0 where
  claimed_run : CronRun → CronClaimOutcome
  duplicate_scheduled_claim : CronRun → CronClaimOutcome
  overlap_forbidden : String → CronClaimOutcome

pub record CronSchedulerState : Type 0 where
  pub service : String
  pub cron_name : String
  pub last_evaluated_at : Option ℕ
  pub next_due_at : Option ℕ
  pub skipped_overlap_count : ℕ

-- The tables `cron_runs` and `cron_scheduler_state`, in the order of `rowid`.
pub record CronTables : Type 0 where
  pub runs : List CronRun
  pub scheduler : List CronSchedulerState

pub data CronError : Type 0 where
  -- The primary key of `cron_runs`
  run_id_taken : CronError

abbrev pub of_job : String → String → CronRun → Bool
of_job service cron_name run = str_eq run.service service && str_eq run.cron_name cron_name

abbrev pub is_due_at : ℕ → CronRun → Bool
is_due_at time run = elim run.scheduled_at [ none ↦ false | some t ↦ t == time ]

abbrev pub of_run : String → CronRun → Bool
of_run run_id run = str_eq run.run_id run_id

abbrev pub state_of_job : String → String → CronSchedulerState → Bool
state_of_job service cron_name state =
    str_eq state.service service && str_eq state.cron_name cron_name

-- `INSERT … ON CONFLICT(service, cron_name) DO UPDATE`
unfoldable pub upsert :
    CronSchedulerState
    → (CronSchedulerState → CronSchedulerState)
    → List CronSchedulerState
    → List CronSchedulerState
upsert fresh change [] = fresh ∷ []
upsert fresh change (x ∷ xs) =
    let rest = upsert fresh change xs in
    if state_of_job fresh.service fresh.cron_name x then change x ∷ xs else x ∷ rest

abbrev pub count_skip : String → String → List CronSchedulerState → List CronSchedulerState
count_skip service cron_name =
    upsert
      (record {
        service = service;
        cron_name = cron_name;
        last_evaluated_at = none;
        next_due_at = none;
        skipped_overlap_count = 1;
      })
      (λ x. record x { skipped_overlap_count = suc x.skipped_overlap_count })

-- The query for a claim of the same scheduled time, which a manual claim does not run.
unfoldable pub same_claim : List CronRun → String → String → Option ℕ → Option CronRun
unfolding find
same_claim runs service cron_name none = none
same_claim runs service cron_name (some time) =
    find (λ run. of_job service cron_name run && is_due_at time run) runs

unfoldable pub active_cron_run : List CronRun → String → String → Option CronRun
unfolding find
active_cron_run runs service cron_name =
    find (λ run. of_job service cron_name run && is_active run.state) runs

abbrev pub new_run : String → String → String → CronRunCause → Option ℕ → String → ℕ → CronRun
new_run project service cron_name cause scheduled_at run_id timestamp = record {
  run_id = run_id;
  project = project;
  service = service;
  cron_name = cron_name;
  cause = cause;
  scheduled_at = scheduled_at;
  claimed_at = timestamp;
  started_at = none;
  finished_at = none;
  state = claimed;
  deployment_id = none;
  container_name = none;
  address = none;
  exit_code = none;
  error = none;
}

unfoldable pub claim_cron_run :
    CronTables
    → String
    → String
    → String
    → CronRunCause
    → Option ℕ
    → String
    → ℕ
    → Result CronError (CronTables × CronClaimOutcome)
claim_cron_run t project service cron_name cause scheduled_at run_id timestamp =
    elim (same_claim t.runs service cron_name scheduled_at) [
      | some existing ↦ ok (t, duplicate_scheduled_claim existing)
      | none ↦ elim (active_cron_run t.runs service cron_name) [
        | some run ↦ ok (
          record t { scheduler = count_skip service cron_name t.scheduler },
          overlap_forbidden run.run_id,
        )
        | none ↦
            let run = new_run project service cron_name cause scheduled_at run_id timestamp in
            if any (of_run run_id) t.runs
            then err run_id_taken
            else ok (record t { runs = t.runs ++ (run ∷ []) }, claimed_run run)
      ]
    ]

unfoldable pub cron_run : List CronRun → String → Option CronRun
unfolding find
cron_run runs run_id = find (of_run run_id) runs

-- `UPDATE cron_runs SET … WHERE run_id = ?1`
abbrev pub update : String → CronRun → List CronRun → List CronRun
update run_id run [] = []
update run_id run (x ∷ xs) = (if of_run run_id x then run else x) ∷ update run_id run xs

abbrev pub started : ℕ → String → String → String → CronRun → CronRun
started started_at deployment_id container_name address run = record run {
  state = running;
  started_at = some started_at;
  deployment_id = some deployment_id;
  container_name = some container_name;
  address = some address;
}

unfoldable pub start_cron_run :
    CronTables → String → ℕ → String → String → String → CronTables × Bool
start_cron_run t run_id started_at deployment_id container_name address =
    elim (cron_run t.runs run_id) [
      | none ↦ (t, false)
      | some run ↦ (
        record t {
          runs = update run_id (started started_at deployment_id container_name address run) t.runs;
        },
        true,
      )
    ]

abbrev pub finished : CronRunState → ℕ → Option ExitCode → Option String → CronRun → CronRun
finished state finished_at exit_code error run = record run {
  state = state;
  finished_at = some finished_at;
  exit_code = exit_code;
  error = error;
}

unfoldable pub finish_cron_run :
    CronTables → String → CronRunState → ℕ → Option ExitCode → Option String → CronTables × Bool
finish_cron_run t run_id state finished_at exit_code error = elim (cron_run t.runs run_id) [
  | none ↦ (t, false)
  | some run ↦ (
    record t { runs = update run_id (finished state finished_at exit_code error run) t.runs },
    true,
  )
]

unfoldable pub cron_scheduler_state :
    List CronSchedulerState → String → String → Option CronSchedulerState
unfolding find
cron_scheduler_state xs service cron_name = find (state_of_job service cron_name) xs

unfoldable pub set_cron_scheduler_state :
    CronTables → String → String → Option ℕ → Option ℕ → CronTables
unfolding upsert
set_cron_scheduler_state t service cron_name last_evaluated_at next_due_at = record t {
  scheduler =
      upsert
        (record {
          service = service;
          cron_name = cron_name;
          last_evaluated_at = last_evaluated_at;
          next_due_at = next_due_at;
          skipped_overlap_count = 0;
        })
        (λ x. record x { last_evaluated_at = last_evaluated_at; next_due_at = next_due_at })
        t.scheduler;
}
