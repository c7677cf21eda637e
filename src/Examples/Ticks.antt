-- ===== src/Examples/Ticks.antt =====
-- Instances of the theorem on the scheduler's tick: crates/jiji-agent/src/scheduler.rs.
use jiji.Common.{ℕ, ◌+◌, ◌≡◌, refl, inl, some, [], ◌∷◌, String, ok, arith, any}
use jiji.Agent.Cron.{CronTables, scheduled, new_run, claim_cron_run, same_claim, active_cron_run}
use jiji.Agent.CronSpecs.{CronJobSpec, forbid, skip}
use jiji.Agent.CronSchedule.{next_due_at}
use jiji.Agent.Scheduler.{Runtime, due_of, claim_due, next_after, evaluate, tick}
use jiji.Agent.Scheduler.Rows.{IsNotDue}
use jiji.Agent.Scheduler.Advances.{tick-IsNotDue}

-- A schedule of every minute.
abbrev every_minute : Runtime String String ℕ
every_minute = record {
  calendar = record {
    timezone = λ s. ok s;
    schedule = λ s. ok s;
    zoned = λ tz s. ok s;
    next = λ schedule from. some (from + 60);
  };
  generate_scheduled_run_id = λ project service cron_name due_at. "run-1";
  lease_and_spawn = λ spec run now t. t;
}

abbrev sync : CronJobSpec
sync = record {
  project = "shop";
  service = "web";
  cron_name = "sync";
  revision = 1;
  canonical_hash = "hash";
  owner_node_id = "a";
  owner_epoch = 1;
  server = "a";
  source_deployment_id = "dep-1";
  source_replica_id = "web-1";
  image = "web:1";
  schedule = "* * * * *";
  timezone = "UTC";
  timeout_seconds = 60;
  overlap = forbid;
  missed_runs = skip;
  command = "sync" ∷ [];
  env_file_path = "/env";
  mount_args = [];
  resource_args = [];
  bridge_network = "jiji-shop";
  dns_address = "100.64.0.1";
}

abbrev row : ℕ → ℕ → CronTables
row last next = record {
  runs = [];
  scheduler =
      record {
        service = "web";
        cron_name = "sync";
        last_evaluated_at = some last;
        next_due_at = some next;
        skipped_overlap_count = 0;
      }
      ∷ [];
}

-- Ten minutes are missed: one run is claimed, for the time that was due, and the next is after now.
missed : tick every_minute (sync ∷ []) "shop" 1205 (row 540 600) ≡ record (row 1205 1265) {
  runs = new_run "shop" "web" "sync" scheduled (some 600) "run-1" 1205 ∷ [];
}
unfolding tick evaluate claim_due next_after next_due_at due_of claim_cron_run same_claim
    active_cron_run any
missed = refl

after_a_minute :
    (from : ℕ) → next_due_at every_minute.calendar "* * * * *" "UTC" from ≡ ok (from + 60)
unfolding next_due_at
after_a_minute from = refl

tick-IsNotDue_example :
    IsNotDue 1205 (tick every_minute (sync ∷ []) "shop" 1205 (row 540 600)) "web" "sync"
tick-IsNotDue_example =
    tick-IsNotDue every_minute 1205 (λ schedule tz after next z n. ground arith)
      (λ spec run t. refl) (sync ∷ []) "shop" (row 540 600) sync (inl refl)
      (λ from past. (from + 60, after_a_minute from))
