-- ===== src/Examples/CronRuns.antt =====
-- Instances of the theorems on cron runs: crates/jiji-agent/src/store.rs.
use jiji.Common.{◌≡◌, refl, true, none, some, [], ◌∷◌, ok, find, any, arith}
use jiji.Agent.Cron.{
  CronRun, CronTables, scheduled, claimed_run, duplicate_scheduled_claim, overlap_forbidden,
  claim_cron_run, same_claim, active_cron_run, cron_run, is_active, new_run, upsert,
}
use jiji.Agent.Cron.Overlap.{IsExclusive, claim_cron_run-IsExclusive}
use jiji.Agent.Cron.Claims.{Claimed, claim_cron_run-Claimed, claim_cron_run-once}

abbrev no_runs : CronTables
no_runs = record { runs = []; scheduler = [] }

abbrev first_run : CronRun
first_run = new_run "shop" "web" "sync" scheduled (some 600) "run-1" 605

abbrev one_run : CronTables
one_run = record { runs = first_run ∷ []; scheduler = [] }

one_run-IsExclusive : IsExclusive one_run.runs
one_run-IsExclusive = (tt, tt)

first_claim :
    claim_cron_run no_runs "shop" "web" "sync" scheduled (some 600) "run-1" 605
    ≡ ok (one_run, claimed_run first_run)
unfolding claim_cron_run same_claim active_cron_run find any
first_claim = refl

claim_cron_run-IsExclusive_example : IsExclusive one_run.runs
claim_cron_run-IsExclusive_example =
    claim_cron_run-IsExclusive no_runs one_run "shop" "web" "sync" scheduled (some 600) "run-1" 605
      (claimed_run first_run) tt first_claim

claim_cron_run-Claimed_example :
    Claimed no_runs one_run "web" "sync" (some 600) first_run (claimed_run first_run)
claim_cron_run-Claimed_example =
    claim_cron_run-Claimed no_runs "shop" "web" "sync" scheduled (some 600) "run-1" 605 one_run
      (claimed_run first_run) first_claim

claim_cron_run-once_example :
    claim_cron_run one_run "shop" "web" "sync" scheduled (some 600) "run-2" 606
    ≡ ok (one_run, duplicate_scheduled_claim first_run)
claim_cron_run-once_example =
    claim_cron_run-once no_runs one_run "shop" "web" "sync" scheduled 600 "run-1" 605 first_run
      "shop" scheduled "run-2" 606 first_claim

-- A later scheduled time is skipped while the run is active.
second_time :
    claim_cron_run one_run "shop" "web" "sync" scheduled (some 1200) "run-2" 1201
    ≡ ok (
      record {
        runs = first_run ∷ [];
        scheduler =
            record {
              service = "web";
              cron_name = "sync";
              last_evaluated_at = none;
              next_due_at = none;
              skipped_overlap_count = 1;
            }
            ∷ [];
      },
      overlap_forbidden "run-1",
    )
unfolding claim_cron_run same_claim active_cron_run find any upsert
second_time = refl

found_run : (r : CronRun) → cron_run one_run.runs "run-1" ≡ some r → is_active r.state ≡ true
unfolding cron_run find
found_run r h = ground arith
