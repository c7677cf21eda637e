-- ===== src/Examples/CronJobs.antt =====
-- Instances of the theorems on installed cron jobs: crates/jiji-agent/src/store.rs.
use jiji.Common.{◌≡◌, refl, some, [], ◌∷◌, String, find}
use jiji.Agent.CronSpecs.{
  CronJobSpec, forbid, skip, unchanged, cron_spec, put_spec, apply_cron_spec,
}
use jiji.Agent.CronSpecs.Installed.{apply_cron_spec-cron_spec}

abbrev job : String → String → CronJobSpec
job name owner = record {
  project = "shop";
  service = "web";
  cron_name = name;
  revision = 1;
  canonical_hash = "hash";
  owner_node_id = owner;
  owner_epoch = 1;
  server = owner;
  source_deployment_id = "dep-1";
  source_replica_id = "web-1";
  image = "web:1";
  schedule = "0 * * * *";
  timezone = "UTC";
  timeout_seconds = 60;
  overlap = forbid;
  missed_runs = skip;
  command = "sync" ∷ [];
  env_file_path = "/env";
  mount_args = [];
  resource_args = [];
  bridge_network = "jiji-shop";
  dns_address = "100.64.0.1";
}

-- A spec of the same revision and content hash is stored over the old one, and reported unchanged.
replaced_unchanged :
    apply_cron_spec (job "sync" "a" ∷ []) (job "sync" "b")
    ≡ (job "sync" "b" ∷ [], unchanged (job "sync" "b"))
unfolding apply_cron_spec cron_spec put_spec find
replaced_unchanged = refl

apply_cron_spec-cron_spec_example :
    cron_spec (apply_cron_spec (job "sync" "a" ∷ []) (job "sync" "b")).0 "web" "sync"
    ≡ some (job "sync" "b")
apply_cron_spec-cron_spec_example =
    apply_cron_spec-cron_spec (job "sync" "a" ∷ []) (job "sync" "b") "web" "sync"
