-- ===== src/Agent/CronSpecs.antt =====
-- The installed cron jobs: crates/jiji-agent/src/cron.rs, and the table `cron_job_specs` of
-- crates/jiji-agent/src/store.rs, whose columns repeat fields of its `spec_json`. A revision beyond the
-- 63 bits of an SQLite integer is left out.
pub mod Installed
use jiji.Common.{
  ℕ, Bool, true, false, ◌&&◌, Option, none, some, List, [], ◌∷◌, String, str_eq, ◌==◌,
  if◌then◌else◌, find, keep, any, not,
}

pub data CronOverlap : Type 0 where
  forbid : CronOverlap

pub data CronMissedRuns : Type 0 where
  skip : CronMissedRuns

pub record CronJobSpec : Type 0 where
  pub project : String
  pub service : String
  pub cron_name : String
  pub revision : ℕ
  pub canonical_hash : String
  pub owner_node_id : String
  pub owner_epoch : ℕ
  pub server : String
  pub source_deployment_id : String
  pub source_replica_id : String
  pub image : String
  pub schedule : String
  pub timezone : String
  pub timeout_seconds : ℕ
  pub overlap : CronOverlap
  pub missed_runs : CronMissedRuns
  pub command : List String
  pub env_file_path : String
  pub mount_args : List String
  pub resource_args : List String
  pub bridge_network : String
  pub dns_address : String

pub data CronSpecApplyOutcome : Type 0 where
  installed updated unchanged : CronJobSpec → CronSpecApplyOutcome

abbrev pub is_spec_of : String → String → CronJobSpec → Bool
is_spec_of service cron_name spec = str_eq spec.service service && str_eq spec.cron_name cron_name

unfoldable pub cron_spec : List CronJobSpec → String → String → Option CronJobSpec
unfolding find
cron_spec specs service cron_name = find (is_spec_of service cron_name) specs

-- `INSERT … ON CONFLICT(service, cron_name) DO UPDATE`
unfoldable pub put_spec : CronJobSpec → List CronJobSpec → List CronJobSpec
put_spec spec [] = spec ∷ []
put_spec spec (x ∷ xs) =
    let rest = put_spec spec xs in
    if is_spec_of spec.service spec.cron_name x then spec ∷ xs else x ∷ rest

abbrev pub same_content : CronJobSpec → CronJobSpec → Bool
same_content x spec = x.revision == spec.revision && str_eq x.canonical_hash spec.canonical_hash

unfoldable pub apply_cron_spec :
    List CronJobSpec → CronJobSpec → List CronJobSpec × CronSpecApplyOutcome
apply_cron_spec specs spec = (
  put_spec spec specs,
  elim (cron_spec specs spec.service spec.cron_name) [
    | none ↦ installed spec
    | some existing ↦ if same_content existing spec then unchanged spec else updated spec
  ],
)

unfoldable pub remove_cron_spec : List CronJobSpec → String → String → List CronJobSpec × Bool
unfolding keep any
remove_cron_spec specs service cron_name = (
  keep (λ x. not (is_spec_of service cron_name x)) specs,
  any (is_spec_of service cron_name) specs,
)
