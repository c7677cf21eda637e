-- ===== src/Agent/CronSpecs/Installed.antt =====
-- What is installed after each operation: crates/jiji-agent/src/store.rs, `apply_cron_spec` and
-- `remove_cron_spec`.
use jiji.Common.{
  ◌≡◌, ◌&&◌, none, some, List, [], ◌∷◌, String, str_eq, arith, eq_iff, if◌then◌else◌, find, keep,
}
use jiji.Agent.CronSpecs.{
  CronJobSpec, is_spec_of, cron_spec, put_spec, apply_cron_spec, remove_cron_spec,
}

put_spec-cron_spec :
    (spec : CronJobSpec) (specs : List CronJobSpec) (service cron_name : String)
    → cron_spec (put_spec spec specs) service cron_name
      ≡ (if is_spec_of service cron_name spec then some spec else cron_spec specs service cron_name)
unfolding cron_spec put_spec find
put_spec-cron_spec spec [] service cron_name = ground arith
put_spec-cron_spec spec (x ∷ xs) service cron_name = ground (
  arith,
  put_spec-cron_spec spec xs service cron_name,
  eq_iff spec.service service,
  eq_iff spec.cron_name cron_name,
  eq_iff x.service service,
  eq_iff x.cron_name cron_name,
  eq_iff x.service spec.service,
  eq_iff x.cron_name spec.cron_name,
)

-- After `apply_cron_spec` the job of the spec has that spec, whatever the outcome reports, and every
-- other job has the spec that it had.
pub apply_cron_spec-cron_spec :
    (specs : List CronJobSpec) (spec : CronJobSpec) (service cron_name : String)
    → cron_spec (apply_cron_spec specs spec).0 service cron_name
      ≡ (if is_spec_of service cron_name spec then some spec else cron_spec specs service cron_name)
unfolding apply_cron_spec
apply_cron_spec-cron_spec specs spec service cron_name =
    put_spec-cron_spec spec specs service cron_name

-- After `remove_cron_spec` the job has no spec, and every other job has the spec that it had.
pub remove_cron_spec-cron_spec :
    (specs : List CronJobSpec) (s c service cron_name : String)
    → cron_spec (remove_cron_spec specs s c).0 service cron_name
      ≡ (if str_eq s service && str_eq c cron_name then none else cron_spec specs service cron_name)
unfolding remove_cron_spec cron_spec keep find
remove_cron_spec-cron_spec [] s c service cron_name = ground arith
remove_cron_spec-cron_spec (x ∷ xs) s c service cron_name = ground (
  arith,
  remove_cron_spec-cron_spec xs s c service cron_name,
  eq_iff s service,
  eq_iff c cron_name,
  eq_iff x.service service,
  eq_iff x.cron_name cron_name,
  eq_iff x.service s,
  eq_iff x.cron_name c,
)
