-- ===== src/Agent/Cron/Rows.antt =====
-- Looking a row of the scheduler's table up after a statement on it: crates/jiji-agent/src/store.rs, the
-- upserts of `claim_cron_run` and `set_cron_scheduler_state`.
use jiji.Common.{
  ◌≡◌, refl, Bool, true, false, ◌&&◌, Option, none, some, List, [], ◌∷◌, String, str_eq,
  if◌then◌else◌, arith, eq_iff, find,
}
use jiji.Agent.Cron.{CronSchedulerState, upsert, state_of_job}

-- Rows of one job answer alike to the test for a job.
module _ (service cron_name s c : String) (x : CronSchedulerState) where
  same_job :
      state_of_job service cron_name x ≡ true
      → state_of_job s c x ≡ (str_eq service s && str_eq cron_name c)
  same_job h = ground (
    arith,
    eq_iff x.service service,
    eq_iff x.cron_name cron_name,
    eq_iff x.service s,
    eq_iff x.cron_name c,
    eq_iff service s,
    eq_iff cron_name c,
  )

  one_job :
      state_of_job s c x ≡ true
      → (str_eq service s && str_eq cron_name c) ≡ true
      → state_of_job service cron_name x ≡ true
  one_job h k = ground (
    arith,
    eq_iff x.service service,
    eq_iff x.cron_name cron_name,
    eq_iff x.service s,
    eq_iff x.cron_name c,
    eq_iff service s,
    eq_iff cron_name c,
  )

abbrev pub changed :
    CronSchedulerState
    → (CronSchedulerState → CronSchedulerState)
    → Option CronSchedulerState
    → Option CronSchedulerState
changed fresh change none = some fresh
changed fresh change (some x) = some (change x)

find_step :
    (a : Bool) (p : CronSchedulerState → Bool) (k : Bool) (fresh : CronSchedulerState)
    (change : CronSchedulerState → CronSchedulerState) (x : CronSchedulerState)
    (xs ys : List CronSchedulerState)
    → p (change x) ≡ p x
    → (a ≡ true → p x ≡ k)
    → (p x ≡ true → k ≡ true → a ≡ true)
    → find p ys ≡ (if k then changed fresh change (find p xs) else find p xs)
    → find p (if a then change x ∷ xs else x ∷ ys)
      ≡ (if k then changed fresh change (find p (x ∷ xs)) else find p (x ∷ xs))
unfolding find
find_step true p true fresh change x xs ys keeps same one rest = simp (keeps, same refl)
find_step true p false fresh change x xs ys keeps same one rest = simp (keeps, same refl)
find_step false p k fresh change x xs ys keeps same one rest = ground (arith, rest)

-- Looking a row up after an upsert that keeps the columns of the key.
pub upsert-find :
    (fresh : CronSchedulerState) (change : CronSchedulerState → CronSchedulerState) (s c : String)
    (xs : List CronSchedulerState)
    → ((x : CronSchedulerState) → state_of_job s c (change x) ≡ state_of_job s c x)
    → find (state_of_job s c) (upsert fresh change xs) ≡ (
        if str_eq fresh.service s && str_eq fresh.cron_name c
        then changed fresh change (find (state_of_job s c) xs)
        else find (state_of_job s c) xs)
unfolding upsert find
upsert-find fresh change s c [] keeps = refl
upsert-find fresh change s c (x ∷ xs) keeps =
    find_step (state_of_job fresh.service fresh.cron_name x) (state_of_job s c)
      (str_eq fresh.service s && str_eq fresh.cron_name c) fresh change x xs
      (upsert fresh change xs) (keeps x) (same_job fresh.service fresh.cron_name s c x)
      (one_job fresh.service fresh.cron_name s c x) (upsert-find fresh change s c xs keeps)
