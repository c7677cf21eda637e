-- ===== src/Agent/Cron/Overlap.antt =====
-- `overlap: forbid`: of each job at most one run is claimed or running.
-- crates/jiji-agent/src/store.rs, `claim_cron_run`, `start_cron_run`, `finish_cron_run`.
use jiji.Common.{
  ℕ, ◌≡◌, ◌≢◌, refl, sym, ◌∙◌, inl, inr, Bool, true, false, ◌&&◌, Option, none, some, List, [], ◌∷◌,
  ◌++◌, String, ok, arith, eq_iff, Bool-cases, Option-cases, some_inj, subst, if◌then◌else◌, find,
  any, In, All, All-In,
}
use jiji.Agent.Cron.{
  CronRun, CronTables, CronRunCause, CronRunState, CronClaimOutcome, ExitCode, is_active, of_job,
  of_run, same_claim, active_cron_run, new_run, claim_cron_run, cron_run, update, started, finished,
  start_cron_run, finish_cron_run,
}

abbrev pub clash : CronRun → CronRun → Bool
clash a b = of_job a.service a.cron_name b && is_active a.state && is_active b.state

abbrev pub Beside : CronRun → CronRun → Type 0
Beside a b = (b.run_id ≢ a.run_id) × (clash a b ≡ false)

-- The runs have different ids, and no two active ones belong to the same job.
abbrev pub IsExclusive : List CronRun → Type 0
IsExclusive [] = Unit
IsExclusive (x ∷ xs) = All (Beside x) xs × IsExclusive xs

All-append :
    (P : CronRun → Type 0) (xs : List CronRun) (y : CronRun)
    → All P xs
    → P y
    → All P (xs ++ (y ∷ []))
All-append P [] y h p = (p, tt)
All-append P (x ∷ xs) y h p = (h.0, All-append P xs y h.1 p)

module _ (service cron_name : String) (y : CronRun) (here : of_job service cron_name y ≡ true) where
  Beside-new :
      (x : CronRun)
      → (of_job service cron_name x && is_active x.state) ≡ false
      → of_run y.run_id x ≡ false
      → Beside x y
  Beside-new x h k = ground (
    arith,
    here,
    eq_iff y.run_id x.run_id,
    eq_iff x.run_id y.run_id,
    eq_iff y.service service,
    eq_iff y.cron_name cron_name,
    eq_iff x.service service,
    eq_iff x.cron_name cron_name,
    eq_iff y.service x.service,
    eq_iff y.cron_name x.cron_name,
  )

  append-IsExclusive :
      (xs : List CronRun)
      → find (λ run. of_job service cron_name run && is_active run.state) xs ≡ none
      → any (of_run y.run_id) xs ≡ false
      → IsExclusive xs
      → IsExclusive (xs ++ (y ∷ []))
  unfolding find any
  append-IsExclusive [] h k e = (tt, tt)
  append-IsExclusive (x ∷ xs) h k e = (
    All-append (Beside x) xs y e.0 (Beside-new x (ground arith) (ground arith)),
    append-IsExclusive xs (ground arith) (ground arith) e.1,
  )

new_run-of_job :
    (project service cron_name : String) (cause : CronRunCause) (at : Option ℕ) (run_id : String)
    (now : ℕ)
    → of_job service cron_name (new_run project service cron_name cause at run_id now) ≡ true
new_run-of_job project service cron_name cause at run_id now =
    ground (arith, eq_iff service service, eq_iff cron_name cron_name)

-- Where run ids are unique and no job has two active runs, that holds after a successful claim too,
-- whatever its outcome.
pub claim_cron_run-IsExclusive :
    (t t' : CronTables) (project service cron_name : String) (cause : CronRunCause) (at : Option ℕ)
    (run_id : String) (now : ℕ) (o : CronClaimOutcome)
    → IsExclusive t.runs
    → claim_cron_run t project service cron_name cause at run_id now ≡ ok (t', o)
    → IsExclusive t'.runs
unfolding claim_cron_run active_cron_run
claim_cron_run-IsExclusive t t' project service cron_name cause at run_id now o h e =
    elim (Option-cases (same_claim t.runs service cron_name at)) [
      | inr r ↦ subst IsExclusive (let same : t.runs ≡ t'.runs = ground (arith, r.1) in same) h
      | inl n ↦
          elim (Option-cases
            (find (λ run. of_job service cron_name run && is_active run.state) t.runs)) [
              | inr r ↦
                  subst IsExclusive (let same : t.runs ≡ t'.runs = ground (arith, n, r.1) in same) h
              | inl m ↦ elim (Bool-cases (any (of_run run_id) t.runs)) [
                | inl b ↦ absurd (ground (arith, n, m, b))
                | inr b ↦
                    let run = new_run project service cron_name cause at run_id now in
                    subst IsExclusive
                      (let done : t.runs ++ (run ∷ []) ≡ t'.runs = ground (arith, n, m, b) in done)
                      (append-IsExclusive service cron_name run
                        (new_run-of_job project service cron_name cause at run_id now) t.runs m b h)
              ]
            ]
    ]

-- The run that takes the place of `x`: of the same job, and not active unless `x` is.
record IsNext (y x : CronRun) : Type 0 where
  same_service : y.service ≡ x.service
  same_name : y.cron_name ≡ x.cron_name
  same_id : y.run_id ≡ x.run_id
  no_revival : is_active y.state ≡ true → is_active x.state ≡ true

Beside-next : (a b c d : CronRun) → IsNext c a → IsNext d b → Beside a b → Beside c d
Beside-next a b c d h k e = (
  λ p. e.0 (sym k.same_id ∙ p ∙ h.same_id),
  ground (
    arith, h.same_service, h.same_name, k.same_service, k.same_name, h.no_revival, k.no_revival,
    e.1,
  ),
)

IsNext-refl : (x : CronRun) → IsNext x x
IsNext-refl x = record {
  same_service = refl;
  same_name = refl;
  same_id = refl;
  no_revival = λ h. h;
}

module _ (run_id : String) (y : CronRun) where
  abbrev Replaceable : List CronRun → Type 0
  Replaceable xs = (x : CronRun) → In x xs → of_run run_id x ≡ true → IsNext y x

  IsNext-if :
      (x : CronRun)
      → (of_run run_id x ≡ true → IsNext y x)
      → IsNext (if of_run run_id x then y else x) x
  IsNext-if x h = elim (Bool-cases (of_run run_id x)) [
    | inl t ↦ rw t (h t)
    | inr f ↦ rw f (IsNext-refl x)
  ]

  All-update :
      (a c : CronRun) (xs : List CronRun)
      → IsNext c a
      → Replaceable xs
      → All (Beside a) xs
      → All (Beside c) (update run_id y xs)
  All-update a c [] n r h = tt
  All-update a c (x ∷ xs) n r h = (
    Beside-next a x c _ n (IsNext-if x (r x (inl refl))) h.0,
    All-update a c xs n (λ z i. r z (inr i)) h.1,
  )

  update-IsExclusive :
      (xs : List CronRun) → Replaceable xs → IsExclusive xs → IsExclusive (update run_id y xs)
  update-IsExclusive [] r h = tt
  update-IsExclusive (x ∷ xs) r h = (
    All-update x _ xs (IsNext-if x (r x (inl refl))) (λ z i. r z (inr i)) h.0,
    update-IsExclusive xs (λ z i. r z (inr i)) h.1,
  )

-- Only one row has the id that a query has found.
only_run :
    (run_id : String) (xs : List CronRun) (r x : CronRun)
    → IsExclusive xs
    → find (of_run run_id) xs ≡ some r
    → In x xs
    → of_run run_id x ≡ true
    → x ≡ r
unfolding find
only_run run_id [] r x h e i t = cc
only_run run_id (a ∷ xs) r x h e i t =
    let later = only_run run_id xs r x h.1 in
    elim (Bool-cases (of_run run_id a)) [
      | inl s ↦ elim i [
        | inl p ↦ p ∙ some_inj a r (rw s at e)
        | inr j ↦ absurd (
            (All-In (Beside a) xs x h.0 j).0
              ((eq_iff x.run_id run_id).0 t ∙ sym ((eq_iff a.run_id run_id).0 s)))
      ]
      | inr f ↦ elim i [ inl p ↦ absurd (ground (arith, p, f, t)) | inr j ↦ later (rw f at e) j t ]
    ]

module _ (t : CronTables) (run_id : String) (r y : CronRun) where
  replaced-IsExclusive :
      IsExclusive t.runs
      → cron_run t.runs run_id ≡ some r
      → IsNext y r
      → IsExclusive (update run_id y t.runs)
  unfolding cron_run
  replaced-IsExclusive h e n =
      update-IsExclusive run_id y t.runs
        (λ x i s. subst (IsNext y) (sym (only_run run_id t.runs r x h e i s)) n) h

-- Where run ids are unique and no job has two active runs, that holds after a start too, if the run
-- that it finds is active. The operation itself does not ask for that.
pub start_cron_run-IsExclusive :
    (t : CronTables) (run_id : String) (at : ℕ) (deployment_id container_name address : String)
    → IsExclusive t.runs
    → ((r : CronRun) → cron_run t.runs run_id ≡ some r → is_active r.state ≡ true)
    → IsExclusive (start_cron_run t run_id at deployment_id container_name address).0.runs
unfolding start_cron_run
start_cron_run-IsExclusive t run_id at deployment_id container_name address h active =
    started_runs (cron_run t.runs run_id) refl
  where
    started_runs :
        (o : Option CronRun)
        → cron_run t.runs run_id ≡ o
        → IsExclusive (start_cron_run t run_id at deployment_id container_name address).0.runs
    started_runs none e =
        subst IsExclusive
          (let same : t.runs
                ≡ (start_cron_run t run_id at deployment_id container_name address).0.runs =
              ground (arith, e) in
            same)
          h
    started_runs (some r) e =
        subst IsExclusive
          (let same : update run_id (started at deployment_id container_name address r) t.runs
                ≡ (start_cron_run t run_id at deployment_id container_name address).0.runs =
              ground (arith, e) in
            same)
          (replaced-IsExclusive t run_id r _ h e (record {
            same_service = refl;
            same_name = refl;
            same_id = refl;
            no_revival = λ a. active r e;
          }))

-- Where run ids are unique and no job has two active runs, that holds too after a run has ended in a
-- terminal state.
pub finish_cron_run-IsExclusive :
    (t : CronTables) (run_id : String) (state : CronRunState) (at : ℕ) (code : Option ExitCode)
    (error : Option String)
    → IsExclusive t.runs
    → is_active state ≡ false
    → IsExclusive (finish_cron_run t run_id state at code error).0.runs
unfolding finish_cron_run
finish_cron_run-IsExclusive t run_id state at code error h over =
    ended (cron_run t.runs run_id) refl
  where
    ended :
        (o : Option CronRun)
        → cron_run t.runs run_id ≡ o
        → IsExclusive (finish_cron_run t run_id state at code error).0.runs
    ended none e =
        subst IsExclusive
          (let same : t.runs ≡ (finish_cron_run t run_id state at code error).0.runs =
              ground (arith, e) in
            same)
          h
    ended (some r) e =
        subst IsExclusive
          (let same : update run_id (finished state at code error r) t.runs
                ≡ (finish_cron_run t run_id state at code error).0.runs =
              ground (arith, e) in
            same)
          (replaced-IsExclusive t run_id r _ h e (record {
            same_service = refl;
            same_name = refl;
            same_id = refl;
            no_revival = λ a. absurd (ground (arith, over, a));
          }))
