-- ===== src/Agent/Store/Deployments.antt =====
-- The log of the deployments: its replay never fails, whoever are the members
-- by then, and gives the table of the winners.
-- crates/jiji-agent/src/store.rs, `apply_catalog`.
use jiji.Common.{
  ℕ, ◌≡◌, refl, inl, inr, Bool, true, false, Option, none, some, List, [], ◌∷◌, ◌++◌, String, arith,
  ok, Result, >>=-eq-ok, subst, if◌then◌else◌, Bool-cases, Option-cases, ◌>>=◌, map_err,
  map_err-eq-ok,
}
use jiji.Common.Map.{Map, lookup, insert, lookup-insert}
use jiji.Agent.Catalog as Catalog
use jiji.Agent.Membership.{Verdict}
use jiji.Agent.Catalog.{
  CatalogRecord, CatalogApply, CatalogView, CatalogError, apply_all, from_records, empty_view,
  verdict, verify, conclude,
}
use jiji.Agent.Membership.{MembershipView, RecordProvenance, verified, authenticate}
use jiji.Agent.Store.{
  as_verified, Row, Log, AgentStore, StoreError, recorded, contents, commit, apply_catalog,
  deployments_won, ensure_replication_capacity, catalog_refused,
}
use jiji.Agent.Store.Replays.{contents-append, commit-eq-some}

module _ (hash : CatalogRecord → String) (project_id : String) (epoch : ℕ) where
  abbrev row_of : Option CatalogRecord → Option (Row CatalogRecord)
  row_of none = none
  row_of (some r) = some record { operation_id = hash r; content = r }

  -- The replay of the operations succeeds under any membership, and the table of the winners holds what the view holds.
  pub record IsReplayed (log : Log CatalogRecord) : Type 0 where
    pub view : CatalogView
    pub replays :
        (members : MembershipView)
        → from_records hash (as_verified (contents log.operations)) project_id epoch members
          ≡ ok view
    pub same : (k : String) → lookup k log.winners ≡ row_of (lookup k view.records)

  conclude-won :
      (v v' : CatalogView) (r : CatalogRecord) (d : Verdict CatalogError) (o : CatalogApply)
      → conclude hash v r d ≡ ok (v', o)
      → v'.records ≡ (if deployments_won o then insert r.deployment_id r v.records else v.records)
  unfolding conclude
  conclude-won v v' r d o h = ground arith

  apply-won :
      (members : MembershipView) (q : RecordProvenance) (v v' : CatalogView) (r : CatalogRecord)
      (o : CatalogApply)
      → Catalog.apply hash v r q project_id epoch members ≡ ok (v', o)
      → v'.records ≡ (if deployments_won o then insert r.deployment_id r v.records else v.records)
  unfolding Catalog.apply
  apply-won members q v v' r o h = ground (arith, conclude-won v v' r (verdict hash v r) o)

  verify-verified :
      (r : CatalogRecord) (q : RecordProvenance) (members others : MembershipView)
      → verify r q project_id epoch members ≡ ok tt
      → verify r verified project_id epoch others ≡ ok tt
  unfolding verify authenticate
  verify-verified r q members others h = ground arith

  -- What was accepted once is accepted as verified under any membership, with the same result.
  apply-verified :
      (v : CatalogView) (r : CatalogRecord) (q : RecordProvenance) (members others : MembershipView)
      (p : CatalogView × CatalogApply)
      → Catalog.apply hash v r q project_id epoch members ≡ ok p
      → Catalog.apply hash v r verified project_id epoch others ≡ ok p
  unfolding Catalog.apply
  apply-verified v r q members others p h = ground (arith, verify-verified r q members others)

  apply_all-append :
      (members : MembershipView) (v w : CatalogView) (rs : List CatalogRecord) (r : CatalogRecord)
      (p : CatalogView × CatalogApply)
      → apply_all hash v (as_verified rs) project_id epoch members ≡ ok w
      → Catalog.apply hash w r verified project_id epoch members ≡ ok p
      → apply_all hash v (as_verified (rs ++ (r ∷ []))) project_id epoch members ≡ ok p.0
  unfolding apply_all
  apply_all-append members v w [] r p h e = ground arith
  apply_all-append members v w (x ∷ rs) r p h e =
      let first = >>=-eq-ok (Catalog.apply hash v x verified project_id epoch members) _ h in
      rw (first.1) (apply_all-append members first.0.0 w rs r p first.2 e)

  same-won :
      (winners : Map (Row CatalogRecord)) (m : Map CatalogRecord) (r : CatalogRecord) (won : Bool)
      (k : String)
      → lookup k winners ≡ row_of (lookup k m)
      → lookup k (
          if won
          then insert r.deployment_id record { operation_id = hash r; content = r } winners
          else winners)
        ≡ row_of (lookup k (if won then insert r.deployment_id r m else m))
  same-won winners m r true k h =
      rw (lookup-insert k r.deployment_id _ winners, lookup-insert k r.deployment_id r m)
        (ground arith)
  same-won winners m r false k h = h

  replayed :
      (members : MembershipView) (rs : List CatalogRecord) (view : CatalogView) (r : CatalogRecord)
      (p : CatalogView × CatalogApply)
      → from_records hash (as_verified rs) project_id epoch members ≡ ok view
      → Catalog.apply hash view r verified project_id epoch members ≡ ok p
      → from_records hash (as_verified (rs ++ (r ∷ []))) project_id epoch members ≡ ok p.0
  unfolding from_records
  replayed members rs view r p h a = apply_all-append members empty_view view rs r p h a

  abbrev row : CatalogRecord → Row CatalogRecord
  row r = record { operation_id = hash r; content = r }

  commit-IsReplayed :
      (log log' : Log CatalogRecord) (r : CatalogRecord) (q : RecordProvenance)
      (now : MembershipView) (b : IsReplayed log) (p : CatalogView × CatalogApply)
      → Catalog.apply hash b.view r q project_id epoch now ≡ ok p
      → commit log r.deployment_id (row r) (deployments_won p.1) ≡ some log'
      → IsReplayed log'
  commit-IsReplayed log log' r q now b p a h =
      let won = apply-won now q b.view p.0 r p.1 a in
      rw (commit-eq-some log log' r.deployment_id (row r) (deployments_won p.1) h) (record {
        view = p.0;
        replays = λ members. rw (contents-append log.operations (row r)) (
            replayed members (contents log.operations) b.view r p (b.replays members)
              (apply-verified b.view r q now members p a));
        same =
            λ k. rw won (same-won log.winners b.view.records r (deployments_won p.1) k (b.same k));
      })

  module _ (usage : AgentStore → ℕ) (store : AgentStore) (r : CatalogRecord) (q : RecordProvenance)
      (now : MembershipView) where
    abbrev pub finish : CatalogView × CatalogApply → Result StoreError (AgentStore × CatalogApply)
    finish p = elim (commit store.catalog r.deployment_id (row r) (deployments_won p.1)) [
      | none ↦ ok (store, CatalogApply.duplicate)
      | some log ↦ ok (record store { catalog = log }, p.1)
    ]

    -- On a log that replays to a view, `apply_catalog` is that view's `apply` behind the tests for a
    -- repeated record and of the quota, for every record and every outcome.
    pub apply_catalog-view :
        (b : IsReplayed store.catalog)
        → apply_catalog usage hash store r q project_id epoch now ≡ (
            if recorded (hash r) store.catalog.operations
            then ok (store, CatalogApply.duplicate)
            else (ensure_replication_capacity usage store >>= λ _.
                map_err catalog_refused (Catalog.apply hash b.view r q project_id epoch now)
                >>= finish))
    unfolding apply_catalog
    apply_catalog-view b = rw (b.replays now) refl

    finish-IsReplayed :
        (store' : AgentStore) (o : CatalogApply) (b : IsReplayed store.catalog)
        (p : CatalogView × CatalogApply)
        → Catalog.apply hash b.view r q project_id epoch now ≡ ok p
        → finish p ≡ ok (store', o)
        → IsReplayed store'.catalog
    finish-IsReplayed store' o b p a h =
        elim (Option-cases (commit store.catalog r.deployment_id (row r) (deployments_won p.1))) [
          | inl e ↦
              subst (λ (s : AgentStore). IsReplayed s.catalog)
                (let done : store ≡ store' = ground arith in done) b
          | inr c ↦
              subst (λ (s : AgentStore). IsReplayed s.catalog)
                (let done : record store { catalog = c.0 } ≡ store' = ground arith in done)
                (commit-IsReplayed store.catalog c.0 r q now b p a c.1)
        ]

    -- A log that replays under every membership to its table of winners still does after any
    -- successful call of `apply_catalog`.
    pub apply_catalog-IsReplayed :
        (store' : AgentStore) (o : CatalogApply)
        → IsReplayed store.catalog
        → apply_catalog usage hash store r q project_id epoch now ≡ ok (store', o)
        → IsReplayed store'.catalog
    apply_catalog-IsReplayed store' o b h =
        elim (Bool-cases (recorded (hash r) store.catalog.operations)) [
          | inl t ↦
              subst (λ (s : AgentStore). IsReplayed s.catalog)
                (let e = rw (apply_catalog-view b, t) at h in
                  let done : store ≡ store' = ground arith in done)
                b
          | inr f ↦ fresh (rw (apply_catalog-view b, f) at h)
        ]
      where
        fresh :
            (ensure_replication_capacity usage store >>= λ _.
            map_err catalog_refused (Catalog.apply hash b.view r q project_id epoch now) >>= finish)
              ≡ ok (store', o)
            → IsReplayed store'.catalog
        fresh e =
            let room = >>=-eq-ok (ensure_replication_capacity usage store) _ e in
            let step =
              >>=-eq-ok
                (map_err catalog_refused (Catalog.apply hash b.view r q project_id epoch now))
                finish room.2 in
            finish-IsReplayed store' o b step.0
              (map_err-eq-ok catalog_refused (Catalog.apply hash b.view r q project_id epoch now)
                step.0 step.1)
              step.2
