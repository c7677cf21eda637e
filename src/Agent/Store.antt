-- ===== src/Agent/Store.antt =====
-- crates/jiji-agent/src/store.rs: the operation logs of the members, the deployments and the scale,
-- each beside the table of its winning records. A table is the list of its rows, in the order of
-- `rowid`, or the map from its primary key to its row. The size of the database file is a parameter.
mod Replays
pub mod Members
pub mod Answers
pub mod Scales
pub mod Deployments
use jiji.Common.{
  ℕ, ◌-◌, Bool, true, false, Option, none, some, List, [], ◌∷◌, ◌++◌, String, str_eq, Result, ok,
  err, ◌>>=◌, ◌>>◌, map_err, leb, if◌then◌else◌, keep, any, length,
}
use jiji.Common.Map.{Map, lookup, insert, values}
use jiji.Agent.Membership as Membership
use jiji.Agent.Membership.{
  MembershipRecord, MembershipScope, MembershipApply, MembershipView, MembershipError,
  RecordProvenance, verified,
}
use jiji.Agent.Catalog as Catalog
use jiji.Agent.Catalog.{CatalogRecord, CatalogApply, CatalogError}
use jiji.Agent.Desired as Desired
use jiji.Agent.Desired.{DesiredStateRecord, DesiredApply, DesiredError}

-- A row of an operation log or of a table of winners: its id and its decoded `record_json`.
pub record Row (R : Type 0) : Type 0 where
  pub operation_id : String
  pub content : R

-- An operation log and the table of its winning records.
pub record Log (R : Type 0) : Type 0 where
  pub operations : List (Row R)
  pub winners : Map (Row R)

pub record AgentStore : Type 0 where
  pub soft_quota_bytes : Option ℕ
  pub membership : Log MembershipRecord
  pub catalog : Log CatalogRecord
  pub desired : Log DesiredStateRecord

pub data StoreError : Type 0 where
  quota_exceeded : ℕ → ℕ → StoreError
  membership_refused : MembershipError → StoreError
  catalog_refused : CatalogError → StoreError
  desired_refused : DesiredError → StoreError

module _ {R : Type 0} where
  -- `SELECT EXISTS(SELECT 1 FROM … WHERE operation_id = ?1)`
  unfoldable pub recorded : String → List (Row R) → Bool
  unfolding any
  recorded id rows = any (λ row. str_eq row.operation_id id) rows

  abbrev pub contents : List (Row R) → List R
  contents [] = []
  contents (row ∷ rows) = row.content ∷ contents rows

  -- The transaction that ends each `apply_…`: the operation, unless its id is there (`none`), and
  -- the winning record under its key if the view has applied it.
  unfoldable pub commit : Log R → String → Row R → Bool → Option (Log R)
  commit log key row won =
      if recorded row.operation_id log.operations
      then none
      else some (record {
        operations = log.operations ++ (row ∷ []);
        winners = if won then insert key row log.winners else log.winners;
      })

  -- `DELETE FROM … WHERE operation_id NOT IN (SELECT operation_id FROM …)`
  unfoldable pub compact : Log R → Log R
  compact log = record log {
    operations = keep (λ row. recorded row.operation_id (values log.winners)) log.operations;
  }

abbrev pub members_won : MembershipApply → Bool
members_won MembershipApply.applied = true
members_won _ = false

abbrev pub deployments_won : CatalogApply → Bool
deployments_won CatalogApply.applied = true
deployments_won _ = false

abbrev pub scales_won : DesiredApply → Bool
scales_won DesiredApply.applied = true
scales_won _ = false

-- The replay of a log: its records were verified when they were recorded.
abbrev pub as_verified : {R : Type 0} → List R → List (R × RecordProvenance)
as_verified [] = []
as_verified (r ∷ rs) = (r, verified) ∷ as_verified rs

module _ (database_usage_bytes : AgentStore → ℕ) where
  unfoldable pub ensure_replication_capacity : AgentStore → Result StoreError (Unit {0})
  ensure_replication_capacity store = elim store.soft_quota_bytes [
    | none ↦ ok tt
    | some quota_bytes ↦
        if leb quota_bytes (database_usage_bytes store)
        then err (quota_exceeded (database_usage_bytes store) quota_bytes)
        else ok tt
  ]

  unfoldable pub apply_membership :
      (MembershipRecord → String)
      → AgentStore
      → MembershipRecord
      → MembershipScope
      → Result StoreError (AgentStore × MembershipApply)
  apply_membership hash store r scope =
      if recorded (hash r) store.membership.operations
      then ok (store, MembershipApply.duplicate)
      else do
        ensure_replication_capacity store
        view ←
            map_err membership_refused
              (Membership.from_records hash (contents store.membership.operations) scope)
        p ← map_err membership_refused (Membership.apply hash view r scope)
        let row : Row MembershipRecord = record { operation_id = hash r; content = r }
        elim (commit store.membership r.node_id row (members_won p.1)) [
          | none ↦ ok (store, MembershipApply.duplicate)
          | some log ↦ ok (record store { membership = log }, p.1)
        ]

  unfoldable pub apply_catalog :
      (CatalogRecord → String)
      → AgentStore
      → CatalogRecord
      → RecordProvenance
      → String
      → ℕ
      → MembershipView
      → Result StoreError (AgentStore × CatalogApply)
  apply_catalog hash store r provenance project_id recovery_epoch membership =
      if recorded (hash r) store.catalog.operations then ok (store, CatalogApply.duplicate) else do
        ensure_replication_capacity store
        view ← map_err catalog_refused (
            Catalog.from_records hash (as_verified (contents store.catalog.operations)) project_id
              recovery_epoch membership)
        p ←
            map_err catalog_refused
              (Catalog.apply hash view r provenance project_id recovery_epoch membership)
        let row : Row CatalogRecord = record { operation_id = hash r; content = r }
        elim (commit store.catalog r.deployment_id row (deployments_won p.1)) [
          | none ↦ ok (store, CatalogApply.duplicate)
          | some log ↦ ok (record store { catalog = log }, p.1)
        ]

  unfoldable pub apply_desired :
      (DesiredStateRecord → String)
      → AgentStore
      → DesiredStateRecord
      → RecordProvenance
      → String
      → ℕ
      → MembershipView
      → Result StoreError (AgentStore × DesiredApply)
  apply_desired hash store r provenance project_id recovery_epoch membership =
      if recorded (hash r) store.desired.operations then ok (store, DesiredApply.duplicate) else do
        ensure_replication_capacity store
        view ← map_err desired_refused (
            Desired.from_records hash (as_verified (contents store.desired.operations)) project_id
              recovery_epoch membership)
        p ←
            map_err desired_refused
              (Desired.apply hash view r provenance project_id recovery_epoch membership)
        let row : Row DesiredStateRecord = record { operation_id = hash r; content = r }
        elim (commit store.desired r.service row (scales_won p.1)) [
          | none ↦ ok (store, DesiredApply.duplicate)
          | some log ↦ ok (record store { desired = log }, p.1)
        ]

-- `ORDER BY node_id`: the order of the keys.
unfoldable pub latest_membership : AgentStore → List MembershipRecord
latest_membership store = contents (values store.membership.winners)

unfoldable pub active_membership : AgentStore → List MembershipRecord
unfolding keep latest_membership
active_membership store = keep Membership.is_active (latest_membership store)

unfoldable pub desired_snapshot_operations : AgentStore → List DesiredStateRecord
desired_snapshot_operations store = contents (values store.desired.winners)

unfoldable pub desired_state : AgentStore → String → Option DesiredStateRecord
unfolding lookup
desired_state store service = elim (lookup service store.desired.winners) [
  | none ↦ none
  | some row ↦ some row.content
]

pub record CompactionResult : Type 0 where
  pub membership_removed : ℕ
  pub catalog_removed : ℕ
  pub desired_removed : ℕ

abbrev pub removed : {R : Type 0} → Log R → ℕ
removed log = length log.operations - length (compact log).operations

unfoldable pub compact_operations : AgentStore → AgentStore × CompactionResult
unfolding compact
compact_operations store = (
  record store {
    membership = compact store.membership;
    catalog = compact store.catalog;
    desired = compact store.desired;
  },
  record {
    membership_removed = removed store.membership;
    catalog_removed = removed store.catalog;
    desired_removed = removed store.desired;
  },
)
