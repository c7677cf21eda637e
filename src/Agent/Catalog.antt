-- ===== src/Agent/Catalog.antt =====
-- crates/jiji-agent/src/catalog.rs: the replicated records of service deployments and the view that
-- DNS answers from. `content_hash` is a parameter, as in Membership.antt.
mod Steps
pub mod Fences
pub mod Winners
use jiji.Common.{
  ℕ, ◌≡◌, Bool, true, false, ◌&&◌, ◌||◌, not, Option, none, some, List, [], ◌∷◌, String, Ordering,
  compare, compare_str, then_cmp, str_eq, is_le, is_gt, Result, ok, err, ◌>>=◌, ◌>>◌, map_err,
  refuse_if, ltb, leb, ◌==◌, if◌then◌else◌, keep, contains, include,
}
use jiji.Common.Map.{Map, lookup, insert, values}
use jiji.Network.Cidr.{Ipv4Addr}
use jiji.Agent.Membership.{
  MembershipView, RecordProvenance, ProvenanceError, unknown_peer, not_owner, authenticate,
  is_empty, Verdict, admit, late, refuse,
}

abbrev pub catalog_protocol_version : ℕ
catalog_protocol_version = 1

abbrev pub catalog_schema_version : ℕ
catalog_schema_version = 2

pub data DeploymentState : Type 0 where
  candidate active draining stopped tombstoned : DeploymentState

pub data HealthState : Type 0 where
  unknown healthy unhealthy : HealthState

pub record CatalogRecord : Type 0 where
  pub project_id : String
  pub recovery_epoch : ℕ
  pub protocol_version : ℕ
  pub schema_version : ℕ
  pub service : String
  pub replica_id : String
  pub owner_node_id : String
  pub owner_epoch : ℕ
  pub revision : ℕ
  pub deployment_id : String
  pub address : Ipv4Addr
  pub ports : List ℕ
  pub image : String
  pub state : DeploymentState
  pub health : HealthState

pub data CatalogError : Type 0 where
  invalid_record wrong_project unknown_sender not_record_owner : CatalogError
  stale_owner_epoch tombstone_resurrection : CatalogError
  protocol_version_unsupported schema_version_unsupported : ℕ → CatalogError
  recovery_epoch_mismatch : ℕ → ℕ → CatalogError

unfoldable pub validate : CatalogRecord → Result CatalogError (Unit {0})
validate r = do
  refuse_if (not (r.protocol_version == catalog_protocol_version))
      (protocol_version_unsupported r.protocol_version)
  refuse_if (not (r.schema_version == catalog_schema_version))
      (schema_version_unsupported r.schema_version)
  refuse_if
      (is_empty r.project_id
        || is_empty r.service
        || is_empty r.replica_id
        || is_empty r.owner_node_id
        || is_empty r.deployment_id
        || r.revision == 0
        || r.owner_epoch == 0)
      invalid_record

-- `impl From<ProvenanceError> for CatalogError`
abbrev pub from_provenance : ProvenanceError → CatalogError
from_provenance unknown_peer = unknown_sender
from_provenance not_owner = not_record_owner

unfoldable pub verify :
    CatalogRecord → RecordProvenance → String → ℕ → MembershipView → Result CatalogError (Unit {0})
verify r provenance project_id recovery_epoch membership = do
  validate r
  refuse_if (not (str_eq r.project_id project_id)) wrong_project
  refuse_if (not (r.recovery_epoch == recovery_epoch))
      (recovery_epoch_mismatch recovery_epoch r.recovery_epoch)
  map_err from_provenance (authenticate membership provenance r.owner_node_id)

pub data CatalogApply : Type 0 where
  applied duplicate superseded : CatalogApply

pub record CatalogView : Type 0 where
  pub records : Map CatalogRecord
  pub record_ids : List String

abbrev pub empty_view : CatalogView
empty_view = record { records = []; record_ids = [] }

abbrev pub is_tombstoned : CatalogRecord → Bool
is_tombstoned r = elim r.state [ tombstoned ↦ true | _ ↦ false ]

abbrev pub tombstone_rank : CatalogRecord → ℕ
tombstone_rank r = if is_tombstoned r then 1 else 0

unfoldable pub order : CatalogRecord → String → CatalogRecord → String → Ordering
order r id c current_id = then_cmp (compare r.owner_epoch c.owner_epoch) (
    then_cmp (compare r.revision c.revision)
      (then_cmp (compare (tombstone_rank r) (tombstone_rank c)) (compare_str id current_id)))

unfoldable pub record_order : CatalogRecord → CatalogRecord → Ordering
unfolding order
record_order r c = order r r.deployment_id c c.deployment_id

-- A record's owner epoch against that of each current record of its replica. The source takes
-- their maximum first.
abbrev pub max_with : ℕ → Option ℕ → Option ℕ
max_with n none = some n
max_with n (some m) = some (if ltb n m then m else n)

unfoldable pub replica_owner_epoch : String → List CatalogRecord → Option ℕ
replica_owner_epoch replica_id [] = none
replica_owner_epoch replica_id (c ∷ cs) =
    let rest = replica_owner_epoch replica_id cs in
    if str_eq c.replica_id replica_id then max_with c.owner_epoch rest else rest

abbrev pub below_epoch : ℕ → Option ℕ → Bool
below_epoch n none = false
below_epoch n (some m) = ltb n m

unfoldable pub against_current :
    CatalogRecord → String → CatalogRecord → String → Verdict CatalogError
against_current r id c current_id =
    if ltb r.owner_epoch c.owner_epoch
    then refuse stale_owner_epoch
    else if is_le (order r id c current_id)
    then late
    else if is_tombstoned c && not (is_tombstoned r) && r.owner_epoch == c.owner_epoch
    then refuse tombstone_resurrection
    else admit

abbrev verdict_of :
    (CatalogRecord → Verdict CatalogError) → Option CatalogRecord → Verdict CatalogError
verdict_of f none = admit
verdict_of f (some c) = f c

module _ (content_hash : CatalogRecord → String) where
  unfoldable pub verdict : CatalogView → CatalogRecord → Verdict CatalogError
  verdict v r =
      if below_epoch r.owner_epoch (replica_owner_epoch r.replica_id (values v.records))
      then refuse stale_owner_epoch
      else verdict_of (λ c. against_current r (content_hash r) c (content_hash c))
          (lookup r.deployment_id v.records)

  unfoldable pub conclude :
      CatalogView
      → CatalogRecord
      → Verdict CatalogError
      → Result CatalogError (CatalogView × CatalogApply)
  conclude v r (refuse e) = err e
  conclude v r late =
      ok (record v { record_ids = include (content_hash r) v.record_ids }, superseded)
  conclude v r admit = ok (
    record {
      records = insert r.deployment_id r v.records;
      record_ids = include (content_hash r) v.record_ids;
    },
    applied,
  )

  unfoldable pub apply :
      CatalogView
      → CatalogRecord
      → RecordProvenance
      → String
      → ℕ
      → MembershipView
      → Result CatalogError (CatalogView × CatalogApply)
  apply v r provenance project_id recovery_epoch membership = do
    verify r provenance project_id recovery_epoch membership
    if contains (content_hash r) v.record_ids then ok (v, duplicate) else conclude v r (verdict v r)

  -- The loop of `from_records`
  unfoldable pub apply_all :
      CatalogView
      → List (CatalogRecord × RecordProvenance)
      → String
      → ℕ
      → MembershipView
      → Result CatalogError CatalogView
  apply_all v [] project_id recovery_epoch membership = ok v
  apply_all v ((r, provenance) ∷ rs) project_id recovery_epoch membership =
      apply v r provenance project_id recovery_epoch membership >>= λ p.
      apply_all p.0 rs project_id recovery_epoch membership

  unfoldable pub from_records :
      List (CatalogRecord × RecordProvenance)
      → String
      → ℕ
      → MembershipView
      → Result CatalogError CatalogView
  from_records rs = apply_all empty_view rs

-- Active and healthy: the only records that DNS may answer with.
abbrev pub is_active_healthy : CatalogRecord → Bool
is_active_healthy r = elim r.state [
  | active ↦ elim r.health [ healthy ↦ true | _ ↦ false ]
  | _ ↦ false
]

-- One turn of the loop of `active_healthy`: the winner of the record's replica so far.
abbrev pub replaces : CatalogRecord → Option CatalogRecord → Bool
replaces r none = true
replaces r (some current) = is_gt (record_order r current)

unfoldable pub elect : Map CatalogRecord → List CatalogRecord → Map CatalogRecord
elect winners [] = winners
elect winners (r ∷ rs) =
    elect
      (if is_active_healthy r && replaces r (lookup r.replica_id winners)
        then insert r.replica_id r winners
        else winners)
      rs

unfoldable pub active_healthy : CatalogView → List CatalogRecord
active_healthy v = values (elect [] (values v.records))

-- The same over a list of records.
unfoldable pub active_healthy_winners : List CatalogRecord → List CatalogRecord
active_healthy_winners rs = values (elect [] rs)
