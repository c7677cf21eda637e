-- ===== src/Agent/Desired.antt =====
-- crates/jiji-agent/src/desired.rs: the replicated scale of each service. `content_hash` is a
-- parameter, as in Membership.antt.
pub mod Merge
pub mod Converges
use jiji.Common.{
  ℕ, Bool, ◌||◌, not, Option, none, some, List, [], ◌∷◌, String, Ordering, compare, compare_str,
  then_cmp, str_eq, is_le, Result, ok, err, ◌>>=◌, ◌>>◌, ok_or, map_err, refuse_if, ltb, ◌==◌,
  if◌then◌else◌, contains, include,
}
use jiji.Common.Map.{Map, lookup, insert}
use jiji.Agent.Membership.{
  MembershipView, RecordProvenance, ProvenanceError, unknown_peer, not_owner, authenticate, get,
  is_empty,
}

abbrev pub desired_protocol_version : ℕ
desired_protocol_version = 1

abbrev pub desired_schema_version : ℕ
desired_schema_version = 2

abbrev pub desired_min_supported_schema_version : ℕ
desired_min_supported_schema_version = 1

pub record DesiredStateRecord : Type 0 where
  pub project_id : String
  pub recovery_epoch : ℕ
  pub protocol_version : ℕ
  pub schema_version : ℕ
  pub service : String
  pub scale_override : Option ℕ
  pub revision : ℕ
  pub author_node_id : String
  pub author_epoch : ℕ

pub data DesiredError : Type 0 where
  invalid_record wrong_project recovery_epoch_mismatch : DesiredError
  unknown_author not_author stale_author : DesiredError
  protocol_version_unsupported schema_version_unsupported : ℕ → DesiredError

unfoldable pub validate : DesiredStateRecord → Result DesiredError (Unit {0})
validate r = do
  refuse_if (not (r.protocol_version == desired_protocol_version))
      (protocol_version_unsupported r.protocol_version)
  refuse_if
      (ltb r.schema_version desired_min_supported_schema_version
        || ltb desired_schema_version r.schema_version)
      (schema_version_unsupported r.schema_version)
  refuse_if
      (is_empty r.project_id
        || is_empty r.service
        || is_empty r.author_node_id
        || r.revision == 0
        || r.author_epoch == 0)
      invalid_record

-- `impl From<ProvenanceError> for DesiredError`
abbrev pub from_provenance : ProvenanceError → DesiredError
from_provenance unknown_peer = unknown_author
from_provenance not_owner = not_author

unfoldable pub verify :
    DesiredStateRecord
    → RecordProvenance
    → String
    → ℕ
    → MembershipView
    → Result DesiredError (Unit {0})
verify r provenance project_id recovery_epoch membership = do
  validate r
  refuse_if (not (str_eq r.project_id project_id)) wrong_project
  refuse_if (not (r.recovery_epoch == recovery_epoch)) recovery_epoch_mismatch
  map_err from_provenance (authenticate membership provenance r.author_node_id)
  author ← ok_or (get membership r.author_node_id) unknown_author
  refuse_if (not (author.owner_epoch == r.author_epoch)) stale_author

pub data DesiredApply : Type 0 where
  applied duplicate superseded : DesiredApply

pub record DesiredStateView : Type 0 where
  pub records : Map DesiredStateRecord
  pub record_ids : List String

abbrev pub empty_view : DesiredStateView
empty_view = record { records = []; record_ids = [] }

unfoldable pub order : DesiredStateRecord → String → DesiredStateRecord → String → Ordering
order r id c current_id = then_cmp (compare r.revision c.revision) (compare_str id current_id)

module _ (content_hash : DesiredStateRecord → String) where
  abbrev pub loses : DesiredStateRecord → Option DesiredStateRecord → Bool
  loses r none = Bool.false
  loses r (some c) = is_le (order r (content_hash r) c (content_hash c))

  -- `apply` behind `verify`
  unfoldable pub merge : DesiredStateView → DesiredStateRecord → DesiredStateView × DesiredApply
  merge v r =
      if contains (content_hash r) v.record_ids
      then (v, duplicate)
      else if loses r (lookup r.service v.records)
      then (record v { record_ids = include (content_hash r) v.record_ids }, superseded)
      else (
        record {
          records = insert r.service r v.records;
          record_ids = include (content_hash r) v.record_ids;
        },
        applied,
      )

  unfoldable pub apply :
      DesiredStateView
      → DesiredStateRecord
      → RecordProvenance
      → String
      → ℕ
      → MembershipView
      → Result DesiredError (DesiredStateView × DesiredApply)
  apply v r provenance project_id recovery_epoch membership = do
    verify r provenance project_id recovery_epoch membership
    ok (merge v r)

  -- The loop of `from_records`
  unfoldable pub apply_all :
      DesiredStateView
      → List (DesiredStateRecord × RecordProvenance)
      → String
      → ℕ
      → MembershipView
      → Result DesiredError DesiredStateView
  apply_all v [] project_id recovery_epoch membership = ok v
  apply_all v ((r, provenance) ∷ rs) project_id recovery_epoch membership =
      apply v r provenance project_id recovery_epoch membership >>= λ p.
      apply_all p.0 rs project_id recovery_epoch membership

  unfoldable pub from_records :
      List (DesiredStateRecord × RecordProvenance)
      → String
      → ℕ
      → MembershipView
      → Result DesiredError DesiredStateView
  from_records rs = apply_all empty_view rs
