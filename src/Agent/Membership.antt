-- ===== src/Agent/Membership.antt =====
-- crates/jiji-agent/src/membership.rs: the members of the mesh and the view that a host keeps of
-- them. `content_hash` (serde_json and SHA-256) is a parameter of the operations that call it; the
-- records hold texts, numbers and plain enums, whose serialization does not fail.
mod Steps
pub mod Claims
pub mod Fences
pub mod Senders
use Prim.Native.Char.{code}
use jiji.Common.{
  ℕ, Bool, true, false, ◌&&◌, ◌||◌, not, Option, none, some, List, [], ◌∷◌, String, Ordering,
  compare, compare_str, then_cmp, str_eq, is_le, Result, ok, err, ◌>>=◌, ◌>>◌, refuse_if, ltb, leb,
  ◌==◌, if◌then◌else◌, find, keep, contains, include,
}
use jiji.Common.Map.{Map, lookup, insert, values}
use jiji.Network.Cidr.{Ipv4Addr, Ipv4Cidr, NetworkPlanError}
use jiji.Network.Cidr.Parse.{from_str}

abbrev pub membership_protocol_version : ℕ
membership_protocol_version = 1

abbrev pub membership_schema_version : ℕ
membership_schema_version = 1

pub data MembershipState : Type 0 where
  active tombstoned : MembershipState

pub data IpAddr : Type 0 where
  v4 : Ipv4Addr → IpAddr
  v6 : ℕ → IpAddr

pub record SocketAddr : Type 0 where
  pub ip : IpAddr
  pub port : ℕ

pub record MembershipRecord : Type 0 where
  pub project_id : String
  pub recovery_epoch : ℕ
  pub protocol_version : ℕ
  pub schema_version : ℕ
  pub node_id : String
  pub server_name : String
  pub wireguard_public_key : String
  pub management_address : Ipv4Addr
  pub container_subnet : String
  pub endpoints : List SocketAddr
  pub owner_epoch : ℕ
  pub revision : ℕ
  pub state : MembershipState

pub data MembershipError : Type 0 where
  invalid_record invalid_subnet wrong_project stale_owner_epoch tombstone_resurrection :
      MembershipError
  server_name_claimed management_address_claimed : MembershipError
  container_subnet_claimed wireguard_key_claimed : MembershipError
  protocol_version_unsupported schema_version_unsupported : ℕ → MembershipError
  recovery_epoch_mismatch : ℕ → ℕ → MembershipError

abbrev pub is_empty : String → Bool
is_empty s = str_eq s ""

abbrev pub no_entries {ℓ} : {A : Type ℓ} → List A → Bool
no_entries [] = true
no_entries (x ∷ xs) = false

-- `char::is_whitespace`: the White_Space property of Unicode.
abbrev is_whitespace : ℕ → Bool
is_whitespace c =
    (leb 9 c && leb c 13)
    || c == 32
    || c == 0x85
    || c == 0xa0
    || c == 0x1680
    || (leb 0x2000 c && leb c 0x200a)
    || c == 0x2028
    || c == 0x2029
    || c == 0x202f
    || c == 0x205f
    || c == 0x3000

-- `s.trim().is_empty()`
unfoldable pub is_blank : String → Bool
is_blank String.[] = true
is_blank (String.◌∷◌ c s) = is_whitespace (code c) && is_blank s

subnet_error : Result NetworkPlanError Ipv4Cidr → Result MembershipError (Unit {0})
subnet_error (ok c) = ok tt
subnet_error (err e) = err invalid_subnet

unfoldable pub validate : MembershipRecord → Result MembershipError (Unit {0})
unfolding is_blank subnet_error
validate r = do
  refuse_if (not (r.protocol_version == membership_protocol_version))
      (protocol_version_unsupported r.protocol_version)
  refuse_if (not (r.schema_version == membership_schema_version))
      (schema_version_unsupported r.schema_version)
  refuse_if
      (is_empty r.project_id
        || is_empty r.node_id
        || is_empty r.server_name
        || is_blank r.wireguard_public_key
        || no_entries r.endpoints
        || r.revision == 0
        || r.owner_epoch == 0)
      invalid_record
  subnet_error (from_str r.container_subnet)

pub record MembershipScope : Type 0 where
  pub project_id : String
  pub recovery_epoch : ℕ

pub data MembershipApply : Type 0 where
  applied duplicate superseded : MembershipApply

pub record MembershipView : Type 0 where
  pub records : Map MembershipRecord
  pub record_ids : List String

abbrev pub empty_view : MembershipView
empty_view = record { records = []; record_ids = [] }

abbrev pub is_active : MembershipRecord → Bool
is_active r = elim r.state [ MembershipState.active ↦ true | MembershipState.tombstoned ↦ false ]

abbrev pub tombstone_rank : MembershipState → ℕ
tombstone_rank MembershipState.active = 0
tombstone_rank MembershipState.tombstoned = 1

unfoldable pub active_members : MembershipView → List MembershipRecord
unfolding keep
active_members v = keep is_active (values v.records)

unfoldable pub get : MembershipView → String → Option MembershipRecord
get v node_id = lookup node_id v.records

-- The claims that one active member makes, against those of the candidate.
unfoldable pub claim_conflict : MembershipRecord → MembershipRecord → Option MembershipError
claim_conflict candidate current =
    if str_eq current.node_id candidate.node_id
    then none
    else if str_eq current.server_name candidate.server_name
    then some server_name_claimed
    else if current.management_address == candidate.management_address
    then some management_address_claimed
    else if str_eq current.container_subnet candidate.container_subnet
    then some container_subnet_claimed
    else if str_eq current.wireguard_public_key candidate.wireguard_public_key
    then some wireguard_key_claimed
    else none

-- The loop of `reject_claim_collisions` over the active members.
unfoldable pub reject_claims :
    MembershipRecord → List MembershipRecord → Result MembershipError (Unit {0})
unfolding claim_conflict
reject_claims candidate [] = ok tt
reject_claims candidate (current ∷ rest) =
    let later = reject_claims candidate rest in
    elim (claim_conflict candidate current) [ some e ↦ err e | none ↦ later ]

unfoldable pub reject_claim_collisions :
    MembershipView → MembershipRecord → Result MembershipError (Unit {0})
unfolding active_members reject_claims
reject_claim_collisions v candidate = reject_claims candidate (active_members v)

unfoldable pub find_by_management_address : MembershipView → Ipv4Addr → Option MembershipRecord
unfolding find
find_by_management_address v a = find (λ r. r.management_address == a) (values v.records)

pub data RecordProvenance : Type 0 where
  local verified : RecordProvenance
  peer : SocketAddr → RecordProvenance

pub data ProvenanceError : Type 0 where
  unknown_peer not_owner : ProvenanceError

sender : MembershipView → IpAddr → Option MembershipRecord
sender v (v4 a) = find_by_management_address v a
sender v (v6 a) = none

unfoldable pub authenticate :
    MembershipView → RecordProvenance → String → Result ProvenanceError (Unit {0})
unfolding sender
authenticate v RecordProvenance.local owner = ok tt
authenticate v RecordProvenance.verified owner = ok tt
authenticate v (peer source) owner = elim (sender v source.ip) [
  | none ↦ err unknown_peer
  | some r ↦ if str_eq r.node_id owner then ok tt else err not_owner
]

unfoldable pub record_order : MembershipRecord → String → MembershipRecord → String → Ordering
record_order r id c current_id = then_cmp (compare r.owner_epoch c.owner_epoch) (
    then_cmp (compare r.revision c.revision) (
      then_cmp (compare (tombstone_rank r.state) (tombstone_rank c.state))
        (compare_str id current_id)))

-- What `apply` decides about a record for a node that the view knows.
pub data Verdict (E : Type 0) : Type 0 where
  admit late : Verdict E
  refuse : E → Verdict E

unfoldable pub against_current :
    MembershipRecord → String → MembershipRecord → String → Verdict MembershipError
unfolding record_order
against_current r id c current_id =
    if ltb r.owner_epoch c.owner_epoch
    then refuse stale_owner_epoch
    else if is_le (record_order r id c current_id)
    then late
    else if not (is_active c) && is_active r && r.owner_epoch == c.owner_epoch
    then refuse tombstone_resurrection
    else admit

abbrev pub verdict_of : {E R : Type 0} → (R → Verdict E) → Option R → Verdict E
verdict_of f none = admit
verdict_of f (some c) = f c

module _ (content_hash : MembershipRecord → String) where
  unfoldable pub verdict : MembershipView → MembershipRecord → Verdict MembershipError
  verdict v r =
      verdict_of (λ c. against_current r (content_hash r) c (content_hash c))
        (lookup r.node_id v.records)

  -- The last steps of `apply`: the claims of an active record, and the two insertions.
  unfoldable pub settle :
      MembershipView → MembershipRecord → Result MembershipError (MembershipView × MembershipApply)
  settle v r = do
    if is_active r then reject_claim_collisions v r else ok tt
    ok (
      record {
        records = insert r.node_id r v.records;
        record_ids = include (content_hash r) v.record_ids;
      },
      applied,
    )

  unfoldable pub conclude :
      MembershipView
      → MembershipRecord
      → Verdict MembershipError
      → Result MembershipError (MembershipView × MembershipApply)
  conclude v r (refuse e) = err e
  conclude v r late =
      ok (record v { record_ids = include (content_hash r) v.record_ids }, superseded)
  conclude v r admit = settle v r

  unfoldable pub apply :
      MembershipView
      → MembershipRecord
      → MembershipScope
      → Result MembershipError (MembershipView × MembershipApply)
  apply v r scope = do
    validate r
    refuse_if (not (str_eq r.project_id scope.project_id)) wrong_project
    refuse_if (not (r.recovery_epoch == scope.recovery_epoch))
        (recovery_epoch_mismatch scope.recovery_epoch r.recovery_epoch)
    if contains (content_hash r) v.record_ids then ok (v, duplicate) else conclude v r (verdict v r)

  -- The loop of `from_records`
  unfoldable pub apply_all :
      MembershipView
      → List MembershipRecord
      → MembershipScope
      → Result MembershipError MembershipView
  apply_all v [] scope = ok v
  apply_all v (r ∷ rs) scope = apply v r scope >>= λ p. apply_all p.0 rs scope

  unfoldable pub from_records :
      List MembershipRecord → MembershipScope → Result MembershipError MembershipView
  from_records rs scope = apply_all empty_view rs scope
