-- ===== src/Examples/Members.antt =====
-- Instances of the theorems on members: crates/jiji-agent/src/membership.rs, and the records that the
-- CLI publishes: crates/jiji-cli/src/commands/network/membership.rs.
use jiji.Common.{
  ℕ, ◌+◌, ◌^◌, ◌<◌, ◌≡◌, refl, true, false, some, some_inj, [], ◌∷◌, ok, err, String, find, keep,
  arith, contains, include, In, subst, inl, inr,
}
use jiji.Common.Map.{lookup, insert, values}
use jiji.Network.Cidr.{Ipv4Addr, new, prefix_mask}
use jiji.Network.Cidr.Parse.{
  from_str, split_once, parse_address, parse_octet, parse_u8, byte_digits,
}
use jiji.Agent.Membership.{
  MembershipRecord, MembershipState, MembershipView, MembershipScope, SocketAddr, v4, peer, applied,
  active, tombstoned, is_active, is_blank, validate, active_members, claim_conflict, reject_claims,
  reject_claim_collisions, find_by_management_address, authenticate, record_order, against_current,
  admit, verdict, settle, conclude, apply, apply_all, from_records, not_owner,
}
use jiji.Agent.Membership.Claims.{IsView, from_records-IsView}
use jiji.Agent.Membership.Fences.{Holds, apply_all-Advances}
use jiji.Agent.Membership.Senders.{replaced_node_refused}
use jiji.Cli.Members.{reconcile_record, compute_decommissions}
use jiji.Cli.Members as Cli
use jiji.Cli.Members.Published.{reconcile_record-admit, compute_decommissions-admit}

abbrev pub member : String → String → Ipv4Addr → String → ℕ → MembershipState → MembershipRecord
member node key address subnet revision state = record {
  project_id = "shop";
  recovery_epoch = 1;
  protocol_version = 1;
  schema_version = 1;
  node_id = node;
  server_name = node;
  wireguard_public_key = key;
  management_address = address;
  container_subnet = subnet;
  endpoints = record { ip = v4 3232235777; port = 51820 } ∷ [];
  owner_epoch = 1;
  revision = revision;
  state = state;
}

abbrev pub a : MembershipRecord
a = member "a" "key-a" 1681915905 "10.0.1.0/24" 1 active

abbrev pub b : MembershipRecord
b = member "b" "key-b" 1681915906 "10.0.2.0/24" 1 active

abbrev pub a_gone : MembershipRecord
a_gone = member "a" "key-a" 1681915905 "10.0.1.0/24" 2 tombstoned

-- A node that takes over the addresses of `a`.
abbrev pub c : MembershipRecord
c = member "c" "key-c" 1681915905 "10.0.1.0/24" 1 active

abbrev pub scope : MembershipScope
scope = record { project_id = "shop"; recovery_epoch = 1 }

-- It tells these records apart.
abbrev pub hash : MembershipRecord → String
hash r = elim r.state [ active ↦ r.node_id | tombstoned ↦ r.wireguard_public_key ]

abbrev pub view_a : MembershipView
view_a = record { records = ("a", a) ∷ []; record_ids = "a" ∷ [] }

abbrev pub view_ab : MembershipView
view_ab = record { records = ("a", a) ∷ ("b", b) ∷ []; record_ids = "b" ∷ "a" ∷ [] }

abbrev pub view_gone : MembershipView
view_gone = record { records = ("a", a_gone) ∷ []; record_ids = "key-a" ∷ "a" ∷ [] }

rebuilt : from_records hash (a ∷ b ∷ []) scope ≡ ok view_ab
unfolding from_records apply_all apply validate is_blank from_str split_once parse_address
    parse_octet parse_u8 byte_digits new prefix_mask verdict conclude settle reject_claim_collisions
    reject_claims claim_conflict active_members keep contains include insert lookup
rebuilt = refl

second_applied : apply hash view_a b scope ≡ ok (view_ab, applied)
unfolding apply validate is_blank from_str split_once parse_address parse_octet parse_u8 byte_digits
    new prefix_mask verdict conclude settle reject_claim_collisions reject_claims claim_conflict
    active_members keep contains include insert lookup
second_applied = refl

gone : apply_all hash view_a (a_gone ∷ []) scope ≡ ok view_gone
unfolding apply_all apply validate is_blank from_str split_once parse_address parse_octet parse_u8
    byte_digits new prefix_mask verdict against_current record_order conclude settle contains
    include insert lookup
gone = refl

known_a : lookup "a" view_a.records ≡ some a
unfolding lookup
known_a = refl

c_valid : validate c ≡ ok tt
unfolding validate is_blank from_str split_once parse_address parse_octet parse_u8 byte_digits new
    prefix_mask
c_valid = refl

from_records-IsView_example : IsView view_ab
from_records-IsView_example = from_records-IsView hash (a ∷ b ∷ []) scope view_ab rebuilt

alone : from_records hash (a ∷ []) scope ≡ ok view_a
unfolding from_records apply_all apply validate is_blank from_str split_once parse_address
    parse_octet parse_u8 byte_digits new prefix_mask verdict conclude settle reject_claim_collisions
    reject_claims claim_conflict active_members keep contains include insert lookup
alone = refl

apply_all-Advances_example : Holds hash "a" a view_gone
apply_all-Advances_example =
    apply_all-Advances hash scope view_a view_gone (a_gone ∷ []) "a" a known_a gone

abbrev source_a : SocketAddr
source_a = record { ip = v4 1681915905; port = 51821 }

from_a : authenticate view_a (peer source_a) "a" ≡ ok tt
unfolding authenticate find_by_management_address find
from_a = refl

replaced_node_refused_example :
    (v' : MembershipView) × (apply hash
        (record { records = ("a", a_gone) ∷ []; record_ids = "key-a" ∷ [] })
        c
        scope
      ≡ ok (v', applied))
    × (authenticate v' (peer source_a) "c" ≡ err not_owner)
    × (authenticate v' (peer source_a) "a" ≡ ok tt)
replaced_node_refused_example =
    replaced_node_refused hash scope a_gone c 51821 refl refl refl c_valid refl refl (λ e. cc)

-- The server `a` with a new WireGuard key.
abbrev candidate : MembershipRecord
candidate = member "a" "key-new" 1681915905 "10.0.1.0/24" 1 active

abbrev next : MembershipRecord
next = record candidate { owner_epoch = 2 }

reconciled_next : reconcile_record (lookup "a" view_a.records) candidate ≡ some next
unfolding reconcile_record lookup
reconciled_next = refl

bounds :
    (r : MembershipRecord)
    → lookup "a" view_a.records ≡ some r
    → (r.owner_epoch + 1 < 2 ^ 64) × (r.revision + 1 < 2 ^ 64)
unfolding lookup
bounds r h =
    subst (λ x. (x.owner_epoch + 1 < 2 ^ 64) × (x.revision + 1 < 2 ^ 64)) (some_inj a r h)
      (omega arith, omega arith)

reconcile_record-admit_example : verdict hash view_a next ≡ admit
reconcile_record-admit_example =
    reconcile_record-admit hash view_a next candidate reconciled_next bounds

decommissioned_a : In (Cli.tombstoned a) (compute_decommissions ("b" ∷ []) view_ab)
unfolding compute_decommissions keep contains
decommissioned_a = inl refl

revisions : (r : MembershipRecord) → In r (values view_ab.records) → r.revision + 1 < 2 ^ 64
revisions r (inl e) = rw e (omega arith)
revisions r (inr (inl e)) = rw e (omega arith)
revisions r (inr (inr i)) = elim i [ ]

compute_decommissions-admit_example :
    (r : MembershipRecord) × (lookup r.node_id view_ab.records ≡ some r)
    × (is_active r ≡ true)
    × (contains r.server_name ("b" ∷ []) ≡ false)
    × (Cli.tombstoned a ≡ Cli.tombstoned r)
    × (verdict hash view_ab (Cli.tombstoned a) ≡ admit)
compute_decommissions-admit_example =
    compute_decommissions-admit hash ("b" ∷ []) view_ab (Cli.tombstoned a) ((refl, tt), (tt, tt))
      (refl, (refl, tt)) revisions decommissioned_a
