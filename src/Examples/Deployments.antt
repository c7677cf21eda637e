-- ===== src/Examples/Deployments.antt =====
-- Instances of the theorems on deployments: crates/jiji-agent/src/catalog.rs.
use jiji.Common.{ℕ, ◌≤◌, ◌≡◌, refl, some, [], ◌∷◌, ok, String, find, contains, include, In}
use jiji.Common.Map.{lookup, insert, values}
use jiji.Network.Cidr.{Ipv4Addr}
use jiji.Agent.Membership.{
  MembershipRecord, SocketAddr, v4, peer, verified, authenticate, find_by_management_address,
}
use jiji.Agent.Catalog.{
  CatalogRecord, CatalogView, DeploymentState, active, tombstoned, healthy, applied, validate,
  verify, order, replica_owner_epoch, against_current, verdict, conclude, apply, apply_all,
  active_healthy,
}
use jiji.Agent.Catalog.Fences.{Holds, catalog_fence, applied_not_stale, peer_owns_record}
use jiji.Agent.Catalog.Winners.{IsAnswer, active_healthy-IsAnswer}
use jiji.Examples.Members.{view_ab}

abbrev pub deployment : String → ℕ → DeploymentState → CatalogRecord
deployment id revision state = record {
  project_id = "shop";
  recovery_epoch = 1;
  protocol_version = 1;
  schema_version = 2;
  service = "web";
  replica_id = "web-1";
  owner_node_id = "a";
  owner_epoch = 1;
  revision = revision;
  deployment_id = id;
  address = 167772426;
  ports = 8080 ∷ [];
  image = "web:1";
  state = state;
  health = healthy;
}

abbrev pub d : CatalogRecord
d = deployment "dep-1" 1 active

abbrev pub d_gone : CatalogRecord
d_gone = deployment "dep-1" 2 tombstoned

abbrev pub e : CatalogRecord
e = deployment "dep-2" 1 active

-- It tells these records apart.
abbrev pub hash : CatalogRecord → String
hash r = elim r.state [ tombstoned ↦ "tombstone" | _ ↦ r.deployment_id ]

abbrev pub view_d : CatalogView
view_d = record { records = ("dep-1", d) ∷ []; record_ids = "dep-1" ∷ [] }

abbrev view_de : CatalogView
view_de = record { records = ("dep-1", d) ∷ ("dep-2", e) ∷ []; record_ids = "dep-2" ∷ "dep-1" ∷ [] }

abbrev view_gone : CatalogView
view_gone = record { records = ("dep-1", d_gone) ∷ []; record_ids = "tombstone" ∷ "dep-1" ∷ [] }

abbrev source_a : SocketAddr
source_a = record { ip = v4 1681915905; port = 51821 }

known_d : lookup "dep-1" view_d.records ≡ some d
unfolding lookup
known_d = refl

gone : apply_all hash view_d ((d_gone, verified) ∷ []) "shop" 1 view_ab ≡ ok view_gone
unfolding apply_all apply verify validate authenticate verdict replica_owner_epoch against_current
    order conclude contains include insert lookup
gone = refl

second_applied : apply hash view_d e (peer source_a) "shop" 1 view_ab ≡ ok (view_de, applied)
unfolding apply verify validate authenticate find_by_management_address find verdict
    replica_owner_epoch against_current order conclude contains include insert lookup
second_applied = refl

catalog_fence_example : Holds hash "dep-1" d view_gone
catalog_fence_example =
    catalog_fence hash "shop" 1 view_ab view_d view_gone ((d_gone, verified) ∷ []) "dep-1" d known_d
      gone

applied_not_stale_example : d.owner_epoch ≤ e.owner_epoch
applied_not_stale_example =
    applied_not_stale hash view_d view_de e (peer source_a) "shop" 1 view_ab "dep-1" d
      second_applied known_d refl

peer_owns_record_example :
    (address : Ipv4Addr) × (m : MembershipRecord) × (v4 1681915905 ≡ v4 address)
    × In m (values view_ab.records)
    × (m.management_address ≡ address)
    × (m.node_id ≡ "a")
peer_owns_record_example =
    peer_owns_record hash view_d view_de e source_a "shop" 1 view_ab applied second_applied

active_healthy-IsAnswer_example : IsAnswer (d ∷ e ∷ []) (active_healthy view_de)
active_healthy-IsAnswer_example = active_healthy-IsAnswer view_de
