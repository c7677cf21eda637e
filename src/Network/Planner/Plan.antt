-- ===== src/Network/Planner/Plan.antt =====
-- The whole plan: crates/jiji-network/src/planner.rs, `plan`, `plan_endpoints`, `mesh_generation_checksum`.
use jiji.Common.{
  ℕ, ◌-◌, Bool, true, not, Option, none, some, List, [], ◌∷◌, ◌++◌, String, Result, ok, ◌>>=◌, ◌>>◌,
  refuse_if, ok_or, map_err, contains, if◌then◌else◌, ltb, map, is_some,
}
use jiji.Common.Map.{Map, lookup, insert, values}
use jiji.Network.Cidr.{
  Ipv4Cidr, NetworkPlanError, overlapping_address_spaces, container_range_too_small,
  management_range_too_small, duplicate_service_server, unknown_service_server, address_count,
  overlaps, subnet_count,
}
use jiji.Network.Cidr.Parse.{from_str}
use jiji.Network.Cidr.Display.{show_address, to_string}
use jiji.Network.Buckets.{allocate_bucketed}
use jiji.Network.Naming.{
  project_cidrs, wireguard_interface_name, bridge_interface_name, bridge_network_name,
  wireguard_port,
}
use jiji.Network.Planner.{
  Config, Service, Network, NetworkPlan, ServerPlan, WireGuardPeerPlan, ServiceEndpointPlan,
  PlanFailure, refused, Shared, container_server_prefix, server_bucket_capacity, identity_of,
  plan_servers, populate_server_networks, show_port,
}

abbrev pub Identities : Type 0
Identities = Map (List (String × String))

-- The loop over the servers of a service.
unfoldable pub service_identities :
    String
    → Map ServerPlan
    → String
    → List String
    → List String
    → Identities
    → Result NetworkPlanError Identities
unfolding lookup insert contains identity_of
service_identities project servers service_name seen [] identities_by_server =
    ok identities_by_server
service_identities project servers service_name seen (server_name ∷ rest) identities_by_server = do
  refuse_if (contains server_name seen) (duplicate_service_server service_name server_name)
  refuse_if (not (is_some (lookup server_name servers)))
      (unknown_service_server service_name server_name)
  let identity = identity_of project (identity_of service_name server_name)
  let others : List (String × String) = elim (lookup server_name identities_by_server) [
    | none ↦ []
    | some ids ↦ ids
  ]
  service_identities project servers service_name (server_name ∷ seen) rest
      (insert server_name (others ++ ((identity, service_name) ∷ [])) identities_by_server)

-- The loop over the services.
unfoldable pub all_identities :
    String → Map ServerPlan → Map Service → Identities → Result NetworkPlanError Identities
unfolding service_identities
all_identities project servers [] identities_by_server = ok identities_by_server
all_identities project servers ((service_name, service) ∷ services) identities_by_server = do
  more ← service_identities project servers service_name [] service.servers identities_by_server
  all_identities project servers services more

-- The two loops that fill `endpoints`.
unfoldable pub server_endpoints :
    String → String → List (String × String) → Map ServiceEndpointPlan → Map ServiceEndpointPlan
unfolding insert
server_endpoints project server_name [] endpoints = endpoints
server_endpoints project server_name ((identity, service) ∷ identities) endpoints =
    server_endpoints project server_name identities (
      insert identity
        (record { identity = identity; project = project; service = service; server = server_name })
        endpoints)

unfoldable pub all_endpoints :
    String → Identities → Map ServiceEndpointPlan → Map ServiceEndpointPlan
unfolding server_endpoints
all_endpoints project [] endpoints = endpoints
all_endpoints project ((server_name, identities) ∷ rest) endpoints =
    all_endpoints project rest (server_endpoints project server_name identities endpoints)

unfoldable pub plan_endpoints :
    Config → Map ServerPlan → Result NetworkPlanError (Map ServiceEndpointPlan)
unfolding all_identities all_endpoints
plan_endpoints config servers = do
  identities_by_server ← all_identities config.project servers config.services []
  ok (all_endpoints config.project identities_by_server [])

abbrev peer_fields : List WireGuardPeerPlan → List String
peer_fields [] = []
peer_fields (peer ∷ peers) =
    peer.server ∷ peer.endpoint ∷ (map to_string peer.allowed_ips ++ peer_fields peers)

abbrev server_fields : List ServerPlan → List String
server_fields [] = []
server_fields (server ∷ servers) =
    (server.name
      ∷ server.public_host
      ∷ show_address server.management_address
      ∷ to_string server.container_subnet
      ∷ server.wireguard_interface
      ∷ server.bridge_interface
      ∷ server.bridge_name
      ∷ show_port server.wireguard_port
      ∷ peer_fields server.peers)
    ++ server_fields servers

-- What `mesh_generation_checksum` hashes, field by field.
unfoldable pub mesh_fields : Bool → String → Ipv4Cidr → Ipv4Cidr → Map ServerPlan → List String
mesh_fields enabled project management_cidr container_cidr servers =
    (if enabled then "enabled" else "disabled")
    ∷ project
    ∷ to_string management_cidr
    ∷ to_string container_cidr
    ∷ server_fields (values servers)

-- `network.and_then(…).unwrap_or(…)`
abbrev pub chosen : Option String → String → String
chosen none default = default
chosen (some text) default = text

abbrev pub chosen_management : Option Network → Option String
chosen_management none = none
chosen_management (some network) = network.management_cidr

abbrev pub chosen_container : Option Network → Option String
chosen_container none = none
chosen_container (some network) = network.container_cidr

abbrev pub is_enabled : Option Network → Bool
is_enabled none = true
is_enabled (some network) = network.enabled

module _ (stable_hash : String → ℕ) where
  -- The two ranges of the configuration, or of the project.
  unfoldable pub management_range : Config → Result NetworkPlanError Ipv4Cidr
  management_range config =
      from_str
        (chosen (chosen_management config.network) (project_cidrs stable_hash config.project).0)

  unfoldable pub container_range : Config → Result NetworkPlanError Ipv4Cidr
  container_range config =
      from_str
        (chosen (chosen_container config.network) (project_cidrs stable_hash config.project).1)

  -- The slots of the servers, in ranges that hold them.
  unfoldable pub server_slot_assignments :
      Config → Ipv4Cidr → Ipv4Cidr → Result NetworkPlanError (Map ℕ)
  server_slot_assignments config management_cidr container_cidr = do
    refuse_if (overlaps management_cidr container_cidr)
        (overlapping_address_spaces management_cidr container_cidr)
    server_slots ←
        ok_or (subnet_count container_cidr container_server_prefix)
          (container_range_too_small container_cidr container_server_prefix)
    let management_slots = address_count management_cidr - 2
    refuse_if (ltb management_slots server_slots)
        (management_range_too_small management_cidr management_slots server_slots)
    let server_identities = map (λ (p : String × _). identity_of config.project p.0) config.servers
    allocate_bucketed stable_hash server_identities server_slots server_bucket_capacity "servers"

  abbrev pub shared_of : String → Shared
  shared_of project = record {
    port = wireguard_port stable_hash project;
    wireguard = wireguard_interface_name stable_hash project;
    bridge = bridge_interface_name stable_hash project;
    network_name = bridge_network_name stable_hash project;
  }

module _ (stable_hash : String → ℕ) (digest : List String → String) where
  unfoldable pub plan : Config → Result PlanFailure NetworkPlan
  plan config = do
    management_cidr ← map_err refused (management_range stable_hash config)
    container_cidr ← map_err refused (container_range stable_hash config)
    assignments ←
        map_err refused (server_slot_assignments stable_hash config management_cidr container_cidr)
    base_servers ←
        plan_servers config management_cidr container_cidr (shared_of stable_hash config.project)
          assignments []
    endpoints ← map_err refused (plan_endpoints config base_servers)
    servers ← populate_server_networks base_servers
    let enabled = is_enabled config.network
    ok (record {
      enabled = enabled;
      project = config.project;
      management_cidr = management_cidr;
      container_cidr = container_cidr;
      servers = servers;
      endpoints = endpoints;
      mesh_generation =
          digest (mesh_fields enabled config.project management_cidr container_cidr servers);
    })
