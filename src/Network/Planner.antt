-- ===== src/Network/Planner.antt =====
-- crates/jiji-network/src/planner.rs, over the fields of the configuration
-- (crates/jiji-config/src/schema.rs) that it reads. The order of a `HashMap` is that of its keys. The
-- hash of a text and the digest of the fields that `mesh_generation` covers are parameters.
pub mod Plan
pub mod Servers
pub mod Peers
pub mod Assigned
pub mod Run
pub mod Mesh
pub mod Select
use Prim.Native.String.{◌++◌ as join, slice, len}
use text.Mathlib.Text.{starts_with}
use jiji.Common.{
  ℕ, zero, suc, ◌+◌, ◌-◌, ◌/◌, ◌%◌, Bool, true, false, Option, none, some, List, [], ◌∷◌, ◌++◌,
  String, str_eq, Result, ok, err, ◌>>=◌, ◌>>◌, refuse_if, map_err, contains, if◌then◌else◌, ltb,
  keep, any, map, ◌||◌,
}
use jiji.Common.Map.{Map, lookup, insert, values}
use jiji.Core.Pattern.{matches_pattern}
use jiji.Network.Cidr.{
  Ipv4Addr, Ipv4Cidr, NetworkPlanError, overlapping_address_spaces, container_range_too_small,
  management_range_too_small, duplicate_service_server, unknown_service_server,
  unmatched_host_filter, unmatched_service_filter, new, address, address_count, overlaps, subnet,
  subnet_count,
}
use jiji.Network.Cidr.Parse.{from_str}
use jiji.Network.Cidr.Display.{digit, show_address, to_string}
use jiji.Network.Buckets.{allocate_bucketed}
use jiji.Network.Naming.{
  project_cidrs, wireguard_interface_name, bridge_interface_name, bridge_network_name,
  wireguard_port,
}

pub record NamedServer : Type 0 where
  pub host : String

pub record Service : Type 0 where
  pub servers : List String

pub record Network : Type 0 where
  pub enabled : Bool
  pub management_cidr : Option String
  pub container_cidr : Option String

pub record Config : Type 0 where
  pub project : String
  pub servers : Map NamedServer
  pub services : Map Service
  pub network : Option Network

abbrev pub container_server_prefix : ℕ
container_server_prefix = 21

abbrev pub server_bucket_capacity : ℕ
server_bucket_capacity = 8

pub record WireGuardPeerPlan : Type 0 where
  pub server : String
  pub endpoint : String
  pub management_address : Ipv4Addr
  pub allowed_ips : List Ipv4Cidr

pub record RoutePlan : Type 0 where
  pub destination : Ipv4Cidr
  pub interface : String

pub record FirewallPlan : Type 0 where
  pub local_container_subnet : Ipv4Cidr
  pub remote_container_subnets : List Ipv4Cidr

pub record ServerPlan : Type 0 where
  pub name : String
  pub public_host : String
  pub management_address : Ipv4Addr
  pub container_subnet : Ipv4Cidr
  pub bridge_gateway : Ipv4Addr
  pub dns_address : Ipv4Addr
  pub proxy_address : Ipv4Addr
  pub wireguard_port : ℕ
  pub wireguard_interface : String
  pub bridge_interface : String
  pub bridge_name : String
  pub peers : List WireGuardPeerPlan
  pub routes : List RoutePlan
  pub firewall : FirewallPlan

pub record ServiceEndpointPlan : Type 0 where
  pub identity : String
  pub project : String
  pub service : String
  pub server : String

pub record NetworkPlan : Type 0 where
  pub enabled : Bool
  pub project : String
  pub management_cidr : Ipv4Cidr
  pub container_cidr : Ipv4Cidr
  pub servers : Map ServerPlan
  pub endpoints : Map ServiceEndpointPlan
  pub mesh_generation : String

-- An error that `plan` returns, or an `expect` that fails.
pub data PlanFailure : Type 0 where
  refused : NetworkPlanError → PlanFailure
  panicked : PlanFailure

abbrev pub expect : {A : Type 0} → Option A → Result PlanFailure A
expect none = err panicked
expect (some a) = ok a

abbrev pub expect_ok : {A E : Type 0} → Result E A → Result PlanFailure A
expect_ok (err e) = err panicked
expect_ok (ok a) = ok a

-- `str::strip_prefix`
unfoldable pub strip_prefix : String → String → Option String
strip_prefix s prefix = if starts_with s prefix then some (slice s (len prefix) (len s)) else none

-- A number in decimal, of at most one digit more than `fuel`.
unfoldable pub show_decimal : ℕ → ℕ → String
show_decimal zero n = digit (n % 10)
show_decimal (suc fuel) n =
    let rest = show_decimal fuel (n / 10) in
    if ltb n 10 then digit n else join rest (digit (n % 10))

-- A `u16` in decimal.
abbrev pub show_port : ℕ → String
show_port n = show_decimal 4 n

unfoldable pub identity_of : String → String → String
identity_of project name = join project (join ":" name)

-- What every server of a project shares.
pub record Shared : Type 0 where
  pub port : ℕ
  pub wireguard : String
  pub bridge : String
  pub network_name : String

-- The plan of the server of an identity at a slot, without its peers.
unfoldable pub plan_server :
    Config → Ipv4Cidr → Ipv4Cidr → Shared → String → ℕ → Result PlanFailure ServerPlan
unfolding strip_prefix lookup subnet address
plan_server config management_cidr container_cidr shared identity slot = do
  name ← expect (strip_prefix identity (join config.project ":"))
  named_server ← expect (lookup name config.servers)
  container_subnet ← expect (subnet container_cidr container_server_prefix slot)
  management_address ← expect (address management_cidr (slot + 1))
  bridge_gateway ← expect (address container_subnet 1)
  dns_address ← expect (address container_subnet 2)
  proxy_address ← expect (address container_subnet 3)
  ok (record {
    name = name;
    public_host = named_server.host;
    management_address = management_address;
    container_subnet = container_subnet;
    bridge_gateway = bridge_gateway;
    dns_address = dns_address;
    proxy_address = proxy_address;
    wireguard_port = shared.port;
    wireguard_interface = shared.wireguard;
    bridge_interface = shared.bridge;
    bridge_name = shared.network_name;
    peers = [];
    routes = [];
    firewall = record { local_container_subnet = container_subnet; remote_container_subnets = [] };
  })

-- The loop over the assignments.
unfoldable pub plan_servers :
    Config
    → Ipv4Cidr
    → Ipv4Cidr
    → Shared
    → Map ℕ
    → Map ServerPlan
    → Result PlanFailure (Map ServerPlan)
unfolding plan_server insert
plan_servers config management_cidr container_cidr shared [] base_servers = ok base_servers
plan_servers config management_cidr container_cidr shared ((identity, slot) ∷ rest) base_servers =
    do
      server ← plan_server config management_cidr container_cidr shared identity slot
      plan_servers config management_cidr container_cidr shared rest
          (insert server.name server base_servers)

-- What a server is told of another one.
abbrev pub with_peer : ServerPlan → Ipv4Cidr → ServerPlan → ServerPlan
with_peer other host_route server = record server {
  peers =
      server.peers
      ++ (record {
        server = other.name;
        endpoint = join other.public_host (join ":" (show_port other.wireguard_port));
        management_address = other.management_address;
        allowed_ips = host_route ∷ other.container_subnet ∷ [];
      }
          ∷ []);
  routes =
      server.routes
      ++ (record { destination = other.container_subnet; interface = server.wireguard_interface }
          ∷ []);
  firewall = record server.firewall {
    remote_container_subnets =
        server.firewall.remote_container_subnets ++ (other.container_subnet ∷ []);
  };
}

-- The inner loop of `populate_server_networks`.
unfoldable pub add_peers : List ServerPlan → ServerPlan → Result PlanFailure ServerPlan
unfolding new
add_peers [] server = ok server
add_peers (other ∷ snapshots) server = elim (str_eq other.name server.name) [
  | true ↦ add_peers snapshots server
  | false ↦ expect_ok (new other.management_address 32) >>= λ host_route.
      add_peers snapshots (with_peer other host_route server)
]

-- Its outer loop, over the servers to change.
unfoldable pub populate : List ServerPlan → Map ServerPlan → Result PlanFailure (Map ServerPlan)
unfolding add_peers
populate snapshots [] = ok []
populate snapshots ((name, server) ∷ servers) = do
  server' ← add_peers snapshots server
  servers' ← populate snapshots servers
  ok ((name, server') ∷ servers')

unfoldable pub populate_server_networks : Map ServerPlan → Result PlanFailure (Map ServerPlan)
unfolding populate
populate_server_networks servers = populate (values servers) servers
