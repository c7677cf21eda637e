-- ===== src/Examples/Plans.antt =====
-- Tests of the network plan and instances of its theorems: crates/jiji-network/src/planner.rs,
-- naming.rs and cidr.rs.
use jiji.Common.{ℕ, ◌^◌, ◌≤◌, ◌<◌, ◌≡◌, ◌≢◌, refl, none, ok, err, List, [], ◌∷◌, String, arith}
use jiji.Network.Cidr.{
  Ipv4Cidr, overlaps, contains, subnet_count, subnet, address, address_count, new, prefix_mask,
}
use jiji.Network.Cidr.Range.{IsCidr}
use jiji.Network.Cidr.Parse.{
  from_str, split_once, parse_octet, parse_u8, parse_address, byte_digits,
}
use jiji.Network.Cidr.Display.{show_byte, show_address, to_string}
use jiji.Network.Cidr.Printed.{from_str-to_string}
use jiji.Network.Buckets.{allocate_bucketed}
use jiji.Network.Buckets.Outcome.{Outcome, allocate_bucketed-Outcome}
use jiji.Network.Naming.{
  project_cidrs, salted_hash, hex_digits, show_hex, project_slug, slug_of, trim_dashes,
  ends_with_dash, bridge_network_name, wireguard_interface_name, bridge_interface_name,
  wireguard_port, catalog_replication_port,
}
use jiji.Network.Naming.Defaults.{Usable, project_cidrs-Usable, names_fit}
use Prim.Native.String.{len}
use jiji.Common.Map.{Map, Ascending}
use jiji.Network.Cidr.{unmatched_host_filter, unmatched_service_filter}
use jiji.Core.Pattern.{matches_pattern}
use jiji.Network.Planner.Select.{select, select_hosts, select_endpoints}
use jiji.Network.Planner.Select.Outcome.{Selected}
use jiji.Network.Planner.Select.Filters.{HostFits, EndpointFits, select_hosts-Selected}
use jiji.Network.Planner.{
  ServiceEndpointPlan, Config, NetworkPlan, panicked, plan_servers, identity_of,
  populate_server_networks, show_decimal,
}
use jiji.Network.Planner.Plan.{
  plan, management_range, container_range, server_slot_assignments, plan_endpoints, mesh_fields,
}
use jiji.Network.Planner.Run.{plan-safe}
use jiji.Network.Planner.Mesh.{IsMesh, plan-IsMesh}

-- 100.64.8.0/21
abbrev range : Ipv4Cidr
range = record { network = 1681917952; prefix = 21 }

range-IsCidr : IsCidr range
range-IsCidr = record { short = omega arith; fits = omega arith; aligned = refl }

printed : to_string range ≡ "100.64.8.0/21"
unfolding to_string show_address show_byte
printed = refl

from_str-to_string_example : from_str (to_string range) ≡ ok range
from_str-to_string_example = from_str-to_string range range-IsCidr

-- A hash for the tests.
abbrev flat_hash : String → ℕ
flat_hash s = 439041101

abbrev no_digest : List String → String
no_digest fields = "generation"

slug : project_slug flat_hash "My  App_" ≡ "my-app-1a2b3c4d"
unfolding project_slug slug_of trim_dashes ends_with_dash show_hex hex_digits
slug = refl

project_cidrs-Usable_example :
    Usable
      (from_str (project_cidrs flat_hash "demo").0)
      (from_str (project_cidrs flat_hash "demo").1)
project_cidrs-Usable_example = project_cidrs-Usable flat_hash "demo"

slots :
    allocate_bucketed flat_hash ("demo:data" ∷ "demo:app" ∷ []) 32 8 "servers"
    ≡ ok (("demo:app", 8) ∷ ("demo:data", 9) ∷ [])
unfolding allocate_bucketed
slots = refl

allocate_bucketed-Outcome_example :
    Outcome flat_hash
      ("demo:data" ∷ "demo:app" ∷ [])
      32
      4
      8
      "servers"
      (allocate_bucketed flat_hash ("demo:data" ∷ "demo:app" ∷ []) 32 8 "servers")
allocate_bucketed-Outcome_example =
    allocate_bucketed-Outcome flat_hash "demo:data" ("demo:app" ∷ []) 32 8 "servers" (omega arith)
      (omega arith) (omega arith)

abbrev config : Config
config = record {
  project = "demo";
  servers =
      ("app", record { host = "203.0.113.10" }) ∷ ("data", record { host = "203.0.113.20" }) ∷ [];
  services = ("web", record { servers = "app" ∷ "data" ∷ [] }) ∷ [];
  network = none;
}

planned : (p : NetworkPlan) × (plan flat_hash no_digest config ≡ ok p)
unfolding plan management_range container_range server_slot_assignments plan_servers plan_endpoints
    populate_server_networks mesh_fields from_str split_once parse_octet parse_u8 parse_address
    byte_digits show_byte show_address to_string new prefix_mask overlaps contains subnet_count
    subnet address address_count project_cidrs salted_hash show_hex hex_digits project_slug slug_of
    trim_dashes ends_with_dash bridge_network_name wireguard_interface_name bridge_interface_name
    wireguard_port show_decimal identity_of allocate_bucketed
planned = (_, refl)

servers-Ascending : Ascending config.servers
servers-Ascending = ((refl, tt), (tt, tt))

plan-IsMesh_example : IsMesh config planned.0
plan-IsMesh_example = plan-IsMesh flat_hash no_digest config servers-Ascending planned.0 planned.1

plan-safe_example : plan flat_hash no_digest config ≢ err panicked
plan-safe_example = plan-safe flat_hash no_digest config servers-Ascending

names_fit_example :
    (len (wireguard_interface_name flat_hash "demo") ≡ 12)
    × (len (bridge_interface_name flat_hash "demo") ≡ 12)
    × (wireguard_port flat_hash "demo" < 55820)
    × (58000 ≤ catalog_replication_port flat_hash "demo")
    × (catalog_replication_port flat_hash "demo" < 2 ^ 16)
names_fit_example = names_fit flat_hash "demo"

abbrev endpoint : String → String → ServiceEndpointPlan
endpoint service server = record {
  identity = "";
  project = "demo";
  service = service;
  server = server;
}

abbrev endpoints : Map ServiceEndpointPlan
endpoints = ("demo:db:app", endpoint "db" "app") ∷ ("demo:web:app", endpoint "web" "app") ∷ []

abbrev with_endpoints : NetworkPlan
with_endpoints = record planned.0 { endpoints = endpoints }

selected_servers : Ascending with_endpoints.servers
unfolding planned
selected_servers = ((refl, tt), (tt, tt))

select_hosts-Selected_example :
    Selected unmatched_host_filter with_endpoints.servers
      ("w*" ∷ [])
      HostFits
      (select_hosts with_endpoints ("w*" ∷ []))
    × Selected unmatched_service_filter endpoints
        ("w*" ∷ [])
        EndpointFits
        (select_endpoints with_endpoints ("w*" ∷ []))
select_hosts-Selected_example =
    select_hosts-Selected with_endpoints "w*" [] selected_servers ((refl, tt), (tt, tt))

one_endpoint : select_endpoints with_endpoints ("w*" ∷ []) ≡ ok (endpoint "web" "app" ∷ [])
unfolding select_endpoints select matches_pattern
one_endpoint = refl

second_filter :
    select_endpoints with_endpoints ("w*" ∷ "cache" ∷ []) ≡ err (unmatched_service_filter "cache")
unfolding select_endpoints select matches_pattern
second_filter = refl
