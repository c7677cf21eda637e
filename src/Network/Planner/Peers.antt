-- ===== src/Network/Planner/Peers.antt =====
-- The peers of every server: crates/jiji-network/src/planner.rs, `populate_server_networks`.
use Prim.Native.String.{◌++◌ as join}
use jiji.Common.{
  ℕ, ◌^◌, ◌<◌, ◌≡◌, refl, ap, ◌∙◌, inl, inr, not, Option, none, some, List, [], ◌∷◌, ◌++◌, map,
  String, str_eq, ok, arith, Bool-cases, keep, All,
}
use jiji.Common.Map.{Map, lookup, values}
use jiji.Network.Cidr.{Ipv4Cidr, new}
use jiji.Network.Cidr.Range.{new_iff}
use jiji.Network.Planner.{
  ServerPlan, WireGuardPeerPlan, RoutePlan, with_peer, add_peers, populate,
  populate_server_networks, show_port,
}

-- The route to one address.
abbrev pub host_route : ServerPlan → Ipv4Cidr
host_route other = record { network = other.management_address; prefix = 32 }

-- A server as its peers know it.
abbrev pub peer_of : ServerPlan → WireGuardPeerPlan
peer_of other = record {
  server = other.name;
  endpoint = join other.public_host (join ":" (show_port other.wireguard_port));
  management_address = other.management_address;
  allowed_ips = host_route other ∷ other.container_subnet ∷ [];
}

abbrev pub others : ServerPlan → List ServerPlan → List ServerPlan
others server = keep (λ other. not (str_eq other.name server.name))

abbrev pub route_of : ServerPlan → ServerPlan → RoutePlan
route_of server other = record {
  destination = other.container_subnet;
  interface = server.wireguard_interface;
}

abbrev pub subnet_of : ServerPlan → Ipv4Cidr
subnet_of other = other.container_subnet

-- A server that knows the others.
abbrev pub meshed : List ServerPlan → ServerPlan → ServerPlan
meshed snapshots server = record server {
  peers = server.peers ++ map peer_of (others server snapshots);
  routes = server.routes ++ map (route_of server) (others server snapshots);
  firewall = record server.firewall {
    remote_container_subnets =
        server.firewall.remote_container_subnets ++ map subnet_of (others server snapshots);
  };
}

new_host : (a : ℕ) → a < 2 ^ 32 → new a 32 ≡ ok (record { network = a; prefix = 32 })
new_host a h =
    (new_iff a 32 _ h).1 (refl, record { short = omega arith; fits = h; aligned = omega arith })

append_nil : {A : Type 0} (xs : List A) → xs ++ [] ≡ xs
append_nil [] = refl
append_nil (x ∷ xs) = ap (λ l. x ∷ l) (append_nil xs)

append_one :
    {A : Type 0} (xs : List A) (y : A) (ys : List A) → (xs ++ (y ∷ [])) ++ ys ≡ xs ++ (y ∷ ys)
append_one [] y ys = refl
append_one (x ∷ xs) y ys = ap (λ l. x ∷ l) (append_one xs y ys)

add_peers-meshed :
    (snapshots : List ServerPlan) (server : ServerPlan)
    → All (λ (o : ServerPlan). o.management_address < 2 ^ 32) snapshots
    → add_peers snapshots server ≡ ok (meshed snapshots server)
unfolding add_peers keep
add_peers-meshed [] server h =
    rw
      (
        append_nil server.peers,
        append_nil server.routes,
        append_nil server.firewall.remote_container_subnets,
      )
      refl
add_peers-meshed (other ∷ snapshots) server h = elim (Bool-cases (str_eq other.name server.name)) [
  | inl t ↦ ground (arith, t, add_peers-meshed snapshots server h.1)
  | inr f ↦
      let step = add_peers-meshed snapshots (with_peer other (host_route other) server) h.1 in
      let first : add_peers (other ∷ snapshots) server
          ≡ add_peers snapshots (with_peer other (host_route other) server) =
        ground (arith, f, new_host other.management_address h.0) in
      let kept : others server (other ∷ snapshots) ≡ other ∷ others server snapshots =
        ground (arith, f) in
      let rest = others server snapshots in
      let last : meshed snapshots (with_peer other (host_route other) server)
          ≡ meshed (other ∷ snapshots) server =
        ground (
          arith,
          kept,
          append_one server.peers (peer_of other) (map peer_of rest),
          append_one server.routes (route_of server other) (map (route_of server) rest),
          append_one server.firewall.remote_container_subnets other.container_subnet
              (map subnet_of rest),
        ) in
      first ∙ step ∙ ap ok last
]

-- A map with its values changed alike.
abbrev pub map_values : {A B : Type 0} → (A → B) → Map A → Map B
map_values f [] = []
map_values f ((k, v) ∷ m) = (k, f v) ∷ map_values f m

abbrev pub mapped : {A B : Type 0} → (A → B) → Option A → Option B
mapped f none = none
mapped f (some a) = some (f a)

pub lookup-map_values :
    {A B : Type 0} (f : A → B) (k : String) (m : Map A)
    → lookup k (map_values f m) ≡ mapped f (lookup k m)
unfolding lookup
lookup-map_values f k [] = refl
lookup-map_values f k ((j, v) ∷ m) = ground (arith, lookup-map_values f k m)

populate-meshed :
    (snapshots : List ServerPlan) (servers : Map ServerPlan)
    → All (λ (o : ServerPlan). o.management_address < 2 ^ 32) snapshots
    → populate snapshots servers ≡ ok (map_values (meshed snapshots) servers)
unfolding populate
populate-meshed snapshots [] h = refl
populate-meshed snapshots ((name, server) ∷ servers) h =
    ground (arith, add_peers-meshed snapshots server h, populate-meshed snapshots servers h)

-- Every server gets, for every other one, a peer with its addresses, a route to its subnet and a pass
-- for it.
pub populate_server_networks-meshed :
    (servers : Map ServerPlan)
    → All (λ (o : ServerPlan). o.management_address < 2 ^ 32) (values servers)
    → populate_server_networks servers ≡ ok (map_values (meshed (values servers)) servers)
unfolding populate_server_networks
populate_server_networks-meshed servers h = populate-meshed (values servers) servers h
