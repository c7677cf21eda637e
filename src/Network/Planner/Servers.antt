-- ===== src/Network/Planner/Servers.antt =====
-- The plan of every server: crates/jiji-network/src/planner.rs, the loop of `plan` over the assignments.
use Prim.Native.String.{◌++◌ as join}
use text.Mathlib.TextPositions.{starts_with-append, slice-append_right, len-append}
use text.Mathlib.TextLemmas.{append_assoc, append_cancel_left}
use jiji.Common.{
  ℕ, ◌+◌, ◌-◌, ◌^◌, ◌≤◌, ◌<◌, ◌≡◌, ◌⊎◌, refl, sym, ◌∙◌, inl, inr, true, some, [], ◌∷◌, String,
  str_eq, ok, arith, eq_iff, Bool-cases, is_some,
}
use jiji.Common.Map.{
  Map, lookup, insert, lookup-insert, AllPairs, AllPairs-insert, Ascending, insert-Ascending,
}
use jiji.Network.Cidr.{Ipv4Cidr, address}
use jiji.Network.Cidr.Range.{size, IsCidr, address_lem}
use jiji.Network.Cidr.Subnets.{block, subnet_lem, subnet-IsCidr}
use jiji.Network.Planner.{
  Config, NamedServer, ServerPlan, Shared, strip_prefix, identity_of, plan_server, plan_servers,
}

strip_prefix-identity_of :
    (project name : String) → strip_prefix (identity_of project name) (join project ":") ≡ some name
unfolding strip_prefix identity_of
strip_prefix-identity_of project name =
    rw
      (
        sym (append_assoc project ":" name),
        starts_with-append (join project ":") name,
        len-append (join project ":") name,
        slice-append_right (join project ":") name,
      )
      refl

-- The two ranges of a plan: readable, apart, with room for the servers.
pub record IsRanges (management container : Ipv4Cidr) (server_slots : ℕ) : Type 0 where
  pub management_range : IsCidr management
  pub container_range : IsCidr container
  pub wide : container.prefix ≤ 21
  pub slots : server_slots ≡ 2 ^ (21 - container.prefix)
  pub room : server_slots ≤ size management.prefix - 2

module _ (config : Config) (m c : Ipv4Cidr) (shared : Shared) (total : ℕ)
    (r : IsRanges m c total) where
  -- The plan of a server by its name and its slot.
  abbrev pub server_at : String → String → ℕ → ServerPlan
  server_at name host slot = record {
    name = name;
    public_host = host;
    management_address = m.network + (slot + 1);
    container_subnet = block c 21 slot;
    bridge_gateway = (block c 21 slot).network + 1;
    dns_address = (block c 21 slot).network + 2;
    proxy_address = (block c 21 slot).network + 3;
    wireguard_port = shared.port;
    wireguard_interface = shared.wireguard;
    bridge_interface = shared.bridge;
    bridge_name = shared.network_name;
    peers = [];
    routes = [];
    firewall = record { local_container_subnet = block c 21 slot; remote_container_subnets = [] };
  }

  in_subnet :
      (slot offset : ℕ)
      → slot < total
      → offset < 2048
      → address (block c 21 slot) offset ≡ some ((block c 21 slot).network + offset)
  in_subnet slot offset h k =
      let v =
        subnet-IsCidr c 21 slot r.container_range r.wide (omega arith) (omega (arith, r.slots)) in
      ground (arith, address_lem (block c 21 slot) offset v)

  -- No `expect` fails for an identity and a slot that `plan` can meet.
  plan_server-server_at :
      (name : String) (server : NamedServer) (slot : ℕ)
      → lookup name config.servers ≡ some server
      → slot < total
      → plan_server config m c shared (identity_of config.project name) slot
        ≡ ok (server_at name server.host slot)
  unfolding plan_server
  plan_server-server_at name server slot h k = ground (
    arith,
    strip_prefix-identity_of config.project name,
    h,
    subnet_lem c 21 slot r.container_range r.wide (omega arith) (omega (arith, r.slots)),
    address_lem m (slot + 1) r.management_range,
    r.room,
    in_subnet slot 1 k (omega arith),
    in_subnet slot 2 k (omega arith),
    in_subnet slot 3 k (omega arith),
  )

  pub identity_inj :
      (a b : String) → identity_of config.project a ≡ identity_of config.project b → a ≡ b
  unfolding identity_of
  identity_inj a b h =
      append_cancel_left ":" a b (append_cancel_left config.project (join ":" a) (join ":" b) h)

  module _ (assignments : Map ℕ) where
    -- An identity is that of a configured server, and its slot is assigned to it.
    pub record IsKnown (identity : String) (slot : ℕ) : Type 0 where
      pub name : String
      pub server : NamedServer
      pub is : identity ≡ identity_of config.project name
      pub configured : lookup name config.servers ≡ some server
      pub small : slot < total
      pub assigned : lookup identity assignments ≡ some slot

    -- The plan of a server is that of its slot.
    pub record IsServer (name : String) (plan : ServerPlan) : Type 0 where
      pub host : String
      pub slot : ℕ
      pub small : slot < total
      pub assigned : lookup (identity_of config.project name) assignments ≡ some slot
      pub plan_is : plan ≡ server_at name host slot

    pub record IsPlanned (out : Map ServerPlan) : Type 0 where
      pub each : AllPairs IsServer out
      pub sorted : Ascending out

    abbrev pub Covers : Map ℕ → Map ServerPlan → Map ServerPlan → Type 0
    Covers pairs base out =
        (name : String)
        → ((is_some (lookup (identity_of config.project name) pairs) ≡ true)
            ⊎ (is_some (lookup name base) ≡ true))
        → is_some (lookup name out) ≡ true

    abbrev ResultOf : Map ℕ → Map ServerPlan → Type 0
    ResultOf pairs base =
        (out : Map ServerPlan) × (plan_servers config m c shared pairs base ≡ ok out)
        × IsPlanned out
        × Covers pairs base out

    -- The loop over the assignments runs through.
    pub plan_servers-IsPlanned :
        (pairs : Map ℕ) (base : Map ServerPlan)
        → AllPairs IsKnown pairs
        → IsPlanned base
        → ResultOf pairs base
    unfolding plan_servers lookup
    plan_servers-IsPlanned [] base known b =
        (base, refl, b, λ name s. elim s [ inl e ↦ absurd (ground (arith, e)) | inr e ↦ e ])
    plan_servers-IsPlanned ((identity, slot) ∷ pairs) base known b =
        let k = known.0 in
        let server = server_at k.name k.server.host slot in
        let made : plan_server config m c shared identity slot ≡ ok server =
          rw (k.is) (plan_server-server_at k.name k.server slot k.configured k.small) in
        let later = plan_servers-IsPlanned pairs (insert k.name server base) known.1 (record {
          each =
              AllPairs-insert IsServer k.name server base
                (record {
                  host = k.server.host;
                  slot = slot;
                  small = k.small;
                  assigned = rw (← k.is) (k.assigned);
                  plan_is = refl;
                })
                b.each;
          sorted = insert-Ascending k.name server base b.sorted;
        }) in
        (
          later.0,
          ground (arith, made, later.1),
          later.2,
          λ name s.
              later.3 name (elim (Bool-cases (str_eq (identity_of config.project name) identity)) [
                | inl t ↦
                    let same = identity_inj name k.name ((eq_iff _ _).0 t ∙ k.is) in
                    inr (
                      ground
                        (arith, lookup-insert name k.name server base, eq_iff name k.name, same))
                | inr f ↦ elim s [
                  | inl e ↦ inl (ground (arith, f, e))
                  | inr e ↦ inr (ground (arith, lookup-insert name k.name server base, e))
                ]
              ]),
        )
