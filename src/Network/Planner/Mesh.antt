-- ===== src/Network/Planner/Mesh.antt =====
-- What a plan promises: crates/jiji-network/src/planner.rs, `plan`.
use jiji.Common.{
  ℕ, ◌+◌, ◌-◌, ◌^◌, ◌<◌, ◌≡◌, ◌≢◌, sym, ap, ◌∙◌, inl, inr, true, false, some, some_inj, List,
  String, eq_iff, ok, arith, Option-cases, is_some, map, In, In-map, In-keep,
}
use jiji.Common.Map.{Map, lookup, values, AllPairs-lookup, lookup-In, lookup-pair, Ascending}
use jiji.Network.Cidr.{overlaps, contains}
use jiji.Network.Cidr.Range.{contains_iff, network_end}
use jiji.Network.Cidr.Subnets.{block, subnet-IsCidr, blocks_disjoint}
use jiji.Network.Planner.{Config, NamedServer, ServerPlan, NetworkPlan, identity_of}
use jiji.Network.Planner.Plan.{shared_of, plan}
use jiji.Network.Planner.Servers.{IsServer, identity_inj}
use jiji.Network.Planner.Peers.{meshed, peer_of, others, mapped, lookup-map_values}
use jiji.Network.Planner.Run.{IsMade, made}

-- The servers of a plan have subnets and management addresses apart, all in their ranges, and know one
-- another.
pub record IsMesh (config : Config) (p : NetworkPlan) : Type 0 where
  pub covers :
      (name : String)
      → is_some (lookup name config.servers) ≡ true
      → is_some (lookup name p.servers) ≡ true
  pub apart :
      (a b : String) (s t : ServerPlan)
      → lookup a p.servers ≡ some s
      → lookup b p.servers ≡ some t
      → a ≢ b
      → (overlaps s.container_subnet t.container_subnet ≡ false)
        × (s.management_address ≢ t.management_address)
  pub inside :
      (a : String) (s : ServerPlan)
      → lookup a p.servers ≡ some s
      → (contains p.management_cidr s.management_address ≡ true)
        × (contains s.container_subnet s.bridge_gateway ≡ true)
        × (contains s.container_subnet s.dns_address ≡ true)
        × (contains s.container_subnet s.proxy_address ≡ true)
        × (overlaps p.management_cidr p.container_cidr ≡ false)
  pub peered :
      (a b : String) (s t : ServerPlan)
      → lookup a p.servers ≡ some s
      → lookup b p.servers ≡ some t
      → a ≢ b
      → In (peer_of t) s.peers

module _ (stable_hash : String → ℕ) (digest : List String → String) (config : Config)
    (sorted : Ascending config.servers) where
  module _ (p : NetworkPlan) (d : IsMade stable_hash digest config sorted p) where
    -- The server of a name, with its slot.
    record Place (name : String) (s : ServerPlan) : Type 0 where
      plain : ServerPlan
      at :
          IsServer config d.m d.c
            (shared_of stable_hash config.project)
            d.r.assigned.total
            d.r.ranged
            d.assignments
            name
            plain
      listed : In plain (values d.r.base)
      whole : meshed (values d.r.base) plain ≡ s

    place : (name : String) (s : ServerPlan) → lookup name p.servers ≡ some s → Place name s
    place name s h =
        let found : mapped (meshed (values d.r.base)) (lookup name d.r.base) ≡ some s =
          sym (lookup-map_values (meshed (values d.r.base)) name d.r.base)
          ∙ (ap (λ (m : Map ServerPlan). lookup name m) (sym d.servers_are) ∙ h) in
        elim (Option-cases (lookup name d.r.base)) [
          | inl n ↦ absurd (ground (arith, n, found))
          | inr plain ↦ record {
            plain = plain.0;
            at = AllPairs-lookup _ name d.r.base plain.0 d.r.planned.each plain.1;
            listed = lookup-In name d.r.base plain.0 plain.1;
            whole = some_inj _ _ (ground (arith, plain.1, found));
          }
        ]

    slots_apart :
        (a b : String) (s t : ServerPlan) (ps : Place a s) (pt : Place b t)
        → a ≢ b
        → ps.at.slot ≢ pt.at.slot
    slots_apart a b s t ps pt ne e = ne (
        identity_inj config d.m d.c (shared_of stable_hash config.project) d.r.assigned.total
          d.r.ranged a b
          (d.r.allocated.slots.apart _ _ ps.at.slot ps.at.assigned (rw e (pt.at.assigned))))

    subnet_is :
        (a : String) (s : ServerPlan) (ps : Place a s)
        → s.container_subnet ≡ block d.c 21 ps.at.slot
    subnet_is a s ps = ground (arith, ps.whole, ps.at.plan_is)

    address_is :
        (a : String) (s : ServerPlan) (ps : Place a s)
        → s.management_address ≡ d.m.network + (ps.at.slot + 1)
    address_is a s ps = ground (arith, ps.whole, ps.at.plan_is)

    slot_small : (a : String) (s : ServerPlan) (ps : Place a s) → ps.at.slot < 2 ^ (21 - d.c.prefix)
    slot_small a s ps = omega (arith, ps.at.small, d.r.ranged.slots)

    pair_apart :
        (a b : String) (s t : ServerPlan) (ps : Place a s) (pt : Place b t)
        → a ≢ b
        → (overlaps s.container_subnet t.container_subnet ≡ false)
          × (s.management_address ≢ t.management_address)
    pair_apart a b s t ps pt ne =
        let ranged = d.r.ranged in
        let differ = slots_apart a b s t ps pt ne in
        (
          rw (subnet_is a s ps, subnet_is b t pt)
              (blocks_disjoint d.c 21 ps.at.slot pt.at.slot ranged.container_range ranged.wide
                (omega arith) (slot_small a s ps) (slot_small b t pt) differ),
          λ same. differ (omega (arith, sym (address_is a s ps) ∙ (same ∙ address_is b t pt))),
        )

    in_block :
        (a : String) (s : ServerPlan) (ps : Place a s) (offset : ℕ)
        → offset < 2048
        → contains (block d.c 21 ps.at.slot) ((block d.c 21 ps.at.slot).network + offset) ≡ true
    in_block a s ps offset h =
        let v =
          subnet-IsCidr d.c 21 ps.at.slot d.r.ranged.container_range d.r.ranged.wide (omega arith)
            (slot_small a s ps) in
        (contains_iff (block d.c 21 ps.at.slot) _ v
            (omega (arith, network_end (block d.c 21 ps.at.slot) v))).1
          (omega arith)

    server_inside :
        (a : String) (s : ServerPlan) (ps : Place a s)
        → (contains p.management_cidr s.management_address ≡ true)
          × (contains s.container_subnet s.bridge_gateway ≡ true)
          × (contains s.container_subnet s.dns_address ≡ true)
          × (contains s.container_subnet s.proxy_address ≡ true)
          × (overlaps p.management_cidr p.container_cidr ≡ false)
    server_inside a s ps =
        let v = d.r.ranged.management_range in
        let room = d.r.ranged.room in
        let one = in_block a s ps 1 (omega arith) in
        let two = in_block a s ps 2 (omega arith) in
        let three = in_block a s ps 3 (omega arith) in
        (
          rw (d.ranges_are.0, address_is a s ps)
              ((contains_iff d.m _ v (omega (arith, ps.at.small, room, network_end d.m v))).1
                (omega (arith, ps.at.small, room))),
          ground (arith, ps.whole, ps.at.plan_is, one),
          ground (arith, ps.whole, ps.at.plan_is, two),
          ground (arith, ps.whole, ps.at.plan_is, three),
          rw (d.ranges_are.0, d.ranges_are.1) (d.r.assigned.apart),
        )

    knows_peer :
        (a b : String) (s t : ServerPlan) (ps : Place a s) (pt : Place b t)
        → a ≢ b
        → In (peer_of t) s.peers
    knows_peer a b s t ps pt ne =
        let other : In pt.plain (others ps.plain (values d.r.base)) =
          In-keep _ (values d.r.base) pt.plain pt.listed
            (ground (arith, ps.at.plan_is, pt.at.plan_is, eq_iff b a, ne)) in
        let peers : s.peers ≡ map peer_of (others ps.plain (values d.r.base)) =
          ground (arith, ps.whole, ps.at.plan_is) in
        let same : peer_of pt.plain ≡ peer_of t = ap peer_of pt.whole in
        rw (peers, ← same) (In-map peer_of pt.plain _ other)

    all_covered :
        (name : String)
        → is_some (lookup name config.servers) ≡ true
        → is_some (lookup name p.servers) ≡ true
    all_covered name h = elim (Option-cases (lookup name config.servers)) [
      | inl n ↦ absurd (ground (arith, n))
      | inr server ↦
          let listed =
            In-map (λ (q : String × NamedServer). identity_of config.project q.0) (name, server.0)
              config.servers (lookup-pair name config.servers server.0 server.1) in
          let placed = d.r.covered name (inl (d.r.allocated.covers _ listed)) in
          rw (d.servers_are, lookup-map_values (meshed (values d.r.base)) name d.r.base)
            (ground (arith, placed))
    ]

  -- In a plan every configured server has its part, the container subnets of two servers share no
  -- address, their management addresses differ, all lie in their ranges, which are apart, and every server
  -- is a peer of every other.
  pub plan-IsMesh : (p : NetworkPlan) → plan stable_hash digest config ≡ ok p → IsMesh config p
  plan-IsMesh p h =
      let d = made stable_hash digest config sorted p h in
      record {
        covers = all_covered p d;
        apart = λ a b s t hs ht ne. pair_apart p d a b s t (place p d a s hs) (place p d b t ht) ne;
        inside = λ a s hs. server_inside p d a s (place p d a s hs);
        peered =
            λ a b s t hs ht ne. knows_peer p d a b s t (place p d a s hs) (place p d b t ht) ne;
      }
